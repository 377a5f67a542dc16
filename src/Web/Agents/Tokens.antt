-- ===== src/Web/Agents/Tokens.antt =====
-- The tokens of agents: verify_token, check_agent_auth, check_agent_auth_by_name, rotate_token.
pub mod Auth
use kitt.Prelude.{
  ℕ, suc, String, Bool, true, false, not, Option, none, some, List, [], ◌∷◌, ◌||◌, ◌&&◌,
  if◌then◌else◌, ◌==◌, any, leb,
}
use kitt.Prelude.Text.{codes}
use kitt.Prelude.Exec.{Exec, Result, ok, raised, pure, gets, modify, ◌>>=◌, ◌>>◌}
use kitt.Web.Database.{
  Agent, Db, Outside, query, find_agent, find_by_name, update_agents, set_agents,
}

-- text[:n]
unfoldable pub take_text : ℕ → String → String
take_text Prim.Native.Nat.zero s = ""
take_text (suc n) String.[] = ""
take_text (suc n) (String.◌∷◌ c s) = String.◌∷◌ c (take_text n s)

-- A raw token is given once; the table keeps its hash and its first 8 characters.
pub record RawToken : Type 0 where
  pub token : String
  pub token_prefix : String

pub record AuthResult : Type 0 where
  pub is_ok : Bool
  pub error : Option String
  pub http_status : ℕ

abbrev pub allowed : AuthResult
allowed = record { is_ok = true; error = none; http_status = 0 }

abbrev pub refused : String → ℕ → AuthResult
refused error code = record { is_ok = false; error = some error; http_status = code }

-- Neither a hash nor a legacy token is stored.
unfoldable pub is_open : Agent → Bool
is_open a = (a.token_hash == "") && (a.token == "")

unfoldable pub is_ascii : String → Bool
is_ascii text = not (any (λ c. leb 128 c) (codes text))

-- hmac.compare_digest, which takes only ASCII texts
unfoldable pub compare_digest : String → String → Result Bool
compare_digest x y =
    if is_ascii x && is_ascii y
    then ok (x == y)
    else raised "comparing strings with non-ASCII characters is not supported"

unfoldable pub verdict : Result Bool → Result AuthResult
verdict (ok true) = ok allowed
verdict (ok false) = ok (refused "Invalid token for this agent" 403)
verdict (raised e) = raised e

module _ (lib : Outside) where
  -- The comparison of `verify_token`. Hashes are hexadecimal digits, which compare_digest takes.
  unfoldable pub token_matches : Agent → String → Result Bool
  unfolding compare_digest
  token_matches a token =
      if is_open a
      then ok true
      else if a.token_hash == ""
      then compare_digest token a.token
      else ok (lib.hash token == a.token_hash)

  verify_row : Option Agent → String → Result Bool
  verify_row none token = ok false
  verify_row (some a) token = token_matches a token

  unfoldable pub verify_token : String → String → Db → Result Bool
  unfolding verify_row
  verify_token agent_id token s = verify_row (find_agent agent_id s.agents) token

  -- The part that both checks share: what follows once the row is found.
  check_row : Agent → String → Db → Result AuthResult
  check_row a token s =
      if is_open a
      then ok allowed
      else if token == ""
      then ok (refused "Missing authorization" 401)
      else verdict (verify_token a.id token s)

  check_id : Option Agent → String → Db → Result AuthResult
  unfolding check_row
  check_id none token s = ok (refused "Agent not found" 404)
  check_id (some a) token s = check_row a token s

  unfoldable pub check_agent_auth : String → String → Db → Result AuthResult
  unfolding check_id
  check_agent_auth agent_id token s = check_id (find_agent agent_id s.agents) token s

  check_name : Option Agent → String → Db → Result AuthResult
  unfolding check_row
  check_name none token s = ok allowed
  check_name (some a) token s = check_row a token s

  unfoldable pub check_agent_auth_by_name : String → String → Db → Result AuthResult
  unfolding check_name
  check_agent_auth_by_name name token s = check_name (find_by_name name s.agents) token s

  unfoldable pub with_token : String → Agent → Agent
  with_token raw_token a = record a {
    token_hash = lib.hash raw_token;
    token_prefix = take_text 8 raw_token;
    token = "";
  }

  rotate_row : String → Option Agent → Exec Db (Option RawToken)
  rotate_row agent_id none = pure none
  rotate_row agent_id (some a) = do
    raw_token ← query lib.token_hex
    modify (set_agents (update_agents agent_id (with_token raw_token)))
    pure (some (record { token = raw_token; token_prefix = take_text 8 raw_token }))

  pub rotate_token : String → Exec Db (Option RawToken)
  unfolding rotate_row
  rotate_token agent_id = do row ← gets (λ s. find_agent agent_id s.agents); rotate_row agent_id row
