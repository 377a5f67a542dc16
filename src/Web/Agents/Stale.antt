-- ===== src/Web/Agents/Stale.antt =====
-- is_test_agent, the stale check, and what listings show of an agent.
pub mod Offline
use kitt.Prelude.{
  ℕ, suc, String, Bool, true, false, not, Option, none, some, List, [], ◌∷◌, any, map, ltb, ◌*◌,
  ◌||◌, ◌&&◌, if◌then◌else◌, ◌==◌,
}
use kitt.Prelude.Exec.{Exec, Result, ok, pure, gets, modify, ◌>>=◌, ◌>>◌}
use kitt.Web.Database.{
  Hardware, Agent, Db, Outside, query, find_agent, find_by_name, update_agents, set_agents,
}

-- HEARTBEAT_TIMEOUT_S, in microseconds
abbrev pub heartbeat_timeout_us : ℕ
heartbeat_timeout_us = 90 * 1000000

has_test : Option (List String) → Bool
has_test none = false
has_test (some tags) = any (λ t. t == "test") tags

module _ (lib : Outside) where
  unfoldable pub is_test_row : Agent → Bool
  unfolding has_test
  is_test_row a = has_test (lib.loads_tags (if a.tags == "" then "[]" else a.tags))

  is_test_found : Option Agent → Bool
  is_test_found none = false
  is_test_found (some a) = is_test_row a

  unfoldable pub is_test_agent : String → Db → Bool
  unfolding is_test_found
  is_test_agent agent_id s = is_test_found (find_agent agent_id s.agents)

  is_old : Option ℕ → Bool
  is_old none = false
  is_old (some age) = ltb heartbeat_timeout_us age

  -- Whether the loop marks the row, at the time of the question `n`.
  unfoldable pub is_stale : ℕ → Agent → Bool
  unfolding is_old
  is_stale n a =
      not (a.status == "offline")
      && (not (is_test_row a)
          && (not (a.last_heartbeat == "") && is_old (lib.age_us n a.last_heartbeat)))

  unfoldable pub offline : Agent → Agent
  offline a = record a { status = "offline" }

  -- The loop over the rows that were read before it.
  mark_stale : ℕ → List Agent → List Agent → List Agent
  mark_stale n [] agents = agents
  mark_stale n (a ∷ rows) agents =
      mark_stale n rows (if is_stale n a then update_agents a.id offline agents else agents)

  pub check_stale_agents : Exec Db (Unit {0})
  unfolding mark_stale
  check_stale_agents s =
      (ok tt, record s { agents = mark_stale s.asked s.agents s.agents; asked = suc s.asked })

  -- update_agent: `notes` and `tags`, where they are given.
  set_fields : Option String → Option String → Agent → Agent
  set_fields none none a = a
  set_fields (some notes) none a = record a { notes = notes }
  set_fields none (some tags) a = record a { tags = tags }
  set_fields (some notes) (some tags) a = record a { notes = notes; tags = tags }

  changes_any : Option String → Option String → Bool
  changes_any none none = false
  changes_any _ _ = true

  pub update_agent : String → Option String → Option String → Exec Db Bool
  unfolding set_fields changes_any
  update_agent agent_id notes tags = do
    modify (set_agents (update_agents agent_id (set_fields notes tags)))
    pure (changes_any notes tags)

-- _sanitize: a row without `token` and `token_hash`.
pub record AgentView : Type 0 where
  pub id : String
  pub name : String
  pub hostname : String
  pub port : ℕ
  pub token_prefix : String
  pub status : String
  pub hardware : Hardware
  pub last_heartbeat : String
  pub registered_at : String
  pub notes : String
  pub tags : String

unfoldable pub sanitize : Agent → AgentView
sanitize a = record {
  id = a.id;
  name = a.name;
  hostname = a.hostname;
  port = a.port;
  token_prefix = a.token_prefix;
  status = a.status;
  hardware = a.hardware;
  last_heartbeat = a.last_heartbeat;
  registered_at = a.registered_at;
  notes = a.notes;
  tags = a.tags;
}

sanitize_row : Option Agent → Option AgentView
sanitize_row none = none
sanitize_row (some a) = some (sanitize a)

unfoldable pub get_agent : String → Db → Option AgentView
unfolding sanitize_row
get_agent agent_id s = sanitize_row (find_agent agent_id s.agents)

unfoldable pub get_agent_by_name : String → Db → Option AgentView
unfolding sanitize_row
get_agent_by_name name s = sanitize_row (find_by_name name s.agents)

module _ (lib : Outside) where
  -- ORDER BY name
  insert_by_name : Agent → List Agent → List Agent
  insert_by_name a [] = a ∷ []
  insert_by_name a (b ∷ rows) =
      let later = insert_by_name a rows in
      if lib.text_before b.name a.name then b ∷ later else a ∷ b ∷ rows

  by_name : List Agent → List Agent
  unfolding insert_by_name
  by_name [] = []
  by_name (a ∷ rows) = insert_by_name a (by_name rows)

  unfoldable pub list_agents : Exec Db (List AgentView)
  unfolding by_name
  list_agents = do check_stale_agents lib; gets (λ s. map sanitize (by_name s.agents))
