-- ===== src/Web/Agents/Tokens/Auth.antt =====
-- Who is let in, and what a rotation does to the old token.
use kitt.Prelude.{
  suc, String, Bool, true, false, Option, none, some, List, [], ◌∷◌, ◌≡◌, ◌≢◌, ◌↔◌, ◌⊎◌, inl, inr,
  refl, sym, ap, ◌∙◌, arith, if◌then◌else◌, ◌==◌, ◌&&◌, eq_iff, eq_refl, Bool-cases,
}
use kitt.Prelude.Exec.{Result, ok, raised, pure, gets, modify, ◌>>=◌}
use kitt.Web.Database.{Agent, Db, Outside, query, find_agent, update_agents, set_agents}
use kitt.Web.Agents.Tokens.{
  take_text, is_ascii, compare_digest, verdict, AuthResult, allowed, refused, is_open,
  token_matches, verify_row, verify_token, check_row, check_id, check_agent_auth, with_token,
  rotate_row, rotate_token,
}

find_agent-id :
    (agent_id : String) (rows : List Agent) (a : Agent)
    → find_agent agent_id rows ≡ some a
    → a.id ≡ agent_id
unfolding find_agent
find_agent-id agent_id [] a h = absurd (cc)
find_agent-id agent_id (b ∷ rows) a h = elim (Bool-cases (b.id == agent_id)) [
  | inl same ↦
      let e : some b ≡ some a = rw same at h in
      let e' : b ≡ a = cc in ap (λ (x : Agent). x.id) (sym e') ∙ (eq_iff b.id agent_id).0 same
  | inr other ↦ find_agent-id agent_id rows a (rw other at h)
]

pub find-update :
    (agent_id : String) (change : Agent → Agent) (rows : List Agent) (a : Agent)
    → ((b : Agent) → (change b).id ≡ b.id)
    → find_agent agent_id rows ≡ some a
    → find_agent agent_id (update_agents agent_id change rows) ≡ some (change a)
unfolding find_agent update_agents
find-update agent_id change [] a keeps h = absurd (cc)
find-update agent_id change (b ∷ rows) a keeps h = elim (Bool-cases (b.id == agent_id)) [
  | inl same ↦
      let e : some b ≡ some a = rw same at h in
      let e' : b ≡ a = cc in
      let same' : ((change b).id == agent_id) ≡ true = ap (λ i. i == agent_id) (keeps b) ∙ same in
      rw same (rw same' (ap (λ (x : Agent). some (change x)) e'))
  | inr other ↦ rw other (rw other (find-update agent_id change rows a keeps (rw other at h)))
]

-- Whether the agent is let in, where the check answers.
abbrev pub answered : Result AuthResult → Option Bool
answered (ok r) = some r.is_ok
answered (raised e) = none

pub answer : Bool → Bool → Result Bool → Result AuthResult
answer no_token empty matches =
    if no_token
    then ok allowed
    else if empty
    then ok (refused "Missing authorization" 401)
    else verdict matches

pub answer_iff :
    (o e : Bool) (m : Result Bool)
    → (answered (answer o e m) ≡ some true) ↔ ((o ≡ true) ⊎ ((e ≡ false) × (m ≡ ok true)))
unfolding answer verdict
answer_iff true e m = ((λ _. inl refl), (λ _. refl))
answer_iff false true m =
    ((λ h. absurd (cc)), (λ h. elim h [ inl x ↦ absurd (cc) | inr x ↦ absurd (cc (x.0)) ]))
answer_iff false false (ok true) = ((λ _. inr (refl, refl)), (λ _. refl))
answer_iff false false (ok false) =
    ((λ h. absurd (cc)), (λ h. elim h [ inl x ↦ absurd (cc) | inr x ↦ absurd (cc (x.1)) ]))
answer_iff false false (raised t) =
    ((λ h. absurd (cc)), (λ h. elim h [ inl x ↦ absurd (cc) | inr x ↦ absurd (cc (x.1)) ]))

abbrev is_raised : Result Bool → Bool
is_raised (ok b) = false
is_raised (raised e) = true

answer_raises :
    (o e : Bool) (m : Result Bool)
    → (answered (answer o e m) ≡ none) ↔ ((o ≡ false) × (e ≡ false) × (is_raised m ≡ true))
unfolding answer verdict
answer_raises true e m = ((λ h. absurd (cc)), (λ x. absurd (cc (x.0))))
answer_raises false true m = ((λ h. absurd (cc)), (λ x. absurd (cc (x.1))))
answer_raises false false (ok true) = ((λ h. absurd (cc)), (λ x. absurd (cc (x.2))))
answer_raises false false (ok false) = ((λ h. absurd (cc)), (λ x. absurd (cc (x.2))))
answer_raises false false (raised t) = ((λ h. (refl, refl, refl)), (λ x. refl))

answer-no_match : (e m : Bool) → m ≡ false → answered (answer false e (ok m)) ≡ some false
unfolding answer verdict
answer-no_match true m h = refl
answer-no_match false m h = rw h refl

-- No token is stored, or the token is not empty and is the stored one: by its hash where one is
-- stored, or else by itself, if it is ASCII.
abbrev pub IsLetIn : Outside → Agent → String → Type 0
IsLetIn lib a token =
    ((a.token_hash ≡ "") × (a.token ≡ ""))
    ⊎ ((token ≢ "")
        × (((a.token_hash ≢ "") × (lib.hash token ≡ a.token_hash))
            ⊎ ((a.token_hash ≡ "") × (token ≡ a.token) × (is_ascii token ≡ true))))

-- Only a legacy token is stored, a token is given, and one of the two is not ASCII.
abbrev pub IsUncomparable : Agent → String → Type 0
IsUncomparable a token =
    (a.token_hash ≡ "")
    × (a.token ≢ "")
    × (token ≢ "")
    × ((is_ascii token && is_ascii a.token) ≡ false)

same_texts : {x y : String} → (x == y) ≡ true → x ≡ y
same_texts {x} {y} h = (eq_iff x y).0 h

differ : {x y : String} → (x == y) ≡ false → x ≢ y
differ {x} {y} h e = absurd (let same = (eq_iff x y).1 e in cc (h, same))

not_same : {x y : String} → x ≢ y → (x == y) ≡ false
not_same {x} {y} h = elim (Bool-cases (x == y)) [
  | inl same ↦ absurd (h (same_texts same))
  | inr other ↦ other
]

module _ (lib : Outside) where
  pub check-answer :
      (agent_id token : String) (s : Db) (a : Agent)
      → find_agent agent_id s.agents ≡ some a
      → check_agent_auth lib agent_id token s
        ≡ answer (is_open a) (token == "") (token_matches lib a token)
  unfolding check_agent_auth check_id check_row verify_token verify_row answer token_matches is_open
  check-answer agent_id token s a h = rw h (rw (find_agent-id agent_id s.agents a h) (rw h refl))

  matches-IsLetIn :
      (a : Agent) (token : String)
      → (is_open a ≡ true) ⊎ (((token == "") ≡ false) × (token_matches lib a token ≡ ok true))
      → IsLetIn lib a token
  unfolding is_open token_matches compare_digest
  matches-IsLetIn a token (inl o) =
      inl (same_texts (ground (arith, o)), same_texts (ground (arith, o)))
  matches-IsLetIn a token (inr (given, m)) = elim (Bool-cases (a.token_hash == "")) [
    | inr hashed ↦
        let e : ok (lib.hash token == a.token_hash) ≡ ok true = rw hashed at m in
        inr (differ given, inl (differ hashed, same_texts (cc)))
    | inl legacy ↦ elim (Bool-cases (a.token == "")) [
      | inl nothing ↦ inl (same_texts legacy, same_texts nothing)
      | inr stored ↦ elim (Bool-cases (is_ascii token && is_ascii a.token)) [
        | inl plain ↦
            let e : ok (token == a.token) ≡ ok true = rw (legacy, stored, plain) at m in
            inr (differ given, inr (same_texts legacy, same_texts (cc), ground (arith, plain)))
        | inr strange ↦ absurd (let e = rw (legacy, stored, strange) at m in cc)
      ]
    ]
  ]

  IsLetIn-matches :
      (a : Agent) (token : String)
      → IsLetIn lib a token
      → (is_open a ≡ true) ⊎ (((token == "") ≡ false) × (token_matches lib a token ≡ ok true))
  unfolding is_open token_matches compare_digest
  IsLetIn-matches a token (inl (no_hash, nothing)) =
      let h = (eq_iff a.token_hash "").1 no_hash in
      let t = (eq_iff a.token "").1 nothing in inl (ground (arith, h, t))
  IsLetIn-matches a token (inr (given, inl (hashed, same))) =
      let e = (eq_iff (lib.hash token) a.token_hash).1 same in
      inr (not_same given, rw (not_same hashed, e) refl)
  IsLetIn-matches a token (inr (given, inr (legacy, same, plain))) =
      let h = (eq_iff a.token_hash "").1 legacy in
      let e = (eq_iff token a.token).1 same in
      let t : (a.token == "") ≡ false = ap (λ x. x == "") (sym same) ∙ not_same given in
      let plain' : is_ascii a.token ≡ true = ap is_ascii (sym same) ∙ plain in
      inr (not_same given, rw (h, t, plain, plain', e) refl)

  raises-IsUncomparable :
      (a : Agent) (token : String)
      → (is_open a ≡ false)
        × ((token == "") ≡ false)
        × (is_raised (token_matches lib a token) ≡ true)
      → IsUncomparable a token
  unfolding is_open token_matches compare_digest
  raises-IsUncomparable a token (o, given, r) = elim (Bool-cases (a.token_hash == "")) [
    | inr hashed ↦ absurd (let e : false ≡ true = rw hashed at r in cc)
    | inl legacy ↦ elim (Bool-cases (a.token == "")) [
      | inl nothing ↦ absurd (ground (arith, o, legacy, nothing))
      | inr stored ↦ elim (Bool-cases (is_ascii token && is_ascii a.token)) [
        | inl plain ↦ absurd (let e : false ≡ true = rw (legacy, stored, plain) at r in cc)
        | inr strange ↦ (same_texts legacy, differ stored, differ given, strange)
      ]
    ]
  ]

  IsUncomparable-raises :
      (a : Agent) (token : String)
      → IsUncomparable a token
      → (is_open a ≡ false)
        × ((token == "") ≡ false)
        × (is_raised (token_matches lib a token) ≡ true)
  unfolding is_open token_matches compare_digest
  IsUncomparable-raises a token (legacy, stored, given, strange) =
      let h = (eq_iff a.token_hash "").1 legacy in
      let t = not_same stored in (rw (h, t) refl, not_same given, rw (h, t, strange) refl)

  -- The check of a listed agent lets a token in exactly if the agent stores neither a hash nor a legacy
  -- token, or the token is not empty and its hash is the stored one, or, where no hash is stored, it is
  -- itself the legacy token and ASCII. It raises exactly if only a legacy token is stored and either
  -- that or the given token, which is not empty, is not ASCII.
  pub check_agent_auth_iff :
      (agent_id token : String) (s : Db) (a : Agent)
      → find_agent agent_id s.agents ≡ some a
      → ((answered (check_agent_auth lib agent_id token s) ≡ some true) ↔ IsLetIn lib a token)
        × ((answered (check_agent_auth lib agent_id token s) ≡ none) ↔ IsUncomparable a token)
  check_agent_auth_iff agent_id token s a h =
      let let_in = answer_iff (is_open a) (token == "") (token_matches lib a token) in
      let raises = answer_raises (is_open a) (token == "") (token_matches lib a token) in
      rw (check-answer agent_id token s a h) (
        (λ k. matches-IsLetIn a token (let_in.0 k), λ k. let_in.1 (IsLetIn-matches a token k)),
        (
          λ k. raises-IsUncomparable a token (raises.0 k),
          λ k. raises.1 (IsUncomparable-raises a token k),
        ),
      )

  -- The state after a rotation that found the agent.
  abbrev rotated : String → Db → Db
  rotated agent_id s = record s {
    agents = update_agents agent_id (with_token lib (lib.token_hex s.asked)) s.agents;
    asked = suc s.asked;
  }

  rotate_token-lem :
      (agent_id : String) (s : Db) (a : Agent)
      → find_agent agent_id s.agents ≡ some a
      → rotate_token lib agent_id s ≡ (
        ok (
            some (record {
              token = lib.token_hex s.asked;
              token_prefix = take_text 8 (lib.token_hex s.asked);
            })),
        rotated agent_id s,
      )
  unfolding rotate_token rotate_row query set_agents ◌>>=◌ gets modify pure
  rotate_token-lem agent_id s a h = rw h refl

  with_token-id : (raw : String) (b : Agent) → (with_token lib raw b).id ≡ b.id
  unfolding with_token
  with_token-id raw b = refl

  new_row :
      (raw token : String) (a : Agent)
      → (lib.hash raw == "") ≡ false
      → (is_open (with_token lib raw a) ≡ false)
        × (token_matches lib (with_token lib raw a) token ≡ ok (lib.hash token == lib.hash raw))
  unfolding with_token is_open token_matches
  new_row raw token a h = (rw h refl, rw h refl)

  -- For a listed agent, where the new token and its hash are not empty, the agent is let in with the
  -- new token after a rotation, and a token with another hash is refused.
  pub rotate_token-auth :
      (agent_id old : String) (s : Db) (a : Agent)
      → find_agent agent_id s.agents ≡ some a
      → ((lib.token_hex s.asked == "") ≡ false)
      → ((lib.hash (lib.token_hex s.asked) == "") ≡ false)
      → lib.hash old ≢ lib.hash (lib.token_hex s.asked)
      → (answered
            (check_agent_auth lib agent_id (lib.token_hex s.asked) (rotate_token lib agent_id s).1)
          ≡ some true)
        × (answered (check_agent_auth lib agent_id old (rotate_token lib agent_id s).1)
            ≡ some false)
  unfolding answer verdict
  rotate_token-auth agent_id old s a h nonempty hashed other =
      let raw = lib.token_hex s.asked in
      let found = find-update agent_id (with_token lib raw) s.agents a (with_token-id raw) h in
      let (shut, same) = new_row raw raw a hashed in
      let (_, differs) = new_row raw old a hashed in
      rw (rotate_token-lem agent_id s a h) (
        rw (check-answer agent_id raw (rotated agent_id s) (with_token lib raw a) found)
            (rw (shut, nonempty, same, eq_refl (lib.hash raw)) refl),
        rw (check-answer agent_id old (rotated agent_id s) (with_token lib raw a) found) (
            rw (shut, differs)
              (answer-no_match (old == "") (lib.hash old == lib.hash raw)
                (ground (arith, eq_iff (lib.hash old) (lib.hash raw), other)))),
      )
