-- ===== src/Web/Agents/Registration/Provision.antt =====
-- What an agent that is provisioned can do with its token.
use kitt.Prelude.{
  ℕ, suc, String, true, false, Option, none, some, List, [], ◌∷◌, ◌++◌, ◌≡◌, refl, sym, ap, ◌∙◌,
  subst, arith, any, ◌||◌, ◌==◌, eq_refl, Bool-cases, inl, inr,
}
use kitt.Prelude.Exec.{Result, ok, pure, gets, modify, ◌>>=◌}
use kitt.Prelude.Exec.Rules.{bind_inv}
use kitt.Web.Database.{
  Agent, Db, Outside, query, find_agent, find_by_name, has_agent, set_agents, require_agent,
  insert_agent,
}
use kitt.Web.Agents.Tokens.{take_text, is_open, token_matches, check_agent_auth}
use kitt.Web.Agents.Tokens.Auth.{answered, find-update, answer_iff, check-answer}
use kitt.Web.Agents.Registration.{
  ensure_default_settings, Provisioned, with_new_token, new_agent, provision_row, provision,
}

-- An agent that is found by its name is found by its id.
find_agent-find_by_name :
    (name : String) (rows : List Agent) (a : Agent)
    → find_by_name name rows ≡ some a
    → (b : Agent) × (find_agent a.id rows ≡ some b)
unfolding find_by_name find_agent
find_agent-find_by_name name [] a h = absurd (cc)
find_agent-find_by_name name (b ∷ rows) a h = elim (Bool-cases (b.id == a.id)) [
  | inl here ↦ (b, rw here refl)
  | inr other ↦ elim (Bool-cases (b.name == name)) [
    | inl named ↦
        let e : some b ≡ some a = rw named at h in
        let e' : b ≡ a = cc in
        let same : (b.id == a.id) ≡ true =
          ap (λ (x : Agent). b.id == x.id) (sym e') ∙ eq_refl b.id in
        absurd (cc (same, other))
    | inr unnamed ↦
        let (c, found) = find_agent-find_by_name name rows a (rw unnamed at h) in
        (c, rw other found)
  ]
]

find_agent-append :
    (agent_id : String) (rows : List Agent) (a : Agent)
    → any (λ (b : Agent). (b.id == a.id) || (b.name == a.name)) rows ≡ false
    → find_agent a.id (rows ++ a ∷ []) ≡ some a
unfolding find_agent
find_agent-append agent_id [] a h = rw (eq_refl a.id) refl
find_agent-append agent_id (b ∷ rows) a h =
    let other : (b.id == a.id) ≡ false = ground arith in
    rw other (find_agent-append agent_id rows a (ground arith))

module _ (lib : Outside) (raw : String) where
  -- The row of the agent has the hash of the token.
  record Holds (agent_id : String) (s : Db) : Type 0 where
    row : Agent
    found : find_agent agent_id s.agents ≡ some row
    hashed : row.token_hash ≡ lib.hash raw

  provision_row-Holds :
      (name now : String) (port : ℕ) (row : Option Agent) (s : Db) (agent_id : String)
      → find_by_name name s.agents ≡ row
      → (provision_row lib name raw port now row s).0 ≡ ok agent_id
      → Holds agent_id (provision_row lib name raw port now row s).1
  unfolding provision_row set_agents insert_agent query ◌>>=◌ modify pure with_new_token
  provision_row-Holds name now port (some a) s agent_id h e =
      let e' : ok a.id ≡ ok agent_id = e in
      let same : a.id ≡ agent_id = cc in
      let (b, found) = find_agent-find_by_name name s.agents a h in
      subst (λ i. Holds i (provision_row lib name raw port now (some a) s).1) same
        (record {
          row = with_new_token lib raw port b;
          found = find-update a.id (with_new_token lib raw port) s.agents b (λ x. refl) found;
          hashed = refl;
        })
  provision_row-Holds name now port none s agent_id h e =
      let a = new_agent lib (lib.uuid_hex s.asked) name raw port now in
      elim (Bool-cases (any (λ (b : Agent). (b.id == a.id) || (b.name == a.name)) s.agents)) [
        | inl taken ↦ absurd (let e' = rw taken at e in cc)
        | inr free ↦
            let e' : ok a.id ≡ ok agent_id = rw free at e in
            let same : a.id ≡ agent_id = cc in
            rw free (record {
              row = a;
              found =
                  subst (λ i. find_agent i (s.agents ++ a ∷ []) ≡ some a) same
                    (find_agent-append a.id s.agents a free);
              hashed = refl;
            })
      ]

  Holds-is_ok :
      (agent_id : String) (s : Db)
      → Holds agent_id s
      → (lib.hash raw == "") ≡ false
      → (raw == "") ≡ false
      → answered (check_agent_auth lib agent_id raw s) ≡ some true
  unfolding is_open token_matches
  Holds-is_ok agent_id s h hashed nonempty = rw (check-answer lib agent_id raw s h.row h.found) (
      (answer_iff (is_open h.row) (raw == "") (token_matches lib h.row raw)).1
        (inr (nonempty, rw (h.hashed, hashed) (ap ok (eq_refl (lib.hash raw))))))

ensure-agents :
    (agent_id : String) (s : Db) → (ensure_default_settings agent_id s).1.agents ≡ s.agents
unfolding ensure_default_settings require_agent ◌>>=◌ modify
ensure-agents agent_id s = elim (Bool-cases (has_agent agent_id s)) [
  | inl here ↦ rw here refl
  | inr absent ↦ rw absent refl
]

module _ (lib : Outside) where
  Holds-agents :
      (raw agent_id : String) (s s' : Db)
      → s'.agents ≡ s.agents
      → Holds lib raw agent_id s
      → Holds lib raw agent_id s'
  Holds-agents raw agent_id s s' same h = record {
    row = h.row;
    found = ap (find_agent agent_id) same ∙ h.found;
    hashed = h.hashed;
  }

  -- Where provisioning returns and neither the new token nor its hash is empty, it gives the new token
  -- for an agent that is let in with it, whether the name was known or not.
  pub provision-auth :
      (name : String) (port : ℕ) (s : Db) (p : Provisioned)
      → (provision lib name port s).0 ≡ ok p
      → (lib.hash (lib.token_hex s.asked) == "") ≡ false
      → (lib.token_hex s.asked == "") ≡ false
      → (p.token ≡ lib.token_hex s.asked)
        × (answered (check_agent_auth lib p.agent_id p.token (provision lib name port s).1)
            ≡ some true)
  unfolding provision query gets ◌>>=◌ pure
  provision-auth name port s p e hashed nonempty =
      let raw = lib.token_hex s.asked in
      let now = lib.now (suc s.asked) in
      let s₁ = record s { asked = suc (suc s.asked) } in
      let row = find_by_name name s.agents in
      let m = provision_row lib name raw port now row in
      let give : String → Provisioned =
        λ i. record { agent_id = i; token = raw; token_prefix = take_text 8 raw } in
      let (i, written, p₁) =
        bind_inv m
          (λ (i : String).
            ensure_default_settings i >>= λ _. pure {S = Db} {A = Provisioned} (give i))
          s₁ p e in
      let s₂ = (m s₁).1 in
      let (u, ensured, p₂) =
        bind_inv (ensure_default_settings i) (λ _. pure {S = Db} {A = Provisioned} (give i)) s₂ p
          (rw p₁ at e) in
      let s₃ = (ensure_default_settings i s₂).1 in
      let whole : provision lib name port s ≡ (ok (give i), s₃) = p₁ ∙ p₂ in
      let given : ok (give i) ≡ ok p = ap (λ (x : Result Provisioned × Db). x.0) (sym whole) ∙ e in
      let same : give i ≡ p = cc in
      let holds =
        Holds-agents raw i s₂ s₃ (ensure-agents i s₂)
          (provision_row-Holds lib raw name now port row s₁ i refl written) in
      let is_in = Holds-is_ok lib raw i s₃ holds hashed nonempty in
      (
        ap (λ (x : Provisioned). x.token) (sym same),
        subst
            (λ (x : Provisioned).
              answered (check_agent_auth lib x.agent_id x.token (provision lib name port s).1)
              ≡ some true)
            same
            (ap (λ (x : Result Provisioned × Db). answered (check_agent_auth lib i raw x.1)) whole
              ∙ is_in),
      )
