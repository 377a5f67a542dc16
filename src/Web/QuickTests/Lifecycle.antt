-- ===== src/Web/QuickTests/Lifecycle.antt =====
-- A test that left the queue: the steps of the server that leave it so.
pub mod Once
use mathlib.Core.List.{Memᴰ}
use kitt.Prelude.{
  ℕ, String, Bool, true, false, not, Option, none, some, List, [], ◌∷◌, ◌++◌, ◌≡◌, refl, sym, ap,
  ◌∙◌, subst, arith, any, any-append, map, All, ◌⊎◌, inl, inr, if◌then◌else◌, ◌||◌, ◌&&◌, ◌==◌,
  Bool-cases, eq_iff, eq_refl,
}
use kitt.Prelude.Exec.{Exec, Result, ok, raised, pure, gets, modify, ◌>>=◌, ◌>>◌}
use kitt.Prelude.Exec.Keeps.{Keeps, keeps_rules}
use kitt.Web.Database.{
  Agent, QuickTest, AgentEngine, Event, Db, Outside, query, publish, set_agents, require_agent,
  has_agent, has_test_row, insert_test, update_tests,
}
use kitt.Web.Agents.Commands.{queue_cleanup_command, queue_engine_command}
use kitt.Web.Agents.Heartbeat.{mark_dispatched, store_engine}
use kitt.Web.Agents.Heartbeat.Dispatch.{dispatch-commands}
use kitt.Web.QuickTests.{
  LaunchBody, launch, enqueue, for_agent, required, unless_wrong, is_reported, report_row,
  update_status, report_status, store_line, post_log,
}

-- A row of the test that waits in the queue.
abbrev pub waits : String → QuickTest → Bool
waits test_id t = (t.id == test_id) && (t.status == "queued")

-- The test is listed, and no row of it waits in the queue.
pub record HasLeft (test_id : String) (s : Db) : Type 0 where
  pub listed : has_test_row test_id s ≡ true
  pub not_waiting : any (waits test_id) s.tests ≡ false

module _ (test_id : String) where
  -- Any change of the database that leaves the tests alone.
  pub same_tests : (s s' : Db) → s'.tests ≡ s.tests → HasLeft test_id s → HasLeft test_id s'
  same_tests s s' e h = record {
    listed = ap (any (λ (u : QuickTest). u.id == test_id)) e ∙ h.listed;
    not_waiting = ap (any (waits test_id)) e ∙ h.not_waiting;
  }

  pub Keeps-query : {A : Type 0} (question : ℕ → A) → Keeps (HasLeft test_id) (query question)
  unfolding query
  Keeps-query question = record { keep = λ s h. same_tests s _ refl h }

  pub Keeps-publish : (e : Event) → Keeps (HasLeft test_id) (publish e)
  unfolding publish
  Keeps-publish e = record { keep = λ s h. same_tests s _ refl h }

  pub Keeps-set_agents :
      (f : List Agent → List Agent) → Keeps (HasLeft test_id) (modify (set_agents f))
  unfolding set_agents modify
  Keeps-set_agents f = record { keep = λ s h. same_tests s _ refl h }

  pub Keeps-require_agent : (agent_id : String) → Keeps (HasLeft test_id) (require_agent agent_id)
  unfolding require_agent
  Keeps-require_agent agent_id = record {
    keep = λ s h. elim (Bool-cases (has_agent agent_id s)) [
      | inl here ↦ rw here h
      | inr absent ↦ rw absent h
    ];
  }

  any-insert :
      (t : QuickTest) (rows : List QuickTest)
      → any (λ (u : QuickTest). u.id == t.id) rows ≡ false
      → any (λ (u : QuickTest). u.id == test_id) rows ≡ true
      → any (waits test_id) rows ≡ false
      → (any (λ (u : QuickTest). u.id == test_id) (rows ++ t ∷ []) ≡ true)
        × (any (waits test_id) (rows ++ t ∷ []) ≡ false)
  any-insert t rows fresh here none_waits = elim (Bool-cases (t.id == test_id)) [
    | inl same ↦
        let e : t.id ≡ test_id = (eq_iff t.id test_id).0 same in
        let fresh' = subst (λ i. any (λ (u : QuickTest). u.id == i) rows ≡ false) e fresh in
        absurd (cc (fresh', here))
    | inr other ↦ (rw (any-append, here) refl, rw (any-append, none_waits, other) refl)
  ]

  pub Keeps-insert_test : (t : QuickTest) → Keeps (HasLeft test_id) (insert_test t)
  unfolding insert_test
  Keeps-insert_test t = record {
    keep = λ s h. elim (Bool-cases (has_test_row t.id s)) [
      | inl taken ↦ rw taken h
      | inr fresh ↦ elim (Bool-cases (has_agent t.agent_id s)) [
        | inl here ↦
            let (listed, none_waits) = any-insert t s.tests fresh h.listed h.not_waiting in
            rw (fresh, here) (record { listed = listed; not_waiting = none_waits })
        | inr absent ↦ rw (fresh, absent) h
      ]
    ];
  }

  -- An update of rows that keeps their ids and queues none.
  module _ (change : QuickTest → QuickTest) (same_id : (t : QuickTest) → (change t).id ≡ t.id)
      (not_queued : (t : QuickTest) → ((change t).status == "queued") ≡ false) where
    abbrev updated : String → List QuickTest → List QuickTest
    updated i rows = map (λ (t : QuickTest). if t.id == i then change t else t) rows

    any-updated_id :
        (i : String) (rows : List QuickTest)
        → any (λ (u : QuickTest). u.id == test_id) (updated i rows)
          ≡ any (λ (u : QuickTest). u.id == test_id) rows
    any-updated_id i [] = refl
    any-updated_id i (t ∷ rows) = ground (arith, same_id t, any-updated_id i rows)

    any-updated-waits :
        (i : String) (rows : List QuickTest)
        → any (waits test_id) rows ≡ false
        → any (waits test_id) (updated i rows) ≡ false
    any-updated-waits i [] h = refl
    any-updated-waits i (t ∷ rows) h =
        ground (arith, same_id t, not_queued t, any-updated-waits i rows)

  pub Keeps-mark_dispatched :
      (i : String)
      → Keeps (HasLeft test_id) (modify (λ s. record s { tests = mark_dispatched i s.tests }))
  unfolding mark_dispatched modify
  Keeps-mark_dispatched i = record {
    keep = λ s h. record {
      listed =
          any-updated_id (λ t. record t { status = "dispatched" }) (λ t. refl) (λ t. refl) i s.tests
          ∙ h.listed;
      not_waiting =
          any-updated-waits (λ t. record t { status = "dispatched" }) (λ t. refl) (λ t. refl) i
            s.tests h.not_waiting;
    };
  }

  reported-ne_queued : (status : String) → is_reported status ≡ true → (status == "queued") ≡ false
  unfolding is_reported
  reported-ne_queued status h = elim (Bool-cases (status == "queued")) [
    | inl same ↦
        let e : status ≡ "queued" = (eq_iff status "queued").0 same in
        absurd (let bad : is_reported "queued" ≡ true = subst (λ s. is_reported s ≡ true) e h in cc)
    | inr other ↦ other
  ]

  report_row-status :
      (status error now : String) (t : QuickTest) → (report_row status error now t).status ≡ status
  unfolding report_row
  report_row-status status error now t = ground arith

  reported-not_queued :
      (status error now : String) (t : QuickTest)
      → is_reported status ≡ true
      → ((report_row status error now t).status == "queued") ≡ false
  reported-not_queued status error now t h =
      rw (report_row-status status error now t) (reported-ne_queued status h)

  report_row-id :
      (status error now : String) (t : QuickTest) → (report_row status error now t).id ≡ t.id
  unfolding report_row
  report_row-id status error now t = ground arith

  pub Keeps-report :
      (i status error now : String)
      → is_reported status ≡ true
      → Keeps (HasLeft test_id) (modify (update_tests i (report_row status error now)))
  unfolding update_tests modify
  Keeps-report i status error now reported = record {
    keep = λ s h.
        let change = report_row status error now in
        let id_kept = report_row-id status error now in
        let unqueued = λ (t : QuickTest). reported-not_queued status error now t reported in
        record {
          listed = any-updated_id change id_kept unqueued i s.tests ∙ h.listed;
          not_waiting = any-updated-waits change id_kept unqueued i s.tests h.not_waiting;
        };
  }

  pub Keeps-store_line :
      (i : String) (line : String)
      → Keeps
          (HasLeft test_id)
          (modify (λ s. record s { test_logs = s.test_logs ++ (i, line) ∷ [] }))
  unfolding modify
  Keeps-store_line i line = record { keep = λ s h. same_tests s _ refl h }

  pub Keeps-store_engine : (e : AgentEngine) → Keeps (HasLeft test_id) (modify (store_engine e))
  unfolding store_engine modify
  Keeps-store_engine e = record { keep = λ s h. same_tests s _ refl h }

  pub ruleset lifecycle_rules = (
    keeps_rules, Keeps-query, Keeps-publish, Keeps-set_agents, Keeps-require_agent,
    Keeps-insert_test, Keeps-mark_dispatched, Keeps-store_line,
  )
