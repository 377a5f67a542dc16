-- ===== src/Web/Agents/Heartbeat/Dispatch.antt =====
-- Which test a heartbeat dispatches, and that it is dispatched once.
use mathlib.Core.List.{Memᴰ}
use kitt.Prelude.{
  ℕ, ◌≤◌, ◌<◌, String, true, false, Option, none, some, List, [], ◌∷◌, ◌≡◌, refl, sym, ap, ◌∙◌,
  arith, All, count_if, ◌⊎◌, inl, inr, ◌==◌, Bool-cases, eq_refl,
}
use kitt.Prelude.Exec.{ok, pure, gets, modify, ◌>>=◌}
use kitt.Web.Database.{QuickTest, Db, Outside, publish}
use kitt.Web.Agents.Heartbeat.{
  is_queued_for, Command, older, oldest_queued, command_of, mark_dispatched, dispatch_row, dispatch,
}

module _ (lib : Outside) (agent_id : String) where
  older-cases :
      (o : Option QuickTest) (t : QuickTest) → (older lib o t ≡ t) ⊎ (o ≡ some (older lib o t))
  unfolding older
  older-cases none t = inl refl
  older-cases (some u) t = elim (Bool-cases (lib.text_before u.created_at t.created_at)) [
    | inl before ↦ inr (rw before refl)
    | inr after ↦ inl (rw after refl)
  ]

  pub oldest-listed :
      (tests : List QuickTest) (t : QuickTest)
      → oldest_queued lib agent_id tests ≡ some t
      → Memᴰ t tests × (is_queued_for agent_id t ≡ true)
  unfolding oldest_queued
  oldest-listed [] t h = absurd (cc)
  oldest-listed (u ∷ tests) t h = elim (Bool-cases (is_queued_for agent_id u)) [
    | inl queued ↦
        let e : some (older lib (oldest_queued lib agent_id tests) u) ≡ some t = rw queued at h in
        let e' : older lib (oldest_queued lib agent_id tests) u ≡ t = cc in
        elim (older-cases (oldest_queued lib agent_id tests) u) [
          | inl this ↦
              let same : u ≡ t = sym this ∙ e' in
              (Memᴰ.head (sym same), ap (is_queued_for agent_id) (sym same) ∙ queued)
          | inr later ↦ let (m, q) = oldest-listed tests t (later ∙ ap some e') in (Memᴰ.tail m, q)
        ]
    | inr not_queued ↦ let (m, q) = oldest-listed tests t (rw not_queued at h) in (Memᴰ.tail m, q)
  ]

  pub oldest-none :
      (tests : List QuickTest)
      → oldest_queued lib agent_id tests ≡ none
      → All (λ t. is_queued_for agent_id t ≡ false) tests
  unfolding oldest_queued
  oldest-none [] h = tt
  oldest-none (u ∷ tests) h = elim (Bool-cases (is_queued_for agent_id u)) [
    | inl queued ↦
        let e : some (older lib (oldest_queued lib agent_id tests) u) ≡ none = rw queued at h in
        absurd (cc)
    | inr not_queued ↦ (not_queued, oldest-none tests (rw not_queued at h))
  ]

  dispatch_row-lem :
      (row : Option QuickTest) (s : Db) (cs : List Command)
      → (dispatch_row lib row s).0 ≡ ok cs
      → ((row ≡ none) × (cs ≡ []) × ((dispatch_row lib row s).1.tests ≡ s.tests))
        ⊎ ((t : QuickTest) × (row ≡ some t)
            × (cs ≡ command_of lib t ∷ [])
            × ((dispatch_row lib row s).1.tests ≡ mark_dispatched t.id s.tests))
  unfolding dispatch_row ◌>>=◌ modify publish pure
  dispatch_row-lem none s cs h = inl (refl, (let e : ok [] ≡ ok cs = h in cc), refl)
  dispatch_row-lem (some t) s cs h =
      inr (t, refl, (let e : ok (command_of lib t ∷ []) ≡ ok cs = h in cc), refl)

  -- The command of a dispatch is that of a listed test that is queued for the agent, whose rows are
  -- marked; there is none exactly where no test is queued for the agent.
  pub dispatch-commands :
      (s : Db) (cs : List Command)
      → (dispatch lib agent_id s).0 ≡ ok cs
      → (All (λ t. is_queued_for agent_id t ≡ false) s.tests
          × (cs ≡ [])
          × ((dispatch lib agent_id s).1.tests ≡ s.tests))
        ⊎ ((t : QuickTest) × Memᴰ t s.tests
            × (is_queued_for agent_id t ≡ true)
            × (cs ≡ command_of lib t ∷ [])
            × ((dispatch lib agent_id s).1.tests ≡ mark_dispatched t.id s.tests))
  unfolding dispatch ◌>>=◌ gets
  dispatch-commands s cs h = elim (dispatch_row-lem (oldest_queued lib agent_id s.tests) s cs h) [
    | inl (no_row, empty, same) ↦ inl (oldest-none s.tests no_row, empty, same)
    | inr (t, row, one, marked) ↦
        let (m, q) = oldest-listed s.tests t row in inr (t, m, q, one, marked)
  ]

module _ (agent_id : String) where
  abbrev queued_count : List QuickTest → ℕ
  queued_count tests = count_if (is_queued_for agent_id) tests

  marked-not_queued :
      (t : QuickTest) → is_queued_for agent_id (record t { status = "dispatched" }) ≡ false
  unfolding is_queued_for
  marked-not_queued t = elim (Bool-cases (t.agent_id == agent_id)) [
    | inl yes_same ↦ rw yes_same refl
    | inr other ↦ rw other refl
  ]

  mark-at_most :
      (test_id : String) (tests : List QuickTest)
      → queued_count (mark_dispatched test_id tests) ≤ queued_count tests
  unfolding mark_dispatched
  mark-at_most test_id [] = omega arith
  mark-at_most test_id (t ∷ tests) = ground (arith, mark-at_most test_id tests, marked-not_queued t)

  -- Marking a listed test that is queued for the agent leaves fewer tests queued for the agent.
  mark_dispatched-fewer :
      (t : QuickTest) (tests : List QuickTest)
      → Memᴰ t tests
      → is_queued_for agent_id t ≡ true
      → count_if (is_queued_for agent_id) (mark_dispatched t.id tests)
        < count_if (is_queued_for agent_id) tests
  unfolding mark_dispatched
  mark_dispatched-fewer t [] m q = elim m [ ]
  mark_dispatched-fewer t (u ∷ tests) (Memᴰ.head e) q =
      let same_id : (u.id == t.id) ≡ true = ap (λ (x : QuickTest). u.id == x.id) e ∙ eq_refl u.id in
      let queued : is_queued_for agent_id u ≡ true = ap (is_queued_for agent_id) (sym e) ∙ q in
      rw (same_id, marked-not_queued u, queued) (omega (arith, mark-at_most t.id tests))
  mark_dispatched-fewer t (u ∷ tests) (Memᴰ.tail m) q =
      ground (arith, mark_dispatched-fewer t tests m q, marked-not_queued u)
