-- ===== src/Web/QuickTests/Delivery.antt =====
-- The server between two heartbeats: requests, reports, the campaign executor and everything that
-- leaves the tests alone, in any order.
use mathlib.Core.List.{Memᴰ}
use kitt.Prelude.{
  String, true, false, Option, List, [], ◌∷◌, ◌≡◌, ◌≢◌, refl, sym, ap, ◌∙◌, subst, arith, any, inl,
  inr, ◌==◌, Bool-cases, eq_refl,
}
use kitt.Prelude.Exec.{ok, modify}
use kitt.Web.Database.{QuickTest, Db, Outside, insert_test, update_tests}
use kitt.Web.Agents.Commands.{queue_cleanup_command, queue_engine_command}
use kitt.Web.Agents.Heartbeat.{
  EngineReport, Command, command_of, mark_dispatched, dispatch, heartbeat, is_queued_for,
}
use kitt.Web.Agents.Heartbeat.Dispatch.{dispatch-commands}
use kitt.Web.QuickTests.{is_reported, report_row, LaunchBody, launch, update_status, post_log}
use kitt.Web.QuickTests.Lifecycle.{HasLeft, Keeps-report, waits, same_tests, Keeps-insert_test}
use kitt.Web.QuickTests.Lifecycle.Once.{
  Keeps-heartbeat, Keeps-queue_cleanup, Keeps-queue_engine, Keeps-launch, Keeps-update_status,
  Keeps-post_log,
}

-- One operation of the server, whether it answers or raises. `inserts` is a row that the campaign
-- executor queues, `simulates` a status that the simulator of a test agent writes, and `leaves_tests`
-- is any operation that does not write to quick_tests.
pub data Step (lib : Outside) (model_error : String → String → Option String)
    : Db → Db → Type 0 where
  launches :
      (b : Option LaunchBody) (s : Db) → Step lib model_error s (launch lib model_error b s).1
  beats :
      (agent_id status : String) (engines : List EngineReport) (s : Db)
      → Step lib model_error s (heartbeat lib agent_id status engines s).1
  cleans :
      (agent_id path : String) (s : Db)
      → Step lib model_error s (queue_cleanup_command lib agent_id path s).1
  manages :
      (agent_id engine command config path : String) (s : Db)
      → Step lib model_error s (queue_engine_command lib agent_id engine command config path s).1
  reports :
      (test_id : String) (status : Option String) (error : String) (s : Db)
      → Step lib model_error s (update_status lib test_id status error s).1
  logs :
      (test_id : String) (line : Option String) (s : Db)
      → Step lib model_error s (post_log lib test_id line s).1
  inserts : (t : QuickTest) (s : Db) → Step lib model_error s (insert_test t s).1
  simulates :
      (test_id status error now : String) (s : Db)
      → is_reported status ≡ true
      → Step lib model_error s (update_tests test_id (report_row status error now) s)
  leaves_tests : {s s' : Db} → s'.tests ≡ s.tests → Step lib model_error s s'

pub data Reach (lib : Outside) (model_error : String → String → Option String) (s : Db)
    : Db → Type 0 where
  here : Reach lib model_error s s
  next :
      {t u : Db} → Reach lib model_error s t → Step lib model_error t u → Reach lib model_error s u

module _ (test_id : String) (lib : Outside) (model_error : String → String → Option String) where
  Step-HasLeft : {s s' : Db} → Step lib model_error s s' → HasLeft test_id s → HasLeft test_id s'
  unfolding modify
  Step-HasLeft (Step.launches b s) h = (Keeps-launch test_id lib model_error b).keep s h
  Step-HasLeft (Step.beats agent_id status engines s) h =
      (Keeps-heartbeat test_id lib agent_id status engines).keep s h
  Step-HasLeft (Step.cleans agent_id path s) h =
      (Keeps-queue_cleanup test_id lib agent_id path).keep s h
  Step-HasLeft (Step.manages agent_id engine command config path s) h =
      (Keeps-queue_engine test_id lib agent_id engine command config path).keep s h
  Step-HasLeft (Step.reports i status error s) h =
      (Keeps-update_status test_id lib i status error).keep s h
  Step-HasLeft (Step.logs i line s) h = (Keeps-post_log test_id lib i line).keep s h
  Step-HasLeft (Step.inserts t s) h = (Keeps-insert_test test_id t).keep s h
  Step-HasLeft (Step.simulates i status error now s reported) h =
      (Keeps-report test_id i status error now reported).keep s h
  Step-HasLeft (Step.leaves_tests e) h = same_tests test_id _ _ e h

  Reach-HasLeft : {s s' : Db} → Reach lib model_error s s' → HasLeft test_id s → HasLeft test_id s'
  Reach-HasLeft Reach.here h = h
  Reach-HasLeft (Reach.next r step) h = Step-HasLeft step (Reach-HasLeft r h)

marked-not_waiting :
    (i : String) (tests : List QuickTest) → any (waits i) (mark_dispatched i tests) ≡ false
unfolding mark_dispatched
marked-not_waiting i [] = refl
marked-not_waiting i (t ∷ tests) = elim (Bool-cases (t.id == i)) [
  | inl same ↦ rw (same, same) (marked-not_waiting i tests)
  | inr other ↦ rw (other, other) (marked-not_waiting i tests)
]

marked-listed :
    (i j : String) (tests : List QuickTest)
    → any (λ (u : QuickTest). u.id == j) (mark_dispatched i tests)
      ≡ any (λ (u : QuickTest). u.id == j) tests
unfolding mark_dispatched
marked-listed i j [] = refl
marked-listed i j (t ∷ tests) = elim (Bool-cases (t.id == i)) [
  | inl same ↦ rw (same, marked-listed i j tests) refl
  | inr other ↦ rw (other, marked-listed i j tests) refl
]

listed-any :
    (t : QuickTest) (tests : List QuickTest)
    → Memᴰ t tests
    → any (λ (u : QuickTest). u.id == t.id) tests ≡ true
listed-any t [] m = elim m [ ]
listed-any t (u ∷ tests) (Memᴰ.head e) =
    rw (ap (λ (x : QuickTest). u.id == x.id) e ∙ eq_refl u.id) refl
listed-any t (u ∷ tests) (Memᴰ.tail m) = ground (arith, listed-any t tests m)

waiting-any :
    (t : QuickTest) (tests : List QuickTest)
    → Memᴰ t tests
    → (t.status == "queued") ≡ true
    → any (waits t.id) tests ≡ true
waiting-any t [] m q = elim m [ ]
waiting-any t (u ∷ tests) (Memᴰ.head e) q =
    rw
      (
        ap (λ (x : QuickTest). u.id == x.id) e ∙ eq_refl u.id,
        ap (λ (x : QuickTest). x.status == "queued") (sym e) ∙ q,
      )
      refl
waiting-any t (u ∷ tests) (Memᴰ.tail m) q = ground (arith, waiting-any t tests m q)

command-only :
    (lib : Outside) (t : QuickTest) (c : Command)
    → Memᴰ c (command_of lib t ∷ [])
    → c.test_id ≡ t.id
unfolding command_of
command-only lib t c (Memᴰ.head e) = ap (λ (x : Command). x.test_id) e
command-only lib t c (Memᴰ.tail m) = elim m [ ]

module _ (lib : Outside) (agent_id : String) (s : Db) (c : Command) (cs : List Command)
    (answer : (dispatch lib agent_id s).0 ≡ ok cs) (given : Memᴰ c cs) where
  handed_out :
      (t : QuickTest) × Memᴰ t s.tests
      × ((t.status == "queued") ≡ true)
      × (c.test_id ≡ t.id)
      × ((dispatch lib agent_id s).1.tests ≡ mark_dispatched t.id s.tests)
  unfolding is_queued_for
  handed_out = elim (dispatch-commands lib agent_id s cs answer) [
    | inl (none_queued, empty, same) ↦ elim (subst (Memᴰ c) empty given) [ ]
    | inr (t, m, queued, one, marked) ↦
        (t, m, ground arith, command-only lib t c (subst (Memᴰ c) one given), marked)
  ]

  -- What a dispatch hands out has left the queue.
  dispatch-HasLeft : HasLeft c.test_id (dispatch lib agent_id s).1
  dispatch-HasLeft =
      let (t, m, queued, same, marked) = handed_out in
      let left : HasLeft t.id (dispatch lib agent_id s).1 = record {
        listed =
            ap (any (λ (u : QuickTest). u.id == t.id)) marked
            ∙ (marked-listed t.id t.id s.tests ∙ listed-any t s.tests m);
        not_waiting = ap (any (waits t.id)) marked ∙ marked-not_waiting t.id s.tests;
      } in
      subst (λ i. HasLeft i (dispatch lib agent_id s).1) (sym same) left

  -- What has left the queue is not handed out.
  HasLeft-not_given : (test_id : String) → HasLeft test_id s → c.test_id ≢ test_id
  HasLeft-not_given test_id left same =
      let (t, m, queued, its_id, marked) = handed_out in
      let e : any (waits c.test_id) s.tests ≡ false =
        ap (λ i. any (waits i) s.tests) same ∙ left.not_waiting in
      let e' : any (waits t.id) s.tests ≡ false =
        ap (λ i. any (waits i) s.tests) (sym its_id) ∙ e in
      absurd (cc (e', waiting-any t s.tests m queued))

module _ (lib : Outside) (model_error : String → String → Option String) where
  -- A test that a dispatch handed to an agent is not handed out again: let the dispatch for an agent
  -- answer with commands `cs` in a state `s`, let any operations of the server follow, and let a
  -- dispatch for any agent then answer with `ds`; no command of `ds` is for a test of `cs`.
  pub dispatch-at_most_once :
      (agent_id other_id : String) (s u : Db) (c d : Command) (cs ds : List Command)
      → (dispatch lib agent_id s).0 ≡ ok cs
      → Memᴰ c cs
      → Reach lib model_error (dispatch lib agent_id s).1 u
      → (dispatch lib other_id u).0 ≡ ok ds
      → Memᴰ d ds
      → d.test_id ≢ c.test_id
  dispatch-at_most_once agent_id other_id s u c d cs ds first given between second given' =
      HasLeft-not_given lib other_id u d ds second given' c.test_id (
        Reach-HasLeft c.test_id lib model_error between
          (dispatch-HasLeft lib agent_id s c cs first given))
