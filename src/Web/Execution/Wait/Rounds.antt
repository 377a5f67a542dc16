-- ===== src/Web/Execution/Wait/Rounds.antt =====
-- Waiting for a test ends: the rounds suffice, and the result is one of four statuses.
use kitt.Prelude.{
  ℕ, zero, suc, ◌+◌, ◌-◌, ◌*◌, ◌≤◌, String, Bool, true, Option, none, some, ◌≡◌, refl, arith, ltb,
  ◌==◌, ◌||◌,
}
use kitt.Prelude.Exec.{Exec, ok, pure, ◌>>=◌, ◌>>◌}
use kitt.Prelude.Exec.Yields.{
  Yields, Yields-pure, Yields-gets, Yields-bind, Yields-given, Yields-if,
}
use kitt.Web.Database.{
  QuickTest, CampaignLine, cancelled_by_user, timed_out, agent_status, Db, publish,
}
use kitt.Web.Campaigns.{has_campaign}
use kitt.Web.Execution.{
  Executor, on_db, insert_line, log, poll_interval, test_timeout, wait_rounds, is_underway, is_over,
}
use kitt.Web.Execution.Wait.{
  read_clock, sleep, note_status, after_row, poll, time_out, wait_loop, wait_for_test,
}

-- The statuses that a wait gives.
abbrev pub is_waited : String → Bool
is_waited status = is_over status || ((status == "cancelled") || (status == "timeout"))

-- A sleep takes at least its time, and the clock does not go back.
pub record IsClock (monotonic : ℕ → ℕ → ℕ) : Type 0 where
  pub never_back : (n r r' : ℕ) → r ≤ r' → monotonic n r ≤ monotonic n r'
  pub sleeps_enough : (n r r' : ℕ) → r ≤ r' → monotonic n r + poll_interval ≤ monotonic (suc n) r'

-- The other threads leave the campaign in its table.
pub record KeepsCampaign (campaign_id : String) (others : ℕ → Db → Db) : Type 0 where
  pub kept :
      (n : ℕ) (s : Db)
      → has_campaign campaign_id s ≡ true
      → has_campaign campaign_id (others n s) ≡ true

module _ (campaign_id : String) where
  abbrev pub Listed : Db → Type 0
  Listed s = has_campaign campaign_id s ≡ true

  pub Yields-log : (line : CampaignLine) → Yields Listed (λ _. Listed) (log campaign_id line)
  unfolding log insert_line publish ◌>>=◌
  Yields-log line = record { yield = λ s h. rw h (tt, refl, h) }

  -- What a database action that keeps the campaign does beside the clock.
  module _ (C : ℕ → ℕ → Type 0) where
    abbrev pub Held : Executor → Type 0
    Held x = Listed x.db × C x.sleeps x.readings

    pub Yields-on_db :
        {A : Type 0} (m : Exec Db A)
        → Yields Listed (λ _. Listed) m
        → Yields Held (λ _. Held) (on_db m)
    unfolding on_db
    Yields-on_db m y = record {
      yield = λ x p. let (a, e, q) = y.yield x.db p.0 in (a, e, (q, p.1));
    }

  module _ (monotonic : ℕ → ℕ → ℕ) (others : ℕ → Db → Db) (clock : IsClock monotonic)
      (keeping : KeepsCampaign campaign_id others) (test_id : String)
      (run_index total_runs : ℕ) where
    -- Every reading from now on is at least k intervals after `start`.
    abbrev Past : ℕ → ℕ → ℕ → ℕ → Type 0
    Past start k sleeps readings =
        (r : ℕ) → readings ≤ r → start + k * poll_interval ≤ monotonic sleeps r

    abbrev Waited : String → Executor → Type 0
    Waited status x = (is_waited status ≡ true) × Listed x.db

    Yields-note_status :
        (last_status status : String)
        → Yields Listed
            (λ _. Listed)
            (note_status monotonic others campaign_id test_id run_index total_runs last_status
              status)
    unfolding note_status
    Yields-note_status last_status status =
        Yields-if Listed (λ _. Listed) (status == last_status) _ _
          (λ _. Yields-pure Listed (λ _. Listed) tt (λ s h. h))
          (λ _.
            Yields-if Listed (λ _. Listed) (is_underway status) _ _
              (λ _. Yields-log (agent_status run_index total_runs status))
              (λ _. Yields-pure Listed (λ _. Listed) tt (λ s h. h)))

    Yields-end :
        (C : ℕ → ℕ → Type 0) (status : String)
        → is_waited status ≡ true
        → Yields (Held C) Waited (pure status)
    Yields-end C status e = Yields-pure (Held C) Waited status (λ x p. (e, p.0))

    Yields-say :
        (C : ℕ → ℕ → Type 0) (line : CampaignLine) (status : String)
        → is_waited status ≡ true
        → Yields (Held C) Waited (on_db (log campaign_id line) >> pure status)
    Yields-say C line status e =
        Yields-bind (Held C) (λ _. Held C) Waited (on_db (log campaign_id line)) (λ _. pure status)
          (Yields-on_db C (log campaign_id line) (Yields-log line)) (λ _. Yields-end C status e)

    Yields-sleep :
        (start k : ℕ)
        → Yields (Held (Past start k)) (λ _. Held (Past start (suc k))) (sleep monotonic others)
    unfolding sleep
    Yields-sleep start k = record {
      yield = λ x p. (
        tt,
        refl,
        (
          keeping.kept x.sleeps x.db p.0,
          λ r h. omega (arith, p.1 r h, clock.sleeps_enough x.sleeps r r),
        ),
      );
    }

    over-is_waited : (status : String) → is_over status ≡ true → is_waited status ≡ true
    over-is_waited status h = rw h refl

    Yields-after_row :
        (start k : ℕ) (again : String → Exec Executor String) (last_status : String)
        → ((status : String) → Yields (Held (Past start (suc k))) Waited (again status))
        → (row : Option QuickTest)
        → Yields (Held (Past start k)) Waited (
            after_row monotonic others campaign_id test_id run_index total_runs again last_status
              row)
    unfolding after_row is_over
    Yields-after_row start k again last_status on none = Yields-end (Past start k) "failed" refl
    Yields-after_row start k again last_status on (some t) =
        let H = Held (Past start k) in
        Yields-bind H (λ _. H) Waited _ _
          (Yields-on_db (Past start k) _ (Yields-note_status last_status t.status))
          (λ _.
            Yields-if H Waited (is_over t.status) _ _
              (λ over. Yields-end (Past start k) t.status (over-is_waited t.status over))
              (λ _.
                Yields-bind H (λ _. Held (Past start (suc k))) Waited _ _ (Yields-sleep start k)
                  (λ _. on t.status)))

    Yields-poll :
        (start k : ℕ) (again : String → Exec Executor String) (last_status : String)
        → ((status : String) → Yields (Held (Past start (suc k))) Waited (again status))
        → Yields
            (Held (Past start k))
            Waited
            (poll monotonic others campaign_id test_id run_index total_runs again last_status)
    unfolding poll is_over
    Yields-poll start k again last_status on =
        let H = Held (Past start k) in
        Yields-bind H (λ _. H) Waited _ _
          (Yields-on_db (Past start k) _ (Yields-gets Listed (λ _. Listed) _ (λ s h. h)))
          (λ cancelled.
            Yields-if H Waited cancelled _ _
              (λ _. Yields-say (Past start k) cancelled_by_user "cancelled" refl)
              (λ _.
                Yields-bind H (λ _. H) Waited _ _
                  (Yields-on_db (Past start k) _ (Yields-gets Listed (λ _. Listed) _ (λ s h. h)))
                  (Yields-after_row start k again last_status on)))

    Yields-read_clock :
        (start k : ℕ)
        → Yields
            (Held (Past start k))
            (λ now x. Held (Past start k) x × (start + k * poll_interval ≤ now))
            (read_clock monotonic others)
    unfolding read_clock
    Yields-read_clock start k = record {
      yield = λ x p. (
        monotonic x.sleeps x.readings,
        refl,
        ((p.0, λ r h. p.1 r (omega (arith, h))), p.1 x.readings (omega arith)),
      );
    }

    -- The rounds that are left and those that are over make up all of them.
    Yields-wait_loop :
        (rounds k start : ℕ) (last_status : String)
        → k + rounds ≡ 361
        → k ≤ 360
        → Yields (Held (Past start k)) Waited (
            wait_loop monotonic others campaign_id test_id run_index total_runs rounds start
              last_status)
    unfolding wait_loop time_out is_over
    Yields-wait_loop zero k start last_status all most = absurd (omega (arith, all, most))
    Yields-wait_loop (suc rounds) k start last_status all most =
        let H = Held (Past start k) in
        Yields-bind H (λ now x. H x × (start + k * poll_interval ≤ now)) Waited _ _
          (Yields-read_clock start k)
          (λ now. Yields-given H Waited _ (λ later.
            Yields-if H Waited (ltb (now - start) test_timeout) _ _
              (λ early.
                Yields-poll start k
                  (wait_loop monotonic others campaign_id test_id run_index total_runs rounds start)
                  last_status
                  (λ status.
                    Yields-wait_loop rounds (suc k) start status (omega (arith, all))
                      (ground (arith, early, later))))
              (λ _. Yields-say (Past start k) (timed_out run_index total_runs) "timeout" refl)))

    pub Yields-wait_for_test :
        Yields
          (λ x. Listed x.db)
          Waited
          (wait_for_test monotonic others campaign_id test_id run_index total_runs)
    unfolding wait_for_test read_clock
    Yields-wait_for_test =
        Yields-bind (λ x. Listed x.db) (λ start. Held (Past start 0)) Waited
          (read_clock monotonic others)
          (λ start.
            wait_loop monotonic others campaign_id test_id run_index total_runs wait_rounds start
              "")
          (record {
            yield = λ x h. (
              monotonic x.sleeps x.readings,
              refl,
              (h, λ r later. omega (arith, later, clock.never_back x.sleeps x.readings r)),
            );
          })
          (λ start. Yields-wait_loop wait_rounds 0 start "" refl (omega arith))

    -- Waiting for a test of a listed campaign ends, before its rounds run out, with "completed",
    -- "failed", "cancelled" or "timeout", where a sleep takes its time, the clock does not go back and
    -- the other threads leave the campaign in its table.
    pub wait_for_test_total :
        (x : Executor)
        → has_campaign campaign_id x.db ≡ true
        → (status : String) × ((wait_for_test monotonic others campaign_id test_id run_index
              total_runs x).0
            ≡ ok status)
          × (is_waited status ≡ true)
    wait_for_test_total x h =
        let (status, answer, waited) = Yields-wait_for_test.yield x h in (status, answer, waited.0)
