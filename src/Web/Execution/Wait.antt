-- ===== src/Web/Execution/Wait.antt =====
-- _wait_for_test of campaign_executor.py: the test and the campaign are polled until either is over or
-- the time is up.
pub mod Rounds
use kitt.Prelude.{
  ℕ, zero, suc, ◌+◌, ◌-◌, ◌*◌, String, Bool, true, false, not, Option, none, some, List, [], ◌∷◌,
  ◌++◌, length, map, ltb, eqb, if◌then◌else◌, ◌==◌, ◌||◌, ◌&&◌,
}
use kitt.Prelude.Exec.{Exec, Result, ok, raised, pure, raise, gets, modify, try, ◌>>=◌, ◌>>◌}
use kitt.Web.Database.{
  QuickTest, WebCampaign, CampaignLine, started, cancelled_by_user, queuing, waiting, agent_status,
  run_completed, run_failed, timed_out, finished, unexpected, Event, campaign_line_is, Db, Outside,
  query, publish, insert_test,
}
use kitt.Web.Execution.{
  Executor, on_db, is_cancelled, find_test, log, poll_interval, test_timeout, wait_rounds,
  is_underway, is_over,
}

-- `monotonic n r` is the r-th reading of the clock in microseconds, after n sleeps; `others n` is what
-- the other threads do to the database during the n-th sleep.
module _ (monotonic : ℕ → ℕ → ℕ) (others : ℕ → Db → Db) where
  unfoldable pub read_clock : Exec Executor ℕ
  read_clock x = (ok (monotonic x.sleeps x.readings), record x { readings = suc x.readings })

  unfoldable pub sleep : Exec Executor (Unit {0})
  sleep x = (ok tt, record x { db = others x.sleeps x.db; sleeps = suc x.sleeps })

  -- _wait_for_test
  module _ (campaign_id test_id : String) (run_index total_runs : ℕ) where
    unfoldable pub note_status : String → String → Exec Db (Unit {0})
    note_status last_status status =
        if status == last_status
        then pure tt
        else if is_underway status
        then log campaign_id (agent_status run_index total_runs status)
        else pure tt

    unfoldable pub after_row :
        (String → Exec Executor String) → String → Option QuickTest → Exec Executor String
    after_row again last_status none = pure "failed"
    after_row again last_status (some t) = do
      on_db (note_status last_status t.status)
      if is_over t.status then pure t.status else (sleep >> again t.status)

    unfoldable pub poll : (String → Exec Executor String) → String → Exec Executor String
    poll again last_status = do
      cancelled ← on_db (gets (is_cancelled campaign_id))
      if cancelled then (on_db (log campaign_id cancelled_by_user) >> pure "cancelled") else do
        row ← on_db (gets (λ s. find_test test_id s.tests))
        after_row again last_status row

    time_out : Exec Executor String
    time_out = on_db (log campaign_id (timed_out run_index total_runs)) >> pure "timeout"

    unfoldable pub wait_loop : ℕ → ℕ → String → Exec Executor String
    unfolding time_out
    wait_loop zero start last_status = raise "out of rounds"
    wait_loop (suc rounds) start last_status = do
      now ← read_clock
      let again = wait_loop rounds start in
          if ltb (now - start) test_timeout then poll again last_status else time_out

    unfoldable pub wait_for_test : Exec Executor String
    wait_for_test = do start ← read_clock; wait_loop wait_rounds start ""
