-- ===== src/Web/Execution/Run.antt =====
-- _run_campaign and execute_campaign of campaign_executor.py: the rounds, their counts and the final
-- status of the campaign.
pub mod Jobs
pub mod Counts
pub mod Completion
use kitt.Prelude.{
  ℕ, zero, suc, ◌+◌, ◌-◌, ◌*◌, String, Bool, true, false, not, Option, none, some, List, [], ◌∷◌,
  ◌++◌, length, map, ltb, eqb, if◌then◌else◌, ◌==◌, ◌||◌, ◌&&◌,
}
use kitt.Prelude.Exec.{Exec, Result, ok, raised, pure, raise, gets, modify, try, ◌>>=◌, ◌>>◌}
use kitt.Web.Database.{
  QuickTest, WebCampaign, CampaignLine, started, cancelled_by_user, queuing, waiting, agent_status,
  run_completed, run_failed, timed_out, finished, unexpected, Event, campaign_line_is, Db, Outside,
  query, publish, insert_test,
}
use kitt.Web.Campaigns.{no_counts, update_status}
use kitt.Web.QuickTests.{or_value}
use kitt.Web.Execution.{
  RunConfig, Job, jobs_of, all_benchmarks, Executor, Round, succeeds, fails, stops, Tally, on_db,
  is_cancelled, log,
}
use kitt.Web.Execution.Wait.{wait_for_test}

module _ (lib : Outside) (monotonic : ℕ → ℕ → ℕ) (others : ℕ → Db → Db) (campaign_id : String) where
  module _ (agent_id suite_name : String) (total_runs : ℕ) where
    -- The row of a round.
    abbrev queued_row : String → String → String → Job → QuickTest
    queued_row test_id command_id now j = record {
      id = test_id;
      agent_id = agent_id;
      model_path = j.model_path;
      engine_name = j.engine_name;
      benchmark_name = j.benchmark_name;
      suite_name = suite_name;
      status = "queued";
      command_id = command_id;
      engine_mode = j.engine_mode;
      profile_id = j.profile_id;
      created_at = now;
      started_at = "";
      completed_at = "";
      error = "";
    }

    unfoldable pub queue_test : ℕ → Job → Exec Db String
    queue_test run_index j = do
      log campaign_id (queuing run_index total_runs j.model_name j.engine_name j.benchmark_name)
      test_id ← query lib.uuid_hex
      command_id ← query lib.uuid_hex
      now ← query lib.now
      insert_test (queued_row test_id command_id now j)
      log campaign_id (waiting run_index total_runs)
      pure test_id

    -- What the final status of a test means for the loops.
    unfoldable pub settle_round : ℕ → String → Exec Db Round
    settle_round run_index final_status =
        if final_status == "completed"
        then log campaign_id (run_completed run_index total_runs) >> pure succeeds
        else if final_status == "cancelled"
        then pure stops
        else log campaign_id (run_failed run_index total_runs final_status) >> pure fails

    unfoldable pub run_job : ℕ → Job → Exec Executor Round
    run_job run_index j = do
      test_id ← on_db (queue_test run_index j)
      final_status ← wait_for_test monotonic others campaign_id test_id run_index total_runs
      on_db (settle_round run_index final_status)

    unfoldable pub run_round : ℕ → Job → Exec Executor Round
    run_round run_index j = do
      cancelled ← on_db (gets (is_cancelled campaign_id))
      if cancelled
          then (on_db (log campaign_id cancelled_by_user) >> pure stops)
          else run_job run_index j

    -- The loops, from the counts so far.
    unfoldable pub run_jobs : ℕ → Tally → List Job → Exec Executor Tally
    run_jobs done t [] = pure t
    run_jobs done t (j ∷ jobs) = do
      round ← run_round (suc done) j
      elim round [
        | succeeds ↦ run_jobs (suc done) (record t { succeeded = suc t.succeeded }) jobs
        | fails ↦ run_jobs (suc done) (record t { failed = suc t.failed }) jobs
        | stops ↦ pure (record t { cancelled = true })
      ]

  unfoldable pub finish_campaign : Tally → Exec Db (Unit {0})
  finish_campaign t = if t.cancelled then pure tt else do
    log campaign_id (finished t.succeeded t.failed)
    update_status lib campaign_id "completed" ""
        (record no_counts { succeeded = some t.succeeded; failed = some t.failed })
    pure tt

  -- _run_campaign, with the counts that it logs at the end
  module _ (agent_id : String) (config : RunConfig) where
    abbrev pub all_jobs : List Job
    all_jobs = jobs_of config.models config.engines (all_benchmarks config)

    abbrev pub total : ℕ
    total = length config.models * length config.engines * length (all_benchmarks config)

    unfoldable pub start_campaign : Exec Db (Unit {0})
    start_campaign = do
      update_status lib campaign_id "running" "" (record no_counts { total_runs = some total })
      log campaign_id (started total)

    abbrev no_runs : Tally
    no_runs = record { succeeded = 0; failed = 0; cancelled = false }

    unfoldable pub run_counted : Exec Executor Tally
    run_counted = do
      on_db start_campaign
      t ← run_jobs agent_id (or_value config.suite_name "quick") total 0 no_runs all_jobs
      on_db (finish_campaign t)
      pure t

    unfoldable pub run_campaign : Exec Executor (Option Tally)
    run_campaign =
        if eqb total 0
        then (on_db (
              update_status lib campaign_id "failed" "No test combinations in campaign config"
                no_counts)
            >> pure none)
        else do t ← run_counted; pure (some t)

    give_up : String → Exec Executor (Option Tally)
    give_up error = do
      on_db (log campaign_id unexpected)
      on_db (
          update_status lib campaign_id "failed" "Unexpected error during campaign execution"
            no_counts)
      pure none

    unfoldable pub execute_campaign : Exec Executor (Option Tally)
    unfolding give_up
    execute_campaign = try run_campaign give_up
