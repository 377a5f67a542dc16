-- ===== src/Campaign/Runner.antt =====
-- CampaignRunner.run of src/kitt/campaign/runner.py: the state is opened, the planned runs are
-- expanded and registered, and those that are not done are carried out in turn.
pub mod Loop
pub mod Completion
pub mod Termination
pub mod Resume
use kitt.Prelude.{
  ℕ, zero, suc, ◌+◌, String, Bool, true, false, not, Option, none, some, List, [], ◌∷◌, ◌++◌,
  select, length, eqb, ◌||◌, ◌&&◌, if◌then◌else◌, ◌==◌,
}
use Prim.Native.String.{◌++◌ as append_text}
use kitt.Prelude.Floats.{Float, FloatOps, zero_float}
use kitt.Prelude.Exec.{Exec, Result, ok, pure, raise, gets, modify, try, ◌>>=◌, ◌>>◌}
use kitt.Campaign.Config.{
  CampaignConfig, CampaignRunSpec, CampaignRunResult, CampaignResult, RunStatus, running, success,
  failed, skipped, is_failed, spec_key, result_succeeded, result_failed, result_skipped,
  result_total_duration_s,
}
use kitt.Campaign.State.{CampaignState, CampaignStatus}
use kitt.Campaign.Session.{
  World, Session, Attempt, done, import_error, broke, Exit, exited, died, HubAnswer, model,
  http_error, no_answer, Action, downloads, benchmarks, removes, cleans_docker, notifies_failure,
  notifies_complete, reports_progress, query, perform,
}
use kitt.Campaign.Manager.{save, update_run, create, load, is_run_done}
use kitt.Campaign.Scheduler.{truthy, plan_runs, should_skip_for_size, check_disk_space}
use kitt.Campaign.Expand.{expand_runs, register_runs}
use kitt.Campaign.Execute.{Options, execute_run}

module _ (w : World) (config : CampaignConfig) (options : Options) where
  abbrev zero_s : Float
  zero_s = zero_float w.ops

  add_result : CampaignResult → CampaignRunResult → CampaignResult
  add_result result r = record result { runs = result.runs ++ r ∷ [] }

  report : ℕ → CampaignResult → Exec Session (Unit {0})
  report total_runs result =
      if options.has_exporter
      then perform (
          reports_progress total_runs
            (result_succeeded result + result_failed result + result_skipped result)
            (result_succeeded result) (result_failed result) (result_skipped result)
            (result_total_duration_s w.ops result))
      else pure tt

  tell_failure : CampaignRunSpec → CampaignRunResult → Exec Session (Unit {0})
  tell_failure run r =
      if is_failed r.status then perform (notifies_failure (spec_key run) r.error) else pure tt

  -- The loop over the remaining runs.
  pub run_all : ℕ → CampaignResult → List CampaignRunSpec → Exec Session CampaignResult
  unfolding add_result report tell_failure
  run_all total_runs result [] = pure result
  run_all total_runs result (run ∷ rest) = do
    r ← execute_run w config options run
    report total_runs (add_result result r)
    tell_failure run r
    run_all total_runs (add_result result r) rest

  -- state.runs with the new runs; state.status and state.completed_at at the end.
  pub register : List CampaignRunSpec → Session → Session
  register expanded s = record s {
    state = record s.state { runs = register_runs zero_s s.state.runs expanded };
  }

  complete : String → Session → Session
  complete now s = record s {
    state = record s.state { status = CampaignStatus.completed; completed_at = now };
  }

  abbrev remaining : CampaignState → List CampaignRunSpec → List CampaignRunSpec
  remaining st expanded = select (λ r. not (is_run_done st (spec_key r))) expanded

  -- The state that a resumed campaign starts from, or a new one.
  take_state : Option CampaignState → String → Exec Session (Unit {0})
  take_state (some st) campaign_id = modify (λ s. record s { state = st })
  take_state none campaign_id = create w campaign_id config.campaign_name

  open_state : String → Bool → Exec Session (Unit {0})
  unfolding take_state
  open_state campaign_id resume = do
    loaded ← gets (λ s. if resume then load campaign_id s.files else none)
    take_state loaded campaign_id

  pub expanded_runs : List CampaignRunSpec
  expanded_runs = expand_runs w config (plan_runs config)

  fresh_result : String → CampaignState → CampaignResult
  fresh_result campaign_id st = record {
    campaign_id = campaign_id;
    campaign_name = config.campaign_name;
    started_at = st.started_at;
    completed_at = "";
    runs = [];
  }

  finish : CampaignResult → Exec Session CampaignResult
  unfolding complete
  finish result = do
    now ← query w.now
    modify (complete now)
    save w
    perform notifies_complete
    pure (record result { completed_at = now })

  pub loop_from : String → List CampaignRunSpec → Exec Session CampaignResult
  loop_from campaign_id expanded s =
      run_all (length expanded) (fresh_result campaign_id s.state) (remaining s.state expanded) s

  -- What follows once the state is opened.
  pub carry_on : String → Exec Session CampaignResult
  unfolding register fresh_result finish
  carry_on campaign_id = do
    modify (register expanded_runs)
    save w
    result ← loop_from campaign_id expanded_runs
    finish result

  pub run_campaign : String → Bool → Exec Session CampaignResult
  unfolding open_state carry_on
  run_campaign campaign_id resume = do open_state campaign_id resume; carry_on campaign_id
