-- ===== src/Campaign/Execute.antt =====
-- One run: `_execute_run` and `_run_benchmark` of src/kitt/campaign/runner.py, with `is_gated` of
-- gated_model_checker.py.
pub mod Rules
pub mod Outcome
use kitt.Prelude.{
  ℕ, zero, suc, ◌+◌, String, Bool, true, false, not, Option, none, some, List, [], ◌∷◌, ◌++◌,
  select, length, eqb, ◌||◌, ◌&&◌, if◌then◌else◌, ◌==◌,
}
use Prim.Native.String.{◌++◌ as append_text}
use kitt.Prelude.Floats.{Float, FloatOps, zero_float}
use kitt.Prelude.Exec.{Exec, Result, ok, pure, raise, gets, modify, try, ◌>>=◌, ◌>>◌}
use kitt.Campaign.Config.{
  CampaignConfig, CampaignRunSpec, CampaignRunResult, CampaignResult, RunStatus, running, success,
  failed, skipped, is_failed, spec_key, result_succeeded, result_failed, result_skipped,
}
use kitt.Campaign.State.{CampaignState, CampaignStatus}
use kitt.Campaign.Session.{
  World, Session, Attempt, done, import_error, broke, Exit, exited, died, HubAnswer, model,
  http_error, no_answer, Action, downloads, benchmarks, removes, cleans_docker, notifies_failure,
  notifies_complete, reports_progress, query, perform,
}
use kitt.Campaign.Manager.{save, update_run, create, load, is_run_done}
use kitt.Campaign.Scheduler.{truthy, plan_runs, should_skip_for_size, check_disk_space}
use kitt.Campaign.Expand.{expand_runs, register_runs}
use kitt.Campaign.Transfer.{download_model, cleanup_model}

pub record Options : Type 0 where
  pub dry_run : Bool
  pub has_exporter : Bool

-- _fetch_model_info: the "gated" field; an unauthorized request counts as gated.
fetch_model_info : HubAnswer → Option Bool
fetch_model_info (model gated) = some gated
fetch_model_info (http_error code) = if eqb code 401 then some true else none
fetch_model_info no_answer = none

gated_field : Option Bool → Bool
gated_field none = false
gated_field (some g) = g

unfoldable pub is_gated : HubAnswer → Bool
unfolding fetch_model_info gated_field
is_gated answer = gated_field (fetch_model_info answer)

abbrev pub result_of : CampaignRunSpec → RunStatus → Float → String → String → CampaignRunResult
result_of run st duration output_dir error = record {
  model_name = run.model_name;
  engine_name = run.engine_name;
  quant = run.quant;
  status = st;
  duration_s = duration;
  output_dir = output_dir;
  error = error;
}

module _ (w : World) (config : CampaignConfig) (options : Options) where
  abbrev zero_s : Float
  zero_s = zero_float w.ops

  after_kitt : Exit → Exec Session String
  after_kitt (exited zero output_dir) = pure output_dir
  after_kitt (exited (suc code) detail) = raise (
      append_text "kitt run failed (exit "
        (append_text (w.show_code (suc code)) (append_text "): " detail)))
  after_kitt (died e) = raise e

  run_benchmark : CampaignRunSpec → String → Exec Session String
  unfolding after_kitt
  run_benchmark run path = do
    perform (benchmarks path run.engine_name run.suite)
    exit ← query (λ n. w.kitt_run n path run.engine_name run.suite)
    after_kitt exit

  skip : CampaignRunSpec → String → Exec Session CampaignRunResult
  skip run reason = do
    update_run w (spec_key run) skipped zero_s "" reason
    pure (result_of run skipped zero_s "" reason)

  size_reason : CampaignRunSpec → String
  size_reason run = append_text "Estimated size " (
      append_text (w.ops.show_1 run.estimated_size_gb) (
        append_text "GB exceeds limit of "
          (append_text (w.ops.show_1 config.max_model_size_gb) "GB")))

  gated_reason : String → String
  gated_reason repo = append_text "Model " (append_text repo " is gated (requires access approval)")

  some_skip : CampaignRunSpec → String → Exec Session (Option CampaignRunResult)
  unfolding skip
  some_skip run reason = do result ← skip run reason; pure (some result)

  ask_hub : CampaignRunSpec → String → Exec Session (Option CampaignRunResult)
  unfolding is_gated gated_reason some_skip
  ask_hub run repo = do
    answer ← query (λ n. w.hub n repo)
    if is_gated answer then some_skip run (gated_reason repo) else pure none

  -- The check of gated models: the result of a run that is skipped for it. An exception in it, also
  -- one of writing the state, lets the run go on.
  check_gated : CampaignRunSpec → Option String → Exec Session (Option CampaignRunResult)
  unfolding ask_hub
  check_gated run none = pure none
  check_gated run (some repo) =
      if not options.dry_run && (config.skip_gated && not (run.engine_name == "ollama"))
      then try (ask_hub run repo) (λ e. pure none)
      else pure none

  -- What a real run does between its start and its end.
  clean_after : CampaignRunSpec → Exec Session (Unit {0})
  clean_after run =
      if config.disk.cleanup_after_run then cleanup_model w config (truthy run.repo_id) else pure tt

  with_path : CampaignRunSpec → Float → Option String → Exec Session (Float × String)
  unfolding run_benchmark clean_after
  with_path run start none = raise "Model path not found after download"
  with_path run start (some path) = do
    output_dir ← run_benchmark run path
    end ← query w.time
    clean_after run
    pure (w.ops.fsub end start, output_dir)

  carry_out : CampaignRunSpec → Float → Exec Session (Float × String)
  unfolding with_path
  carry_out run start =
      if options.dry_run
      then pure (zero_s, "dry-run")
      else (do path ← download_model w config run; with_path run start (truthy path))

  succeed : CampaignRunSpec → Float × String → Exec Session CampaignRunResult
  succeed run (duration, output_dir) = do
    update_run w (spec_key run) success duration output_dir ""
    pure (result_of run success duration output_dir "")

  -- except Exception as e
  give_up : CampaignRunSpec → Float → String → Exec Session CampaignRunResult
  give_up run start e = do
    end ← query w.time
    update_run w (spec_key run) failed (w.ops.fsub end start) "" e
    perform cleans_docker
    cleanup_model w config (truthy run.repo_id)
    pure (result_of run failed (w.ops.fsub end start) "" e)

  attempt : CampaignRunSpec → Float → Exec Session CampaignRunResult
  unfolding carry_out succeed
  attempt run start = do outcome ← carry_out run start; succeed run outcome

  start_run : CampaignRunSpec → Exec Session CampaignRunResult
  unfolding attempt give_up
  start_run run = do
    update_run w (spec_key run) running zero_s "" ""
    start ← query w.time
    try (attempt run start) (give_up run start)

  unless_skipped : CampaignRunSpec → Option CampaignRunResult → Exec Session CampaignRunResult
  unfolding start_run
  unless_skipped run (some result) = pure result
  unless_skipped run none = start_run run

  past_disk : CampaignRunSpec → Bool → Exec Session CampaignRunResult
  unfolding skip check_gated unless_skipped
  past_disk run false = skip run "Insufficient disk space"
  past_disk run true = do gated ← check_gated run (truthy run.repo_id); unless_skipped run gated

  pub execute_run : CampaignRunSpec → Exec Session CampaignRunResult
  unfolding skip past_disk size_reason
  execute_run run =
      if should_skip_for_size w.ops config.max_model_size_gb run
      then skip run (size_reason run)
      else (do enough ← check_disk_space w config.disk run; past_disk run enough)
