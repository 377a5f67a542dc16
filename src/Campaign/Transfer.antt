-- ===== src/Campaign/Transfer.antt =====
-- Where a run's model comes from and how it is removed: `_download_model`, `_download_via_cli`,
-- `_cleanup_model` and `_cleanup_docker` of src/kitt/campaign/runner.py.
pub mod Rules
use kitt.Prelude.{
  ℕ, zero, suc, ◌+◌, String, Bool, true, false, not, Option, none, some, List, [], ◌∷◌, ◌++◌,
  select, length, eqb, ◌||◌, ◌&&◌, if◌then◌else◌, ◌==◌,
}
use Prim.Native.String.{◌++◌ as append_text}
use kitt.Prelude.Floats.{Float, FloatOps, zero_float}
use kitt.Prelude.Exec.{Exec, Result, ok, pure, raise, gets, modify, try, ◌>>=◌, ◌>>◌}
use kitt.Campaign.Config.{
  CampaignConfig, CampaignRunSpec, CampaignRunResult, CampaignResult, RunStatus, running, success,
  failed, skipped, is_failed, spec_key, result_succeeded, result_failed, result_skipped,
}
use kitt.Campaign.State.{CampaignState, CampaignStatus}
use kitt.Campaign.Session.{
  World, Session, Attempt, done, import_error, broke, Exit, exited, died, HubAnswer, model,
  http_error, no_answer, Action, downloads, benchmarks, removes, cleans_docker, notifies_failure,
  notifies_complete, reports_progress, query, perform,
}
use kitt.Campaign.Manager.{save, update_run, create, load, is_run_done}
use kitt.Campaign.Scheduler.{truthy, plan_runs, should_skip_for_size, check_disk_space}
use kitt.Campaign.Expand.{expand_runs, register_runs}

is_some : Option String → Bool
is_some none = false
is_some (some s) = true

module _ (w : World) (config : CampaignConfig) where
  -- Devon by HTTP is configured.
  abbrev remote : Bool
  remote = is_some (truthy config.devon_url) && config.devon_managed

  abbrev bridge : Bool
  bridge = w.devon_available && config.devon_managed

  fetched : String → String → Exec Session (Option String)
  fetched repo path = do perform (downloads repo); pure (some path)

  after_remote : String → Attempt → Exec Session (Option String)
  unfolding fetched
  after_remote repo (done path) = fetched repo path
  after_remote repo import_error = pure none
  after_remote repo (broke e) = pure none

  -- 1. The remote client: a path, or nothing when it is not configured or fails.
  fetch_remote : String → Option String → Exec Session (Option String)
  unfolding after_remote
  fetch_remote repo pattern =
      if remote
      then (do answer ← query (λ n. w.remote_download n repo pattern); after_remote repo answer)
      else pure none

  -- 3. The command line of Devon.
  after_cli : CampaignRunSpec → String → Exit → Exec Session (Option String)
  after_cli run repo (exited zero out) = do
    perform (downloads repo)
    query (λ n. w.find_path n repo run.include_pattern)
  after_cli run repo (exited (suc code) out) = raise (append_text "Devon download failed: " out)
  after_cli run repo (died e) = raise e

  fetch_cli : CampaignRunSpec → String → Exec Session (Option String)
  unfolding after_cli
  fetch_cli run repo = do
    exit ← query (λ n. w.cli_download n repo run.include_pattern)
    after_cli run repo exit

  -- 2. The local package; where it is missing, the command line.
  after_bridge : CampaignRunSpec → String → Attempt → Exec Session (Option String)
  unfolding fetch_cli fetched
  after_bridge run repo (done path) =
      if run.engine_name == "llama_cpp" || run.engine_name == "exllamav2"
      then (do perform (downloads repo); query (λ n. w.find_path n repo run.include_pattern))
      else fetched repo path
  after_bridge run repo import_error = fetch_cli run repo
  after_bridge run repo (broke e) = raise e

  fetch_bridge : CampaignRunSpec → String → Exec Session (Option String)
  unfolding fetch_cli after_bridge
  fetch_bridge run repo =
      if bridge
      then (do
        answer ← query (λ n. w.bridge_download n repo run.include_pattern)
        after_bridge run repo answer)
      else fetch_cli run repo

  or_bridge : CampaignRunSpec → String → Option String → Exec Session (Option String)
  unfolding fetch_bridge
  or_bridge run repo (some path) = pure (some path)
  or_bridge run repo none = fetch_bridge run repo

  fetch : CampaignRunSpec → Option String → Exec Session (Option String)
  unfolding fetch_remote or_bridge
  fetch run none = pure run.model_path
  fetch run (some repo) = do path ← fetch_remote repo run.include_pattern; or_bridge run repo path

  pub download_model : CampaignRunSpec → Exec Session (Option String)
  unfolding fetch
  download_model run =
      if run.engine_name == "ollama" then pure run.repo_id else fetch run (truthy run.repo_id)

  -- The clean-up tries the same three ways, and never raises.
  remove_bridge : String → Exec Session (Unit {0})
  remove_bridge repo =
      if bridge
      then (do answer ← query (λ n. w.bridge_remove n repo); perform (removes repo))
      else perform (removes repo)

  after_remove : String → Attempt → Exec Session (Unit {0})
  unfolding remove_bridge
  after_remove repo (done path) = perform (removes repo)
  after_remove repo import_error = remove_bridge repo
  after_remove repo (broke e) = remove_bridge repo

  remove : String → Exec Session (Unit {0})
  unfolding after_remove remove_bridge
  remove repo =
      if remote
      then (do answer ← query (λ n. w.remote_remove n repo); after_remove repo answer)
      else remove_bridge repo

  pub cleanup_model : Option String → Exec Session (Unit {0})
  unfolding remove
  cleanup_model none = pure tt
  cleanup_model (some repo) = remove repo
