-- ===== src/Campaign/Execute/Rules.antt =====
-- What one run leaves alone: the keys that are registered, and whether any other key is done.
use kitt.Prelude.{ℕ, String, Option, none, some, Bool, true, false}
use kitt.Prelude.Floats.{Float}
use kitt.Prelude.Exec.Rules.{Preserves, preserves_rules}
use kitt.Campaign.Config.{CampaignConfig, CampaignRunSpec, CampaignRunResult, RunStatus, spec_key}
use kitt.Campaign.State.{CampaignState}
use kitt.Campaign.Transfer.{cleanup_model}
use kitt.Campaign.Session.{World, Action, Exit, exited, died, query, perform}
use kitt.Campaign.Session.Rules.{
  view, look, view_rules, Preserves-look, Preserves-query, Preserves-perform,
}
use kitt.Campaign.Scheduler.{check_disk_space}
use kitt.Campaign.Scheduler.Disk.{check_disk_space-view}
use kitt.Campaign.Manager.{update_run}
use kitt.Campaign.Transfer.Rules.{download_model-view, cleanup_model-view}
use kitt.Campaign.Execute.{
  Options, after_kitt, run_benchmark, skip, some_skip, ask_hub, check_gated, clean_after, with_path,
  carry_out, succeed, give_up, attempt, start_run, unless_skipped, past_disk, execute_run,
}

module _ (w : World) (config : CampaignConfig) (options : Options) (run : CampaignRunSpec) where
  after_kitt-view : (e : Exit) → Preserves view (after_kitt w config options e)
  unfolding after_kitt
  after_kitt-view (exited Prim.Native.Nat.zero out) = search view_rules
  after_kitt-view (exited (Prim.Native.Nat.suc code) out) = search view_rules
  after_kitt-view (died e) = search view_rules

  clean_after-view : Preserves view (clean_after w config options run)
  unfolding clean_after
  clean_after-view = search (view_rules, cleanup_model-view)

  run_benchmark-view : (path : String) → Preserves view (run_benchmark w config options run path)
  unfolding run_benchmark
  run_benchmark-view path = search (view_rules, after_kitt-view)

  with_path-view :
      (start : Float) (p : Option String) → Preserves view (with_path w config options run start p)
  unfolding with_path
  with_path-view start none = search view_rules
  with_path-view start (some path) =
      search (view_rules, run_benchmark-view, clean_after-view) depth 9

  carry_out-view : (start : Float) → Preserves view (carry_out w config options run start)
  unfolding carry_out
  carry_out-view start = search (view_rules, download_model-view, with_path-view)

  module _ {B : Type 0} (observe : CampaignState → B)
      (updates : (st : RunStatus) (d : Float) (o e : String)
        → Preserves (look observe) (update_run w (spec_key run) st d o e)) where
    query-look : {A : Type 0} (q : ℕ → A) → Preserves (look observe) (query q)
    query-look q = Preserves-look observe _ (Preserves-query q)

    perform-look : (a : Action) → Preserves (look observe) (perform a)
    perform-look a = Preserves-look observe _ (Preserves-perform a)

    cleanup-look : (repo : Option String) → Preserves (look observe) (cleanup_model w config repo)
    cleanup-look repo = Preserves-look observe _ (cleanup_model-view w config repo)

    carry_out-look :
        (start : Float) → Preserves (look observe) (carry_out w config options run start)
    carry_out-look start = Preserves-look observe _ (carry_out-view start)

    ruleset look_rules = (preserves_rules, query-look)

    skip-look : (reason : String) → Preserves (look observe) (skip w config options run reason)
    unfolding skip
    skip-look reason = search look_rules

    some_skip-look :
        (reason : String) → Preserves (look observe) (some_skip w config options run reason)
    unfolding some_skip
    some_skip-look reason = search (look_rules, skip-look)

    ask_hub-look : (repo : String) → Preserves (look observe) (ask_hub w config options run repo)
    unfolding ask_hub
    ask_hub-look repo = search (look_rules, some_skip-look)

    check_gated-look :
        (repo : Option String) → Preserves (look observe) (check_gated w config options run repo)
    unfolding check_gated
    check_gated-look none = search look_rules
    check_gated-look (some repo) = search (look_rules, ask_hub-look)

    succeed-look : (o : Float × String) → Preserves (look observe) (succeed w config options run o)
    unfolding succeed
    succeed-look (d, dir) = search look_rules

    give_up-look :
        (start : Float) (e : String)
        → Preserves (look observe) (give_up w config options run start e)
    unfolding give_up
    give_up-look start e = search (look_rules, perform-look, cleanup-look) depth 9

    attempt-look : (start : Float) → Preserves (look observe) (attempt w config options run start)
    unfolding attempt
    attempt-look start = search (look_rules, carry_out-look, succeed-look)

    start_run-look : Preserves (look observe) (start_run w config options run)
    unfolding start_run
    start_run-look = search (look_rules, attempt-look, give_up-look) depth 9

    unless_skipped-look :
        (o : Option CampaignRunResult)
        → Preserves (look observe) (unless_skipped w config options run o)
    unfolding unless_skipped
    unless_skipped-look none = start_run-look
    unless_skipped-look (some r) = search look_rules

    past_disk-look :
        (enough : Bool) → Preserves (look observe) (past_disk w config options run enough)
    unfolding past_disk
    past_disk-look false = skip-look "Insufficient disk space"
    past_disk-look true = search (look_rules, check_gated-look, unless_skipped-look)

    check_disk-look : Preserves (look observe) (check_disk_space w config.disk run)
    check_disk-look = Preserves-look observe _ (check_disk_space-view w config.disk run)

    -- What an update of the run keeps of the state, the whole run keeps.
    pub execute_run-look : Preserves (look observe) (execute_run w config options run)
    unfolding execute_run
    execute_run-look = search (look_rules, skip-look, check_disk-look, past_disk-look)
