-- ===== src/Examples/CampaignRuns.antt =====
-- The theorems on campaigns at the small campaign of Examples.
use mathlib.Core.List.{Memᴰ}
use kitt.Prelude.{true, false, some, [], ◌∷◌, ◌++◌, ◌≡◌, refl, map}
use kitt.Prelude.Text.{codes}
use kitt.Campaign.Sizes.{quant_bpp}
use kitt.Prelude.Exec.{ok}
use kitt.Campaign.Config.{
  CampaignRunSpec, CampaignRunResult, CampaignResult, spec_key, run_key, is_done,
}
use kitt.Campaign.Session.{Session}
use kitt.Campaign.Manager.{save, load}
use kitt.Campaign.Manager.Updates.{is_registered, done_in, SavesSucceed, Returns-save, save-load}
use kitt.Campaign.Scheduler.{plan_runs}
use kitt.Campaign.Scheduler.Plan.{IsPlanned, plan_runs_iff}
use kitt.Campaign.Expand.{new_run}
use kitt.Campaign.Expand.Register.{}
use kitt.Campaign.Execute.{execute_run}
use kitt.Campaign.Execute.Outcome.{execute_run-final, execute_run_total}
use kitt.Campaign.Runner.{run_all, run_campaign}
use kitt.Campaign.Runner.Loop.{result_key, run_all-results}
use kitt.Campaign.Runner.Completion.{Completed, run_campaign-Completed}
use kitt.Campaign.Runner.Termination.{run_campaign-Returns, run_all_total}
use kitt.Campaign.Runner.Resume.{run_campaign-resume}
use kitt.Examples.{whole, a_world, a_config, a_run, options, a_session}

saves : SavesSucceed a_world
saves n = refl

abbrev whole_run :
    (out : CampaignResult) × ((run_campaign a_world a_config options "c1" false a_session).0
      ≡ ok out)
whole_run = run_campaign-Returns a_world a_config options saves "c1" false a_session

run_campaign-Returns_example :
    (out : CampaignResult) × ((run_campaign a_world a_config options "c1" true a_session).0
      ≡ ok out)
run_campaign-Returns_example =
    run_campaign-Returns a_world a_config options saves "c1" true a_session

run_campaign-Completed_example :
    Completed a_world a_config options whole_run.0
      (run_campaign a_world a_config options "c1" false a_session).1
run_campaign-Completed_example =
    run_campaign-Completed a_world a_config options "c1" false a_session whole_run.0 whole_run.1

-- A session in which the run is registered.
abbrev registered_session : Session
registered_session = record a_session {
  state = record a_session.state { runs = new_run (whole 0) a_run ∷ [] };
}

registered : is_registered (spec_key a_run) registered_session.state.runs ≡ true
unfolding run_key
registered = refl

abbrev one_run :
    (r : CampaignRunResult) × ((execute_run a_world a_config options a_run registered_session).0
      ≡ ok r)
one_run = execute_run_total a_world a_config options a_run saves registered_session

execute_run_total_example :
    (r : CampaignRunResult) × ((execute_run a_world a_config options a_run a_session).0 ≡ ok r)
execute_run_total_example = execute_run_total a_world a_config options a_run saves a_session

execute_run-final_example :
    (is_done one_run.0.status ≡ true)
    × (run_key one_run.0.model_name one_run.0.engine_name one_run.0.quant ≡ spec_key a_run)
    × (done_in (spec_key a_run) (execute_run a_world a_config options a_run registered_session).1
        ≡ true)
execute_run-final_example =
    execute_run-final a_world a_config options a_run registered_session one_run.0 registered
      one_run.1

abbrev fresh : CampaignResult
fresh = record {
  campaign_id = "c1";
  campaign_name = "nightly";
  started_at = "2025-01-01T00:00:00";
  completed_at = "";
  runs = [];
}

abbrev looped :
    (out : CampaignResult) × ((run_all a_world a_config options 1 fresh
        (a_run ∷ [])
        registered_session).0
      ≡ ok out)
looped = run_all_total a_world a_config options saves 1 (a_run ∷ []) fresh registered_session

run_all-results_example :
    map result_key looped.0.runs ≡ map result_key fresh.runs ++ map spec_key (a_run ∷ [])
run_all-results_example =
    run_all-results a_world a_config options 1 (a_run ∷ []) fresh registered_session looped.0
      looped.1

save-load_example :
    load "c1" (save a_world registered_session).1.files ≡ some registered_session.state
save-load_example =
    save-load a_world registered_session ((Returns-save a_world saves).result registered_session).1

plan_runs_iff_example :
    (Memᴰ a_run (plan_runs a_config) → IsPlanned a_config.models a_config.engines a_run)
    × (IsPlanned a_config.models a_config.engines a_run → Memᴰ a_run (plan_runs a_config))
plan_runs_iff_example = plan_runs_iff a_config a_run

abbrev smaller : CampaignRunSpec
smaller = record a_run { quant = "Q4_K_M"; estimated_size_gb = whole 5 }

listed_q4_0 : Memᴰ (codes "q4_0", codes "0.59") quant_bpp
listed_q4_0 = Memᴰ.tail (
    Memᴰ.tail (
      Memᴰ.tail (
        Memᴰ.tail (
          Memᴰ.tail (
            Memᴰ.tail (
              Memᴰ.tail (
                Memᴰ.tail (
                  Memᴰ.tail (Memᴰ.tail (Memᴰ.tail (Memᴰ.tail (Memᴰ.tail (Memᴰ.head refl)))))))))))))

-- The session that the campaign leaves, and the campaign resumed from it.
abbrev finished_session : Session
finished_session = (run_campaign a_world a_config options "c1" false a_session).1

abbrev resumed :
    (out : CampaignResult) × ((run_campaign a_world a_config options
        finished_session.state.campaign_id true finished_session).0
      ≡ ok out)
resumed =
    run_campaign-Returns a_world a_config options saves finished_session.state.campaign_id true
      finished_session

ended : Completed a_world a_config options whole_run.0 finished_session
ended = run_campaign-Completed a_world a_config options "c1" false a_session whole_run.0 whole_run.1

run_campaign-resume_example : resumed.0.runs ≡ []
run_campaign-resume_example =
    run_campaign-resume a_world a_config options finished_session.state.campaign_id finished_session
      finished_session.state resumed.0 ended.on_disk ended.all_done resumed.1
