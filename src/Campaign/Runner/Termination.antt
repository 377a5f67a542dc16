-- ===== src/Campaign/Runner/Termination.antt =====
-- That `run` returns where the state can be written.
use kitt.Prelude.{ℕ, String, Bool, Option, none, some, List, [], ◌∷◌, ◌≡◌, length}
use kitt.Prelude.Exec.{ok}
use kitt.Prelude.Exec.Rules.{Returns}
use kitt.Campaign.Config.{CampaignConfig, CampaignRunSpec, CampaignRunResult, CampaignResult}
use kitt.Campaign.State.{CampaignState}
use kitt.Campaign.Session.{World, Session}
use kitt.Campaign.Session.Rules.{session_returns}
use kitt.Campaign.Manager.Updates.{SavesSucceed, Returns-save, Returns-create}
use kitt.Campaign.Execute.{Options}
use kitt.Campaign.Execute.Outcome.{execute_run-Returns}
use kitt.Campaign.Runner.{
  add_result, report, tell_failure, run_all, remaining, take_state, open_state, fresh_result,
  loop_from, finish, carry_on, run_campaign,
}

module _ (w : World) (config : CampaignConfig) (options : Options) where
  run_all-Returns :
      SavesSucceed w
      → (total : ℕ) (specs : List CampaignRunSpec) (result : CampaignResult)
      → Returns (run_all w config options total result specs)
  unfolding run_all report tell_failure
  run_all-Returns h total [] result = search (session_returns)
  run_all-Returns h total (run ∷ rest) result =
      let one = execute_run-Returns w config options run h in
      let more = λ (r : CampaignRunResult).
        run_all-Returns h total rest (add_result w config options result r) in
      search session_returns depth 9

  pub run_all_total :
      SavesSucceed w
      → (total : ℕ) (specs : List CampaignRunSpec) (result : CampaignResult) (s : Session)
      → (out : CampaignResult) × ((run_all w config options total result specs s).0 ≡ ok out)
  run_all_total h total specs result = (run_all-Returns h total specs result).result

  finish-Returns :
      SavesSucceed w → (result : CampaignResult) → Returns (finish w config options result)
  unfolding finish
  finish-Returns h result = search (session_returns, Returns-save) depth 9

  loop_from-Returns :
      SavesSucceed w
      → (campaign_id : String) (specs : List CampaignRunSpec)
      → Returns (loop_from w config options campaign_id specs)
  unfolding loop_from
  loop_from-Returns h campaign_id specs = record {
    result = λ s.
        (run_all-Returns h (length specs) (remaining w config options s.state specs)
            (fresh_result w config options campaign_id s.state)).result
          s;
  }

  carry_on-Returns :
      SavesSucceed w → (campaign_id : String) → Returns (carry_on w config options campaign_id)
  unfolding carry_on
  carry_on-Returns h campaign_id =
      search (session_returns, Returns-save, loop_from-Returns, finish-Returns) depth 9

  take_state-Returns :
      SavesSucceed w
      → (loaded : Option CampaignState) (campaign_id : String)
      → Returns (take_state w config options loaded campaign_id)
  unfolding take_state
  take_state-Returns h (some st) campaign_id = search (session_returns)
  take_state-Returns h none campaign_id = Returns-create w campaign_id config.campaign_name h

  Returns-run_campaign :
      SavesSucceed w
      → (campaign_id : String) (resume : Bool)
      → Returns (run_campaign w config options campaign_id resume)
  unfolding run_campaign open_state
  Returns-run_campaign h campaign_id resume =
      search (session_returns, take_state-Returns, carry_on-Returns) depth 9

  -- Where every write of the state file succeeds, a campaign returns, new or resumed, whatever the
  -- hub, the disk, the download tools, Docker and the benchmarks answer.
  pub run_campaign-Returns :
      SavesSucceed w
      → (campaign_id : String) (resume : Bool) (s : Session)
      → (out : CampaignResult) × ((run_campaign w config options campaign_id resume s).0 ≡ ok out)
  run_campaign-Returns h campaign_id resume = (Returns-run_campaign h campaign_id resume).result
