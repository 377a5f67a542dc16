-- ===== src/Campaign/Runner/Resume.antt =====
-- Resuming a campaign whose planned runs are all done.
use kitt.Prelude.{String, true, some, List, [], ◌∷◌, ◌≡◌, refl, sym, ap, ◌∙◌, subst, All, length}
use kitt.Prelude.Exec.{ok, gets, modify, ◌>>=◌}
use kitt.Campaign.Config.{CampaignConfig, CampaignRunSpec, CampaignResult, spec_key}
use kitt.Campaign.State.{CampaignState}
use kitt.Campaign.Session.{World, Session}
use kitt.Campaign.Manager.{load, is_run_done}
use kitt.Campaign.Expand.Register.{done-register_runs}
use kitt.Campaign.Execute.{Options}
use kitt.Campaign.Runner.{
  zero_s, run_all, register, remaining, take_state, open_state, fresh_result, loop_from, carry_on,
  run_campaign,
}
use kitt.Campaign.Runner.Loop.{nil_result}
use kitt.Campaign.Runner.Completion.{planned, carry_on_lem}

module _ (w : World) (config : CampaignConfig) (options : Options) where
  abbrev here : List CampaignRunSpec
  here = planned w config options

  remaining-nil :
      (st : CampaignState) (specs : List CampaignRunSpec)
      → All (λ r. is_run_done st (spec_key r) ≡ true) specs
      → remaining w config options st specs ≡ []
  remaining-nil st [] h = refl
  remaining-nil st (r ∷ specs) h = rw h.0 (remaining-nil st specs h.1)

  registered-done :
      (s : Session) (specs all : List CampaignRunSpec)
      → All (λ r. is_run_done s.state (spec_key r) ≡ true) specs
      → All (λ r. is_run_done (register w config options all s).state (spec_key r) ≡ true) specs
  unfolding register is_run_done
  registered-done s [] all h = tt
  registered-done s (r ∷ specs) all h = (
    done-register_runs (zero_s w config options) s.state.runs (spec_key r) all h.0,
    registered-done s specs all h.1,
  )

  carry_on-nothing :
      (campaign_id : String) (s : Session) (out : CampaignResult)
      → All (λ r. is_run_done s.state (spec_key r) ≡ true) here
      → (carry_on w config options campaign_id s).0 ≡ ok out
      → out.runs ≡ []
  unfolding loop_from fresh_result
  carry_on-nothing campaign_id s out done e =
      let c = carry_on_lem w config options campaign_id s out e in
      let all_done : All (λ r. is_run_done c.before.state (spec_key r) ≡ true) here =
        subst (λ (st : CampaignState). All (λ r. is_run_done st (spec_key r) ≡ true) here)
          (sym c.registered) (registered-done s here here done) in
      let first = fresh_result w config options campaign_id c.before.state in
      let ran' : (run_all w config options (length here) first [] c.before).0 ≡ ok c.result =
        subst (λ l. (run_all w config options (length here) first l c.before).0 ≡ ok c.result)
          (remaining-nil c.before.state here all_done) c.ran in
      c.finished.results
      ∙ ap (λ (x : CampaignResult). x.runs)
          (sym (nil_result w config options (length here) first c.result c.before ran'))

  -- Resuming a campaign whose loaded state has the key of every planned run done carries out no run:
  -- where it returns, its result has no runs.
  pub run_campaign-resume :
      (campaign_id : String) (s : Session) (st : CampaignState) (out : CampaignResult)
      → load campaign_id s.files ≡ some st
      → All (λ r. is_run_done st (spec_key r) ≡ true) here
      → (run_campaign w config options campaign_id true s).0 ≡ ok out
      → out.runs ≡ []
  unfolding run_campaign open_state take_state ◌>>=◌ gets modify
  run_campaign-resume campaign_id s st out h done e =
      carry_on-nothing campaign_id (record s { state = st }) out done (rw h at e)
