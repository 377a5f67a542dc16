-- ===== src/Campaign/Saved/Loads.antt =====
-- The object that `save` writes is read back as the same state.
use kitt.Prelude.{some, List, [], ◌∷◌, ◌≡◌, refl, map, lookup}
use kitt.Campaign.Config.{RunStatus}
use kitt.Campaign.State.{RunState, CampaignState, CampaignStatus}
use kitt.Campaign.Saved.{
  status_text, campaign_status_text, run_dict, state_dict, read_status, read_campaign_status,
  text_of, number_of, needed, text_or, duration_or, is_field, only_fields, build_run, read_run,
  read_runs, plain_text, entry, default_entry, loaded_runs, read_state,
}

read_status-status_text : (s : RunStatus) → read_status (status_text s) ≡ some s
unfolding read_status status_text
read_status-status_text RunStatus.pending = refl
read_status-status_text RunStatus.running = refl
read_status-status_text RunStatus.success = refl
read_status-status_text RunStatus.failed = refl
read_status-status_text RunStatus.skipped = refl

read_campaign_status-text :
    (s : CampaignStatus) → read_campaign_status (campaign_status_text s) ≡ some s
unfolding read_campaign_status campaign_status_text
read_campaign_status-text CampaignStatus.running = refl
read_campaign_status-text CampaignStatus.completed = refl
read_campaign_status-text CampaignStatus.failed = refl
read_campaign_status-text CampaignStatus.paused = refl

read_run-run_dict : (r : RunState) → read_run (run_dict r) ≡ some r
unfolding run_dict read_run only_fields is_field build_run needed text_or duration_or text_of
    number_of lookup
read_run-run_dict r = rw (read_status-status_text r.status) refl

read_runs-run_dict : (rs : List RunState) → read_runs (map run_dict rs) ≡ some rs
unfolding read_runs
read_runs-run_dict [] = refl
read_runs-run_dict (r ∷ rs) = rw (read_run-run_dict r, read_runs-run_dict rs) refl

pub read_state-state_dict : (st : CampaignState) → read_state (state_dict st) ≡ some st
unfolding state_dict read_state entry default_entry loaded_runs plain_text text_of lookup
read_state-state_dict st = rw (read_campaign_status-text st.status, read_runs-run_dict st.runs) refl
