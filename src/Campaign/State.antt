-- ===== src/Campaign/State.antt =====
-- The state of a campaign, from state_manager.py of src/kitt/campaign.
use kitt.Prelude.{ℕ, String, Bool, List, ◌&&◌, length, any, count_if, ◌==◌}
use kitt.Prelude.Floats.{Float}
use kitt.Campaign.Config.{
  RunStatus, is_success, is_failed, is_skipped, is_pending, is_done, run_key,
}

pub record RunState : Type 0 where
  pub model_name : String
  pub engine_name : String
  pub quant : String
  pub status : RunStatus
  pub duration_s : Float
  pub output_dir : String
  pub error : String
  pub started_at : String
  pub completed_at : String

abbrev pub key : RunState → String
key r = run_key r.model_name r.engine_name r.quant

pub data CampaignStatus : Type 0 where
  running completed failed paused : CampaignStatus

pub record CampaignState : Type 0 where
  pub campaign_id : String
  pub campaign_name : String
  pub started_at : String
  pub completed_at : String
  pub status : CampaignStatus
  pub runs : List RunState

-- key in {r.key for r in runs if r.status in (...)}
unfoldable pub in_completed_keys : String → List RunState → Bool
in_completed_keys k runs = any (λ r. (key r == k) && is_done r.status) runs

unfoldable pub total : CampaignState → ℕ
total s = length s.runs

unfoldable pub succeeded : CampaignState → ℕ
succeeded s = count_if (λ r. is_success r.status) s.runs

unfoldable pub failed_count : CampaignState → ℕ
failed_count s = count_if (λ r. is_failed r.status) s.runs

unfoldable pub skipped_count : CampaignState → ℕ
skipped_count s = count_if (λ r. is_skipped r.status) s.runs

unfoldable pub pending_count : CampaignState → ℕ
pending_count s = count_if (λ r. is_pending r.status) s.runs

-- What stands in a file of the folder: the JSON object of a state, its array of runs, or a text that
-- does not parse. A value of a kind that `save` does not write is `other`.
pub data FileValue : Type 0 where
  text : String → FileValue
  number : Float → FileValue
  other : FileValue

abbrev pub RunDict : Type 0
RunDict = List (String × FileValue)

pub data Entry : Type 0 where
  plain : FileValue → Entry
  dicts : List RunDict → Entry

abbrev pub StateDict : Type 0
StateDict = List (String × Entry)

pub data StateFile : Type 0 where
  saved : StateDict → StateFile
  unreadable : StateFile
