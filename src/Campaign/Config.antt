-- ===== src/Campaign/Config.antt =====
-- models.py and result.py of src/kitt/campaign: what a campaign is configured with, a planned run,
-- and the outcome of one. Engine options (`config`, `formats`) are opaque texts.
use kitt.Prelude.{ℕ, String, Bool, Option, List, length, count_if}
use kitt.Prelude.Floats.{Float, FloatOps, zero_float}
use Prim.Native.String.{◌++◌}

pub record CampaignModelSpec : Type 0 where
  pub name : String
  pub params : String
  pub safetensors_repo : Option String
  pub gguf_repo : Option String
  pub ollama_tag : Option String
  pub estimated_size_gb : Float

pub record CampaignEngineSpec : Type 0 where
  pub name : String
  pub config : String
  pub suite : String

pub record DiskConfig : Type 0 where
  pub reserve_gb : Float
  pub storage_path : Option String
  pub cleanup_after_run : Bool

pub record QuantFilterConfig : Type 0 where
  pub skip_patterns : List String
  pub include_only : List String

-- The part of `CampaignConfig` that scheduler and runner read.
pub record CampaignConfig : Type 0 where
  pub campaign_name : String
  pub models : List CampaignModelSpec
  pub engines : List CampaignEngineSpec
  pub disk : DiskConfig
  pub quant_filter : QuantFilterConfig
  pub max_model_size_gb : Float
  pub devon_managed : Bool
  pub devon_url : Option String
  pub skip_gated : Bool

pub record CampaignRunSpec : Type 0 where
  pub model_name : String
  pub engine_name : String
  pub quant : String
  pub model_path : Option String
  pub repo_id : Option String
  pub include_pattern : Option String
  pub estimated_size_gb : Float
  pub suite : String
  pub engine_config : String

-- f"{model_name}|{engine_name}|{quant}"
unfoldable pub run_key : String → String → String → String
run_key model_name engine_name quant = model_name ++ ("|" ++ (engine_name ++ ("|" ++ quant)))

abbrev pub spec_key : CampaignRunSpec → String
spec_key r = run_key r.model_name r.engine_name r.quant

-- The statuses of a run, which the source spells as texts.
pub data RunStatus : Type 0 where
  pending running success failed skipped : RunStatus

abbrev pub is_success : RunStatus → Bool
is_success success = Bool.true
is_success _ = Bool.false

abbrev pub is_failed : RunStatus → Bool
is_failed failed = Bool.true
is_failed _ = Bool.false

abbrev pub is_skipped : RunStatus → Bool
is_skipped skipped = Bool.true
is_skipped _ = Bool.false

abbrev pub is_pending : RunStatus → Bool
is_pending pending = Bool.true
is_pending _ = Bool.false

-- status in ("success", "failed", "skipped")
abbrev pub is_done : RunStatus → Bool
is_done success = Bool.true
is_done failed = Bool.true
is_done skipped = Bool.true
is_done _ = Bool.false

-- `CampaignRunResult`; its time stamp and its metrics, which nothing reads, are left out.
pub record CampaignRunResult : Type 0 where
  pub model_name : String
  pub engine_name : String
  pub quant : String
  pub status : RunStatus
  pub duration_s : Float
  pub output_dir : String
  pub error : String

pub record CampaignResult : Type 0 where
  pub campaign_id : String
  pub campaign_name : String
  pub started_at : String
  pub completed_at : String
  pub runs : List CampaignRunResult

unfoldable pub result_total : CampaignResult → ℕ
result_total r = length r.runs

unfoldable pub result_succeeded : CampaignResult → ℕ
result_succeeded r = count_if (λ x. is_success x.status) r.runs

unfoldable pub result_failed : CampaignResult → ℕ
result_failed r = count_if (λ x. is_failed x.status) r.runs

unfoldable pub result_skipped : CampaignResult → ℕ
result_skipped r = count_if (λ x. is_skipped x.status) r.runs

-- sum(r.duration_s for r in runs), from the left, starting at 0
sum_durations : FloatOps → Float → List CampaignRunResult → Float
sum_durations ops acc List.[] = acc
sum_durations ops acc (List.◌∷◌ r rs) = sum_durations ops (ops.fadd acc r.duration_s) rs

unfoldable pub result_total_duration_s : FloatOps → CampaignResult → Float
unfolding sum_durations
result_total_duration_s ops r = sum_durations ops (zero_float ops) r.runs
