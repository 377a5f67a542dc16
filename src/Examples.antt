-- ===== src/Examples.antt =====
-- A small campaign on which the theorems are tried: one model, one engine, tools that answer.
pub mod CampaignRuns
pub mod EngineRuns
pub mod Server
pub mod SuiteRuns
pub mod Checkpoints
pub mod AgentThread
pub mod Recommendations
pub mod Delivery
pub mod Execution
pub mod Stores
pub mod Stacks
pub mod Quants
pub mod Cleanups
pub mod AgentCommands
use kitt.Prelude.{
  ℕ, zero, suc, ◌+◌, ◌-◌, ◌*◌, String, Bool, true, false, Option, none, some, List, [], ◌∷◌, ◌≡◌,
  refl, arith, ltb, leb, not, Bool-cases,
}
use kitt.Prelude.Floats.{Float, FloatOps, IsOrdered, zero_float}
use kitt.Campaign.Config.{
  CampaignModelSpec, CampaignEngineSpec, DiskConfig, QuantFilterConfig, CampaignConfig,
  CampaignRunSpec,
}
use kitt.Campaign.State.{CampaignState, CampaignStatus}
use kitt.Campaign.Session.{World, Session, Attempt, Exit, HubAnswer}
use kitt.Campaign.Execute.{Options}

-- Whole numbers in place of floats.
abbrev read_digits : List ℕ → ℕ → ℕ
read_digits [] n = n
read_digits (d ∷ ds) n = read_digits ds (n * 10 + (d - 48))

abbrev pub whole : ℕ → Float
whole n = record { bits = n }

abbrev pub whole_ops : FloatOps
whole_ops = record {
  literal = λ ds. whole (read_digits ds 0);
  flt = λ a b. ltb a.bits b.bits;
  fle = λ a b. leb a.bits b.bits;
  fadd = λ a b. whole (a.bits + b.bits);
  fsub = λ a b. whole (a.bits - b.bits);
  fmul = λ a b. whole (a.bits * b.bits);
  show_1 = λ _. "n";
  round_1 = λ a. a;
}

pub whole_ops-IsOrdered : IsOrdered whole_ops
whole_ops-IsOrdered = record {
  fle_of_not_flt = λ a b h. ground arith;
  fle_of_flt = λ a b h. ground arith;
  fle_trans = λ a b c h k. ground arith;
}

abbrev pub a_world : World
a_world = record {
  ops = whole_ops;
  now = λ _. "2025-01-01T00:00:00";
  time = λ n. whole n;
  save_error = λ _. none;
  free_gb = λ _ _. some (whole 500);
  home = "/home/kitt";
  show_code = λ _. "1";
  hub = λ _ _. HubAnswer.model false;
  remote_download = λ _ _ _. Attempt.import_error;
  devon_available = false;
  bridge_download = λ _ _ _. Attempt.import_error;
  cli_download = λ _ _ _. Exit.exited 0 "";
  remote_remove = λ _ _. Attempt.import_error;
  bridge_remove = λ _ _. Attempt.import_error;
  find_path = λ _ _ _. some "/models/llama";
  kitt_run = λ _ _ _ _. Exit.exited 0 "/results/llama";
  fnmatch = λ _ _. false;
  gguf_quants = λ _. [];
  ollama_tags = λ _. [];
}

abbrev pub a_model : CampaignModelSpec
a_model = record {
  name = "llama";
  params = "8B";
  safetensors_repo = some "meta/llama";
  gguf_repo = none;
  ollama_tag = none;
  estimated_size_gb = whole 16;
}

abbrev pub an_engine : CampaignEngineSpec
an_engine = record { name = "vllm"; config = ""; suite = "standard" }

abbrev pub a_config : CampaignConfig
a_config = record {
  campaign_name = "nightly";
  models = a_model ∷ [];
  engines = an_engine ∷ [];
  disk = record { reserve_gb = whole 100; storage_path = none; cleanup_after_run = true };
  quant_filter = record { skip_patterns = []; include_only = [] };
  max_model_size_gb = whole 0;
  devon_managed = true;
  devon_url = none;
  skip_gated = true;
}

abbrev pub a_run : CampaignRunSpec
a_run = record {
  model_name = "llama";
  engine_name = "vllm";
  quant = "bf16";
  model_path = none;
  repo_id = some "meta/llama";
  include_pattern = none;
  estimated_size_gb = whole 16;
  suite = "standard";
  engine_config = "";
}

abbrev pub options : Options
options = record { dry_run = false; has_exporter = true }

abbrev pub a_session : Session
a_session = record {
  files = [];
  state = record {
    campaign_id = "c1";
    campaign_name = "nightly";
    started_at = "2025-01-01T00:00:00";
    completed_at = "";
    status = CampaignStatus.running;
    runs = [];
  };
  asked = 0;
  trace = [];
}
