-- ===== src/Campaign/Scheduler.antt =====
-- scheduler.py of src/kitt/campaign: which runs a configuration plans, their order by size, and
-- which runs are skipped for their size or for want of disk space.
pub mod Offers
pub mod Plan
pub mod Disk
pub mod Order
use kitt.Prelude.{
  ℕ, String, Bool, true, false, not, Option, none, some, List, [], ◌∷◌, ◌++◌, select, ◌||◌,
  if◌then◌else◌, ◌==◌,
}
use kitt.Prelude.Floats.{Float, FloatOps, zero_float}
use kitt.Prelude.Exec.{Exec, Result, ok, pure, ◌>>=◌}
use kitt.Campaign.Config.{
  CampaignModelSpec, CampaignEngineSpec, DiskConfig, CampaignConfig, CampaignRunSpec, spec_key,
}
use kitt.Campaign.State.{CampaignState, in_completed_keys}
use kitt.Campaign.Session.{World, Session, query}

-- An optional text counts as absent when it is empty.
abbrev pub truthy : Option String → Option String
truthy none = none
truthy (some s) = if s == "" then none else some s

or_else : Option String → String → String
or_else none d = d
or_else (some s) d = if s == "" then d else s

planned : CampaignModelSpec → CampaignEngineSpec → String → String → CampaignRunSpec
planned m e quant repo = record {
  model_name = m.name;
  engine_name = e.name;
  quant = quant;
  model_path = none;
  repo_id = some repo;
  include_pattern = none;
  estimated_size_gb = m.estimated_size_gb;
  suite = e.suite;
  engine_config = e.config;
}

-- The branch of a ladder: taken if the engine fits and the model has a repository for it.
branch :
    Bool
    → Option String
    → (String → CampaignRunSpec)
    → Option CampaignRunSpec
    → Option CampaignRunSpec
branch true (some repo) make otherwise = some (make repo)
branch _ _ make otherwise = otherwise

-- The body of the two loops of `plan_runs`.
unfoldable pub plan_run : CampaignModelSpec → CampaignEngineSpec → Option CampaignRunSpec
unfolding planned branch
plan_run m e = branch (e.name == "vllm") (truthy m.safetensors_repo) (planned m e "bf16") (
    branch (e.name == "llama_cpp" || e.name == "exllamav2") (truthy m.gguf_repo)
      (planned m e "__discover_gguf__")
      (branch (e.name == "ollama") (truthy m.ollama_tag) (planned m e "__discover_ollama__") none))

abbrev append_planned : Option CampaignRunSpec → List CampaignRunSpec → List CampaignRunSpec
append_planned none rest = rest
append_planned (some r) rest = r ∷ rest

plan_model : CampaignModelSpec → List CampaignEngineSpec → List CampaignRunSpec
plan_model m [] = []
plan_model m (e ∷ es) = append_planned (plan_run m e) (plan_model m es)

plan_models : List CampaignModelSpec → List CampaignEngineSpec → List CampaignRunSpec
plan_models [] es = []
plan_models (m ∷ ms) es = plan_model m es ++ plan_models ms es

unfoldable pub plan_runs : CampaignConfig → List CampaignRunSpec
unfolding plan_model plan_models
plan_runs config = plan_models config.models config.engines

module _ (ops : FloatOps) where
  -- Python's `sorted` by the size: stable, and it compares by `<`.
  insert_by_size : CampaignRunSpec → List CampaignRunSpec → List CampaignRunSpec
  insert_by_size r [] = r ∷ []
  insert_by_size r (x ∷ xs) =
      if ops.flt x.estimated_size_gb r.estimated_size_gb
      then x ∷ insert_by_size r xs
      else r ∷ x ∷ xs

  unfoldable pub order_by_size : List CampaignRunSpec → List CampaignRunSpec
  unfolding insert_by_size
  order_by_size [] = []
  order_by_size (r ∷ rs) = insert_by_size r (order_by_size rs)

  -- The run exceeds the configured limit; a limit or a size of 0 switches the rule off.
  unfoldable pub should_skip_for_size : Float → CampaignRunSpec → Bool
  should_skip_for_size limit r =
      if ops.fle limit (zero_float ops)
      then false
      else if ops.fle r.estimated_size_gb (zero_float ops)
      then false
      else ops.flt limit r.estimated_size_gb

  -- The free space that the file system reports; where it reports none, there is enough.
  space_is_enough : DiskConfig → CampaignRunSpec → Option Float → Bool
  space_is_enough disk r none = true
  space_is_enough disk r (some free_gb) =
      not (ops.flt free_gb (ops.fadd disk.reserve_gb r.estimated_size_gb))

unfoldable pub filter_completed : List CampaignRunSpec → CampaignState → List CampaignRunSpec
filter_completed runs st = select (λ r. not (in_completed_keys (spec_key r) st.runs)) runs

module _ (w : World) where
  pub check_disk_space : DiskConfig → CampaignRunSpec → Exec Session Bool
  unfolding or_else space_is_enough
  check_disk_space disk r = do
    free ← query (λ n. w.free_gb n (or_else disk.storage_path w.home))
    pure (space_is_enough w.ops disk r free)

  should_skip : DiskConfig → Float → CampaignRunSpec → Exec Session Bool
  should_skip disk limit r = do
    enough ← check_disk_space disk r
    pure (if enough then should_skip_for_size w.ops limit r else true)
