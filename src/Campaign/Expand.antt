-- ===== src/Campaign/Expand.antt =====
-- `_expand_runs` and `_register_runs` of runner.py with `filter_quants` of gguf_discovery.py, in
-- src/kitt/campaign: planned runs become concrete ones, and these are entered into the state.
pub mod Register
use Prim.Native.Char.{code}
use kitt.Prelude.{
  ℕ, String, Bool, true, false, not, Option, none, some, List, [], ◌∷◌, ◌++◌, select, any, map, eqb,
  ◌||◌, ◌&&◌, if◌then◌else◌, ◌==◌,
}
use kitt.Prelude.Floats.{Float, FloatOps, zero_float}
use kitt.Prelude.Text.{codes}
use kitt.Campaign.Config.{
  CampaignModelSpec, CampaignConfig, CampaignRunSpec, QuantFilterConfig, spec_key, pending,
}
use kitt.Campaign.State.{RunState, CampaignState, key}
use kitt.Campaign.Session.{World}
use kitt.Campaign.Scheduler.{truthy}
use kitt.Campaign.Sizes.{estimate_quant_size_gb, parse_params}

-- model_params[name]: the last model of that name counts.
params_of : String → List CampaignModelSpec → String
params_of name [] = ""
params_of name (m ∷ ms) =
    let later = params_of name ms in
    if any (λ n. n.name == name) ms then later else if m.name == name then m.params else ""

-- The text behind the last colon of the rest, or the rest if the colon stands right here.
or_here : Bool → String → Option String → Option String
or_here colon s (some t) = some t
or_here colon s none = if colon then some s else none

-- tag.split(":")[-1], where the tag has a colon
after_colon : String → Option String
unfolding or_here
after_colon String.[] = none
after_colon (String.◌∷◌ c s) = or_here (eqb (code c) b':') s (after_colon s)

tag_quant : String → Option String → String
tag_quant tag none = tag
tag_quant tag (some quant) = quant

-- est_size or run.estimated_size_gb
size_or : FloatOps → Float → Float → Float
size_or ops est given =
    if ops.fle est (zero_float ops) && ops.fle (zero_float ops) est then given else est

module _ (w : World) where
  unfoldable pub filter_quants : QuantFilterConfig → List (String × String) → List (String × String)
  filter_quants f quants =
      let matches =
        λ (patterns : List String) (q : String × String). any (λ pat. w.fnmatch q.0 pat) patterns in
      let kept = select (λ q. not (matches f.skip_patterns q)) quants in
      elim f.include_only [ [] ↦ kept | p ∷ ps ↦ select (matches (p ∷ ps)) kept ]

  expand_gguf : CampaignRunSpec → String → Float → List (String × String) → List CampaignRunSpec
  unfolding size_or
  expand_gguf run repo params_b [] = []
  expand_gguf run repo params_b ((quant, pattern) ∷ qs) =
      let est = estimate_quant_size_gb w.ops params_b (codes quant) in
      record run {
        quant = quant;
        model_path = none;
        repo_id = some repo;
        include_pattern = some pattern;
        estimated_size_gb = size_or w.ops est run.estimated_size_gb;
      }
      ∷ expand_gguf run repo params_b qs

  expand_ollama : CampaignRunSpec → Float → List String → List CampaignRunSpec
  unfolding size_or after_colon tag_quant
  expand_ollama run params_b [] = []
  expand_ollama run params_b (tag ∷ tags) =
      let quant = tag_quant tag (after_colon tag) in
      let est = estimate_quant_size_gb w.ops params_b (codes quant) in
      record run {
        quant = quant;
        model_path = none;
        repo_id = some tag;
        include_pattern = none;
        estimated_size_gb = size_or w.ops est run.estimated_size_gb;
      }
      ∷ expand_ollama run params_b tags

  -- A run that needs no discovery gets an estimate where it has no size.
  estimate_run : CampaignRunSpec → Float → CampaignRunSpec
  estimate_run run params_b =
      let est = estimate_quant_size_gb w.ops params_b (codes run.quant) in
      if ops.fle run.estimated_size_gb (zero_float ops)
        && (ops.flt (zero_float ops) params_b && ops.flt (zero_float ops) est)
      then record run { estimated_size_gb = est }
      else run
    where
      open w use {ops}

  expand_run : CampaignConfig → CampaignRunSpec → Option String → List CampaignRunSpec
  unfolding params_of expand_gguf expand_ollama estimate_run
  expand_run config run none =
      estimate_run run (parse_params w.ops (codes (params_of run.model_name config.models))) ∷ []
  expand_run config run (some repo) =
      let params_b = parse_params w.ops (codes (params_of run.model_name config.models)) in
      if run.quant == "__discover_gguf__"
      then expand_gguf run repo params_b (filter_quants config.quant_filter (w.gguf_quants repo))
      else if run.quant == "__discover_ollama__"
      then expand_ollama run params_b (w.ollama_tags repo)
      else estimate_run run params_b ∷ []

  unfoldable pub expand_runs : CampaignConfig → List CampaignRunSpec → List CampaignRunSpec
  unfolding expand_run
  expand_runs config [] = []
  expand_runs config (run ∷ runs) =
      expand_run config run (truthy run.repo_id) ++ expand_runs config runs

abbrev pub new_run : Float → CampaignRunSpec → RunState
new_run zero run = record {
  model_name = run.model_name;
  engine_name = run.engine_name;
  quant = run.quant;
  status = pending;
  duration_s = zero;
  output_dir = "";
  error = "";
  started_at = "";
  completed_at = "";
}

-- The keys that are known are those of the state as it was, so a key that the new runs hold twice is
-- entered twice.
unfoldable pub register_runs : Float → List RunState → List CampaignRunSpec → List RunState
register_runs zero runs specs =
    runs ++ map (new_run zero) (select (λ r. not (any (λ x. key x == spec_key r) runs)) specs)
