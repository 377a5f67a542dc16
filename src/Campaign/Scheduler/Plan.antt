-- ===== src/Campaign/Scheduler/Plan.antt =====
-- scheduler.py: the plan holds exactly the runs of the models on the engines of the configuration.
use mathlib.Core.List.{Memᴰ}
use kitt.Prelude.{Option, none, some, List, [], ◌∷◌, ◌++◌, ◌≡◌, ◌↔◌, ◌⊎◌, inl, inr, refl, sym, ap}
use kitt.Campaign.Config.{CampaignModelSpec, CampaignEngineSpec, CampaignConfig, CampaignRunSpec}
use kitt.Campaign.Scheduler.Offers.{IsRunOf, plan_run-IsRunOf, IsRunOf-plan_run}
use kitt.Campaign.Scheduler.{plan_run, plan_model, plan_models, plan_runs, append_planned}

module _ {A : Type 0} where
  Memᴰ-append_left : {a : A} (xs ys : List A) → Memᴰ a xs → Memᴰ a (xs ++ ys)
  Memᴰ-append_left xs ys (Memᴰ.head e) = Memᴰ.head e
  Memᴰ-append_left (x ∷ xs) ys (Memᴰ.tail m) = Memᴰ.tail (Memᴰ-append_left xs ys m)

  Memᴰ-append_right : {a : A} (xs ys : List A) → Memᴰ a ys → Memᴰ a (xs ++ ys)
  Memᴰ-append_right [] ys m = m
  Memᴰ-append_right (x ∷ xs) ys m = Memᴰ.tail (Memᴰ-append_right xs ys m)

  Memᴰ-append_cases : {a : A} (xs ys : List A) → Memᴰ a (xs ++ ys) → Memᴰ a xs ⊎ Memᴰ a ys
  Memᴰ-append_cases [] ys m = inr m
  Memᴰ-append_cases (x ∷ xs) ys (Memᴰ.head e) = inl (Memᴰ.head e)
  Memᴰ-append_cases (x ∷ xs) ys (Memᴰ.tail m) = elim (Memᴰ-append_cases xs ys m) [
    | inl l ↦ inl (Memᴰ.tail l)
    | inr r ↦ inr r
  ]

-- Where a planned run comes from.
pub record IsPlanned (models : List CampaignModelSpec) (engines : List CampaignEngineSpec)
    (r : CampaignRunSpec) : Type 0 where
  pub model : CampaignModelSpec
  pub engine : CampaignEngineSpec
  pub listed_model : Memᴰ model models
  pub listed_engine : Memᴰ engine engines
  pub gives : IsRunOf model engine r

append_planned_cases :
    {r : CampaignRunSpec} (o : Option CampaignRunSpec) (rest : List CampaignRunSpec)
    → Memᴰ r (append_planned o rest)
    → (o ≡ some r) ⊎ Memᴰ r rest
append_planned_cases none rest h = inr h
append_planned_cases (some x) rest (Memᴰ.head p) = inl (ap some (sym p))
append_planned_cases (some x) rest (Memᴰ.tail h) = inr h

append_planned_some :
    {r : CampaignRunSpec} (o : Option CampaignRunSpec) (rest : List CampaignRunSpec)
    → o ≡ some r
    → Memᴰ r (append_planned o rest)
append_planned_some none rest e = absurd (cc)
append_planned_some (some x) rest e = Memᴰ.head (cc)

append_planned_rest :
    {r : CampaignRunSpec} (o : Option CampaignRunSpec) (rest : List CampaignRunSpec)
    → Memᴰ r rest
    → Memᴰ r (append_planned o rest)
append_planned_rest none rest h = h
append_planned_rest (some x) rest h = Memᴰ.tail h

module _ (m : CampaignModelSpec) where
  plan_model_sound :
      (es : List CampaignEngineSpec) (r : CampaignRunSpec)
      → Memᴰ r (plan_model m es)
      → (e : CampaignEngineSpec) × Memᴰ e es × (plan_run m e ≡ some r)
  unfolding plan_model
  plan_model_sound [] r h = elim h [ ]
  plan_model_sound (e ∷ es) r h = elim (append_planned_cases (plan_run m e) (plan_model m es) h) [
    | inl gives ↦ (e, Memᴰ.head refl, gives)
    | inr later ↦
        let (f, listed, gives) = plan_model_sound es r later in (f, Memᴰ.tail listed, gives)
  ]

  plan_model_complete :
      (es : List CampaignEngineSpec) (e : CampaignEngineSpec) (r : CampaignRunSpec)
      → Memᴰ e es
      → plan_run m e ≡ some r
      → Memᴰ r (plan_model m es)
  unfolding plan_model
  plan_model_complete [] e r h gives = elim h [ ]
  plan_model_complete (f ∷ es) e r (Memᴰ.head p) gives =
      append_planned_some (plan_run m f) (plan_model m es) (rw (← p) gives)
  plan_model_complete (f ∷ es) e r (Memᴰ.tail l) gives =
      append_planned_rest (plan_run m f) (plan_model m es) (plan_model_complete es e r l gives)

plan_models_sound :
    (ms : List CampaignModelSpec) (es : List CampaignEngineSpec) (r : CampaignRunSpec)
    → Memᴰ r (plan_models ms es)
    → IsPlanned ms es r
unfolding plan_models
plan_models_sound [] es r h = elim h [ ]
plan_models_sound (m ∷ ms) es r h =
    elim (Memᴰ-append_cases (plan_model m es) (plan_models ms es) h) [
      | inl here ↦
          let (e, listed, gives) = plan_model_sound m es r here in
          record {
            model = m;
            engine = e;
            listed_model = Memᴰ.head refl;
            listed_engine = listed;
            gives = plan_run-IsRunOf m e r gives;
          }
      | inr later ↦
          let p = plan_models_sound ms es r later in
          record {
            model = p.model;
            engine = p.engine;
            listed_model = Memᴰ.tail p.listed_model;
            listed_engine = p.listed_engine;
            gives = p.gives;
          }
    ]

plan_models_complete :
    (ms : List CampaignModelSpec) (es : List CampaignEngineSpec) (m : CampaignModelSpec)
    (e : CampaignEngineSpec) (r : CampaignRunSpec)
    → Memᴰ m ms
    → Memᴰ e es
    → plan_run m e ≡ some r
    → Memᴰ r (plan_models ms es)
unfolding plan_models
plan_models_complete [] es m e r h k gives = elim h [ ]
plan_models_complete (n ∷ ms) es m e r (Memᴰ.head p) k gives =
    Memᴰ-append_left _ _ (plan_model_complete n es e r k (rw (← p) gives))
plan_models_complete (n ∷ ms) es m e r (Memᴰ.tail l) k gives =
    Memᴰ-append_right (plan_model n es) _ (plan_models_complete ms es m e r l k gives)

-- A run is in the plan of a configuration exactly if it is the run of some listed model on some listed
-- engine: in bf16 from the safetensors repository for vllm, with the quants to discover from the GGUF
-- repository for llama_cpp and exllamav2, or from the tag for ollama, where that is given and not
-- empty.
pub plan_runs_iff :
    (config : CampaignConfig) (r : CampaignRunSpec)
    → Memᴰ r (plan_runs config) ↔ IsPlanned config.models config.engines r
unfolding plan_runs
plan_runs_iff config r = (
  plan_models_sound config.models config.engines r,
  λ p.
      plan_models_complete config.models config.engines p.model p.engine r p.listed_model
        p.listed_engine (IsRunOf-plan_run p.model p.engine r p.gives),
)
