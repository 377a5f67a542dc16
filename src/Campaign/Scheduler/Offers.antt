-- ===== src/Campaign/Scheduler/Offers.antt =====
-- scheduler.py: which run a model gives on an engine.
use kitt.Prelude.{
  String, Bool, true, false, ◌≢◌, ◌∙◌, ◌||◌, ◌==◌, arith, eq_iff, Bool-cases, Option, none, some,
  ◌≡◌, ◌⊎◌, inl, inr, refl, sym, ap,
}
use kitt.Campaign.Config.{CampaignModelSpec, CampaignEngineSpec, CampaignRunSpec}
use kitt.Campaign.Scheduler.{truthy, planned, branch, plan_run}

-- The repository that is given and not empty.
abbrev Given : Option String → String → Type 0
Given o repo = (o ≡ some repo) × (repo ≢ "")

-- What an engine runs of a model: the quant of the plan and the repository.
abbrev Offers : CampaignModelSpec → String → String → String → Type 0
Offers m engine_name quant repo =
    ((engine_name ≡ "vllm") × (quant ≡ "bf16") × Given m.safetensors_repo repo)
    ⊎ ((((engine_name ≡ "llama_cpp") ⊎ (engine_name ≡ "exllamav2"))
          × (quant ≡ "__discover_gguf__")
          × Given m.gguf_repo repo)
        ⊎ ((engine_name ≡ "ollama") × (quant ≡ "__discover_ollama__") × Given m.ollama_tag repo))

-- A run of the model on the engine, from the repository that the engine takes.
pub record IsRunOf (m : CampaignModelSpec) (e : CampaignEngineSpec) (r : CampaignRunSpec)
    : Type 0 where
  pub quant : String
  pub repo : String
  pub offered : Offers m e.name quant repo
  pub whole : r ≡ record {
    model_name = m.name;
    engine_name = e.name;
    quant = quant;
    model_path = none;
    repo_id = some repo;
    include_pattern = none;
    estimated_size_gb = m.estimated_size_gb;
    suite = e.suite;
    engine_config = e.config;
  }

module _ (m : CampaignModelSpec) (e : CampaignEngineSpec) where
  truthy-cases :
      (o : Option String)
      → (truthy o ≡ none) ⊎ ((repo : String) × (truthy o ≡ some repo) × Given o repo)
  truthy-cases none = inl refl
  truthy-cases (some repo) = elim (Bool-cases (repo == "")) [
    | inl empty ↦ inl (rw empty refl)
    | inr full ↦
        inr (repo, rw full refl, (refl, λ same. absurd (let s = (eq_iff repo "").1 same in cc)))
  ]

  Given-truthy : (o : Option String) (repo : String) → Given o repo → truthy o ≡ some repo
  Given-truthy none repo (same, full) = absurd (cc)
  Given-truthy (some x) repo (same, full) =
      let same' : x ≡ repo = cc in
      elim (Bool-cases (x == "")) [
        | inl empty ↦ absurd (full (sym same' ∙ (eq_iff x "").0 empty))
        | inr not_empty ↦ rw not_empty (ap some same')
      ]

  -- The run of a branch that is taken.
  branch-cases :
      (b : Bool) (o : Option String) (quant : String) (otherwise : Option CampaignRunSpec)
      (r : CampaignRunSpec)
      → branch b (truthy o) (planned m e quant) otherwise ≡ some r
      → ((repo : String) × (b ≡ true) × Given o repo × (planned m e quant repo ≡ r))
        ⊎ (otherwise ≡ some r)
  unfolding branch
  branch-cases false o quant otherwise r h = inr h
  branch-cases true o quant otherwise r h = elim (truthy-cases o) [
    | inl absent ↦ inr (rw absent at h)
    | inr (repo, present, given) ↦
        let x : some (planned m e quant repo) ≡ some r = rw present at h in
        inl (repo, refl, given, cc)
  ]

  either :
      ((e.name == "llama_cpp") || (e.name == "exllamav2")) ≡ true
      → (e.name ≡ "llama_cpp") ⊎ (e.name ≡ "exllamav2")
  either on = elim (Bool-cases (e.name == "llama_cpp")) [
    | inl llama ↦ inl ((eq_iff e.name "llama_cpp").0 llama)
    | inr other ↦ inr ((eq_iff e.name "exllamav2").0 (ground (arith, on, other)))
  ]

  same_quant :
      {r : CampaignRunSpec} (h : IsRunOf m e r) {quant : String}
      → h.quant ≡ quant
      → planned m e quant h.repo ≡ r
  unfolding planned
  same_quant h q = ap (λ x. planned m e x h.repo) (sym q) ∙ sym h.whole

  pub plan_run-IsRunOf : (r : CampaignRunSpec) → plan_run m e ≡ some r → IsRunOf m e r
  unfolding plan_run planned
  plan_run-IsRunOf r h = elim (branch-cases (e.name == "vllm") m.safetensors_repo "bf16" _ r h) [
    | inl (repo, on, given, same) ↦ record {
      quant = "bf16";
      repo = repo;
      offered = inl ((eq_iff e.name "vllm").0 on, refl, given);
      whole = sym same;
    }
    | inr later ↦
        elim (branch-cases (e.name == "llama_cpp" || e.name == "exllamav2") m.gguf_repo
          "__discover_gguf__" _ r later) [
            | inl (repo, on, given, same) ↦ record {
              quant = "__discover_gguf__";
              repo = repo;
              offered = inr (inl (either on, refl, given));
              whole = sym same;
            }
            | inr last ↦
                elim (branch-cases (e.name == "ollama") m.ollama_tag "__discover_ollama__" _ r
                  last) [
                    | inl (repo, on, given, same) ↦ record {
                      quant = "__discover_ollama__";
                      repo = repo;
                      offered = inr (inr ((eq_iff e.name "ollama").0 on, refl, given));
                      whole = sym same;
                    }
                    | inr nothing ↦ absurd (cc)
                  ]
          ]
  ]

  named : (test : String) {name : String} → e.name ≡ name → (e.name == test) ≡ (name == test)
  named test same = ap (λ n. n == test) same

  pub IsRunOf-plan_run : (r : CampaignRunSpec) → IsRunOf m e r → plan_run m e ≡ some r
  unfolding plan_run branch
  IsRunOf-plan_run r h = elim h.offered [
    | inl (same, quant, given) ↦
        let vllm : (e.name == "vllm") ≡ true = named "vllm" same in
        rw (vllm, Given-truthy m.safetensors_repo h.repo given) (ap some (same_quant h quant))
    | inr (inl (inl same, quant, given)) ↦
        let vllm : (e.name == "vllm") ≡ false = named "vllm" same in
        let llama : (e.name == "llama_cpp") ≡ true = named "llama_cpp" same in
        rw (vllm, llama, Given-truthy m.gguf_repo h.repo given) (ap some (same_quant h quant))
    | inr (inl (inr same, quant, given)) ↦
        let vllm : (e.name == "vllm") ≡ false = named "vllm" same in
        let llama : (e.name == "llama_cpp") ≡ false = named "llama_cpp" same in
        let exllama : (e.name == "exllamav2") ≡ true = named "exllamav2" same in
        rw (vllm, llama, exllama, Given-truthy m.gguf_repo h.repo given)
          (ap some (same_quant h quant))
    | inr (inr (same, quant, given)) ↦
        let vllm : (e.name == "vllm") ≡ false = named "vllm" same in
        let llama : (e.name == "llama_cpp") ≡ false = named "llama_cpp" same in
        let exllama : (e.name == "exllamav2") ≡ false = named "exllamav2" same in
        let ollama : (e.name == "ollama") ≡ true = named "ollama" same in
        rw (vllm, llama, exllama, ollama, Given-truthy m.ollama_tag h.repo given)
          (ap some (same_quant h quant))
  ]
