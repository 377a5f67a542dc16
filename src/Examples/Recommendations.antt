-- ===== src/Examples/Recommendations.antt =====
-- Recommendations from two results of one engine.
use mathlib.Core.List.{Memᴰ}
use kitt.Prelude.{◌≡◌, ◌↔◌, ◌⊎◌, true, none, some, List, [], ◌∷◌, refl, arith, length, ltb, leb}
use kitt.Prelude.Floats.{FloatOps}
use kitt.Recommend.{
  StoredResult, Constraints, Candidate, ScoreOps, by_score, key_of, latest, allowed, score_result,
  sort_key, insert_ranked, rank, recommend, dominates, pareto_frontier,
}
use kitt.Recommend.Frontier.{IsComparison, IsBetter, pareto_frontier_iff, pareto_frontier_complete}

-- Floats compared by their patterns, which order the positive ones.
abbrev ops : FloatOps
ops = record {
  literal = λ t. record { bits = length t };
  flt = λ a b. ltb a.bits b.bits;
  fle = λ a b. leb a.bits b.bits;
  fadd = λ a b. a;
  fsub = λ a b. a;
  fmul = λ a b. a;
  show_1 = λ a. "";
  round_1 = λ a. a;
}

abbrev scores : ScoreOps
scores = record { fdiv = λ a b. a; round_4 = λ a. a; infinity = record { bits = 1000000 } }

ops-IsComparison : IsComparison ops
ops-IsComparison = record {
  flt_irrefl = λ a. ground arith;
  fle_trans = λ a b c h k. ground (arith, h, k);
  flt_fle_trans = λ a b c h k. ground (arith, h, k);
}

abbrev measured : StoredResult
measured = record {
  model = some "llama";
  engine = some "vllm";
  accuracy = some (record { bits = 70 });
  avg_tps = some (record { bits = 40 });
  peak_vram_gb = none;
  avg_latency_ms = none;
}

abbrev slower : StoredResult
slower = record measured { model = some "qwen"; avg_tps = some (record { bits = 30 }) }

abbrev results : List StoredResult
results = slower ∷ measured ∷ []

abbrev a_candidate : Candidate
a_candidate = score_result ops scores slower

recommended : Memᴰ a_candidate (recommend ops scores results none 500 by_score)
unfolding recommend rank insert_ranked latest allowed key_of score_result sort_key
recommended = Memᴰ.head refl

pareto_frontier_iff_example : Memᴰ a_candidate (pareto_frontier ops scores results none) ↔ (
    Memᴰ a_candidate (recommend ops scores results none 500 by_score)
    × (¬ (
        (d : Candidate) × Memᴰ d (recommend ops scores results none 500 by_score)
        × IsBetter ops d a_candidate)))
pareto_frontier_iff_example =
    pareto_frontier_iff ops scores ops-IsComparison results none a_candidate

pareto_frontier_complete_example :
    Memᴰ a_candidate (pareto_frontier ops scores results none)
    ⊎ ((d : Candidate) × Memᴰ d (pareto_frontier ops scores results none)
        × (dominates ops scores d a_candidate ≡ true))
pareto_frontier_complete_example =
    pareto_frontier_complete ops scores ops-IsComparison results none a_candidate recommended

-- At least the speed of the slower one, on vLLM.
abbrev bounds : Constraints
bounds = record {
  max_vram_gb = some (record { bits = 10 });
  max_ram_gb = none;
  min_throughput_tps = some (record { bits = 30 });
  min_accuracy = some (record { bits = 60 });
  max_latency_ms = none;
  engine = some "vllm";
}
