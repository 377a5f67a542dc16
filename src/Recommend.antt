-- ===== src/Recommend.antt =====
-- src/kitt/recommend: engine.py ranks the latest result of each model and engine that meets the
-- constraints of constraints.py, and finds the Pareto frontier of accuracy and throughput.
pub mod Ranked
pub mod Frontier
use Prim.Native.String.{◌++◌ as append_text}
use kitt.Prelude.{
  ℕ, zero, suc, String, Bool, true, false, not, Option, none, some, List, [], ◌∷◌, map, any, select,
  take, eqb, if◌then◌else◌, ◌==◌, ◌&&◌, ◌||◌,
}
use kitt.Prelude.Floats.{Float, FloatOps, zero_float}

-- A result of the store with the metrics that are read, `none` for a missing key.
pub record StoredResult : Type 0 where
  pub model : Option String
  pub engine : Option String
  pub accuracy : Option Float
  pub avg_tps : Option Float
  pub peak_vram_gb : Option Float
  pub avg_latency_ms : Option Float

-- HardwareConstraints
pub record Constraints : Type 0 where
  pub max_vram_gb : Option Float
  pub max_ram_gb : Option Float
  pub min_throughput_tps : Option Float
  pub min_accuracy : Option Float
  pub max_latency_ms : Option Float
  pub engine : Option String

-- A result with its scores.
pub record Candidate : Type 0 where
  pub result : StoredResult
  pub accuracy : Float
  pub throughput : Float
  pub score : Float

pub data SortBy : Type 0 where
  by_throughput by_accuracy by_score : SortBy

-- a / b and round(a, 4), beside the operations of `FloatOps`, and float("inf").
pub record ScoreOps : Type 0 where
  pub fdiv : Float → Float → Float
  pub round_4 : Float → Float
  pub infinity : Float

abbrev text_or_empty : Option String → String
text_or_empty none = ""
text_or_empty (some t) = t

unfoldable pub key_of : StoredResult → String
key_of r = append_text (text_or_empty r.model) (append_text "|" (text_or_empty r.engine))

-- The first result of each key, in their order; `seen` holds the keys so far.
unfoldable pub latest : List String → List StoredResult → List StoredResult
latest seen [] = []
latest seen (r ∷ results) =
    let old = latest seen results in
    let others = latest (key_of r ∷ seen) results in
    if any (λ k. k == key_of r) seen then old else r ∷ others

module _ (ops : FloatOps) (scores : ScoreOps) where
  abbrev pub float_or : Float → Option Float → Float
  float_or default none = default
  float_or default (some a) = a

  -- value > bound, for a bound that is given
  above : Option Float → Float → Bool
  above none value = false
  above (some bound) value = ops.flt bound value

  -- value < bound
  below : Option Float → Float → Bool
  below none value = false
  below (some bound) value = ops.flt value bound

  other_engine : Option String → Option String → Bool
  other_engine none engine = false
  other_engine (some wanted) none = true
  other_engine (some wanted) (some engine) = not (engine == wanted)

  -- HardwareConstraints.matches
  unfoldable pub meets : Constraints → StoredResult → Bool
  unfolding above below other_engine
  meets c r =
      if above c.max_vram_gb (float_or (zero_float ops) r.peak_vram_gb)
      then false
      else if below c.min_throughput_tps (float_or (zero_float ops) r.avg_tps)
      then false
      else if below c.min_accuracy (float_or (zero_float ops) r.accuracy)
      then false
      else if above c.max_latency_ms (float_or scores.infinity r.avg_latency_ms)
      then false
      else not (other_engine c.engine r.engine)

  -- min(a, 1.0)
  at_most_one : Float → Float
  at_most_one a =
      let one = ops.literal (b'1' ∷ b'.' ∷ b'0' ∷ []) in if ops.flt one a then one else a

  -- _score_result
  unfoldable pub score_result : StoredResult → Candidate
  unfolding at_most_one
  score_result r =
      let accuracy = float_or (zero_float ops) r.accuracy in
      let throughput = float_or (zero_float ops) r.avg_tps in
      let hundred = ops.literal (b'1' ∷ b'0' ∷ b'0' ∷ b'.' ∷ b'0' ∷ []) in
      let norm_tps = at_most_one (scores.fdiv throughput hundred) in
      record {
        result = r;
        accuracy = accuracy;
        throughput = throughput;
        score = scores.round_4 (
            ops.fadd (ops.fmul (at_most_one accuracy) (ops.literal (b'0' ∷ b'.' ∷ b'6' ∷ [])))
              (ops.fmul norm_tps (ops.literal (b'0' ∷ b'.' ∷ b'4' ∷ []))));
      }

  unfoldable pub allowed : Option Constraints → StoredResult → Bool
  allowed none r = true
  allowed (some c) r = meets c r

  unfoldable pub sort_key : SortBy → Candidate → Float
  sort_key by_throughput c = c.throughput
  sort_key by_accuracy c = c.accuracy
  sort_key by_score c = c.score

  -- sort(reverse=True): the greatest first, and equal keys in their order.
  unfoldable pub insert_ranked : SortBy → Candidate → List Candidate → List Candidate
  insert_ranked by c [] = c ∷ []
  insert_ranked by c (d ∷ ranked) =
      let later = insert_ranked by c ranked in
      if ops.flt (sort_key by c) (sort_key by d) then d ∷ later else c ∷ d ∷ ranked

  unfoldable pub rank : SortBy → List Candidate → List Candidate
  rank by [] = []
  rank by (c ∷ candidates) = insert_ranked by c (rank by candidates)

  -- `results` is what the store gives for order_by="-timestamp", limit=500.
  unfoldable pub recommend : List StoredResult → Option Constraints → ℕ → SortBy → List Candidate
  recommend results constraints limit by =
      take limit (rank by (map score_result (select (allowed constraints) (latest [] results))))

  -- `other` is at least as good in both and better in one.
  unfoldable pub dominates : Candidate → Candidate → Bool
  dominates other c =
      ops.fle c.accuracy other.accuracy
      && (ops.fle c.throughput other.throughput
          && (ops.flt c.accuracy other.accuracy || ops.flt c.throughput other.throughput))

  -- The candidates with their places, which tell them apart (`other is c`).
  unfoldable pub placed : ℕ → List Candidate → List (ℕ × Candidate)
  placed i [] = []
  placed i (c ∷ candidates) = (i, c) ∷ placed (suc i) candidates

  unfoldable pub is_dominated : List (ℕ × Candidate) → ℕ × Candidate → Bool
  is_dominated candidates c =
      any (λ (other : ℕ × Candidate). not (eqb other.0 c.0) && dominates other.1 c.1) candidates

  unfoldable pub frontier : List Candidate → List Candidate
  frontier candidates =
      map (λ (c : ℕ × Candidate). c.1)
        (select (λ c. not (is_dominated (placed 0 candidates) c)) (placed 0 candidates))

  unfoldable pub pareto_frontier : List StoredResult → Option Constraints → List Candidate
  pareto_frontier results constraints = frontier (recommend results constraints 500 by_score)
