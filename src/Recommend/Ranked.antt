-- ===== src/Recommend/Ranked.antt =====
-- What is recommended: the latest results of their model and engine that meet the constraints, and no
-- more than the limit.
use mathlib.Core.List.Memᴰ
use mathlib.Core.List.{Memᴰ}
use kitt.Prelude.{String, false, Option, none, some, List, [], ◌∷◌, ◌≡◌, if◌then◌else◌, ◌==◌}
use kitt.Prelude.Floats.{Float, FloatOps, zero_float}
use kitt.Recommend.{StoredResult, Constraints, ScoreOps, float_or, key_of}

-- A bound that is given holds of the value.
abbrev AtMost : FloatOps → Option Float → Float → Type 0
AtMost ops none value = Unit {0}
AtMost ops (some bound) value = ops.flt bound value ≡ false

abbrev AtLeast : FloatOps → Option Float → Float → Type 0
AtLeast ops none value = Unit {0}
AtLeast ops (some bound) value = ops.flt value bound ≡ false

abbrev IsWanted : Option String → Option String → Type 0
IsWanted none engine = Unit {0}
IsWanted (some wanted) engine = engine ≡ some wanted

-- The constraints that a recommendation keeps. The system memory is not among them.
pub record IsWithin (ops : FloatOps) (scores : ScoreOps) (c : Constraints) (r : StoredResult)
    : Type 0 where
  pub vram : AtMost ops c.max_vram_gb (float_or ops scores (zero_float ops) r.peak_vram_gb)
  pub throughput : AtLeast ops c.min_throughput_tps (float_or ops scores (zero_float ops) r.avg_tps)
  pub accuracy : AtLeast ops c.min_accuracy (float_or ops scores (zero_float ops) r.accuracy)
  pub latency : AtMost ops c.max_latency_ms (float_or ops scores scores.infinity r.avg_latency_ms)
  pub engine : IsWanted c.engine r.engine

abbrev pub Within : FloatOps → ScoreOps → Option Constraints → StoredResult → Type 0
Within ops scores none r = Unit {0}
Within ops scores (some c) r = IsWithin ops scores c r

-- The first result of a key.
abbrev pub first_of : String → List StoredResult → Option StoredResult
first_of key [] = none
first_of key (r ∷ results) = if key_of r == key then some r else first_of key results
