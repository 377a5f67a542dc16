-- ===== src/Prelude/Floats.antt =====
-- Python's floats. A float is its bit pattern; its operations are the interpreter's and come as a
-- record that the definitions take, so that nothing is assumed of rounding.
use Prim.Native.Nat.{ℕ}
use mathlib.Core.List.{List, [], ◌∷◌}
use Prim.Native.String.{String}
use mathlib.Core.Path.{◌≡◌}
use mathlib.Core.Bool.{Bool, true, false}

pub record Float : Type 0 where
  pub bits : ℕ

pub record FloatOps : Type 0 where
  -- float(text), for the literals of the source and for matched digits
  pub literal : List ℕ → Float
  -- a < b
  pub flt : Float → Float → Bool
  -- a <= b
  pub fle : Float → Float → Bool
  pub fadd : Float → Float → Float
  pub fsub : Float → Float → Float
  pub fmul : Float → Float → Float
  -- f"{a:.1f}"
  pub show_1 : Float → String
  -- round(a, 1)
  pub round_1 : Float → Float

abbrev pub zero_float : FloatOps → Float
zero_float ops = ops.literal (b'0' ∷ [])

-- How the comparisons of IEEE numbers that are not NaN relate.
pub record IsOrdered (ops : FloatOps) : Type 0 where
  pub fle_of_not_flt : (a b : Float) → ops.flt a b ≡ false → ops.fle b a ≡ true
  pub fle_of_flt : (a b : Float) → ops.flt a b ≡ true → ops.fle a b ≡ true
  pub fle_trans : (a b c : Float) → ops.fle a b ≡ true → ops.fle b c ≡ true → ops.fle a c ≡ true
