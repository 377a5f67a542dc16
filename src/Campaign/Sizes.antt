-- ===== src/Campaign/Sizes.antt =====
-- The size estimate of scheduler.py of src/kitt/campaign: how many billions of parameters a text
-- names, and how large a quantization of such a model is. Texts are lists of code points.
pub mod Estimate
use kitt.Prelude.{
  ℕ, ◌+◌, String, Bool, true, false, Option, none, some, List, [], ◌∷◌, ◌++◌, map, length, ltb, eqb,
  ◌&&◌, ◌||◌, if◌then◌else◌,
}
use kitt.Prelude.Floats.{Float, FloatOps, zero_float}
use kitt.Prelude.Text.{codes, is_digit, is_space, lower, strip, same_text, ends_with, occurs_in}

-- _QUANT_BPP: bytes for each parameter, as the literals of the source.
abbrev pub quant_bpp : List (List ℕ × List ℕ)
quant_bpp =
    (codes "f32", codes "4.4")
    ∷ (codes "fp16", codes "2.2")
    ∷ (codes "bf16", codes "2.2")
    ∷ (codes "q8_0", codes "1.1")
    ∷ (codes "q6_k", codes "0.85")
    ∷ (codes "q5_k_m", codes "0.72")
    ∷ (codes "q5_k_s", codes "0.72")
    ∷ (codes "q5_k_l", codes "0.72")
    ∷ (codes "q5_0", codes "0.72")
    ∷ (codes "q5_1", codes "0.72")
    ∷ (codes "q4_k_m", codes "0.63")
    ∷ (codes "q4_k_s", codes "0.59")
    ∷ (codes "q4_k_l", codes "0.63")
    ∷ (codes "q4_0", codes "0.59")
    ∷ (codes "q4_0_4_4", codes "0.59")
    ∷ (codes "q4_0_4_8", codes "0.59")
    ∷ (codes "q4_0_8_8", codes "0.59")
    ∷ (codes "q4_1", codes "0.63")
    ∷ (codes "q3_k_m", codes "0.50")
    ∷ (codes "q3_k_s", codes "0.46")
    ∷ (codes "q3_k_l", codes "0.53")
    ∷ (codes "q2_k", codes "0.42")
    ∷ (codes "iq4_xs", codes "0.57")
    ∷ (codes "iq4_nl", codes "0.59")
    ∷ (codes "iq3_m", codes "0.45")
    ∷ (codes "iq3_s", codes "0.43")
    ∷ (codes "iq3_xs", codes "0.42")
    ∷ (codes "iq3_xxs", codes "0.40")
    ∷ (codes "iq2_m", codes "0.34")
    ∷ (codes "iq2_s", codes "0.33")
    ∷ (codes "iq2_xs", codes "0.32")
    ∷ (codes "iq2_xxs", codes "0.31")
    ∷ (codes "iq1_m", codes "0.26")
    ∷ (codes "iq1_s", codes "0.24")
    ∷ []

-- _QUANT_BPP.get(name)
get_bpp : List ℕ → List (List ℕ × List ℕ) → Option (List ℕ)
unfolding same_text
get_bpp name [] = none
get_bpp name ((k, v) ∷ table) = if same_text k name then some v else get_bpp name table

-- sorted(..., key=lambda x: len(x[0]), reverse=True): longest first, ties in their old order.
insert_by_length : List ℕ × List ℕ → List (List ℕ × List ℕ) → List (List ℕ × List ℕ)
insert_by_length x [] = x ∷ []
insert_by_length x (y ∷ ys) =
    if ltb (length x.0) (length y.0) then y ∷ insert_by_length x ys else x ∷ y ∷ ys

pub longest_first : List (List ℕ × List ℕ) → List (List ℕ × List ℕ)
unfolding insert_by_length
longest_first [] = []
longest_first (x ∷ xs) = insert_by_length x (longest_first xs)

or_rest : Option (List ℕ) → Option (List ℕ) → Option (List ℕ)
or_rest none rest = rest
or_rest (some v) rest = some v

-- The loop over the suffixes: the first that ends the name and stands in the table.
by_suffix : List ℕ → List (List ℕ) → Option (List ℕ)
unfolding get_bpp ends_with or_rest
by_suffix quant [] = none
by_suffix quant (suffix ∷ more) =
    or_rest (if ends_with quant suffix then get_bpp suffix quant_bpp else none)
      (by_suffix quant more)

-- The loop over the names of the table, in the order given: the first that the name contains.
pub by_substring : List ℕ → List (List ℕ × List ℕ) → Option (List ℕ × List ℕ)
unfolding occurs_in
by_substring quant [] = none
by_substring quant ((k, v) ∷ table) =
    if occurs_in k quant then some (k, v) else by_substring quant table

abbrev value_of : Option (List ℕ × List ℕ) → Option (List ℕ)
value_of none = none
value_of (some (k, v)) = some v

abbrev float_suffixes : List (List ℕ)
float_suffixes = codes "fp16" ∷ codes "bf16" ∷ codes "f32" ∷ codes "f16" ∷ []

-- The bytes for each parameter of a quantization that is in lower case and stripped.
find_bpp : List ℕ → Option (List ℕ)
unfolding get_bpp or_rest by_suffix by_substring longest_first
find_bpp quant = or_rest (get_bpp quant quant_bpp) (
    or_rest (by_suffix quant float_suffixes)
      (value_of (by_substring quant (longest_first quant_bpp))))

size_for : FloatOps → Float → Option (List ℕ) → Float
size_for ops params_b none = zero_float ops
size_for ops params_b (some bpp) = ops.round_1 (ops.fmul params_b (ops.literal bpp))

unfoldable pub estimate_quant_size_gb : FloatOps → Float → List ℕ → Float
unfolding size_for find_bpp lower strip
estimate_quant_size_gb ops params_b quant =
    if ops.fle params_b (zero_float ops)
    then zero_float ops
    else size_for ops params_b (find_bpp (strip (lower quant)))

-- The longest run of digits at the front, and the rest.
span_digits : List ℕ → List ℕ × List ℕ
span_digits [] = ([], [])
span_digits (c ∷ s) =
    let (ds, rest) = span_digits s in if is_digit c then (c ∷ ds, rest) else ([], c ∷ s)

skip_spaces : List ℕ → List ℕ
skip_spaces [] = []
skip_spaces (c ∷ s) = let rest = skip_spaces s in if is_space c then rest else c ∷ s

starts_with_b : List ℕ → Bool
starts_with_b [] = false
starts_with_b (c ∷ s) = eqb c b'B' || eqb c b'b'

-- The optional fraction (?:\.\d+)? behind the digits: what belongs to the number, and the rest.
take_fraction : List ℕ → List ℕ × List ℕ
unfolding span_digits
take_fraction [] = ([], [])
take_fraction (c ∷ s) =
    let (ds, rest) = span_digits s in
    if eqb c b'.' && ltb 0 (length ds) then (c ∷ ds, rest) else ([], c ∷ s)

-- The pattern at one place. A Shorter match of a part never helps, since what would have to follow
-- is a digit or a point.
match_params : List ℕ → Option (List ℕ)
unfolding span_digits take_fraction skip_spaces starts_with_b
match_params s =
    let (whole, after) = span_digits s in
    let (fraction, rest) = take_fraction after in
    if ltb 0 (length whole) && starts_with_b (skip_spaces rest)
    then some (whole ++ fraction)
    else none

-- _PARAMS_RE.search: the first place that matches.
search_params : List ℕ → Option (List ℕ)
unfolding match_params or_rest
search_params [] = none
search_params (c ∷ s) = or_rest (match_params (c ∷ s)) (search_params s)

number_or_zero : FloatOps → Option (List ℕ) → Float
number_or_zero ops none = zero_float ops
number_or_zero ops (some digits) = ops.literal digits

unfoldable pub parse_params : FloatOps → List ℕ → Float
unfolding search_params number_or_zero
parse_params ops params_str = number_or_zero ops (search_params params_str)
