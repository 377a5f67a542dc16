-- ===== src/Campaign/Sizes/Estimate.antt =====
-- The estimate on names that the table holds and on names that contain one.
use mathlib.Core.List.{Memᴰ}
use kitt.Prelude.{
  ℕ, ◌≤◌, true, none, some, List, [], ◌∷◌, ◌≡◌, refl, sym, subst, arith, length, All, ltb,
  Bool-cases, inl, inr,
}
use kitt.Prelude.Floats.{Float, FloatOps, zero_float}
use kitt.Prelude.Text.{codes, occurs_in}
use kitt.Campaign.Sizes.{
  quant_bpp, insert_by_length, longest_first, by_substring, find_bpp, estimate_quant_size_gb,
  search_params,
}

parse_tests :
    (search_params (codes "Llama 1.5B") ≡ some (codes "1.5"))
    × (search_params (codes "8 b") ≡ some (codes "8"))
    × (search_params (codes "x7") ≡ none)
    × (search_params (codes "3.1-70B") ≡ some (codes "70"))
unfolding search_params
parse_tests = (refl, refl, refl, refl)

bpp_tests :
    (find_bpp (codes "q4_k_m") ≡ some (codes "0.63"))
    × (find_bpp (codes "70b-instruct-fp16") ≡ some (codes "2.2"))
    × (find_bpp (codes "8b-instruct-q4_0_4_4") ≡ some (codes "0.59"))
    × (find_bpp (codes "f16") ≡ none)
unfolding find_bpp
bpp_tests = (refl, refl, refl, refl)

abbrev Table : Type 0
Table = List (List ℕ × List ℕ)

abbrev Shorter : List ℕ × List ℕ → List ℕ × List ℕ → Type 0
Shorter x y = length y.0 ≤ length x.0

abbrev IsDescending : Table → Type 0
IsDescending [] = Unit {0}
IsDescending (x ∷ xs) = All (Shorter x) xs × IsDescending xs

All-Shorter_trans :
    (x y : List ℕ × List ℕ) (t : Table) → Shorter x y → All (Shorter y) t → All (Shorter x) t
All-Shorter_trans x y [] h all = tt
All-Shorter_trans x y (z ∷ t) h all = (omega (arith, all.0), All-Shorter_trans x y t h all.1)

module _ (P : List ℕ × List ℕ → Type 0) where
  All-insert : (x : List ℕ × List ℕ) (t : Table) → P x → All P t → All P (insert_by_length x t)
  unfolding insert_by_length
  All-insert x [] h all = (h, tt)
  All-insert x (y ∷ ys) h all = ground (arith, All-insert x ys h)

  All-insert_inv : (x : List ℕ × List ℕ) (t : Table) → All P (insert_by_length x t) → P x × All P t
  unfolding insert_by_length
  All-insert_inv x [] h = h
  All-insert_inv x (y ∷ ys) h = ground (arith, All-insert_inv x ys)

  All-longest_first : (t : Table) → All P (longest_first t) → All P t
  unfolding longest_first
  All-longest_first [] h = tt
  All-longest_first (x ∷ t) h =
      let (here, rest) = All-insert_inv x (longest_first t) h in (here, All-longest_first t rest)

insert-IsDescending :
    (x : List ℕ × List ℕ) (t : Table) → IsDescending t → IsDescending (insert_by_length x t)
unfolding insert_by_length
insert-IsDescending x [] h = (tt, tt)
insert-IsDescending x (y ∷ ys) h = elim (Bool-cases (ltb (length x.0) (length y.0))) [
  | inl lt ↦ rw lt (All-insert (Shorter y) x ys (ground arith) h.0, insert-IsDescending x ys h.1)
  | inr ge ↦ rw ge ((ground arith, All-Shorter_trans x y ys (ground arith) h.0), h)
]

longest_first-IsDescending : (t : Table) → IsDescending (longest_first t)
unfolding longest_first
longest_first-IsDescending [] = tt
longest_first-IsDescending (x ∷ t) =
    insert-IsDescending x (longest_first t) (longest_first-IsDescending t)

-- Whatever the name contains is at most as long as `k`.
abbrev AtMost : List ℕ → List ℕ → List ℕ × List ℕ → Type 0
AtMost quant k e = occurs_in e.0 quant ≡ true → length e.0 ≤ length k

All-AtMost :
    (quant : List ℕ) (x : List ℕ × List ℕ) (t : Table)
    → All (Shorter x) t
    → All (AtMost quant x.0) t
All-AtMost quant x [] h = tt
All-AtMost quant x (y ∷ t) h = (λ _. h.0, All-AtMost quant x t h.1)

by_substring_first :
    (quant k v : List ℕ) (t : Table)
    → IsDescending t
    → by_substring quant t ≡ some (k, v)
    → (occurs_in k quant ≡ true) × All (AtMost quant k) t
unfolding by_substring
by_substring_first quant k v [] d h = absurd (cc)
by_substring_first quant k v ((j, u) ∷ t) d h = elim (Bool-cases (occurs_in j quant)) [
  | inl here ↦
      let same : j ≡ k = cc (rw here at h) in
      subst (λ n. (occurs_in n quant ≡ true) × All (AtMost quant n) ((j, u) ∷ t)) same
        (here, ((λ _. omega arith), All-AtMost quant (j, u) t d.0))
  | inr absent ↦
      let (found, rest) = by_substring_first quant k v t d.1 (rw absent at h) in
      (found, ((λ present. absurd (cc)), rest))
]

All-at : (P : List ℕ × List ℕ → Type 0) (x : List ℕ × List ℕ) (t : Table) → Memᴰ x t → All P t → P x
All-at P x [] m all = elim m [ ]
All-at P x (y ∷ t) (Memᴰ.head e) all = subst P (sym e) all.0
All-at P x (y ∷ t) (Memᴰ.tail m) all = All-at P x t m all.1

-- Where the search for a name of the table inside the quant finds `k`, the quant contains `k`, and
-- every name of the table that the quant contains is at most as long.
by_substring-longest :
    (quant k v j u : List ℕ)
    → by_substring quant (longest_first quant_bpp) ≡ some (k, v)
    → Memᴰ (j, u) quant_bpp
    → occurs_in j quant ≡ true
    → (occurs_in k quant ≡ true) × (length j ≤ length k)
by_substring-longest quant k v j u h m inside =
    let (found, all) =
      by_substring_first quant k v (longest_first quant_bpp) (longest_first-IsDescending quant_bpp)
        h in
    (
      found,
      All-at (AtMost quant k) (j, u) quant_bpp m (All-longest_first (AtMost quant k) quant_bpp all)
          inside,
    )

pub q4_0_4_4_search :
    by_substring (codes "8b-instruct-q4_0_4_4") (longest_first quant_bpp)
    ≡ some (codes "q4_0_4_4", codes "0.59")
unfolding by_substring longest_first
q4_0_4_4_search = refl

-- A name "f16" has no estimate, though the source lists it as a suffix: the table has no such entry.
pub f16_without_estimate :
    (ops : FloatOps) (params_b : Float)
    → estimate_quant_size_gb ops params_b (codes "F16") ≡ zero_float ops
unfolding estimate_quant_size_gb
f16_without_estimate ops params_b = ground arith
