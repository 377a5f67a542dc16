-- ===== src/Gguf/Prefix.antt =====
-- _common_prefix of gguf_discovery.py.
use kitt.Prelude.{
  ℕ, zero, suc, ◌≤◌, Bool, true, false, Option, none, some, List, [], ◌∷◌, length, if◌then◌else◌,
  ◌&&◌, ◌≡◌, refl, ap, sym, ◌∙◌, arith, Bool-cases, inl, inr,
}
use kitt.Prelude.Text.{starts_with}

-- prefix[:-1]
unfoldable pub all_but_last : List ℕ → List ℕ
all_but_last [] = []
all_but_last (c ∷ []) = []
all_but_last (c ∷ d ∷ s) = c ∷ all_but_last (d ∷ s)

cut : List ℕ → Option (List ℕ)
cut [] = none
cut (c ∷ s) = some (c ∷ s)

-- while not s.startswith(prefix): …, in at most as many rounds as the prefix is long; `none` where
-- nothing is left, which returns "" at once
unfoldable pub shorten : ℕ → List ℕ → List ℕ → Option (List ℕ)
unfolding all_but_last cut
shorten zero s prefix = some prefix
shorten (suc rounds) s prefix =
    let next = cut (all_but_last prefix) in
    let rest = shorten rounds s (all_but_last prefix) in
    if starts_with s prefix then some prefix else elim next [ none ↦ none | some p ↦ rest ]

unfoldable pub shorten_all : Option (List ℕ) → List (List ℕ) → List ℕ
unfolding shorten
shorten_all none strings = []
shorten_all (some prefix) [] = prefix
shorten_all (some prefix) (s ∷ strings) = shorten_all (shorten (length prefix) s prefix) strings

unfoldable pub common_prefix : List (List ℕ) → List ℕ
unfolding shorten_all
common_prefix [] = []
common_prefix (s ∷ strings) = shorten_all (some s) strings

abbrev pub every : (List ℕ → Bool) → List (List ℕ) → Bool
every p [] = true
every p (s ∷ strings) = p s && every p strings

starts_with_trans :
    (s p q : List ℕ) → starts_with s p ≡ true → starts_with p q ≡ true → starts_with s q ≡ true
unfolding starts_with
starts_with_trans s p [] h k = refl
starts_with_trans s [] (c ∷ q) h k = absurd (cc)
starts_with_trans [] (d ∷ p) (c ∷ q) h k = absurd (cc)
starts_with_trans (e ∷ s) (d ∷ p) (c ∷ q) h k = ground (arith, starts_with_trans s p q)

-- What a shorter prefix loses is the prefix itself.
starts_with-all_but_last :
    (p q s : List ℕ)
    → starts_with s p ≡ false
    → (starts_with (all_but_last p) q && starts_with s q) ≡ (starts_with p q && starts_with s q)
unfolding starts_with all_but_last
starts_with-all_but_last p [] s h = refl
starts_with-all_but_last [] (c ∷ q) s h = refl
starts_with-all_but_last (d ∷ []) (c ∷ []) [] h = ground arith
starts_with-all_but_last (d ∷ []) (c ∷ []) (e ∷ s) h = ground arith
starts_with-all_but_last (d ∷ []) (c ∷ b ∷ q) s h = ground arith
starts_with-all_but_last (d ∷ a ∷ p) (c ∷ q) [] h = ground arith
starts_with-all_but_last (d ∷ a ∷ p) (c ∷ q) (e ∷ s) h =
    ground (arith, starts_with-all_but_last (a ∷ p) q s)

shortened : Option (List ℕ) → List ℕ → Bool
unfolding starts_with
shortened none q = starts_with [] q
shortened (some p) q = starts_with p q

starts_with-nil : (s q : List ℕ) → (starts_with [] q && starts_with s q) ≡ starts_with [] q
unfolding starts_with
starts_with-nil s [] = refl
starts_with-nil s (c ∷ q) = refl

length-all_but_last : (n : ℕ) (p : List ℕ) → length p ≤ suc n → length (all_but_last p) ≤ n
unfolding all_but_last
length-all_but_last n [] h = omega arith
length-all_but_last n (c ∷ []) h = omega arith
length-all_but_last zero (c ∷ d ∷ p) h = absurd (omega arith)
length-all_but_last (suc n) (c ∷ d ∷ p) h = omega (arith, length-all_but_last n (d ∷ p))

cut-lem :
    (rounds : ℕ) (s t q : List ℕ)
    → shortened (shorten rounds s t) q ≡ (starts_with t q && starts_with s q)
    → shortened (elim (cut t) [ none ↦ none | some p ↦ shorten rounds s t ]) q
      ≡ (starts_with t q && starts_with s q)
unfolding cut shortened
cut-lem rounds s [] q h = sym (starts_with-nil s q)
cut-lem rounds s (c ∷ t) q h = h

-- A text begins what is left exactly if it begins both.
shorten-lem :
    (rounds : ℕ) (s p q : List ℕ)
    → length p ≤ rounds
    → shortened (shorten rounds s p) q ≡ (starts_with p q && starts_with s q)
unfolding shorten shortened
shorten-lem zero s [] q h = sym (starts_with-nil s q)
shorten-lem zero s (c ∷ p) q h = absurd (omega arith)
shorten-lem (suc rounds) s p q h = elim (Bool-cases (starts_with s p)) [
  | inl whole ↦ rw whole (elim (Bool-cases (starts_with p q)) [
    | inl t ↦ rw t (sym (starts_with_trans s p q whole t))
    | inr f ↦ rw f refl
  ])
  | inr longer ↦ rw longer (
      cut-lem rounds s (all_but_last p) q
        (shorten-lem rounds s (all_but_last p) q (length-all_but_last rounds p h))
      ∙ starts_with-all_but_last p q s longer)
]

&&_assoc : (a b c : Bool) → ((a && b) && c) ≡ (a && (b && c))
&&_assoc true b c = refl
&&_assoc false b c = refl

every-nil :
    (strings : List (List ℕ)) (q : List ℕ)
    → starts_with [] q ≡ true
    → every (λ s. starts_with s q) strings ≡ true
unfolding starts_with
every-nil [] q h = refl
every-nil (s ∷ strings) [] h = every-nil strings [] refl
every-nil (s ∷ strings) (c ∷ q) h = absurd (cc)

shorten_all-lem :
    (o : Option (List ℕ)) (strings : List (List ℕ)) (q : List ℕ)
    → starts_with (shorten_all o strings) q
      ≡ (shortened o q && every (λ s. starts_with s q) strings)
unfolding shorten_all shortened
shorten_all-lem none strings q = elim (Bool-cases (starts_with [] q)) [
  | inl t ↦ rw (t, every-nil strings q t) refl
  | inr f ↦ rw f refl
]
shorten_all-lem (some p) [] q = ground arith
shorten_all-lem (some p) (s ∷ strings) q =
    shorten_all-lem (shorten (length p) s p) strings q
    ∙ ap (λ b. b && every (λ s. starts_with s q) strings)
        (shorten-lem (length p) s p q (omega arith))
    ∙ &&_assoc (starts_with p q) (starts_with s q) _

-- A text begins the common prefix of texts, at least one, exactly if it begins each of them: the
-- prefix is one of all, and the longest.
pub common_prefix-every :
    (s : List ℕ) (strings : List (List ℕ)) (q : List ℕ)
    → starts_with (common_prefix (s ∷ strings)) q ≡ every (λ t. starts_with t q) (s ∷ strings)
unfolding common_prefix shortened
common_prefix-every s strings q = shorten_all-lem (some s) strings q
