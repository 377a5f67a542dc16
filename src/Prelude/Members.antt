-- ===== src/Prelude/Members.antt =====
-- Membership in lists that are selected, mapped and searched.
use mathlib.Core.List.Memᴰ
use mathlib.Core.List.{Memᴰ}
use mathlib.Core.Path.{◌≡◌, refl, sym, ap, ◌∙◌}
use mathlib.Core.Logic.{inl, inr}
use mathlib.Core.Bool.{Bool, true, false}
use mathlib.Core.List.{List, [], ◌∷◌, map}
use native.Mathlib.Omega.{arith}
use kitt.Prelude.Tests.{Bool-cases}
use Prim.Native.Nat.{◌≤◌, ◌<◌}
use kitt.Prelude.Lists.{select, any, count_if}

module _ {A : Type 0} (p : A → Bool) where
  pub member-select : {x : A} (xs : List A) → Memᴰ x (select p xs) → Memᴰ x xs × (p x ≡ true)
  member-select [] m = elim m [ ]
  member-select {x = x} (y ∷ xs) m = elim (Bool-cases (p y)) [
    | inl chosen ↦
        let m' : Memᴰ x (y ∷ select p xs) = rw chosen at m in
        elim (Memᴰ.cases_cons m') [
          | inl same ↦ (Memᴰ.head same, ap p same ∙ chosen)
          | inr later ↦ let (n, q) = member-select xs later in (Memᴰ.tail n, q)
        ]
    | inr left ↦ let (n, q) = member-select xs (rw left at m) in (Memᴰ.tail n, q)
  ]

  pub select-member : {x : A} (xs : List A) → Memᴰ x xs → p x ≡ true → Memᴰ x (select p xs)
  select-member [] m q = elim m [ ]
  select-member {x = x} (y ∷ xs) m q = elim (Bool-cases (p y)) [
    | inl chosen ↦ rw chosen (elim (Memᴰ.cases_cons m) [
      | inl same ↦ Memᴰ.head same
      | inr later ↦ Memᴰ.tail (select-member xs later q)
    ])
    | inr left ↦ rw left (elim (Memᴰ.cases_cons m) [
      | inl same ↦ absurd (let q' : p y ≡ true = ap p (sym same) ∙ q in cc (q', left))
      | inr later ↦ select-member xs later q
    ])
  ]

  pub any-member : (xs : List A) → any p xs ≡ true → (x : A) × Memᴰ x xs × (p x ≡ true)
  any-member [] h = absurd (cc)
  any-member (y ∷ xs) h = elim (Bool-cases (p y)) [
    | inl here ↦ (y, Memᴰ.head refl, here)
    | inr not_here ↦ let (x, m, q) = any-member xs (rw not_here at h) in (x, Memᴰ.tail m, q)
  ]

  pub member-any : {x : A} (xs : List A) → Memᴰ x xs → p x ≡ true → any p xs ≡ true
  member-any [] m q = elim m [ ]
  member-any (y ∷ xs) m q = elim (Memᴰ.cases_cons m) [
    | inl same ↦ rw (ap p (sym same) ∙ q) refl
    | inr later ↦ ground (arith, member-any xs later q)
  ]

module _ {A B : Type 0} (f : A → B) where
  pub member-map : {y : B} (xs : List A) → Memᴰ y (map f xs) → (x : A) × Memᴰ x xs × (f x ≡ y)
  member-map [] m = elim m [ ]
  member-map (x ∷ xs) m = elim (Memᴰ.cases_cons m) [
    | inl same ↦ (x, Memᴰ.head refl, sym same)
    | inr later ↦ let (z, n, e) = member-map xs later in (z, Memᴰ.tail n, e)
  ]

  pub map-member : {x : A} (xs : List A) → Memᴰ x xs → Memᴰ (f x) (map f xs)
  map-member [] m = elim m [ ]
  map-member (y ∷ xs) m = elim (Memᴰ.cases_cons m) [
    | inl same ↦ Memᴰ.head (ap f same)
    | inr later ↦ Memᴰ.tail (map-member xs later)
  ]

module _ {A : Type 0} (p q : A → Bool) (implied : (x : A) → p x ≡ true → q x ≡ true) where
  pub count_if_mono : (xs : List A) → count_if p xs ≤ count_if q xs
  count_if_mono [] = omega arith
  count_if_mono (x ∷ xs) = ground (arith, count_if_mono xs, implied x)

  -- A test that one item passes beside counts more.
  pub count_if-lt :
      {y : A} (xs : List A) → Memᴰ y xs → q y ≡ true → p y ≡ false → count_if p xs < count_if q xs
  count_if-lt [] m passes no_more = elim m [ ]
  count_if-lt (x ∷ xs) m passes no_more = elim (Memᴰ.cases_cons m) [
    | inl same ↦
        let passes' : q x ≡ true = ap q (sym same) ∙ passes in
        let no_more' : p x ≡ false = ap p (sym same) ∙ no_more in
        ground (arith, passes', no_more', count_if_mono xs)
    | inr later ↦ ground (arith, count_if-lt xs later passes no_more, implied x)
  ]
