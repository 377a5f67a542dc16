-- ===== src/Prelude/Sorting.antt =====
-- `sorted` by a strict order: stable, so equal items stay in their order.
use mathlib.Core.List.Memᴰ
use mathlib.Core.List.{Memᴰ}
use mathlib.Core.Logic.{inl, inr}
use mathlib.Core.Path.{◌≡◌, refl}
use mathlib.Core.Bool.{Bool}
use mathlib.Core.List.{List, [], ◌∷◌}
use native.Mathlib.Omega.{arith}
use kitt.Prelude.Tests.{if◌then◌else◌, Bool-cases}
use kitt.Prelude.Lists.{length}
use Prim.Native.Nat.{suc}

module _ {A : Type 0} (before : A → A → Bool) where
  unfoldable pub insert_sorted : A → List A → List A
  insert_sorted x [] = x ∷ []
  insert_sorted x (y ∷ ys) =
      let later = insert_sorted x ys in if before y x then y ∷ later else x ∷ y ∷ ys

  unfoldable pub sorted : List A → List A
  sorted [] = []
  sorted (x ∷ xs) = insert_sorted x (sorted xs)

  insert_sorted-head : (x : A) (ys : List A) → Memᴰ x (insert_sorted x ys)
  unfolding insert_sorted
  insert_sorted-head x [] = Memᴰ.head refl
  insert_sorted-head x (y ∷ ys) = elim (Bool-cases (before y x)) [
    | inl t ↦ rw t (Memᴰ.tail (insert_sorted-head x ys))
    | inr f ↦ rw f (Memᴰ.head refl)
  ]

  insert_sorted-tail : {z : A} (x : A) (ys : List A) → Memᴰ z ys → Memᴰ z (insert_sorted x ys)
  unfolding insert_sorted
  insert_sorted-tail x [] m = elim m [ ]
  insert_sorted-tail x (y ∷ ys) m = elim (Bool-cases (before y x)) [
    | inl t ↦ rw t (elim (Memᴰ.cases_cons m) [
      | inl same ↦ Memᴰ.head same
      | inr later ↦ Memᴰ.tail (insert_sorted-tail x ys later)
    ])
    | inr f ↦ rw f (Memᴰ.tail m)
  ]

  pub sorted-member : {z : A} (xs : List A) → Memᴰ z xs → Memᴰ z (sorted xs)
  unfolding sorted
  sorted-member [] m = elim m [ ]
  sorted-member {z = z} (x ∷ xs) m = elim (Memᴰ.cases_cons m) [
    | inl same ↦ rw same (insert_sorted-head x (sorted xs))
    | inr later ↦ insert_sorted-tail x (sorted xs) (sorted-member xs later)
  ]

  insert_sorted-from : {z : A} (x : A) (ys : List A) → Memᴰ z (insert_sorted x ys) → Memᴰ z (x ∷ ys)
  unfolding insert_sorted
  insert_sorted-from x [] m = m
  insert_sorted-from {z = z} x (y ∷ ys) m = elim (Bool-cases (before y x)) [
    | inl t ↦
        let m' : Memᴰ z (y ∷ insert_sorted x ys) = rw t at m in
        elim (Memᴰ.cases_cons m') [
          | inl same ↦ Memᴰ.tail (Memᴰ.head same)
          | inr later ↦ elim (Memᴰ.cases_cons (insert_sorted-from x ys later)) [
            | inl same ↦ Memᴰ.head same
            | inr old ↦ Memᴰ.tail (Memᴰ.tail old)
          ]
        ]
    | inr f ↦ rw f at m
  ]

  pub member-sorted : {z : A} (xs : List A) → Memᴰ z (sorted xs) → Memᴰ z xs
  unfolding sorted
  member-sorted [] m = elim m [ ]
  member-sorted (x ∷ xs) m = elim (Memᴰ.cases_cons (insert_sorted-from x (sorted xs) m)) [
    | inl same ↦ Memᴰ.head same
    | inr later ↦ Memᴰ.tail (member-sorted xs later)
  ]

  length-insert_sorted : (x : A) (ys : List A) → length (insert_sorted x ys) ≡ suc (length ys)
  unfolding insert_sorted
  length-insert_sorted x [] = omega arith
  length-insert_sorted x (y ∷ ys) = ground (arith, length-insert_sorted x ys)

  pub length-sorted : (xs : List A) → length (sorted xs) ≡ length xs
  unfolding sorted
  length-sorted [] = omega arith
  length-sorted (x ∷ xs) = omega (arith, length-insert_sorted x (sorted xs), length-sorted xs)
