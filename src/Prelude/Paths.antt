-- ===== src/Prelude/Paths.antt =====
-- Python's `pathlib` paths as their parts, as far as the program uses them. A part is a text.
use Prim.Native.Nat.{ℕ}
use mathlib.Core.Bool.{Bool, true, false, not, ◌&&◌, ◌||◌}
use mathlib.Core.List.{List, [], ◌∷◌, ◌++◌}
use kitt.Prelude.Tests.{eqb, ltb, if◌then◌else◌}
use kitt.Prelude.Lists.{select, any}
use kitt.Prelude.Text.{same_text}

pub record FilePath : Type 0 where
  pub absolute : Bool
  pub parts : List (List ℕ)

pub attach : Bool → ℕ → List (List ℕ) → List (List ℕ)
attach true c pieces = [] ∷ pieces
attach false c [] = (c ∷ []) ∷ []
attach false c (piece ∷ pieces) = (c ∷ piece) ∷ pieces

-- s.split(sep), for one character
unfoldable pub split : ℕ → List ℕ → List (List ℕ)
unfolding attach
split sep [] = [] ∷ []
split sep (c ∷ s) = attach (eqb c sep) c (split sep s)

abbrev starts_at_root : List ℕ → Bool
starts_at_root [] = false
starts_at_root (c ∷ s) = eqb c b'/'

abbrev dot : List ℕ
dot = b'.' ∷ []

abbrev pub dots : List ℕ
dots = b'.' ∷ b'.' ∷ []

abbrev is_part : List ℕ → Bool
is_part piece = not (same_text piece [] || same_text piece dot)

-- Path(s)
unfoldable pub to_path : List ℕ → FilePath
unfolding split same_text
to_path s = record { absolute = starts_at_root s; parts = select is_part (split b'/' s) }

infixl 65 ◌/◌
-- p / q, where an absolute q is taken alone
unfoldable pub ◌/◌ : FilePath → FilePath → FilePath
p / q = if q.absolute then q else record { absolute = p.absolute; parts = p.parts ++ q.parts }

abbrev last : List (List ℕ) → List ℕ
last [] = []
last (p ∷ []) = p
last (p ∷ q ∷ ps) = last (q ∷ ps)

abbrev all_but_last : List (List ℕ) → List (List ℕ)
all_but_last [] = []
all_but_last (p ∷ []) = []
all_but_last (p ∷ q ∷ ps) = p ∷ all_but_last (q ∷ ps)

-- p.name
unfoldable pub name : FilePath → List ℕ
name p = last p.parts

-- p.parent
unfoldable pub parent : FilePath → FilePath
parent p = record { absolute = p.absolute; parts = all_but_last p.parts }

-- The path below `front`, where the parts begin with it.
unfoldable pub begins : List (List ℕ) → List (List ℕ) → Bool
unfolding same_text
begins ps [] = true
begins [] (q ∷ qs) = false
begins (p ∷ ps) (q ∷ qs) = same_text p q && begins ps qs

abbrev pub same_bool : Bool → Bool → Bool
same_bool true b = b
same_bool false b = not b

-- p.is_relative_to(q)
unfoldable pub is_relative_to : FilePath → FilePath → Bool
unfolding begins
is_relative_to p q = same_bool p.absolute q.absolute && begins p.parts q.parts

unfoldable pub same_path : FilePath → FilePath → Bool
unfolding is_relative_to
same_path p q = is_relative_to p q && is_relative_to q p

-- a < b for texts
unfoldable pub text_before : List ℕ → List ℕ → Bool
text_before s [] = false
text_before [] (d ∷ t) = true
text_before (c ∷ s) (d ∷ t) = ltb c d || (eqb c d && text_before s t)

parts_before : List (List ℕ) → List (List ℕ) → Bool
unfolding text_before same_text
parts_before ps [] = false
parts_before [] (q ∷ qs) = true
parts_before (p ∷ ps) (q ∷ qs) = text_before p q || (same_text p q && parts_before ps qs)

-- p < q for paths of one kind
unfoldable pub path_before : FilePath → FilePath → Bool
unfolding parts_before
path_before p q = parts_before p.parts q.parts

-- Whether a part leads upwards.
unfoldable pub goes_up : FilePath → Bool
unfolding same_text
goes_up p = any (λ part. same_text part dots) p.parts
