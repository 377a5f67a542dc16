-- ===== src/Gguf/Names.antt =====
-- The regular expressions of gguf_discovery.py, by hand: the name of a quantization in a file's name,
-- and the end of a shard's name.
use kitt.Prelude.{
  ℕ, ◌-◌, Bool, true, false, Option, none, some, List, [], ◌∷◌, ◌++◌, take, length, if◌then◌else◌,
  eqb, leb, ◌&&◌, ◌||◌,
}
use kitt.Prelude.Text.{codes, lower, is_digit, ends_with}
use kitt.Prelude.Paths.{to_path, name}

-- The text before and the text after a match.
abbrev Rest : Type 0
Rest = Option (List ℕ × List ℕ)

-- Characters of the given classes, in turn.
chars : List (ℕ → Bool) → List ℕ → Rest
chars [] s = some ([], s)
chars (p ∷ ps) [] = none
chars (p ∷ ps) (c ∷ s) = elim (chars ps s) [
  | none ↦ none
  | some (m, r) ↦ if p c then some (c ∷ m, r) else none
]

-- p+, as many as there are
some_chars : (ℕ → Bool) → List ℕ → List ℕ × List ℕ
some_chars p [] = ([], [])
some_chars p (c ∷ s) = let (m, r) = some_chars p s in if p c then (c ∷ m, r) else ([], c ∷ s)

at_least_one : List ℕ × List ℕ → Rest
at_least_one ([], r) = none
at_least_one (c ∷ m, r) = some (c ∷ m, r)

-- An optional part takes what it can.
optional : Rest → List ℕ → List ℕ × List ℕ
optional none s = ([], s)
optional (some m) s = m

-- One part after the other.
and_then : Rest → (List ℕ → Rest) → Rest
and_then none k = none
and_then (some (m, r)) k = elim (k r) [ none ↦ none | some (m', r') ↦ some (m ++ m', r') ]

or_else : Rest → Rest → Rest
or_else none later = later
or_else (some m) later = some m

abbrev is : ℕ → ℕ → Bool
is d c = eqb c d

abbrev either : ℕ → ℕ → ℕ → Bool
either d e c = eqb c d || eqb c e

abbrev between : ℕ → ℕ → ℕ → Bool
between d e c = leb d c && leb c e

is_letter : ℕ → Bool
is_letter c = between b'A' b'Z' c || between b'a' b'z' c

is_size : ℕ → Bool
is_size c = either b'S' b's' c || (either b'M' b'm' c || either b'L' b'l' c)

-- IQ[1-4]_[A-Za-z]+
iq : List ℕ → Rest
unfolding chars some_chars at_least_one and_then is_letter
iq s =
    and_then (chars (is b'I' ∷ is b'Q' ∷ between b'1' b'4' ∷ is b'_' ∷ []) s)
      (λ r. at_least_one (some_chars is_letter r))

-- (?:_[SMLsml])?(?:_[48]_[48])?
suffixes : List ℕ → Rest
unfolding chars optional is_size
suffixes s =
    let (m, r) = optional (chars (is b'_' ∷ is_size ∷ []) s) s in
    let (m', r') =
      optional (chars (is b'_' ∷ either b'4' b'8' ∷ is b'_' ∷ either b'4' b'8' ∷ []) r) r in
    some (m ++ m', r')

-- [Qq][2-8]_[Kk0] and the suffixes
q : List ℕ → Rest
unfolding chars and_then suffixes
q s =
    and_then
      (chars
        (either b'Q' b'q'
          ∷ between b'2' b'8'
          ∷ is b'_'
          ∷ (λ c. either b'K' b'k' c || eqb c b'0')
          ∷ [])
        s)
      suffixes

-- _QUANT_PATTERN at the beginning of a text
quant_at : List ℕ → Rest
unfolding iq q or_else chars
quant_at s = or_else (iq s) (
    or_else (q s) (
      or_else (chars (either b'F' b'f' ∷ either b'P' b'p' ∷ is b'1' ∷ is b'6' ∷ []) s) (
        or_else (chars (either b'B' b'b' ∷ either b'F' b'f' ∷ is b'1' ∷ is b'6' ∷ []) s)
          (chars (either b'F' b'f' ∷ is b'3' ∷ is b'2' ∷ []) s))))

-- _QUANT_PATTERN.search(s): the first place where it matches
search_quant : List ℕ → Option (List ℕ)
unfolding quant_at
search_quant [] = none
search_quant (c ∷ s) =
    let later = search_quant s in elim (quant_at (c ∷ s)) [ none ↦ later | some (m, r) ↦ some m ]

without_gguf : List ℕ → List ℕ
without_gguf s = if ends_with (lower s) (codes ".gguf") then take (length s - 5) s else s

or_whole : Option (List ℕ) → List ℕ → List ℕ
or_whole none s = s
or_whole (some m) s = m

unfoldable pub extract_quant_name : List ℕ → List ℕ
unfolding without_gguf or_whole search_quant name to_path ends_with lower
extract_quant_name filename =
    let stem = without_gguf (name (to_path filename)) in or_whole (search_quant stem) stem

-- $ stands at the end, and before a line's end that is the last character.
is_end : List ℕ → Bool
is_end [] = true
is_end (c ∷ []) = eqb c 10
is_end (c ∷ d ∷ s) = false

abbrev five_digits : List (ℕ → Bool)
five_digits = is_digit ∷ is_digit ∷ is_digit ∷ is_digit ∷ is_digit ∷ []

-- -(\d{5})-of-(\d{5})\.gguf$ at the beginning, with what follows it
shard_at : List ℕ → Option (List ℕ)
unfolding chars is_end
shard_at s =
    elim (chars
      ((is b'-' ∷ five_digits)
        ++ ((is b'-' ∷ is b'o' ∷ is b'f' ∷ is b'-' ∷ five_digits)
            ++ (is b'.' ∷ is b'g' ∷ is b'g' ∷ is b'u' ∷ is b'f' ∷ [])))
      s) [ none ↦ none | some (m, r) ↦ if is_end r then some r else none ]

-- _SHARD_PATTERN.sub("", s), `none` where it does not match
unfoldable pub without_shard : List ℕ → Option (List ℕ)
unfolding shard_at
without_shard [] = none
without_shard (c ∷ s) =
    let later = without_shard s in
    elim (shard_at (c ∷ s)) [
      | none ↦ elim later [ none ↦ none | some t ↦ some (c ∷ t) ]
      | some r ↦ some r
    ]
