-- ===== src/Prelude/Exec.antt =====
-- Code that reads and changes a state and may raise an exception. What was written before a raise
-- stays written, so the state comes back beside the exception too.
pub mod Rules
pub mod Keeps
pub mod Yields
pub mod Gives
use Prim.Native.String.{String}

-- An exception is its message, str(e).
pub data Result {ℓ} (A : Type ℓ) : Type ℓ where
  ok : A → Result A
  raised : String → Result A

abbrev pub Exec : Type 0 → Type 0 → Type 0
Exec S A = S → Result A × S

module _ {S A : Type 0} where
  unfoldable pub pure : A → Exec S A
  pure a s = (ok a, s)

  unfoldable pub raise : String → Exec S A
  raise e s = (raised e, s)

  unfoldable pub gets : (S → A) → Exec S A
  gets f s = (ok (f s), s)

  abbrev pub recover : Result A → (String → Exec S A) → Exec S A
  recover (ok a) h s = (ok a, s)
  recover (raised e) h s = h e s

  -- try: m / except Exception as e: h(e)
  unfoldable pub try : Exec S A → (String → Exec S A) → Exec S A
  try m h s = let (r, s') = m s in recover r h s'

module _ {S : Type 0} where
  unfoldable pub modify : (S → S) → Exec S (Unit {0})
  modify f s = (ok tt, f s)

module _ {S A B : Type 0} where
  abbrev pub continue : Result A → (A → Exec S B) → Exec S B
  continue (ok a) f s = f a s
  continue (raised e) f s = (raised e, s)

  infixl 10 ◌>>=◌ ◌>>◌
  unfoldable pub ◌>>=◌ : Exec S A → (A → Exec S B) → Exec S B
  unfolding pure raise gets modify
  ◌>>=◌ m f s = let (r, s') = m s in continue r f s'

  abbrev pub ◌>>◌ : Exec S A → Exec S B → Exec S B
  m >> n = m >>= λ _. n
