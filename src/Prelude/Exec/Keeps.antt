-- ===== src/Prelude/Exec/Keeps.antt =====
-- Invariants of the state that an action keeps, whether it returns or raises.
use Prim.Native.String.{String}
use mathlib.Core.Bool.{Bool, true, false}
use kitt.Prelude.Tests.{if◌then◌else◌}
use kitt.Prelude.Exec.{Result, ok, raised, Exec, pure, raise, gets, try, recover, continue, ◌>>=◌}

pub record Keeps {S A : Type 0} (P : S → Type 0) (m : Exec S A) : Type 0 where
  pub keep : (s : S) → P s → P (m s).1

module _ {S A : Type 0} (P : S → Type 0) where
  pub Keeps-pure : (a : A) → Keeps P (pure {S = S} a)
  unfolding pure
  Keeps-pure a = record { keep = λ s p. p }

  pub Keeps-gets : (g : S → A) → Keeps P (gets g)
  unfolding gets
  Keeps-gets g = record { keep = λ s p. p }

  pub Keeps-raise : (e : String) → Keeps P (raise {A = A} e)
  unfolding raise
  Keeps-raise e = record { keep = λ s p. p }

  pub Keeps-if : (b : Bool) (m n : Exec S A) → Keeps P m → Keeps P n → Keeps P (if b then m else n)
  Keeps-if true m n km kn = km
  Keeps-if false m n km kn = kn

  recover-keep :
      (h : String → Exec S A)
      → ((e : String) → Keeps P (h e))
      → (r : Result A) (s : S) → P s
      → P (recover r h s).1
  recover-keep h kh (ok a) s p = p
  recover-keep h kh (raised e) s p = (kh e).keep s p

  pub Keeps-try :
      (m : Exec S A) (h : String → Exec S A)
      → Keeps P m
      → ((e : String) → Keeps P (h e))
      → Keeps P (try m h)
  unfolding try
  Keeps-try m h km kh = record { keep = λ s p. recover-keep h kh (m s).0 (m s).1 (km.keep s p) }

module _ {S A C : Type 0} (P : S → Type 0) where
  continue-keep :
      (k : A → Exec S C)
      → ((a : A) → Keeps P (k a))
      → (r : Result A) (s : S) → P s
      → P (continue r k s).1
  continue-keep k kk (ok a) s p = (kk a).keep s p
  continue-keep k kk (raised e) s p = p

  pub Keeps-bind :
      (m : Exec S A) (k : A → Exec S C) → Keeps P m → ((a : A) → Keeps P (k a)) → Keeps P (m >>= k)
  unfolding ◌>>=◌
  Keeps-bind m k km kk = record { keep = λ s p. continue-keep k kk (m s).0 (m s).1 (km.keep s p) }

pub ruleset keeps_rules = (Keeps-pure, Keeps-gets, Keeps-raise, Keeps-if, Keeps-try, Keeps-bind)
