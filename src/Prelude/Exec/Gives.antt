-- ===== src/Prelude/Exec/Gives.antt =====
-- Actions whose end is known from every state with a property, be it a value or an error.
use mathlib.Core.Path.{◌≡◌, subst}
use kitt.Prelude.Exec.{Result, ok, raised, Exec, continue, ◌>>=◌}
use kitt.Prelude.Exec.Rules.{Ends, Returns}
use kitt.Prelude.Exec.Yields.{Yields}

-- From a state with `P` the action gives `r`, a value or an error, and leaves a state with `Q`.
pub record Gives {S A : Type 0} (P : S → Type 0) (r : Result A) (Q : S → Type 0) (m : Exec S A)
    : Type 0 where
  pub give : (d : S) → P d → ((m d).0 ≡ r) × Q (m d).1

module _ {S A B : Type 0} (P : S → Type 0) (Q : A → S → Type 0) (R : S → Type 0)
    (r : Result B) where
  continue-give :
      (k : A → Exec S B)
      → ((a : A) → Gives (Q a) r R (k a))
      → (x : Result A) (d : S) (a : A) → x ≡ ok a
      → Q a d
      → ((continue x k d).0 ≡ r) × R (continue x k d).1
  continue-give k gk (ok b) d a e q =
      let same : a ≡ b = cc in (gk b).give d (subst (λ y. Q y d) same q)
  continue-give k gk (raised t) d a e q = absurd (cc)

  pub Gives-bind :
      (m : Exec S A) (k : A → Exec S B)
      → Yields P Q m
      → ((a : A) → Gives (Q a) r R (k a))
      → Gives P r R (m >>= k)
  unfolding ◌>>=◌
  Gives-bind m k ym gk = record {
    give = λ d p. let (a, e, q) = ym.yield d p in continue-give k gk (m d).0 (m d).1 a e q;
  }

module _ {S B : Type 0} where
  pub Gives-given :
      {F : Type 0} (P : S → Type 0) (r : Result B) (Q : S → Type 0) (m : Exec S B)
      → (F → Gives P r Q m)
      → Gives (λ d. P d × F) r Q m
  Gives-given P r Q m h = record { give = λ d p. (h p.1).give d p.0 }

  pub Yields-both :
      (P : S → Type 0) (m : Exec S B)
      → Returns m
      → Ends (λ _. P) m
      → Yields (λ _. Unit {0}) (λ _. P) m
  Yields-both P m rm em = record {
    yield = λ d p. let (a, e) = rm.result d in (a, e, em.post d a e);
  }
