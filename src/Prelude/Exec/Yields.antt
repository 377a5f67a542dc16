-- ===== src/Prelude/Exec/Yields.antt =====
-- Actions that return from every state with a property, with what then holds of the result and the
-- state.
use Prim.Native.String.{String}
use mathlib.Core.Path.{◌≡◌, refl, subst, sym}
use mathlib.Core.Bool.{Bool, true, false}
use kitt.Prelude.Tests.{if◌then◌else◌}
use kitt.Prelude.Exec.{Result, ok, raised, Exec, pure, gets, try, recover, continue, ◌>>=◌}
use kitt.Prelude.Exec.Keeps.{Keeps}

-- From a state with `P` the action returns, and the result and the new state satisfy `Q`.
pub record Yields {S A : Type 0} (P : S → Type 0) (Q : A → S → Type 0) (m : Exec S A) : Type 0 where
  pub yield : (s : S) → P s → (a : A) × ((m s).0 ≡ ok a) × Q a (m s).1

-- What holds of a result and a state, whether the action returned or raised.
module _ {S A : Type 0} where
  abbrev pub Outcome : (A → S → Type 0) → (S → Type 0) → Result A → S → Type 0
  Outcome Q E (ok a) s = Q a s
  Outcome Q E (raised e) s = E s

-- From a state with `P` the action returns with `Q` or raises with `E`.
pub record Meets {S A : Type 0} (P : S → Type 0) (Q : A → S → Type 0) (E : S → Type 0)
    (m : Exec S A) : Type 0 where
  pub meet : (s : S) → P s → Outcome Q E (m s).0 (m s).1

module _ {S A : Type 0} where
  pub Yields-pure :
      (P : S → Type 0) (Q : A → S → Type 0) (a : A) → ((s : S) → P s → Q a s) → Yields P Q (pure a)
  unfolding pure
  Yields-pure P Q a h = record { yield = λ s p. (a, refl, h s p) }

  pub Yields-gets :
      (P : S → Type 0) (Q : A → S → Type 0) (g : S → A)
      → ((s : S) → P s → Q (g s) s)
      → Yields P Q (gets g)
  unfolding gets
  Yields-gets P Q g h = record { yield = λ s p. (g s, refl, h s p) }

  pub Meets-Yields :
      (P : S → Type 0) (Q : A → S → Type 0) (E : S → Type 0) (m : Exec S A)
      → Yields P Q m
      → Meets P Q E m
  Meets-Yields P Q E m y = record {
    meet = λ s p. let (a, e, q) = y.yield s p in subst (λ r. Outcome Q E r (m s).1) (sym e) q;
  }

module _ {S A C : Type 0} (P : S → Type 0) (Q : A → S → Type 0) (R : C → S → Type 0) where
  continue-yield :
      (k : A → Exec S C)
      → ((a : A) → Yields (Q a) R (k a))
      → (r : Result A) (s : S) (a : A) → r ≡ ok a
      → Q a s
      → (c : C) × ((continue r k s).0 ≡ ok c) × R c (continue r k s).1
  continue-yield k yk (ok b) s a e q =
      let same : a ≡ b = cc in (yk b).yield s (subst (λ x. Q x s) same q)
  continue-yield k yk (raised x) s a e q = absurd (cc)

  pub Yields-bind :
      (m : Exec S A) (k : A → Exec S C)
      → Yields P Q m
      → ((a : A) → Yields (Q a) R (k a))
      → Yields P R (m >>= k)
  unfolding ◌>>=◌
  Yields-bind m k ym yk = record {
    yield = λ s p. let (a, e, q) = ym.yield s p in continue-yield k yk (m s).0 (m s).1 a e q;
  }

  continue-meet :
      (E : S → Type 0) (k : A → Exec S C)
      → ((a : A) → Meets (Q a) R E (k a))
      → (r : Result A) (s : S) → Outcome Q E r s
      → Outcome R E (continue r k s).0 (continue r k s).1
  continue-meet E k mk (ok a) s q = (mk a).meet s q
  continue-meet E k mk (raised e) s q = q

  pub Meets-bind :
      (E : S → Type 0) (m : Exec S A) (k : A → Exec S C)
      → Meets P Q E m
      → ((a : A) → Meets (Q a) R E (k a))
      → Meets P R E (m >>= k)
  unfolding ◌>>=◌
  Meets-bind E m k mm mk = record {
    meet = λ s p. continue-meet E k mk (m s).0 (m s).1 (mm.meet s p);
  }

module _ {S A : Type 0} where
  recover-yield :
      (Q : A → S → Type 0) (E : S → Type 0) (h : String → Exec S A)
      → ((e : String) → Yields E Q (h e))
      → (r : Result A) (s : S) → Outcome Q E r s
      → (a : A) × ((recover r h s).0 ≡ ok a) × Q a (recover r h s).1
  recover-yield Q E h yh (ok a) s q = (a, refl, q)
  recover-yield Q E h yh (raised e) s q = (yh e).yield s q

  -- A handler that returns makes the whole return.
  pub Yields-try :
      (P : S → Type 0) (Q : A → S → Type 0) (E : S → Type 0) (m : Exec S A) (h : String → Exec S A)
      → Meets P Q E m
      → ((e : String) → Yields E Q (h e))
      → Yields P Q (try m h)
  unfolding try
  Yields-try P Q E m h mm yh = record {
    yield = λ s p. recover-yield Q E h yh (m s).0 (m s).1 (mm.meet s p);
  }

module _ {S A : Type 0} where
  -- A fact that does not depend on the state.
  pub Yields-given :
      {F : Type 0} (P : S → Type 0) (Q : A → S → Type 0) (m : Exec S A)
      → (F → Yields P Q m)
      → Yields (λ s. P s × F) Q m
  Yields-given P Q m h = record { yield = λ s p. (h p.1).yield s p.0 }

  pub Yields-if :
      (P : S → Type 0) (Q : A → S → Type 0) (b : Bool) (m n : Exec S A)
      → ((b ≡ true) → Yields P Q m)
      → ((b ≡ false) → Yields P Q n)
      → Yields P Q (if b then m else n)
  Yields-if P Q true m n hm hn = hm refl
  Yields-if P Q false m n hm hn = hn refl

module _ {S A : Type 0} where
  pub Meets-if :
      (P : S → Type 0) (Q : A → S → Type 0) (E : S → Type 0) (b : Bool) (m n : Exec S A)
      → ((b ≡ true) → Meets P Q E m)
      → ((b ≡ false) → Meets P Q E n)
      → Meets P Q E (if b then m else n)
  Meets-if P Q E true m n hm hn = hm refl
  Meets-if P Q E false m n hm hn = hn refl

module _ {S A : Type 0} (P : S → Type 0) where
  either_way : (r : Result A) (s : S) → P s → Outcome (λ _. P) P r s
  either_way (ok a) s p = p
  either_way (raised e) s p = p

  pub Meets-Keeps : (m : Exec S A) → Keeps P m → Meets P (λ _. P) P m
  Meets-Keeps m k = record { meet = λ s p. either_way (m s).0 (m s).1 (k.keep s p) }

module _ {S A : Type 0} where
  pub Yields-weaken :
      (P : S → Type 0) (Q R : A → S → Type 0) (m : Exec S A)
      → ((a : A) (s : S) → Q a s → R a s)
      → Yields P Q m
      → Yields P R m
  Yields-weaken P Q R m w y = record {
    yield = λ s p. let (a, e, q) = y.yield s p in (a, e, w a (m s).1 q);
  }
