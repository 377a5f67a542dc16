-- ===== src/Prelude/Exec/Rules.antt =====
-- Proof rules for actions, one for each way to build one: what an action leaves alone, what holds
-- when it returns, and that it returns.
use Prim.Native.String.{String}
use mathlib.Core.Path.{◌≡◌, refl, subst, ◌∙◌}
use mathlib.Core.Bool.{Bool, true, false}
use kitt.Prelude.Tests.{if◌then◌else◌}
use kitt.Prelude.Exec.{
  Result, ok, raised, Exec, pure, raise, gets, modify, try, recover, continue, ◌>>=◌,
}

-- The observation `f` of the state is the same after `m`, whether it returns or raises.
pub record Preserves {S A B : Type 0} (f : S → B) (m : Exec S A) : Type 0 where
  pub same : (s : S) → f (m s).1 ≡ f s

-- Where `m` returns, its result and the state satisfy `P`.
pub record Ends {S A : Type 0} (P : A → S → Type 0) (m : Exec S A) : Type 0 where
  pub post : (s : S) (a : A) → (m s).0 ≡ ok a → P a (m s).1

-- `m` returns from every state.
pub record Returns {S A : Type 0} (m : Exec S A) : Type 0 where
  pub result : (s : S) → (a : A) × ((m s).0 ≡ ok a)

module _ {S A B : Type 0} (f : S → B) where
  pub Preserves-pure : (a : A) → Preserves f (pure {S = S} a)
  unfolding pure
  Preserves-pure a = record { same = λ s. refl }

  pub Preserves-gets : (g : S → A) → Preserves f (gets g)
  unfolding gets
  Preserves-gets g = record { same = λ s. refl }

  pub Preserves-raise : (e : String) → Preserves f (raise {A = A} e)
  unfolding raise
  Preserves-raise e = record { same = λ s. refl }

  pub Preserves-if :
      (b : Bool) (m n : Exec S A) → Preserves f m → Preserves f n → Preserves f (if b then m else n)
  Preserves-if true m n pm pn = pm
  Preserves-if false m n pm pn = pn

  recover-same :
      (h : String → Exec S A)
      → ((e : String) → Preserves f (h e))
      → (r : Result A) (s : S) → f (recover r h s).1 ≡ f s
  recover-same h ph (ok a) s = refl
  recover-same h ph (raised e) s = (ph e).same s

  pub Preserves-try :
      (m : Exec S A) (h : String → Exec S A)
      → Preserves f m
      → ((e : String) → Preserves f (h e))
      → Preserves f (try m h)
  unfolding try
  Preserves-try m h pm ph = record { same = λ s. recover-same h ph (m s).0 (m s).1 ∙ pm.same s }

module _ {S A C B : Type 0} (f : S → B) where
  continue-same :
      (k : A → Exec S C)
      → ((a : A) → Preserves f (k a))
      → (r : Result A) (s : S) → f (continue r k s).1 ≡ f s
  continue-same k pk (ok a) s = (pk a).same s
  continue-same k pk (raised e) s = refl

  pub Preserves-bind :
      (m : Exec S A) (k : A → Exec S C)
      → Preserves f m
      → ((a : A) → Preserves f (k a))
      → Preserves f (m >>= k)
  unfolding ◌>>=◌
  Preserves-bind m k pm pk = record { same = λ s. continue-same k pk (m s).0 (m s).1 ∙ pm.same s }

pub ruleset preserves_rules =
    (Preserves-pure, Preserves-gets, Preserves-raise, Preserves-if, Preserves-try, Preserves-bind)

module _ {S A : Type 0} (P : A → S → Type 0) where
  pub Ends-if : (b : Bool) (m n : Exec S A) → Ends P m → Ends P n → Ends P (if b then m else n)
  Ends-if true m n em en = em
  Ends-if false m n em en = en

  recover-post :
      (h : String → Exec S A)
      → ((e : String) → Ends P (h e))
      → (r : Result A) (s : S) → ((a : A) → r ≡ ok a → P a s)
      → (a : A) → (recover r h s).0 ≡ ok a
      → P a (recover r h s).1
  recover-post h eh (ok b) s p a e = p a e
  recover-post h eh (raised x) s p a e = (eh x).post s a e

  pub Ends-try :
      (m : Exec S A) (h : String → Exec S A)
      → Ends P m
      → ((e : String) → Ends P (h e))
      → Ends P (try m h)
  unfolding try
  Ends-try m h em eh = record { post = λ s a e. recover-post h eh (m s).0 (m s).1 (em.post s) a e }

module _ {S A C : Type 0} (P : C → S → Type 0) where
  continue-post :
      (k : A → Exec S C)
      → ((a : A) → Ends P (k a))
      → (r : Result A) (s : S) (c : C) → (continue r k s).0 ≡ ok c
      → P c (continue r k s).1
  continue-post k ek (ok a) s c e = (ek a).post s c e
  continue-post k ek (raised x) s c e = cc

  -- What holds at the end is settled by the last part.
  pub Ends-bind : (m : Exec S A) (k : A → Exec S C) → ((a : A) → Ends P (k a)) → Ends P (m >>= k)
  unfolding ◌>>=◌
  Ends-bind m k ek = record { post = λ s c e. continue-post k ek (m s).0 (m s).1 c e }

module _ {S A : Type 0} (P : A → S → Type 0) where
  pub pure-post : (a : A) (s : S) → P a s → (b : A) → (pure a s).0 ≡ ok b → P b (pure a s).1
  unfolding pure
  pure-post a s p b e = let same : a ≡ b = cc in subst (λ x. P x s) same p

  pub Ends-return : (a : A) → ((s : S) → P a s) → Ends P (pure a)
  Ends-return a p = record { post = λ s b e. pure-post a s (p s) b e }

module _ {S A : Type 0} where
  pub Ends-pure : (a : A) → Ends {S = S} (λ b _. b ≡ a) (pure a)
  unfolding pure
  Ends-pure a = record { post = λ s b e. cc }

pub ruleset ends_rules = (Ends-if, Ends-try, Ends-bind)

module _ {S A : Type 0} where
  pub Returns-pure : (a : A) → Returns {S = S} (pure a)
  unfolding pure
  Returns-pure a = record { result = λ s. (a, refl) }

  pub Returns-gets : (g : S → A) → Returns (gets g)
  unfolding gets
  Returns-gets g = record { result = λ s. (g s, refl) }

  pub Returns-if :
      (b : Bool) (m n : Exec S A) → Returns m → Returns n → Returns (if b then m else n)
  Returns-if true m n rm rn = rm
  Returns-if false m n rm rn = rn

  recover-Returns :
      (h : String → Exec S A)
      → ((e : String) → Returns (h e))
      → (r : Result A) (s : S) → (a : A) × ((recover r h s).0 ≡ ok a)
  recover-Returns h rh (ok a) s = (a, refl)
  recover-Returns h rh (raised e) s = (rh e).result s

  -- A handler that returns makes the whole return, whatever the guarded part does.
  pub Returns-try :
      (m : Exec S A) (h : String → Exec S A) → ((e : String) → Returns (h e)) → Returns (try m h)
  unfolding try
  Returns-try m h rh = record { result = λ s. recover-Returns h rh (m s).0 (m s).1 }

module _ {S : Type 0} where
  pub Returns-modify : (g : S → S) → Returns (modify g)
  unfolding modify
  Returns-modify g = record { result = λ s. (tt, refl) }

module _ {S A C : Type 0} where
  continue-Returns :
      (k : A → Exec S C)
      → ((a : A) → Returns (k a))
      → (r : Result A) (s : S) (a : A) → r ≡ ok a
      → (c : C) × ((continue r k s).0 ≡ ok c)
  continue-Returns k rk (ok b) s a e = (rk b).result s
  continue-Returns k rk (raised x) s a e = absurd (cc)

  pub Returns-bind :
      (m : Exec S A) (k : A → Exec S C) → Returns m → ((a : A) → Returns (k a)) → Returns (m >>= k)
  unfolding ◌>>=◌
  Returns-bind m k rm rk = record {
    result = λ s. let (a, e) = rm.result s in continue-Returns k rk (m s).0 (m s).1 a e;
  }

pub ruleset returns_rules =
    (Returns-pure, Returns-gets, Returns-if, Returns-try, Returns-modify, Returns-bind)

module _ {S A C : Type 0} (P : A → S → Type 0) (Q : C → S → Type 0) where
  continue-from :
      (k : A → Exec S C)
      → ((a : A) (s : S) → P a s → (c : C) → (k a s).0 ≡ ok c → Q c (k a s).1)
      → (r : Result A) (s : S) → ((a : A) → r ≡ ok a → P a s)
      → (c : C) → (continue r k s).0 ≡ ok c
      → Q c (continue r k s).1
  continue-from k step (ok a) s p c e = step a s (p a refl) c e
  continue-from k step (raised x) s p c e = absurd (cc)

  -- What the first part ends in may be used for the second.
  pub Ends-bind_from :
      (m : Exec S A) (k : A → Exec S C)
      → Ends P m
      → ((a : A) (s : S) → P a s → (c : C) → (k a s).0 ≡ ok c → Q c (k a s).1)
      → Ends Q (m >>= k)
  unfolding ◌>>=◌
  Ends-bind_from m k em step = record {
    post = λ s c e. continue-from k step (m s).0 (m s).1 (em.post s) c e;
  }

-- Inversion of a bind that returned.
module _ {S A C : Type 0} where
  continue_inv :
      (k : A → Exec S C) (r : Result A) (s : S) (c : C)
      → (continue r k s).0 ≡ ok c
      → (a : A) × (r ≡ ok a) × (continue r k s ≡ k a s)
  continue_inv k (ok a) s c e = (a, refl, refl)
  continue_inv k (raised x) s c e = absurd (cc)

  pub bind_inv :
      (m : Exec S A) (k : A → Exec S C) (s : S) (c : C)
      → ((m >>= k) s).0 ≡ ok c
      → (a : A) × ((m s).0 ≡ ok a) × ((m >>= k) s ≡ k a (m s).1)
  unfolding ◌>>=◌
  bind_inv m k s c e = continue_inv k (m s).0 (m s).1 c e
