-- ===== src/Engines/Recovery/Attempts.antt =====
-- How often the engine is called, and when a generation gives a result.
use kitt.Prelude.{
  ℕ, zero, suc, ◌+◌, ◌≤◌, ◌<◌, String, Option, none, some, ◌∷◌, ◌≡◌, refl, subst, arith, ◌⊎◌, inl,
  inr,
}
use kitt.Prelude.Exec.{Result, ok, raised, pure, raise, modify, ◌>>=◌}
use kitt.Engines.Recovery.{
  Engine, Recovery, generate, cleanup, sleep, initialize, reset, count_retry, call_generate,
  raise_if, recover_engine, settle, attempt, generate_with_recovery,
}

Result-cases :
    {A : Type 0} (r : Result A) → ((a : A) × (r ≡ ok a)) ⊎ ((e : String) × (r ≡ raised e))
Result-cases (ok a) = inl (a, refl)
Result-cases (raised e) = inr (e, refl)

None-cases : {A : Type 0} (o : Option A) → (o ≡ none) ⊎ ((a : A) × (o ≡ some a))
None-cases none = inl refl
None-cases (some a) = inr (a, refl)

module _ (engine : Engine) (message : String → String) where
  -- The state after a generation that gave a result, after one that failed, and after a restart.
  abbrev generated_ok : Recovery → Recovery
  generated_ok s = record (call_generate engine message s).1 { retry_count = 0 }

  abbrev generated_bad : Recovery → Recovery
  generated_bad s = record (call_generate engine message s).1 { retry_count = suc s.retry_count }

  abbrev after_restart : Recovery → Recovery
  after_restart s = record s {
    retry_count = suc s.retry_count;
    generated = suc s.generated;
    restarted = suc s.restarted;
    calls = initialize ∷ sleep ∷ cleanup ∷ generate ∷ s.calls;
  }

  attempt-ok :
      (left : ℕ) (s : Recovery) (t : String)
      → engine.generates s.generated ≡ ok t
      → attempt engine message left s ≡ (ok t, generated_ok s)
  unfolding attempt call_generate settle reset ◌>>=◌ modify pure
  attempt-ok zero s t h = rw h refl
  attempt-ok (suc left) s t h = rw h refl

  attempt-last :
      (s : Recovery) (e : String)
      → engine.generates s.generated ≡ raised e
      → attempt engine message zero s ≡ (raised (message e), generated_bad s)
  unfolding attempt call_generate settle count_retry ◌>>=◌ modify raise
  attempt-last s e h = rw h refl

  attempt-dead :
      (left : ℕ) (s : Recovery) (e x : String)
      → engine.generates s.generated ≡ raised e
      → engine.init_error s.restarted ≡ some x
      → attempt engine message (suc left) s ≡ (raised x, after_restart s)
  unfolding attempt call_generate settle count_retry recover_engine raise_if ◌>>=◌ modify raise
  attempt-dead left s e x h i = rw (h, i) refl

  attempt-again :
      (left : ℕ) (s : Recovery) (e : String)
      → engine.generates s.generated ≡ raised e
      → engine.init_error s.restarted ≡ none
      → attempt engine message (suc left) s ≡ attempt engine message left (after_restart s)
  unfolding attempt call_generate settle count_retry recover_engine raise_if ◌>>=◌ modify pure
  attempt-again left s e h i = rw (h, i) refl

  abbrev Bounded : ℕ → Recovery → Recovery → Type 0
  Bounded left s s' = (s'.generated ≤ s.generated + suc left) × (s'.restarted ≤ s.restarted + left)

  attempt-Bounded : (left : ℕ) (s : Recovery) → Bounded left s (attempt engine message left s).1
  unfolding call_generate
  attempt-Bounded zero s = elim (Result-cases (engine.generates s.generated)) [
    | inl (t, h) ↦ rw (attempt-ok zero s t h) (omega arith, omega arith)
    | inr (e, h) ↦ rw (attempt-last s e h) (omega arith, omega arith)
  ]
  attempt-Bounded (suc left) s = elim (Result-cases (engine.generates s.generated)) [
    | inl (t, h) ↦ rw (attempt-ok (suc left) s t h) (omega arith, omega arith)
    | inr (e, h) ↦ elim (None-cases (engine.init_error s.restarted)) [
      | inl fine ↦
          let (g, r) = attempt-Bounded left (after_restart s) in
          rw (attempt-again left s e h fine) (omega (arith, g), omega (arith, r))
      | inr (x, dead) ↦ rw (attempt-dead left s e x h dead) (omega arith, omega arith)
    ]
  ]

  -- The engine is asked at most once more than there are retries, and restarted at most once for
  -- each retry, whatever it answers.
  pub generate_with_recovery-bounds :
      (max_retries : ℕ) (s : Recovery)
      → ((generate_with_recovery engine message max_retries s).1.generated
          ≤ s.generated + suc max_retries)
        × ((generate_with_recovery engine message max_retries s).1.restarted
            ≤ s.restarted + max_retries)
  unfolding generate_with_recovery
  generate_with_recovery-bounds = attempt-Bounded

  module _ (starts : (n : ℕ) → engine.init_error n ≡ none) where
    attempt-recovers :
        (k left : ℕ) (s : Recovery) (t : String)
        → k ≤ left
        → ((i : ℕ) → i < k → (e : String) × (engine.generates (s.generated + i) ≡ raised e))
        → engine.generates (s.generated + k) ≡ ok t
        → ((attempt engine message left s).0 ≡ ok t)
          × ((attempt engine message left s).1.retry_count ≡ 0)
          × ((attempt engine message left s).1.generated ≡ s.generated + suc k)
    unfolding call_generate
    attempt-recovers zero left s t le fails works =
        let works' : engine.generates s.generated ≡ ok t =
          subst (λ n. engine.generates n ≡ ok t) (omega arith) works in
        rw (attempt-ok left s t works') (refl, refl, omega arith)
    attempt-recovers (suc k) zero s t le fails works = absurd (omega (arith, le))
    attempt-recovers (suc k) (suc left) s t le fails works =
        let (e, first) = fails 0 (omega arith) in
        let first' : engine.generates s.generated ≡ raised e =
          subst (λ n. engine.generates n ≡ raised e) (omega arith) first in
        let (r, c, g) =
          attempt-recovers k left (after_restart s) t (omega (arith, le))
            (λ i lt.
              let (x, h) = fails (suc i) (omega (arith, lt)) in
              (x, subst (λ n. engine.generates n ≡ raised x) (omega arith) h))
            (subst (λ n. engine.generates n ≡ ok t) (omega arith) works) in
        rw (attempt-again left s e first' (starts s.restarted)) (r, c, omega (arith, g))

    -- Where every restart works, a generation that fails at most as often as there are retries and
    -- then succeeds gives its text, after exactly that many calls, and the retry count is 0 again.
    pub generate_with_recovery-recovers :
        (k max_retries : ℕ) (s : Recovery) (t : String)
        → k ≤ max_retries
        → ((i : ℕ) → i < k → (e : String) × (engine.generates (s.generated + i) ≡ raised e))
        → engine.generates (s.generated + k) ≡ ok t
        → ((generate_with_recovery engine message max_retries s).0 ≡ ok t)
          × ((generate_with_recovery engine message max_retries s).1.retry_count ≡ 0)
          × ((generate_with_recovery engine message max_retries s).1.generated
              ≡ s.generated + suc k)
    unfolding generate_with_recovery
    generate_with_recovery-recovers = attempt-recovers

    attempt-exhausted :
        (left : ℕ) (s : Recovery) (e : String)
        → ((i : ℕ) → i < suc left → engine.generates (s.generated + i) ≡ raised e)
        → ((attempt engine message left s).0 ≡ raised (message e))
          × ((attempt engine message left s).1.retry_count ≡ s.retry_count + suc left)
          × ((attempt engine message left s).1.generated ≡ s.generated + suc left)
    unfolding call_generate
    attempt-exhausted zero s e fails =
        let first : engine.generates s.generated ≡ raised e =
          subst (λ n. engine.generates n ≡ raised e) (omega arith) (fails 0 (omega arith)) in
        rw (attempt-last s e first) (refl, omega arith, omega arith)
    attempt-exhausted (suc left) s e fails =
        let first : engine.generates s.generated ≡ raised e =
          subst (λ n. engine.generates n ≡ raised e) (omega arith) (fails 0 (omega arith)) in
        let (r, c, g) = attempt-exhausted left (after_restart s) e (λ i lt.
          subst (λ n. engine.generates n ≡ raised e) (omega arith)
            (fails (suc i) (omega (arith, lt)))) in
        rw (attempt-again left s e first (starts s.restarted))
          (r, omega (arith, c), omega (arith, g))

    -- Where every restart works and every attempt fails, the final error names the last failure after
    -- exactly one call more than there are retries, each of them counted.
    generate_with_recovery-exhausted :
        (max_retries : ℕ) (s : Recovery) (e : String)
        → ((i : ℕ) → i < suc max_retries → engine.generates (s.generated + i) ≡ raised e)
        → ((generate_with_recovery engine message max_retries s).0 ≡ raised (message e))
          × ((generate_with_recovery engine message max_retries s).1.retry_count
              ≡ s.retry_count + suc max_retries)
          × ((generate_with_recovery engine message max_retries s).1.generated
              ≡ s.generated + suc max_retries)
    unfolding generate_with_recovery
    generate_with_recovery-exhausted = attempt-exhausted
