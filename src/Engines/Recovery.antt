-- ===== src/Engines/Recovery.antt =====
-- HealthRecoveryManager of src/kitt/engines/health_recovery.py: a generation that fails is tried
-- again after a restart of the engine.
pub mod Attempts
use kitt.Prelude.{ℕ, zero, suc, ◌+◌, String, Option, none, some, List, [], ◌∷◌}
use kitt.Prelude.Exec.{Exec, Result, ok, raised, pure, raise, modify, ◌>>=◌, ◌>>◌}

-- The engine, by the number of the call: what `generate` gives, and the exception of `initialize`.
-- An exception of `cleanup` is only logged.
pub record Engine : Type 0 where
  pub generates : ℕ → Result String
  pub init_error : ℕ → Option String

pub data Call : Type 0 where
  generate cleanup sleep initialize : Call

-- `_retry_count`, the numbers of calls so far, and the calls, the last one first.
pub record Recovery : Type 0 where
  pub retry_count : ℕ
  pub generated : ℕ
  pub restarted : ℕ
  pub calls : List Call

pub reset : Recovery → Recovery
reset s = record s { retry_count = 0 }

pub count_retry : Recovery → Recovery
count_retry s = record s { retry_count = suc s.retry_count }

module _ (engine : Engine) (message : String → String) where
  pub call_generate : Exec Recovery (Result String)
  call_generate s = (
    ok (engine.generates s.generated),
    record s { generated = suc s.generated; calls = generate ∷ s.calls },
  )

  raise_if : Option String → Exec Recovery (Unit {0})
  raise_if none = pure tt
  raise_if (some e) = raise e

  -- _recover
  pub recover_engine : Exec Recovery (Unit {0})
  unfolding raise_if
  recover_engine s =
      raise_if (engine.init_error s.restarted)
        (record s { restarted = suc s.restarted; calls = initialize ∷ sleep ∷ cleanup ∷ s.calls })

  -- What follows a call of `generate`: its result, or `next` after the count.
  pub settle : Result String → (String → Exec Recovery String) → Exec Recovery String
  unfolding reset count_retry
  settle (ok text) next = modify reset >> pure text
  settle (raised e) next = modify count_retry >> next e

  -- The loop, with the number of attempts that are left after this one.
  pub attempt : ℕ → Exec Recovery String
  unfolding call_generate recover_engine settle
  attempt zero = call_generate >>= λ r. settle r (λ e. raise (message e))
  attempt (suc left) = call_generate >>= λ r. settle r (λ _. recover_engine >> attempt left)

  -- range(max_retries + 1); `message e` is the text of the final RuntimeError.
  pub generate_with_recovery : ℕ → Exec Recovery String
  generate_with_recovery max_retries = attempt max_retries
