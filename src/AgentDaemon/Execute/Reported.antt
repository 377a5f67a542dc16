-- ===== src/AgentDaemon/Execute/Reported.antt =====
-- What the server is told of a benchmark that ran, with its results.
use Prim.Native.String.{String}
use kitt.Prelude.{
  Bool, false, Option, none, some, if◌then◌else◌, ◌==◌, ◌≡◌, refl, ◌⊎◌, inl, inr, Bool-cases,
}
use kitt.Prelude.Exec.{Result, ok, raised, Exec, pure, modify, ◌>>=◌}
use kitt.Prelude.Exec.Keeps.{Keeps, keeps_rules}
use kitt.Prelude.Exec.Rules.{Ends, Ends-bind, Ends-bind_from, ends_rules, bind_inv}
use kitt.AgentDaemon.Execute.{
  Daemon, Command, World, Exit, on_log, send, update_status, send_report,
}
use kitt.AgentDaemon.Execute.Test.{
  Runner, read_metrics, conclude_run, final_status, error_msg, run_process,
}
use kitt.AgentDaemon.Execute.Settled.{last_status, last_report, IsConcluded}

module _ (w : World) (c : Command) (tested : (c.test_id == "") ≡ false) where
  -- What the server was told of the test, while the results are read.
  record Told (s e : String) (d : Daemon) : Type 0 where
    told : last_status d.sent ≡ some (s, e)

  Keeps-on_log : (s e text : String) → Keeps (Told s e) (on_log text)
  unfolding on_log modify send last_status
  Keeps-on_log s e text = record { keep = λ d h. record { told = h.told } }

  Keeps-read_metrics :
      (s e : String) (m : Option (Result String)) → Keeps (Told s e) (read_metrics w c m)
  unfolding read_metrics
  Keeps-read_metrics s e none = search keeps_rules
  Keeps-read_metrics s e (some (ok t)) = search (keeps_rules, Keeps-on_log) depth 6
  Keeps-read_metrics s e (some (raised x)) = search (keeps_rules, Keeps-on_log) depth 6

  telling : (s e : String) (d : Daemon) → Told s e (update_status c s e d).1
  unfolding update_status modify send last_status
  telling s e d = rw tested (record { told = refl })

  reporting :
      (s e : String) (r : Option String) (d : Daemon)
      → (s ≡ "completed") ⊎ (s ≡ "failed")
      → Told s e d
      → IsConcluded (send_report s e r d).1
  unfolding send_report modify send last_status last_report
  reporting s e r d f h = record {
    outcome = s;
    error = e;
    final = f;
    told = h.told;
    reported = refl;
  }

  final_status-cases :
      (e : Exit) → (final_status w c e ≡ "completed") ⊎ (final_status w c e ≡ "failed")
  unfolding final_status
  final_status-cases e = elim (Bool-cases e.is_zero) [
    | inl t ↦ inl (rw t refl)
    | inr f ↦ inr (rw f refl)
  ]

  after-read :
      (s e : String) (m : Exec Daemon (Option String))
      → (s ≡ "completed") ⊎ (s ≡ "failed")
      → Keeps (Told s e) m
      → (d : Daemon) → Told s e d
      → (b : Unit {0}) → ((m >>= λ r. send_report s e r) d).0 ≡ ok b
      → IsConcluded ((m >>= λ r. send_report s e r) d).1
  after-read s e m f km d h b r =
      let (a, e1, e2) = bind_inv m (λ r. send_report s e r) d b r in
      rw e2 (reporting s e a (m d).1 f (km.keep d h))

  Keeps-result :
      (s e : String) (b : Bool) (m : Option (Result String))
      → Keeps (Told s e) (if b then read_metrics w c m else pure none)
  Keeps-result s e b m = search (keeps_rules, Keeps-read_metrics) depth 6

  Ends-conclude_run : (dir : String) (e : Exit) → Ends (λ _. IsConcluded) (conclude_run w c dir e)
  unfolding conclude_run
  Ends-conclude_run dir e =
      Ends-bind (λ _. IsConcluded) _ _
        (λ _.
          Ends-bind_from (λ _. Told (final_status w c e) (error_msg w c e)) (λ _. IsConcluded)
            (update_status c (final_status w c e) (error_msg w c e)) _
            (record { post = λ d a r. telling (final_status w c e) (error_msg w c e) d })
            (λ a d h b r.
              after-read (final_status w c e) (error_msg w c e) _ (final_status-cases e)
                (Keeps-result (final_status w c e) (error_msg w c e) e.is_zero (w.metrics dir)) d h
                b r))

  pub Ends-run_process :
      (runner : Runner) (dir : String) → Ends (λ _. IsConcluded) (run_process w c runner dir)
  unfolding run_process
  Ends-run_process runner dir = search (ends_rules, Ends-conclude_run) depth 9
