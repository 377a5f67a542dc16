-- ===== src/AgentDaemon/Execute/Settled.antt =====
-- How the threads of the agent end: what they told the server last, and what they no longer keep.
use Prim.Native.String.{String}
use kitt.Prelude.{
  false, Option, none, some, List, [], ◌∷◌, any, ◌==◌, ◌≡◌, refl, arith, ◌⊎◌, inl, inr, lookup,
  lookup-remove, eq_refl,
}
use kitt.Prelude.Exec.{ok, Exec, raise, modify, try, ◌>>=◌}
use kitt.Prelude.Exec.Rules.{Ends, Ends-bind_from, ends_rules, Returns, returns_rules}
use kitt.AgentDaemon.Execute.{
  Message, line, status, report, Daemon, Command, ContainerSpec, World, on_log, send, update_status,
  send_report, conclude, without, forget, forget_streamer, fail, stop_unhealthy, run_healthy,
  run_container, execute_container, engine_started, engine_refused, run_start, execute_start_engine,
  install_refused, run_install, execute_install_engine,
}

-- The status and the report that were sent last.
unfoldable pub last_status : List Message → Option (String × String)
last_status [] = none
last_status (line l ∷ sent) = last_status sent
last_status (status s e ∷ sent) = some (s, e)
last_status (report s e r ∷ sent) = last_status sent

unfoldable pub last_report : List Message → Option (String × String)
last_report [] = none
last_report (line l ∷ sent) = last_report sent
last_report (status s e ∷ sent) = last_report sent
last_report (report s e r ∷ sent) = some (s, e)

-- The last status and the last report say the same, and it is an end.
pub record IsConcluded (d : Daemon) : Type 0 where
  pub outcome : String
  pub error : String
  pub final : (outcome ≡ "completed") ⊎ (outcome ≡ "failed")
  pub told : last_status d.sent ≡ some (outcome, error)
  pub reported : last_report d.sent ≡ some (outcome, error)

pub IsConcluded-sent : (d d' : Daemon) → d'.sent ≡ d.sent → IsConcluded d → IsConcluded d'
IsConcluded-sent d d' e h = record {
  outcome = h.outcome;
  error = h.error;
  final = h.final;
  told = rw e h.told;
  reported = rw e h.reported;
}

-- And the command is not kept any more.
pub record IsOver (c : Command) (d : Daemon) : Type 0 where
  pub concluded : IsConcluded d
  pub no_container : lookup c.command_id d.active_containers ≡ none
  pub no_streamer : any (λ y. y == c.command_id) d.log_streamers ≡ false

-- What start_engine and install_engine leave: they run no container.
pub record IsFinished (c : Command) (d : Daemon) : Type 0 where
  pub concluded : IsConcluded d
  pub no_streamer : any (λ y. y == c.command_id) d.log_streamers ≡ false

pub any-without : (x : String) (xs : List String) → any (λ y. y == x) (without x xs) ≡ false
any-without x [] = refl
any-without x (y ∷ xs) = ground (arith, any-without x xs)

-- A command that runs a test: its statuses are sent.
module _ (c : Command) (tested : (c.test_id == "") ≡ false) where
  Ends-conclude :
      (s e : String) → (s ≡ "completed") ⊎ (s ≡ "failed") → Ends (λ _. IsConcluded) (conclude c s e)
  unfolding conclude update_status send_report modify ◌>>=◌ send last_status last_report
  Ends-conclude s e f = record {
    post = λ d a r.
        rw tested (record { outcome = s; error = e; final = f; told = refl; reported = refl });
  }

  Ends-completed : (e : String) → Ends (λ _. IsConcluded) (conclude c "completed" e)
  Ends-completed e = Ends-conclude "completed" e (inl refl)

  pub Ends-failed : (e : String) → Ends (λ _. IsConcluded) (conclude c "failed" e)
  Ends-failed e = Ends-conclude "failed" e (inr refl)

  Ends-raise : (e : String) → Ends {A = Unit {0}} (λ _. IsConcluded) (raise e)
  unfolding raise
  Ends-raise e = record { post = λ d a r. absurd (cc) }

  ruleset concluding = (ends_rules, Ends-completed, Ends-failed, Ends-raise)

  module _ (w : World) where
    pub Ends-fail : (text e : String) → Ends (λ _. IsConcluded) (fail w c text e)
    unfolding fail
    Ends-fail text e = search concluding depth 9

    Ends-run_container : (spec : ContainerSpec) → Ends (λ _. IsConcluded) (run_container w c spec)
    unfolding run_container run_healthy stop_unhealthy
    Ends-run_container spec = search concluding depth 14

    Ends-engine_refused :
        (engine_name : String) (error : Option String)
        → Ends (λ _. IsConcluded) (engine_refused w c engine_name error)
    unfolding engine_refused
    Ends-engine_refused engine_name none = search concluding
    Ends-engine_refused engine_name (some e) = Ends-fail _ e

    Ends-run_start :
        (engine_name config model_path : String)
        → Ends (λ _. IsConcluded) (run_start w c engine_name config model_path)
    unfolding run_start engine_started
    Ends-run_start engine_name config model_path = search (concluding, Ends-engine_refused) depth 9

    Ends-run_install :
        (engine_name : String) → Ends (λ _. IsConcluded) (run_install w c engine_name)
    unfolding run_install install_refused
    Ends-run_install engine_name = search (concluding, Ends-fail) depth 9

    pub Returns-update_status : (s e : String) → Returns (update_status c s e)
    unfolding update_status
    Returns-update_status s e = search returns_rules

    Returns-send_report : (s e : String) (r : Option String) → Returns (send_report s e r)
    unfolding send_report
    Returns-send_report s e r = search returns_rules

    pub Returns-on_log : (text : String) → Returns (on_log text)
    unfolding on_log
    Returns-on_log text = search returns_rules

    pub Returns-fail : (text e : String) → Returns (fail w c text e)
    unfolding fail conclude
    Returns-fail text e =
        search (returns_rules, Returns-update_status, Returns-send_report, Returns-on_log) depth 9

    -- A change that leaves what was sent, after a part that raises into `fail`.
    pub guarded-concluded :
        (m : Exec Daemon (Unit {0})) (text : String) (change : Daemon → Daemon)
        (Q : Daemon → Type 0)
        → Ends (λ _. IsConcluded) m
        → ((d : Daemon) → IsConcluded d → Q (change d))
        → Ends (λ _. Q) (try m (fail w c text) >>= λ _. modify change)
    unfolding modify
    guarded-concluded m text change Q em keep =
        Ends-bind_from (λ _. IsConcluded) (λ _. Q) (try m (fail w c text)) (λ _. modify change)
          (search (concluding, em, Ends-fail) depth 6) (λ a d concluded b e. keep d concluded)

    guarded-Returns :
        (m : Exec Daemon (Unit {0})) (text : String) (change : Daemon → Daemon)
        → Returns (try m (fail w c text) >>= λ _. modify change)
    guarded-Returns m text change = search (returns_rules, Returns-fail) depth 6

    -- Whatever raises, the action returns, and ends as it should.
    pub over :
        (m : Exec Daemon (Unit {0})) (Q : Daemon → Type 0)
        → Ends (λ _. Q) m
        → Returns m
        → (d : Daemon) → ((m d).0 ≡ ok tt) × Q (m d).1
    over m Q em rm d = let (a, e) = rm.result d in (e, em.post d a e)

    forget-IsOver : (d : Daemon) → IsConcluded d → IsOver c (forget c d)
    unfolding forget
    forget-IsOver d h = record {
      concluded = IsConcluded-sent d _ refl h;
      no_container =
          rw (lookup-remove c.command_id c.command_id d.active_containers)
            (rw (eq_refl c.command_id) refl);
      no_streamer = any-without c.command_id d.log_streamers;
    }

    forget_streamer-IsFinished : (d : Daemon) → IsConcluded d → IsFinished c (forget_streamer c d)
    unfolding forget_streamer
    forget_streamer-IsFinished d h = record {
      concluded = IsConcluded-sent d _ refl h;
      no_streamer = any-without c.command_id d.log_streamers;
    }

    -- Whatever raises: the thread of a command of a test that runs a container returns; the last
    -- status and the last report that it sent are the same and final, and neither its container nor
    -- its streamer is kept.
    pub execute_container-IsOver :
        (spec : ContainerSpec) (d : Daemon)
        → ((execute_container w c spec d).0 ≡ ok tt) × IsOver c (execute_container w c spec d).1
    unfolding execute_container
    execute_container-IsOver spec =
        over _ (IsOver c)
          (guarded-concluded _ "Error: " (forget c) (IsOver c) (Ends-run_container spec)
            forget-IsOver)
          (guarded-Returns _ "Error: " (forget c))

    -- So too for the threads that start and install an engine, which keep no container.
    execute_engine-IsFinished :
        (engine_name config model_path : String) (d : Daemon)
        → (((execute_start_engine w c engine_name config model_path d).0 ≡ ok tt)
            × IsFinished c (execute_start_engine w c engine_name config model_path d).1)
          × (((execute_install_engine w c engine_name d).0 ≡ ok tt)
              × IsFinished c (execute_install_engine w c engine_name d).1)
    unfolding execute_start_engine execute_install_engine
    execute_engine-IsFinished engine_name config model_path d = (
      over _ (IsFinished c)
          (guarded-concluded _ "Error starting engine: " (forget_streamer c) (IsFinished c)
            (Ends-run_start engine_name config model_path) forget_streamer-IsFinished)
          (guarded-Returns _ "Error starting engine: " (forget_streamer c)) d,
      over _ (IsFinished c)
          (guarded-concluded _ "Error: " (forget_streamer c) (IsFinished c)
            (Ends-run_install engine_name) forget_streamer-IsFinished)
          (guarded-Returns _ "Error: " (forget_streamer c)) d,
    )
