-- ===== src/AgentDaemon/Known.antt =====
-- Which commands of the server the agent knows.
use kitt.Prelude.{
  String, true, false, none, some, ◌≡◌, ◌≢◌, ◌↔◌, ◌⊎◌, inl, inr, refl, sym, ap, ◌∙◌, ◌==◌,
  Bool-cases, eq_iff,
}
use kitt.Web.Database.{QuickTest}
use kitt.Web.Agents.Heartbeat.{command_type, is_engine_command}
use kitt.AgentDaemon.{Started, test, cleanup, engine_start, engine_install, dispatch_command}

-- What the heartbeat of the server calls a test, by cases.
command_type-cases :
    (t : QuickTest)
    → (((t.engine_name == "cleanup") ≡ true) × (command_type t ≡ "cleanup_storage"))
      ⊎ ((((t.engine_name == "cleanup") ≡ false)
            × (is_engine_command t.benchmark_name ≡ false)
            × (command_type t ≡ "run_test"))
          ⊎ (((t.engine_name == "cleanup") ≡ false)
              × (is_engine_command t.benchmark_name ≡ true)
              × (command_type t ≡ t.benchmark_name)))
unfolding command_type
command_type-cases t = elim (Bool-cases (t.engine_name == "cleanup")) [
  | inl is_cleanup ↦ inl (is_cleanup, rw (is_cleanup) refl)
  | inr other ↦ elim (Bool-cases (is_engine_command t.benchmark_name)) [
    | inl command ↦ inr (inr (other, command, rw (other, command) refl))
    | inr run ↦ inr (inl (other, run, rw (other, run) refl))
  ]
]

-- The engine commands by name.
engine_command-cases :
    (name : String)
    → is_engine_command name ≡ true
    → (name ≡ "install_engine") ⊎ ((name ≡ "start_engine") ⊎ (name ≡ "stop_engine"))
unfolding is_engine_command
engine_command-cases name h = elim (Bool-cases (name == "install_engine")) [
  | inl install ↦ inl ((eq_iff name "install_engine").0 install)
  | inr not_install ↦ elim (Bool-cases (name == "start_engine")) [
    | inl start ↦ inr (inl ((eq_iff name "start_engine").0 start))
    | inr not_start ↦ inr (inr ((eq_iff name "stop_engine").0 (rw (not_install, not_start) at h)))
  ]
]

module _ (t : QuickTest) where
  -- The agent knows the type of a command if it knows the name that the type is equal to.
  known-name :
      (name : String) (s : Started)
      → command_type t ≡ name
      → dispatch_command name ≡ some s
      → dispatch_command (command_type t) ≢ none
  known-name name s e k none_started = absurd (
      let same : dispatch_command name ≡ none = ap dispatch_command (sym e) ∙ none_started in
      cc (same, k))

  dropped-stop_engine :
      dispatch_command (command_type t) ≡ none
      → ((t.engine_name == "cleanup") ≡ false) × (t.benchmark_name ≡ "stop_engine")
  unfolding dispatch_command
  dropped-stop_engine h = elim (command_type-cases t) [
    | inl (yes_cleanup, e) ↦ absurd (known-name "cleanup_storage" cleanup e refl h)
    | inr (inl (other, run, e)) ↦ absurd (known-name "run_test" test e refl h)
    | inr (inr (other, command, e)) ↦ elim (engine_command-cases t.benchmark_name command) [
      | inl install ↦ absurd (known-name "install_engine" engine_install (e ∙ install) refl h)
      | inr (inl start) ↦ absurd (known-name "start_engine" engine_start (e ∙ start) refl h)
      | inr (inr stop) ↦ (other, stop)
    ]
  ]

  stop_engine-dropped :
      (t.engine_name == "cleanup") ≡ false
      → t.benchmark_name ≡ "stop_engine"
      → dispatch_command (command_type t) ≡ none
  unfolding dispatch_command is_engine_command
  stop_engine-dropped other stop = elim (command_type-cases t) [
    | inl (yes_cleanup, e) ↦ absurd (cc (yes_cleanup, other))
    | inr (inl (_, run, e)) ↦ absurd (
        let bad : is_engine_command "stop_engine" ≡ false = ap is_engine_command (sym stop) ∙ run in
        cc (bad))
    | inr (inr (_, command, e)) ↦ ap dispatch_command (e ∙ stop)
  ]

  -- The agent drops a command that a heartbeat brings exactly where the test that it was made from is
  -- no cleanup and has the benchmark name "stop_engine".
  pub dispatch_command-command_type :
      (dispatch_command (command_type t) ≡ none)
      ↔ (((t.engine_name == "cleanup") ≡ false) × (t.benchmark_name ≡ "stop_engine"))
  dispatch_command-command_type = (dropped-stop_engine, λ h. stop_engine-dropped h.0 h.1)
