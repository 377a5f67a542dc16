-- ===== src/AgentDaemon/Execute/Chosen.antt =====
-- daemon.py, _execute_test: the part that follows once the way to run the benchmark is chosen.
use Prim.Native.String.{String}
use kitt.Prelude.{
  Bool, true, false, not, ◌&&◌, if◌then◌else◌, Bool-cases, inl, inr, Option, none, some, any, ◌==◌,
  ◌≡◌, refl,
}
use kitt.Prelude.Exec.{Result, ok, Exec, pure, modify, try, ◌>>=◌}
use kitt.Prelude.Exec.Keeps.{Keeps, keeps_rules}
use kitt.Prelude.Exec.Yields.{Yields}
use kitt.Prelude.Exec.Gives.{Gives, Gives-bind, Yields-both}
use kitt.Prelude.Exec.Rules.{ends_rules, returns_rules}
use kitt.AgentDaemon.Execute.{
  Daemon, Command, ModelStorage, World, settle, on_log, send, update_status, send_report, conclude,
  forget, fail,
}
use kitt.AgentDaemon.Execute.Test.{
  Runner, remove_dir, note_cleaned, run_process, clean_copy, missing, run_chosen,
}
use kitt.AgentDaemon.Execute.Settled.{
  IsConcluded, IsConcluded-sent, Returns-on_log, Ends-fail, Returns-fail, any-without,
}
use kitt.AgentDaemon.Execute.Reported.{Ends-run_process}

abbrev pub is_none : Option Runner → Bool
is_none none = true
is_none (some r) = false

-- At the end the server knows, and the directory of the results is left where it is said.
pub record Ended (dir : String) (left : Bool) (d : Daemon) : Type 0 where
  pub concluded : IsConcluded d
  pub directory : any (λ x. x == dir) d.output_dirs ≡ left

-- What the removal of the local copy gives, where it is asked for.
abbrev pub cleanup_result : Option ModelStorage → String → String → Result (Unit {0})
cleanup_result none path model_path = ok tt
cleanup_result (some storage) path model_path =
    if storage.auto_cleanup && not (path == model_path) then storage.cleanup_model path else ok tt

-- What the thread gives: only a test that ran cleans up.
abbrev pub thread_result : Option ModelStorage → Option Runner → String → String → Result (Unit {0})
thread_result storage none path model_path = ok tt
thread_result storage (some runner) path model_path = cleanup_result storage path model_path

module _ (w : World) (c : Command) (tested : (c.test_id == "") ≡ false) where
  removed :
      (dir : String) (d : Daemon) → IsConcluded d → Ended dir false (forget c (remove_dir dir d))
  unfolding forget remove_dir
  removed dir d h = record {
    concluded = IsConcluded-sent d _ refl h;
    directory = any-without dir d.output_dirs;
  }

  Keeps-note_cleaned :
      (dir : String) (left : Bool) (path : String)
      → Keeps (Ended dir left) (modify (note_cleaned path))
  unfolding modify note_cleaned
  Keeps-note_cleaned dir left path = record {
    keep = λ d h. record {
      concluded = IsConcluded-sent d _ refl h.concluded;
      directory = h.directory;
    };
  }

  Keeps-settle : {A : Type 0} (P : Daemon → Type 0) (r : Result A) → Keeps P (settle r)
  unfolding settle
  Keeps-settle P r = record { keep = λ d h. h }

  Keeps-clean_copy :
      (dir : String) (left : Bool) (o : Option ModelStorage) (path model_path : String)
      → Keeps (Ended dir left) (clean_copy w c o path model_path)
  unfolding clean_copy
  Keeps-clean_copy dir left none path model_path = search keeps_rules
  Keeps-clean_copy dir left (some storage) path model_path =
      search (keeps_rules, Keeps-note_cleaned, Keeps-settle) depth 8

  clean_copy-result :
      (o : Option ModelStorage) (path model_path : String) (d : Daemon)
      → (clean_copy w c o path model_path d).0 ≡ cleanup_result o path model_path
  unfolding clean_copy ◌>>=◌ modify pure settle
  clean_copy-result none path model_path d = refl
  clean_copy-result (some storage) path model_path d =
      elim (Bool-cases (storage.auto_cleanup && not (path == model_path))) [
        | inl cleans ↦ rw cleans refl
        | inr keeps ↦ rw keeps refl
      ]

  wind_up : String → String → String → Exec Daemon (Unit {0})
  wind_up path model_path dir = modify (remove_dir dir) >>= λ _.
      modify (forget c) >>= λ _. clean_copy w c w.storage path model_path

  Gives-wind_up :
      (path model_path dir : String)
      → Gives IsConcluded
          (cleanup_result w.storage path model_path)
          (Ended dir false)
          (wind_up path model_path dir)
  unfolding wind_up ◌>>=◌ modify
  Gives-wind_up path model_path dir = record {
    give = λ d h. (
      clean_copy-result w.storage path model_path _,
      (Keeps-clean_copy dir false w.storage path model_path).keep _ (removed dir d h),
    );
  }

  Keeps-left :
      (dir text e : String)
      → Keeps (λ d. any (λ x. x == dir) d.output_dirs ≡ true) (fail w c text e)
  unfolding fail conclude on_log update_status send_report modify ◌>>=◌ send
  Keeps-left dir text e = record { keep = λ d h. rw tested h }

  pub run_chosen-Ended :
      (o : Option Runner) (path model_path dir : String)
      → Gives
          (λ d. any (λ x. x == dir) d.output_dirs ≡ true)
          (thread_result w.storage o path model_path)
          (Ended dir (is_none o))
          (run_chosen w c o path model_path dir)
  unfolding run_chosen wind_up
  run_chosen-Ended none path model_path dir = record {
    give = λ d h.
        let (a, e) = (Returns-fail c tested w "Error: " (missing w c)).result d in
        (
          e,
          record {
            concluded = (Ends-fail c tested w "Error: " (missing w c)).post d a e;
            directory = (Keeps-left dir "Error: " (missing w c)).keep d h;
          },
        );
  }
  run_chosen-Ended (some runner) path model_path dir =
      let guarded = try (run_process w c runner dir) (fail w c "Error: ") in
      let done : Yields (λ _. Unit {0}) (λ _. IsConcluded) guarded =
        Yields-both IsConcluded guarded (search (returns_rules, Returns-fail) depth 6)
          (search (ends_rules, Ends-run_process w c tested, Ends-fail) depth 6) in
      Gives-bind _ (λ _ _. Unit {0}) (Ended dir false) _ (on_log runner.note) _
        (record {
          yield =
              λ d h. let (a, e) = (Returns-on_log c tested w runner.note).result d in (a, e, tt);
        })
        (λ _.
          Gives-bind (λ _. Unit {0}) (λ _. IsConcluded) (Ended dir false) _ guarded
            (λ _. wind_up path model_path dir) done (λ _. Gives-wind_up path model_path dir))
