-- ===== src/AgentDaemon/Execute/Tested.antt =====
-- daemon.py, _execute_test: how the thread of a test ends, with a way to run the benchmark and without.
use Prim.Native.String.{String, ◌++◌ as append_text}
use kitt.Prelude.{true, false, Option, List, [], ◌∷◌, any, ◌==◌, ◌≡◌, refl, sym, subst, eq_refl}
use kitt.Prelude.Exec.{Result, ok, raised, Exec, pure, gets, modify, ◌>>=◌}
use kitt.Prelude.Exec.Yields.{Yields, Yields-bind, Yields-gets}
use kitt.Prelude.Exec.Gives.{Gives, Gives-bind, Gives-given}
use kitt.AgentDaemon.Execute.{
  Message, line, status, Daemon, Command, TestPayload, World, settle, on_log, log_lines, logged,
  send, update_status, resolve_with, chosen_image,
}
use kitt.AgentDaemon.Execute.Test.{add_dir, choose_runner, run_chosen, execute_test}
use kitt.AgentDaemon.Execute.Chosen.{is_none, Ended, thread_result, run_chosen-Ended}

module _ (w : World) (c : Command) (tested : (c.test_id == "") ≡ false) where
  record Ready (image dir : String) (d : Daemon) : Type 0 where
    configured : d.kitt_image ≡ image
    made : any (λ x. x == dir) d.output_dirs ≡ true

  -- What neither a line nor a status changes.
  module _ (P : Daemon → Type 0) (kept : (m : Message) (d : Daemon) → P d → P (send m d)) where
    Yields-send : (m : Message) → Yields P (λ _. P) (modify (send m))
    unfolding modify
    Yields-send m = record { yield = λ d h. (tt, refl, kept m d h) }

    Yields-line : (text : String) → Yields P (λ _. P) (on_log text)
    unfolding on_log
    Yields-line text = Yields-send (line text)

    Yields-lines : (texts : List String) → Yields P (λ _. P) (log_lines texts)
    unfolding log_lines pure
    Yields-lines [] = record { yield = λ d h. (tt, refl, h) }
    Yields-lines (t ∷ texts) =
        Yields-bind P (λ _. P) (λ _. P) _ _ (Yields-line t) (λ _. Yields-lines texts)

    Yields-status : (s e : String) → Yields P (λ _. P) (update_status c s e)
    unfolding update_status
    Yields-status s e = rw tested (Yields-send (status s e))

    Yields-logged :
        {A : Type 0} (x : List String × Result A) (a : A)
        → x.1 ≡ ok a
        → Yields P (λ b d. P d × (a ≡ b)) (logged x)
    unfolding logged settle
    Yields-logged (texts, ok b) a r =
        let e : a ≡ b = cc in
        Yields-bind P (λ _. P) (λ y d. P d × (a ≡ y)) (log_lines texts) _ (Yields-lines texts)
          (λ _. record { yield = λ d h. (b, refl, (h, e)) })
    Yields-logged (texts, raised t) a r = absurd (cc)

    Yields-settle : {A : Type 0} (r : Result A) (a : A) → r ≡ ok a → Yields P (λ _. P) (settle r)
    unfolding settle
    Yields-settle r a e = record { yield = λ d h. (a, e, h) }

  abbrev results_dir : String
  results_dir = append_text w.tempdir (append_text "/kitt-results-" c.command_id)

  Yields-add_dir :
      (image dir : String)
      → Yields (λ d. d.kitt_image ≡ image) (λ _. Ready image dir) (modify (add_dir dir))
  unfolding modify add_dir
  Yields-add_dir image dir = record {
    yield = λ d h. (tt, refl, record { configured = h; made = rw (eq_refl dir) refl });
  }

  send-Ready :
      (image dir : String) (m : Message) (d : Daemon)
      → Ready image dir d
      → Ready image dir (send m d)
  unfolding send
  send-Ready image dir m d h = record { configured = h.configured; made = h.made }

  send-image :
      (image : String) (m : Message) (d : Daemon)
      → d.kitt_image ≡ image
      → (send m d).kitt_image ≡ image
  unfolding send
  send-image image m d h = h

  -- What follows the choice of an image, and what follows the resolution of the model.
  abbrev run_with : TestPayload → String → Option String → Exec Daemon (Unit {0})
  run_with p path o =
      run_chosen w c (choose_runner w c p path results_dir o) path p.model_path results_dir

  abbrev choose : TestPayload → String → String → Exec Daemon (Unit {0})
  choose p path image = logged (chosen_image w c image) >>= λ o. run_with p path o

  abbrev prepare : TestPayload → String → Exec Daemon (Unit {0})
  prepare p path = settle (w.mkdir results_dir) >>= λ _. modify (add_dir results_dir) >>= λ _.
      gets (λ d. d.kitt_image) >>= λ image. choose p path image

  abbrev outcome : TestPayload → String → Option String → Result (Unit {0})
  outcome p path o =
      thread_result w.storage (choose_runner w c p path results_dir o) path p.model_path

  abbrev AtEnd : TestPayload → String → Option String → Daemon → Type 0
  AtEnd p path o = Ended results_dir (is_none (choose_runner w c p path results_dir o))

  Gives-choose :
      (p : TestPayload) (path image : String) (o : Option String)
      → (chosen_image w c image).1 ≡ ok o
      → Gives (Ready image results_dir) (outcome p path o) (AtEnd p path o) (choose p path image)
  Gives-choose p path image o chosen =
      let R = Ready image results_dir in
      Gives-bind R (λ x d. R d × (o ≡ x)) (AtEnd p path o) (outcome p path o) _ _
        (Yields-logged R (send-Ready image results_dir) (chosen_image w c image) o chosen)
        (λ x. Gives-given R (outcome p path o) (AtEnd p path o) _ (λ e.
          subst (λ y. Gives R (outcome p path o) (AtEnd p path o) (run_with p path y)) e
            (record {
              give = λ d h.
                  (run_chosen-Ended w c tested (choose_runner w c p path results_dir o) path
                      p.model_path results_dir).give
                    d h.made;
            })))

  Gives-prepare :
      (p : TestPayload) (path image : String) (o : Option String)
      → w.mkdir results_dir ≡ ok tt
      → (chosen_image w c image).1 ≡ ok o
      → Gives (λ d. d.kitt_image ≡ image) (outcome p path o) (AtEnd p path o) (prepare p path)
  Gives-prepare p path image o made chosen =
      let E = AtEnd p path o in
      let r = outcome p path o in
      let K : Daemon → Type 0 = λ d. d.kitt_image ≡ image in
      let R = Ready image results_dir in
      Gives-bind K (λ _. K) E r _ _
        (Yields-settle K (send-image image) (w.mkdir results_dir) tt made)
        (λ _.
          Gives-bind K (λ _. R) E r _ _ (Yields-add_dir image results_dir)
            (λ _.
              Gives-bind R (λ i d. R d × (image ≡ i)) E r _ _
                (Yields-gets R (λ i d. R d × (image ≡ i)) (λ d. d.kitt_image)
                  (λ d h. (h, sym h.configured)))
                (λ i. Gives-given R r E _ (λ e.
                  subst (λ x. Gives R r E (choose p path x)) e
                    (Gives-choose p path image o chosen)))))

  -- For a test whose model is resolved, whose directory is made and for which docker is asked for an
  -- image without an error, whatever the benchmark does: the last status and the last report that
  -- were sent are the same and final. The thread returns, or, where a copy of the model is to be
  -- removed after the run, ends as that removal does. The directory of the results is left behind
  -- exactly if there is neither an image to run nor a local command.
  pub execute_test-Ended :
      (p : TestPayload) (path : String) (o : Option String) (d : Daemon)
      → (resolve_with w c w.storage p.model_path).1 ≡ ok path
      → w.mkdir results_dir ≡ ok tt
      → (chosen_image w c d.kitt_image).1 ≡ ok o
      → ((execute_test w c p d).0
          ≡ thread_result w.storage (choose_runner w c p path results_dir o) path p.model_path)
        × Ended results_dir
            (is_none (choose_runner w c p path results_dir o))
            (execute_test w c p d).1
  unfolding execute_test
  execute_test-Ended p path o d resolved made chosen =
      let image = d.kitt_image in
      let K : Daemon → Type 0 = λ s. s.kitt_image ≡ image in
      let kept = send-image image in
      let E = AtEnd p path o in
      let r = outcome p path o in
      let whole =
        Gives-bind K (λ _. K) E r _ _ (Yields-status K kept "running" "")
          (λ _.
            Gives-bind K (λ _. K) E r _ _ (Yields-line K kept _)
              (λ _.
                Gives-bind K (λ _. K) E r _ _ (Yields-line K kept _)
                  (λ _.
                    Gives-bind K (λ _. K) E r _ _ (Yields-line K kept _)
                      (λ _.
                        Gives-bind K (λ a s. K s × (path ≡ a)) E r _ _
                          (Yields-logged K kept (resolve_with w c w.storage p.model_path) path
                            resolved)
                          (λ a. Gives-given K r E _ (λ e.
                            subst (λ x. Gives K r E (prepare p x)) e
                              (Gives-prepare p path image o made chosen))))))) in
      whole.give d refl
