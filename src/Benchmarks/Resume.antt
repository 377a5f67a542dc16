-- ===== src/Benchmarks/Resume.antt =====
-- A run that goes on from a checkpoint of runs without errors.
use kitt.Prelude.{
  ℕ, suc, ◌+◌, ◌≤◌, ◌%◌, String, true, false, List, [], ◌∷◌, ◌++◌, ◌≡◌, refl, sym, ap, ◌∙◌, subst,
  arith, map, map-append, append_assoc, append-nil, length, length-append, take-length, take-drop,
  length-take_le, take, drop, ltb, eqb, Bool-cases, eq_refl, inl, inr,
}
use kitt.Prelude.Exec.{Result, ok, raised}
use kitt.Benchmarks.{
  Generated, Output, File, absent, Write, complete, broken, untouched, Host, Bench, is_empty,
  start_index, load_partial_outputs, start_outputs, output_of, written, save_checkpoint,
  checkpoint_at, Loop, after_item, process, start_process, finish_run, execute,
}

-- The prompts that the outputs answer.
abbrev pub prompts_of : List Output → List String
prompts_of outputs = map (λ (o : Output). o.prompt) outputs

-- A run starts within the prompts, with outputs that answer the prompts before its start.
abbrev pub IsClean : String → List String → File → Type 0
IsClean config_hash prompts f =
    (prompts_of (start_outputs config_hash f) ≡ take (start_index config_hash f) prompts)
    × (start_index config_hash f ≤ length prompts)

module _ (h : Host) (config_hash : String) where
  readable-IsClean :
      (all : List String) (i : ℕ) (outputs : List Output)
      → (prompts_of outputs ≡ take (suc i) all) × (suc i ≤ length all)
      → IsClean config_hash all (written h config_hash complete i outputs absent)
  unfolding start_outputs start_index load_partial_outputs
  readable-IsClean all i outputs e =
      let positive : ltb 0 (suc i) ≡ true = ground arith in rw (eq_refl config_hash, positive) e

  written-IsClean :
      (all : List String) (i : ℕ) (outputs : List Output) (f : File) (r : Write)
      → (prompts_of outputs ≡ take (suc i) all) × (suc i ≤ length all)
      → IsClean config_hash all f
      → IsClean config_hash all (written h config_hash r i outputs f)
  unfolding start_outputs start_index
  written-IsClean all i outputs f complete e clean = readable-IsClean all i outputs e
  written-IsClean all i outputs f broken e clean = (refl, omega arith)
  written-IsClean all i outputs f untouched e clean = clean

  save_checkpoint-IsClean :
      (all : List String) (i : ℕ) (outputs : List Output) (b : Bench)
      → (prompts_of outputs ≡ take (suc i) all) × (suc i ≤ length all)
      → IsClean config_hash all b.file
      → IsClean config_hash all (save_checkpoint h config_hash i outputs b).file
  unfolding save_checkpoint
  save_checkpoint-IsClean all i outputs b = written-IsClean all i outputs b.file (h.write b.asked)

  checkpoint_at-IsClean :
      (all : List String) (i : ℕ) (outputs : List Output) (b : Bench)
      → (prompts_of outputs ≡ take (suc i) all) × (suc i ≤ length all)
      → IsClean config_hash all b.file
      → IsClean config_hash all (checkpoint_at h config_hash i outputs b).file
  unfolding checkpoint_at
  checkpoint_at-IsClean all i outputs b e clean = elim (Bool-cases (eqb ((i + 1) % 100) 0)) [
    | inl due ↦ rw (due) (save_checkpoint-IsClean all i outputs b e clean)
    | inr not_due ↦ rw (not_due) clean
  ]

  appended-errors :
      (errors : List (ℕ × String)) (e : ℕ × String) → is_empty (errors ++ e ∷ []) ≡ false
  appended-errors [] e = refl
  appended-errors (x ∷ errors) e = refl

  -- An error stays to the end.
  after_item-errors :
      (i : ℕ) (p : String) (r : Result Generated) (l : Loop)
      → is_empty l.errors ≡ false
      → is_empty (after_item h config_hash i p r l).errors ≡ false
  unfolding after_item
  after_item-errors i p (ok g) l e = e
  after_item-errors i p (raised x) l e = appended-errors l.errors (i, x)

  process-errors :
      (i : ℕ) (prompts : List String) (l : Loop)
      → is_empty l.errors ≡ false
      → is_empty (process h config_hash i prompts l).errors ≡ false
  unfolding process
  process-errors i [] l e = e
  process-errors i (p ∷ prompts) l e =
      process-errors (suc i) prompts _ (after_item-errors i p (h.generate l.bench.asked p) l e)

  -- The loop has answered the prompts in `done`, without an error.
  record IsFine (all done : List String) (l : Loop) : Type 0 where
    answers : prompts_of l.outputs ≡ done
    clean : IsClean config_hash all l.bench.file

  after_item-IsFine :
      (all done prompts : List String) (i : ℕ) (p : String) (r : Result Generated) (l : Loop)
      → all ≡ done ++ p ∷ prompts
      → i ≡ length done
      → IsFine all done l
      → is_empty (after_item h config_hash i p r l).errors ≡ true
      → IsFine all (done ++ p ∷ []) (after_item h config_hash i p r l)
  unfolding after_item
  after_item-IsFine all done prompts i p (raised x) l whole place fine no_errors =
      absurd (cc (no_errors, appended-errors l.errors (i, x)))
  after_item-IsFine all done prompts i p (ok g) l whole place fine no_errors =
      let appended : prompts_of (l.outputs ++ output_of p g ∷ []) ≡ done ++ p ∷ [] =
        map-append (λ (o : Output). o.prompt) l.outputs (output_of p g ∷ [])
        ∙ ap (λ ps. ps ++ p ∷ []) fine.answers in
      let longer : length (done ++ p ∷ []) ≡ suc (length done) =
        length-append done (p ∷ []) ∙ omega arith in
      let before : take (suc i) all ≡ done ++ p ∷ [] =
        ap (λ n. take n all) (ap suc place ∙ sym longer)
        ∙ ap (take (length (done ++ p ∷ []))) (whole ∙ sym (append_assoc done (p ∷ []) prompts))
        ∙ take-length (done ++ p ∷ []) prompts in
      let count : length all ≡ length done + suc (length prompts) =
        ap length whole ∙ length-append done (p ∷ prompts) in
      let within : suc i ≤ length all = omega (arith, place, count) in
      record {
        answers = appended;
        clean = checkpoint_at-IsClean all i _ _ (appended ∙ sym before, within) fine.clean;
      }

  process-IsFine :
      (all done prompts rest : List String) (i : ℕ) (l : Loop)
      → all ≡ done ++ (prompts ++ rest)
      → i ≡ length done
      → IsFine all done l
      → is_empty (process h config_hash i prompts l).errors ≡ true
      → IsFine all (done ++ prompts) (process h config_hash i prompts l)
  unfolding process
  process-IsFine all done [] rest i l whole place fine no_errors =
      subst (λ d. IsFine all d l) (sym (append-nil done)) fine
  process-IsFine all done (p ∷ prompts) rest i l whole place fine no_errors =
      let l' : Loop = after_item h config_hash i p (h.generate l.bench.asked p) l in
      let none_yet : is_empty l'.errors ≡ true = elim (Bool-cases (is_empty l'.errors)) [
        | inl none_yet ↦ none_yet
        | inr some_error ↦ absurd (cc (no_errors, process-errors (suc i) prompts l' some_error))
      ] in
      let fine' = after_item-IsFine all done (prompts ++ rest) i p _ l whole place fine none_yet in
      let place' : suc i ≡ length (done ++ p ∷ []) =
        ap suc place ∙ (omega arith ∙ sym (length-append done (p ∷ []))) in
      let whole' : all ≡ (done ++ p ∷ []) ++ (prompts ++ rest) =
        whole ∙ sym (append_assoc done (p ∷ []) (prompts ++ rest)) in
      subst (λ d. IsFine all d (process h config_hash (suc i) prompts l'))
        (append_assoc done (p ∷ []) prompts)
        (process-IsFine all (done ++ p ∷ []) prompts rest (suc i) l' whole' place' fine' no_errors)

  start-IsFine :
      (all : List String) (b : Bench)
      → IsClean config_hash all b.file
      → IsFine all
          (take (start_index config_hash b.file) all)
          (record { outputs = start_outputs config_hash b.file; errors = []; bench = b })
  start-IsFine all b clean = record { answers = clean.0; clean = clean }

  -- The loop over the first `k` of the prompts that are left.
  started-IsFine :
      (all : List String) (k : ℕ) (b : Bench)
      → IsClean config_hash all b.file
      → is_empty
          (start_process h config_hash
            (take k (drop (start_index config_hash b.file) all))
            b).errors
        ≡ true
      → IsFine all
          (take (start_index config_hash b.file) all
            ++ take k (drop (start_index config_hash b.file) all))
          (start_process h config_hash (take k (drop (start_index config_hash b.file) all)) b)
  unfolding start_process
  started-IsFine all k b clean no_errors =
      let start = start_index config_hash b.file in
      let left = drop start all in
      let whole : all ≡ take start all ++ (take k left ++ drop k left) =
        sym (take-drop start all) ∙ ap (λ xs. take start all ++ xs) (sym (take-drop k left)) in
      let place : start ≡ length (take start all) = sym (length-take_le start all clean.1) in
      process-IsFine all (take start all) (take k left) (drop k left) start _ whole place
        (start-IsFine all b clean) no_errors

  full-prompts_of :
      (all : List String) (b : Bench)
      → IsClean config_hash all b.file
      → is_empty (start_process h config_hash (drop (start_index config_hash b.file) all) b).errors
        ≡ true
      → prompts_of
          (start_process h config_hash (drop (start_index config_hash b.file) all) b).outputs
        ≡ all
  unfolding start_process
  full-prompts_of all b clean no_errors =
      let start = start_index config_hash b.file in
      let left = drop start all in
      let whole : all ≡ take start all ++ (left ++ []) =
        sym (take-drop start all) ∙ ap (λ xs. take start all ++ xs) (sym (append-nil left)) in
      let place : start ≡ length (take start all) = sym (length-take_le start all clean.1) in
      let fine =
        process-IsFine all (take start all) left [] start _ whole place (start-IsFine all b clean)
          no_errors in
      fine.answers ∙ take-drop start all

  -- Let a run that starts from no checkpoint, or from one that fits the prompts, stop after any number
  -- of items that were all answered; a run that starts on the file that is left then, and has no
  -- error, passes with one output for each of the prompts, in their order.
  pub execute-resumes :
      (prompts : List String) (k : ℕ) (b b' : Bench)
      → IsClean config_hash prompts b.file
      → is_empty
          (start_process h config_hash
            (take k (drop (start_index config_hash b.file) prompts))
            b).errors
        ≡ true
      → b'.file
        ≡ (start_process h config_hash
            (take k (drop (start_index config_hash b.file) prompts))
            b).bench.file
      → is_empty (execute h config_hash prompts b').0.errors ≡ true
      → ((execute h config_hash prompts b').0.passed ≡ true)
        × (prompts_of (execute h config_hash prompts b').0.outputs ≡ prompts)
  unfolding execute finish_run
  execute-resumes prompts k b b' clean answered same no_errors =
      let fine = started-IsFine prompts k b clean answered in
      let clean' : IsClean config_hash prompts b'.file =
        subst (λ f. IsClean config_hash prompts f) (sym same) fine.clean in
      (no_errors, full-prompts_of prompts b' clean' no_errors)
