-- ===== src/Benchmarks/Forgotten.antt =====
-- A checkpoint that is written for an error counts the failed item as completed.
use kitt.Prelude.{
  ℕ, suc, ◌+◌, String, true, false, List, [], ◌∷◌, ◌++◌, ◌≡◌, refl, ap, ◌∙◌, arith, length,
  length-append, drop, eq_refl,
}
use kitt.Prelude.Exec.{raised}
use kitt.Benchmarks.{
  absent, complete, Host, Bench, Loop, is_empty, start_index, start_outputs, save_checkpoint,
  after_item, process, start_process, finish_run, execute,
}

drop-length {ℓ} : {A : Type ℓ} (xs : List A) → drop (length xs) xs ≡ []
drop-length [] = refl
drop-length (x ∷ xs) = drop-length xs

module _ (h : Host) (config_hash : String) where
  process-append :
      (i : ℕ) (prompts more : List String) (l : Loop)
      → process h config_hash i (prompts ++ more) l
        ≡ process h config_hash (i + length prompts) more (process h config_hash i prompts l)
  unfolding process
  process-append i [] more l = ap (λ n. process h config_hash n more l) (omega arith)
  process-append i (p ∷ prompts) more l =
      let l' = after_item h config_hash i p (h.generate l.bench.asked p) l in
      let place : suc i + length prompts ≡ i + suc (length prompts) = omega arith in
      process-append (suc i) prompts more l'
      ∙ ap (λ n. process h config_hash n more (process h config_hash (suc i) prompts l')) place

  not_empty-snoc :
      (errors : List (ℕ × String)) (e : ℕ × String) → is_empty (errors ++ e ∷ []) ≡ false
  not_empty-snoc [] e = refl
  not_empty-snoc (x ∷ errors) e = refl

  failed-start_index :
      (i : ℕ) (p e : String) (l : Loop)
      → h.write (suc l.bench.asked) ≡ complete
      → start_index config_hash (after_item h config_hash i p (raised e) l).bench.file ≡ suc i
  unfolding after_item save_checkpoint start_index
  failed-start_index i p e l writes = rw (writes, eq_refl config_hash) refl

  failed-errors :
      (i : ℕ) (p e : String) (l : Loop)
      → is_empty (after_item h config_hash i p (raised e) l).errors ≡ false
  unfolding after_item
  failed-errors i p e l = not_empty-snoc l.errors (i, e)

  -- What a failed last item leaves.
  failed-last :
      (i : ℕ) (p e : String) (l : Loop)
      → h.generate l.bench.asked p ≡ raised e
      → h.write (suc l.bench.asked) ≡ complete
      → (start_index config_hash (process h config_hash i (p ∷ []) l).bench.file ≡ suc i)
        × (is_empty (process h config_hash i (p ∷ []) l).errors ≡ false)
  unfolding process
  failed-last i p e l fails writes =
      let same : after_item h config_hash i p (h.generate l.bench.asked p) l
          ≡ after_item h config_hash i p (raised e) l =
        ap (λ r. after_item h config_hash i p r l) fails in
      (
        ap (λ (m : Loop). start_index config_hash m.bench.file) same
            ∙ failed-start_index i p e l writes,
        ap (λ (m : Loop). is_empty m.errors) same ∙ failed-errors i p e l,
      )

  absent-start : (b : Bench) → b.file ≡ absent → start_index config_hash b.file ≡ 0
  unfolding start_index
  absent-start b e = ap (start_index config_hash) e

  module _ (prompts : List String) (p : String) (b : Bench)
      (fails : (n : ℕ) → (e : String) × (h.generate n p ≡ raised e))
      (writes : (n : ℕ) → h.write n ≡ complete) (new : b.file ≡ absent) where
    first_run :
        (start_index config_hash (start_process h config_hash (prompts ++ p ∷ []) b).bench.file
          ≡ length (prompts ++ p ∷ []))
        × (is_empty (start_process h config_hash (prompts ++ p ∷ []) b).errors ≡ false)
    unfolding start_process
    first_run =
        let l : Loop = record {
          outputs = start_outputs config_hash b.file;
          errors = [];
          bench = b;
        } in
        let start = start_index config_hash b.file in
        let m = process h config_hash start prompts l in
        let whole = process-append start prompts (p ∷ []) l in
        let (e, fails_now) = fails m.bench.asked in
        let (index, errors) =
          failed-last (start + length prompts) p e m fails_now (writes (suc m.bench.asked)) in
        let count : suc (start + length prompts) ≡ length (prompts ++ p ∷ []) =
          omega (arith, absent-start b new, length-append prompts (p ∷ [])) in
        (
          ap (λ (o : Loop). start_index config_hash o.bench.file) whole ∙ index ∙ count,
          ap (λ (o : Loop). is_empty o.errors) whole ∙ errors,
        )

    executed :
        ((execute h config_hash (prompts ++ p ∷ []) b).0.passed ≡ false)
        × (start_index config_hash (execute h config_hash (prompts ++ p ∷ []) b).1.file
            ≡ length (prompts ++ p ∷ []))
    unfolding execute finish_run
    executed =
        let left : drop (start_index config_hash b.file) (prompts ++ p ∷ []) ≡ prompts ++ p ∷ [] =
          ap (λ n. drop n (prompts ++ p ∷ [])) (absent-start b new) in
        rw (left, first_run.1) (refl, first_run.0)

    again :
        (b' : Bench)
        → start_index config_hash b'.file ≡ length (prompts ++ p ∷ [])
        → ((execute h config_hash (prompts ++ p ∷ []) b').0.passed ≡ true)
          × ((execute h config_hash (prompts ++ p ∷ []) b').0.outputs
              ≡ start_outputs config_hash b'.file)
    unfolding execute finish_run start_process process
    again b' e =
        let left : drop (start_index config_hash b'.file) (prompts ++ p ∷ []) ≡ [] =
          ap (λ n. drop n (prompts ++ p ∷ [])) e ∙ drop-length (prompts ++ p ∷ []) in
        rw left (refl, refl)

    -- Where the last prompt always fails, every checkpoint is written in full and there is none before,
    -- the first run does not pass, and the run after it passes though it puts no prompt to the engine
    -- again: its outputs are those of the checkpoint.
    pub execute-forgets :
        ((execute h config_hash (prompts ++ p ∷ []) b).0.passed ≡ false)
        × ((execute h config_hash
              (prompts ++ p ∷ [])
              (execute h config_hash (prompts ++ p ∷ []) b).1).0.passed
            ≡ true)
        × ((execute h config_hash
              (prompts ++ p ∷ [])
              (execute h config_hash (prompts ++ p ∷ []) b).1).0.outputs
            ≡ start_outputs config_hash (execute h config_hash (prompts ++ p ∷ []) b).1.file)
    execute-forgets = let (passes, outputs) = again _ executed.1 in (executed.0, passes, outputs)
