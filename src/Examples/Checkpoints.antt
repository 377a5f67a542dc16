-- ===== src/Examples/Checkpoints.antt =====
-- Runs of a benchmark over two prompts.
use kitt.Prelude.{
  String, true, false, List, [], ◌∷◌, ◌≡◌, refl, arith, ◌==◌, if◌then◌else◌, take, drop,
}
use kitt.Prelude.Exec.{ok, raised}
use kitt.Benchmarks.{
  Generated, Host, Bench, absent, complete, is_empty, start_index, start_outputs, after_item,
  process, save_checkpoint, checkpoint_at, start_process, finish_run, execute,
}
use kitt.Benchmarks.Resume.{prompts_of, IsClean, execute-resumes}
use kitt.Benchmarks.Forgotten.{execute-forgets}

abbrev some_text : Generated
some_text = record { output = "text"; metrics = "" }

-- An engine that fails on one prompt, and a disk that works.
abbrev failing : Host
failing = record {
  generate = λ n prompt. if prompt == "bad" then raised "timeout" else ok some_text;
  write = λ n. complete;
  unlinks = λ n. true;
}

abbrev new_bench : Bench
new_bench = record { file = absent; asked = 0 }

abbrev two_prompts : List String
two_prompts = "a" ∷ "b" ∷ []

-- The run stops after its first item.
abbrev stopped : Bench
stopped =
    (start_process failing "h" (take 1 (drop (start_index "h" new_bench.file) two_prompts))
      new_bench).bench

new_bench-IsClean : IsClean "h" two_prompts new_bench.file
unfolding start_index start_outputs
new_bench-IsClean = (refl, omega arith)

answered :
    is_empty
      (start_process failing "h"
        (take 1 (drop (start_index "h" new_bench.file) two_prompts))
        new_bench).errors
    ≡ true
unfolding start_process process after_item start_index
answered = refl

no_errors : is_empty (execute failing "h" two_prompts stopped).0.errors ≡ true
unfolding execute finish_run start_process process after_item start_index checkpoint_at
    save_checkpoint start_outputs
no_errors = refl

execute-resumes_example :
    ((execute failing "h" two_prompts stopped).0.passed ≡ true)
    × (prompts_of (execute failing "h" two_prompts stopped).0.outputs ≡ two_prompts)
execute-resumes_example =
    execute-resumes failing "h" two_prompts 1 new_bench stopped new_bench-IsClean answered refl
      no_errors

execute-forgets_example :
    ((execute failing "h" ("a" ∷ "bad" ∷ []) new_bench).0.passed ≡ false)
    × ((execute failing "h"
          ("a" ∷ "bad" ∷ [])
          (execute failing "h" ("a" ∷ "bad" ∷ []) new_bench).1).0.passed
        ≡ true)
    × ((execute failing "h"
          ("a" ∷ "bad" ∷ [])
          (execute failing "h" ("a" ∷ "bad" ∷ []) new_bench).1).0.outputs
        ≡ start_outputs "h" (execute failing "h" ("a" ∷ "bad" ∷ []) new_bench).1.file)
execute-forgets_example =
    execute-forgets failing "h" ("a" ∷ []) "bad" new_bench (λ n. ("timeout", refl)) (λ n. refl) refl
