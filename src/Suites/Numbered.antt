-- ===== src/Suites/Numbered.antt =====
-- The runs of a suite: how many there are of each benchmark, and how they are numbered.
use kitt.Prelude.{
  ℕ, zero, suc, ◌+◌, String, not, Option, none, some, List, [], ◌∷◌, ◌++◌, ◌≡◌, refl, ap, ◌∙◌,
  subst, remove, arith, map, map-append, length, count_if, lookup,
}
use kitt.Prelude.Exec.{Exec, Result, ok, raised, pure, raise}
use kitt.Prelude.Exec.Yields.{Meets, Meets-bind, Meets-Keeps, Outcome}
use kitt.Suites.{
  Config, Benchmark, TestResult, SuiteResult, total_benchmarks, passed_count, failed_count, runs_of,
  run_single, run_numbered, run_times, config_for, run_benchmarks, run_suite,
}

-- The numbers from `k` on.
abbrev pub numbers_from : ℕ → ℕ → List ℕ
numbers_from k zero = []
numbers_from k (suc n) = k ∷ numbers_from (suc k) n

abbrev pub numbers_of : Option ℕ → List ℕ
numbers_of none = []
numbers_of (some runs) = numbers_from 1 runs

abbrev pub numbers : List TestResult → List ℕ
numbers results = map (λ (r : TestResult). r.run_number) results

abbrev Any : ℕ → Type 0
Any n = Unit

module _ {A : Type 0} where
  Meets-anyhow : (m : Exec ℕ A) → Meets Any (λ _. Any) Any m
  Meets-anyhow m = Meets-Keeps Any m (record { keep = λ s p. tt })

  Meets-end :
      {F : Type 0} {G : A → Type 0} (a : A) → (F → G a) → Meets (λ s. F) (λ x _. G x) Any (pure a)
  unfolding pure
  Meets-end a f = record { meet = λ s p. f p }

  Meets-result : {G : A → Type 0} (a : A) → G a → Meets Any (λ x _. G x) Any (pure a)
  unfolding pure
  Meets-result a g = record { meet = λ s p. g }

  carry :
      {Q : A → ℕ → Type 0} (F : Type 0) {m : Exec ℕ A}
      → (F → Meets Any Q Any m)
      → Meets (λ s. F) Q Any m
  carry F f = record { meet = λ s p. (f p).meet s tt }

  returned :
      (G : A → Type 0) (r : Result A) (s : ℕ)
      → Outcome (λ a _. G a) Any r s
      → (a : A) → r ≡ ok a
      → G a
  returned G (ok b) s o a e = let same : b ≡ a = cc in subst G same o
  returned G (raised x) s o a e = absurd (cc)

module _ (run_benchmark : ℕ → Benchmark → Config → Result TestResult) where
  -- The run numbers that a suite should have.
  abbrev pub suite_numbers : Config → List (String × Config) → List Benchmark → List ℕ
  suite_numbers global overrides [] = []
  suite_numbers global overrides (b ∷ benchmarks) =
      numbers_of (runs_of (lookup "runs" (config_for run_benchmark global overrides b)))
      ++ suite_numbers global overrides benchmarks

  Meets-run_numbered :
      (b : Benchmark) (config : Config) (k left : ℕ)
      → Meets Any
          (λ rs _. numbers rs ≡ numbers_from k left)
          Any
          (run_numbered run_benchmark b config k left)
  unfolding run_numbered
  Meets-run_numbered b config k zero = Meets-result [] refl
  Meets-run_numbered b config k (suc left) =
      Meets-bind Any (λ _. Any) (λ rs _. numbers rs ≡ numbers_from k (suc left)) Any _ _
        (Meets-anyhow (run_single run_benchmark b config))
        (λ r.
          Meets-bind Any (λ rest _. numbers rest ≡ numbers_from (suc k) left)
            (λ rs _. numbers rs ≡ numbers_from k (suc left)) Any _ _
            (Meets-run_numbered b config (suc k) left)
            (λ rest. Meets-end (record r { run_number = k } ∷ rest) (λ e. ap (λ ns. k ∷ ns) e)))

  Meets-run_times :
      (b : Benchmark) (config : Config) (runs : Option ℕ)
      → Meets Any (λ rs _. numbers rs ≡ numbers_of runs) Any (run_times run_benchmark b config runs)
  unfolding run_times raise
  Meets-run_times b config none = record { meet = λ s p. tt }
  Meets-run_times b config (some runs) = Meets-run_numbered b (remove "runs" config) 1 runs

  Meets-run_benchmarks :
      (global : Config) (overrides : List (String × Config)) (benchmarks : List Benchmark)
      → Meets Any
          (λ rs _. numbers rs ≡ suite_numbers global overrides benchmarks)
          Any
          (run_benchmarks run_benchmark global overrides benchmarks)
  unfolding run_benchmarks
  Meets-run_benchmarks global overrides [] = Meets-result [] refl
  Meets-run_benchmarks global overrides (b ∷ benchmarks) =
      let config = config_for run_benchmark global overrides b in
      let runs = runs_of (lookup "runs" config) in
      let more = suite_numbers global overrides benchmarks in
      Meets-bind Any (λ rs _. numbers rs ≡ numbers_of runs)
        (λ rs _. numbers rs ≡ numbers_of runs ++ more) Any _ _ (Meets-run_times b config runs)
        (λ rs. carry (numbers rs ≡ numbers_of runs) (λ e.
          Meets-bind Any (λ rest _. numbers rest ≡ more)
            (λ all _. numbers all ≡ numbers_of runs ++ more) Any _ _
            (Meets-run_benchmarks global overrides benchmarks)
            (λ rest. Meets-end (rs ++ rest) (λ e'.
              map-append (λ (r : TestResult). r.run_number) rs rest
              ∙ (ap (λ ns. ns ++ numbers rest) e ∙ ap (λ ns. numbers_of runs ++ ns) e')))))

  Meets-run_suite :
      (suite_name : String) (benchmarks : List Benchmark) (global : Config)
      (overrides : List (String × Config))
      → Meets Any
          (λ s _. numbers s.results ≡ suite_numbers global overrides benchmarks)
          Any
          (run_suite run_benchmark suite_name benchmarks global overrides)
  unfolding run_suite
  Meets-run_suite suite_name benchmarks global overrides =
      Meets-bind Any (λ rs _. numbers rs ≡ suite_numbers global overrides benchmarks)
        (λ s _. numbers s.results ≡ suite_numbers global overrides benchmarks) Any _ _
        (Meets-run_benchmarks global overrides benchmarks)
        (λ rs. Meets-end (record { suite_name = suite_name; results = rs }) (λ e. e))

  counts_add :
      (results : List TestResult)
      → count_if (λ (r : TestResult). r.passed) results
          + count_if (λ (r : TestResult). not r.passed) results
        ≡ length results
  counts_add [] = omega arith
  counts_add (r ∷ results) = ground (arith, counts_add results)

  -- Where a suite returns, its results are numbered as the runs of its benchmarks in turn, from 1 for
  -- each, and those that passed and those that failed are all of them.
  pub run_suite-numbers :
      (suite_name : String) (benchmarks : List Benchmark) (global : Config)
      (overrides : List (String × Config)) (n : ℕ) (s : SuiteResult)
      → (run_suite run_benchmark suite_name benchmarks global overrides n).0 ≡ ok s
      → (map (λ (r : TestResult). r.run_number) s.results
          ≡ suite_numbers global overrides benchmarks)
        × (passed_count s + failed_count s ≡ total_benchmarks s)
  unfolding passed_count failed_count total_benchmarks
  run_suite-numbers suite_name benchmarks global overrides n s e = (
    returned (λ (x : SuiteResult). numbers x.results ≡ suite_numbers global overrides benchmarks) _
        _ ((Meets-run_suite suite_name benchmarks global overrides).meet n tt) s e,
    counts_add s.results,
  )
