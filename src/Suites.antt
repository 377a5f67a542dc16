-- ===== src/Suites.antt =====
-- SuiteRunner and SuiteResult of src/kitt/runners/suite.py with SingleTestRunner of
-- src/kitt/runners/single_test.py: each benchmark of a suite runs as often as its configuration says.
pub mod Numbered
use kitt.Prelude.{
  ℕ, zero, suc, ◌+◌, String, Bool, true, false, not, Option, none, some, List, [], ◌∷◌, ◌++◌, any,
  select, count_if, length, lookup, insert, remove, if◌then◌else◌, ◌==◌, ◌&&◌,
}
use kitt.Prelude.Exec.{Exec, Result, ok, raised, pure, raise, ◌>>=◌}

-- A value of a configuration: a number that is not negative, or anything else.
pub data Value : Type 0 where
  number : ℕ → Value
  other : String → Value

abbrev pub Config : Type 0
Config = List (String × Value)

-- What a benchmark is and needs.
pub record Benchmark : Type 0 where
  pub name : String
  pub version : String
  pub required : List String

pub record TestResult : Type 0 where
  pub test_name : String
  pub test_version : String
  pub passed : Bool
  pub metrics : String
  pub missing : List String
  pub run_number : ℕ

pub record SuiteResult : Type 0 where
  pub suite_name : String
  pub results : List TestResult

unfoldable pub total_benchmarks : SuiteResult → ℕ
total_benchmarks s = length s.results

unfoldable pub passed_count : SuiteResult → ℕ
passed_count s = count_if (λ (r : TestResult). r.passed) s.results

unfoldable pub failed_count : SuiteResult → ℕ
failed_count s = count_if (λ (r : TestResult). not r.passed) s.results

unfoldable pub passed : SuiteResult → Bool
passed s = not (any (λ (r : TestResult). not r.passed) s.results)

abbrev has_key : Config → String → Bool
has_key config key = any (λ (e : String × Value). e.0 == key) config

missing_keys : Config → List String → List String
missing_keys config required = select (λ k. not (has_key config k)) required

-- d.update(e)
unfoldable pub update : Config → Config → Config
update config [] = config
update config ((k, v) ∷ more) = update (insert k v config) more

-- The configuration of a benchmark.
merged : Config → Option Config → Config
merged global none = global
merged global (some overrides) = update global overrides

-- config.pop("runs", 1), which `range` takes
unfoldable pub runs_of : Option Value → Option ℕ
runs_of none = some 1
runs_of (some (number n)) = some n
runs_of (some (other t)) = none

-- The benchmarks run outside and may raise; the state is the number of runs so far.
module _ (run_benchmark : ℕ → Benchmark → Config → Result TestResult) where
  invalid : Benchmark → List String → TestResult
  invalid b missing = record {
    test_name = b.name;
    test_version = b.version;
    passed = false;
    metrics = "";
    missing = missing;
    run_number = 1;
  }

  single_found : Benchmark → Config → List String → Exec ℕ TestResult
  single_found b config [] n = (run_benchmark n b config, suc n)
  single_found b config (k ∷ missing) n = (ok (invalid b (k ∷ missing)), n)

  -- SingleTestRunner.run
  unfoldable pub run_single : Benchmark → Config → Exec ℕ TestResult
  unfolding single_found missing_keys invalid
  run_single b config = single_found b config (missing_keys config b.required)

  -- The runs of a benchmark from the `k`-th on.
  unfoldable pub run_numbered : Benchmark → Config → ℕ → ℕ → Exec ℕ (List TestResult)
  run_numbered b config k zero = pure []
  run_numbered b config k (suc left) = do
    r ← run_single b config
    rest ← run_numbered b config (suc k) left
    pure (record r { run_number = k } ∷ rest)

  unfoldable pub run_times : Benchmark → Config → Option ℕ → Exec ℕ (List TestResult)
  run_times b config none = raise "TypeError"
  run_times b config (some runs) = run_numbered b (remove "runs" config) 1 runs

  unfoldable pub config_for : Config → List (String × Config) → Benchmark → Config
  unfolding merged
  config_for global overrides b = merged global (lookup b.name overrides)

  unfoldable pub run_benchmarks :
      Config → List (String × Config) → List Benchmark → Exec ℕ (List TestResult)
  run_benchmarks global overrides [] = pure []
  run_benchmarks global overrides (b ∷ benchmarks) = do
    rs ←
        run_times b (config_for global overrides b)
          (runs_of (lookup "runs" (config_for global overrides b)))
    rest ← run_benchmarks global overrides benchmarks
    pure (rs ++ rest)

  unfoldable pub run_suite :
      String → List Benchmark → Config → List (String × Config) → Exec ℕ SuiteResult
  run_suite suite_name benchmarks global overrides = do
    results ← run_benchmarks global overrides benchmarks
    pure (record { suite_name = suite_name; results = results })
