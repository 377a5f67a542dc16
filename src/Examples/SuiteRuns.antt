-- ===== src/Examples/SuiteRuns.antt =====
-- A suite with two runs of a benchmark.
use kitt.Prelude.{ℕ, ◌+◌, true, [], ◌∷◌, ◌≡◌, refl, map, lookup, remove}
use kitt.Prelude.Exec.{Result, ok, pure, ◌>>=◌}
use kitt.Suites.{
  Config, Benchmark, TestResult, SuiteResult, number, total_benchmarks, passed_count, failed_count,
  runs_of, run_single, run_numbered, run_times, config_for, run_benchmarks, run_suite,
}
use kitt.Suites.Numbered.{suite_numbers, run_suite-numbers}

abbrev throughput : Benchmark
throughput = record { name = "throughput"; version = "1.0.0"; required = [] }

abbrev a_result : TestResult
a_result = record {
  test_name = "throughput";
  test_version = "1.0.0";
  passed = true;
  metrics = "";
  missing = [];
  run_number = 1;
}

abbrev always_passes : ℕ → Benchmark → Config → Result TestResult
always_passes n b config = ok a_result

abbrev twice : Config
twice = ("runs", number 2) ∷ []

abbrev two_results : SuiteResult
two_results = record {
  suite_name = "quick";
  results = a_result ∷ record a_result { run_number = 2 } ∷ [];
}

answer : (run_suite always_passes "quick" (throughput ∷ []) twice [] 0).0 ≡ ok two_results
unfolding run_suite run_benchmarks run_times run_numbered run_single runs_of config_for lookup
    remove pure ◌>>=◌
answer = refl

run_suite-numbers_example :
    (map (λ (r : TestResult). r.run_number) two_results.results
      ≡ suite_numbers always_passes twice [] (throughput ∷ []))
    × (passed_count two_results + failed_count two_results ≡ total_benchmarks two_results)
run_suite-numbers_example =
    run_suite-numbers always_passes "quick" (throughput ∷ []) twice [] 0 two_results answer
