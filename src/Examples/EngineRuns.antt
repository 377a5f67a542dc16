-- ===== src/Examples/EngineRuns.antt =====
-- The theorems on engines at an engine that fails twice and at a GPU of the Blackwell class.
use mathlib.Core.List.{Memᴰ}
use kitt.Prelude.{
  ℕ, ◌+◌, ◌≤◌, ◌<◌, String, true, none, some, [], ◌∷◌, ◌≡◌, refl, arith, ltb, if◌then◌else◌,
}
use kitt.Prelude.Exec.{ok, raised}
use kitt.Engines.Recovery.{Engine, Recovery, generate_with_recovery}
use kitt.Engines.Recovery.Attempts.{generate_with_recovery-bounds, generate_with_recovery-recovers}
use kitt.Engines.Images.{
  ImageOverride, overrides_of, by_engine, mapping, Host, clear_cache, cc_at_least, arch_matches,
  resolve_image,
}
use kitt.Engines.Images.Resolution.{
  IsCoherent, is_loaded, best_image, resolve_image-best_image, clear_cache-IsCoherent,
}

-- Two failures, then a text.
abbrev flaky : Engine
flaky = record {
  generates = λ n. if ltb n 2 then raised "out of memory" else ok "hello";
  init_error = λ _. none;
}

abbrev dead : Engine
dead = record { generates = λ _. raised "no device"; init_error = λ _. none }

abbrev message : String → String
message e = e

abbrev at_start : Recovery
at_start = record { retry_count = 0; generated = 0; restarted = 0; calls = [] }

generate_with_recovery-bounds_example :
    ((generate_with_recovery dead message 3 at_start).1.generated ≤ 0 + 4)
    × ((generate_with_recovery dead message 3 at_start).1.restarted ≤ 0 + 3)
generate_with_recovery-bounds_example = generate_with_recovery-bounds dead message 3 at_start

flaky_fails : (i : ℕ) → i < 2 → (e : String) × (flaky.generates (0 + i) ≡ raised e)
flaky_fails i lt = ("out of memory", ground arith)

generate_with_recovery-recovers_example :
    ((generate_with_recovery flaky message 3 at_start).0 ≡ ok "hello")
    × ((generate_with_recovery flaky message 3 at_start).1.retry_count ≡ 0)
    × ((generate_with_recovery flaky message 3 at_start).1.generated ≡ 0 + 3)
generate_with_recovery-recovers_example =
    generate_with_recovery-recovers flaky message (λ n. refl) 2 3 at_start "hello" (omega arith)
      flaky_fails refl

abbrev spark : Host
spark = record {
  compute_capability = some (12, 1);
  machine = "aarch64";
  user_file = some (mapping (some (by_engine (("vllm", some "vllm/vllm-openai:latest") ∷ []))));
}

resolve_image-best_image_example :
    ((resolve_image spark "llama_cpp" "ghcr.io/ggml-org/llama.cpp:server-cuda" clear_cache).0
      ≡ best_image spark
          (is_loaded clear_cache.user_config)
          "llama_cpp"
          "ghcr.io/ggml-org/llama.cpp:server-cuda")
    × IsCoherent spark
        (resolve_image spark "llama_cpp" "ghcr.io/ggml-org/llama.cpp:server-cuda" clear_cache).1
    × (is_loaded
          (resolve_image spark "llama_cpp" "ghcr.io/ggml-org/llama.cpp:server-cuda"
            clear_cache).1.user_config
        ≡ true)
resolve_image-best_image_example =
    resolve_image-best_image spark "llama_cpp" "ghcr.io/ggml-org/llama.cpp:server-cuda" clear_cache
      (clear_cache-IsCoherent spark)

abbrev LlamaFit : Type 0
LlamaFit =
    (o : ImageOverride) × Memᴰ o (overrides_of "llama_cpp")
    × (o.image ≡ "kitt/llama-cpp:arm64")
    × (arch_matches o.cpu_arch (some "arm64") ≡ true)
    × (cc_at_least (12, 1) o.min_cc ≡ true)
