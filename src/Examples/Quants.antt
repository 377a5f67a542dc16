-- ===== src/Examples/Quants.antt =====
-- A repository with a sharded and a whole file.
use kitt.Prelude.{ℕ, some, List, [], ◌∷◌, ◌≡◌, ◌≤◌, refl, select, count_if}
use kitt.Prelude.Text.{codes, same_text, starts_with}
use kitt.Prelude.Paths.{text_before}
use kitt.Prelude.Sorting.{sorted}
use kitt.Gguf.Names.{extract_quant_name, without_shard}
use kitt.Gguf.Prefix.{every, common_prefix, common_prefix-every}
use kitt.Gguf.Discover.{quant_of, gguf_files, discover_gguf_quants}
use kitt.Gguf.Grouped.{files_of, discover_gguf_quants-files}

quant_4 : extract_quant_name (codes "sub/Llama-3.1-8B-Q4_K_M.gguf") ≡ codes "Q4_K_M"
unfolding extract_quant_name
quant_4 = refl

quant_iq : extract_quant_name (codes "model-IQ4_XS.gguf") ≡ codes "IQ4_XS"
unfolding extract_quant_name
quant_iq = refl

shard_1 : without_shard (codes "m-Q8_0-00001-of-00002.gguf") ≡ some (codes "m-Q8_0")
unfolding without_shard
shard_1 = refl

abbrev repository : List (List ℕ)
repository =
    codes "m-Q8_0-00002-of-00002.gguf"
    ∷ codes "README.md"
    ∷ codes "m-Q4_0.gguf"
    ∷ codes "m-Q8_0-00001-of-00002.gguf"
    ∷ []

discover_gguf_quants-files_example :
    (files_of (codes "Q8_0") (discover_gguf_quants (some repository))
      ≡ sorted text_before
          (select (λ f. same_text (quant_of f) (codes "Q8_0")) (gguf_files repository)))
    × (count_if
          (λ info. same_text info.quant_name (codes "Q8_0"))
          (discover_gguf_quants (some repository))
        ≤ 1)
discover_gguf_quants-files_example = discover_gguf_quants-files repository (codes "Q8_0")

common_prefix-every_example :
    starts_with (common_prefix (codes "m-1.gguf" ∷ codes "m-2.gguf" ∷ [])) (codes "m-")
    ≡ every (λ t. starts_with t (codes "m-")) (codes "m-1.gguf" ∷ codes "m-2.gguf" ∷ [])
common_prefix-every_example =
    common_prefix-every (codes "m-1.gguf") (codes "m-2.gguf" ∷ []) (codes "m-")
