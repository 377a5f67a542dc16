-- ===== src/Examples/Stores.antt =====
-- A store with one older result, to which another is saved.
use mathlib.Core.List.Memᴰ
use mathlib.Core.List.{Memᴰ}
use kitt.Prelude.{
  String, true, false, none, some, List, [], ◌∷◌, ◌≡◌, refl, subst, leb, length, inl, inr,
  if◌then◌else◌, insert,
}
use kitt.Prelude.Exec.{ok}
use kitt.Prelude.Text.{codes, same_text, starts_with}
use kitt.Prelude.Paths.{FilePath, to_path, split, ◌/◌, name, begins, goes_up, same_path}
use kitt.Prelude.Sorting.{sorted, insert_sorted}
use kitt.Storage.Json.{Json, Row, to_fields, get_or, truthy}
use kitt.Storage.Files.{
  File, parsed, unreadable, place, write, path_text, is_kitt, metrics_in, found_files, marked,
  take_fields, row_of, add_row, load_rows, scan_files,
}
use kitt.Storage.JsonStore.{
  Store, Operation, saving, getting, counting, perform_all, visible, replace, output_path,
  save_result, get_result,
}
use kitt.Storage.JsonStore.Cached.{Alike, perform_all-uncached}
use kitt.Storage.JsonStore.Saved.{save_result-get_result}
use kitt.Examples.{whole_ops}

abbrev path : String → FilePath
path s = to_path (codes s)

-- Ids that tell short paths from long ones.
abbrev make_id : FilePath → String
make_id p = if leb (length p.parts) 3 then "short" else "long"

abbrev older : Row
older = ("engine", Json.text (codes "vllm")) ∷ []

abbrev newer : Row
newer = ("engine", Json.text (codes "ollama")) ∷ []

abbrev files : List File
files =
    (
      record { absolute = true; parts = codes "r" ∷ codes "karr-1" ∷ codes "metrics.json" ∷ [] },
      parsed (Json.object (to_fields older)),
    )
    ∷ []

abbrev base : FilePath
base = record { absolute = true; parts = codes "r" ∷ [] }

abbrev a_store : Store
a_store = record { base_dir = base; cache = none; files = files }

abbrev older_marked : Row
older_marked =
    ("engine", Json.text (codes "vllm"))
    ∷ ("_source_path", Json.text (codes "/r/karr-1/metrics.json"))
    ∷ ("_id", Json.text (codes "short"))
    ∷ []

scanned : scan_files whole_ops make_id base files ≡ ok (older_marked ∷ [])
unfolding scan_files load_rows found_files metrics_in is_kitt row_of add_row take_fields marked
    path_text truthy insert sorted insert_sorted begins name same_text starts_with
scanned = refl

abbrev cached_store : Store
cached_store = record a_store { cache = some (older_marked ∷ []) }

both-Alike : Alike whole_ops make_id cached_store a_store
both-Alike = record {
  same_files = refl;
  same_base = refl;
  fresh_left = record { cached = inr (older_marked ∷ [], refl, scanned) };
  fresh_right = record { cached = inl refl };
}

abbrev operations : List Operation
operations = counting [] ∷ saving newer (codes "1f") ∷ getting "long" ∷ []

perform_all-uncached_example :
    perform_all whole_ops make_id operations cached_store
    ≡ perform_all whole_ops make_id operations a_store
perform_all-uncached_example =
    perform_all-uncached whole_ops make_id operations cached_store a_store both-Alike

abbrev new_path : FilePath
new_path = record {
  absolute = true;
  parts =
      codes "r"
      ∷ codes "kitt-results"
      ∷ codes "unknown"
      ∷ codes "ollama"
      ∷ codes "unknown_1f"
      ∷ codes "metrics.json"
      ∷ [];
}

new_path-lem :
    new_path ≡ output_path base (codes "unknown") (codes "ollama") (codes "unknown") (codes "1f")
unfolding output_path to_path ◌/◌ replace split same_text
new_path-lem = refl

distinct :
    (f : File)
    → Memᴰ f files
    → same_text (codes (make_id f.0)) (codes (make_id new_path)) ≡ true
    → same_path f.0 new_path ≡ true
unfolding same_text
distinct f m h = elim (Memᴰ.cases_cons m) [
  | inl here ↦
      let h' : same_text (codes "short") (codes "long") ≡ true =
        subst (λ (x : File). same_text (codes (make_id x.0)) (codes (make_id new_path)) ≡ true) here
          h in
      absurd (cc h')
  | inr there ↦ elim there [ ]
]

new_marked : List Row
new_marked =
    (("engine", Json.text (codes "ollama"))
      ∷ ("_source_path", Json.text (codes "/r/kitt-results/unknown/ollama/unknown_1f/metrics.json"))
      ∷ ("_id", Json.text (codes "long"))
      ∷ [])
    ∷ older_marked
    ∷ []

scanned_after :
    scan_files whole_ops make_id base
      (write new_path (parsed (Json.object (to_fields newer))) files)
    ≡ ok new_marked
unfolding scan_files load_rows found_files metrics_in is_kitt row_of add_row take_fields marked
    path_text truthy insert sorted insert_sorted begins name same_text starts_with write place
    same_path new_marked
scanned_after = refl

new_listed : metrics_in is_kitt base (new_path, unreadable) ≡ true
unfolding metrics_in
new_listed = refl

new_goes_up : goes_up new_path ≡ false
unfolding goes_up
new_goes_up = refl

new_truthy : truthy whole_ops (Json.object (to_fields newer)) ≡ true
unfolding truthy
new_truthy = refl

no_model : get_or "model" newer (Json.text (codes "unknown")) ≡ Json.text (codes "unknown")
unfolding get_or
no_model = refl

no_timestamp : get_or "timestamp" newer (Json.text (codes "unknown")) ≡ Json.text (codes "unknown")
unfolding get_or
no_timestamp = refl

its_engine : get_or "engine" newer (Json.text (codes "unknown")) ≡ Json.text (codes "ollama")
unfolding get_or
its_engine = refl

save_result-get_result_example :
    ((save_result whole_ops make_id newer (codes "1f") a_store).0 ≡ ok (make_id new_path))
    × ((get_result whole_ops make_id
          (make_id new_path)
          (save_result whole_ops make_id newer (codes "1f") a_store).1).0
        ≡ ok (some (visible newer)))
save_result-get_result_example =
    save_result-get_result whole_ops make_id a_store newer (codes "1f") (codes "unknown")
      (codes "unknown") (codes "ollama") new_path new_marked no_model no_timestamp its_engine
      new_path-lem new_goes_up new_listed new_truthy distinct scanned_after
