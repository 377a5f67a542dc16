-- ===== src/Storage/Files.antt =====
-- The files that json_store.py scans and writes, as a list of paths with what their text parses to.
-- There are no links, and a write succeeds. The directories of `base_dir` are found by `glob`:
-- kitt-results/**/metrics.json, and **/metrics.json in each karr-*, sorted, where the sorted
-- directories one after the other are in the order of the whole paths.
pub mod Rows
use Prim.Native.String.{String}
use kitt.Prelude.{
  ℕ, Bool, true, false, not, Option, none, some, List, [], ◌∷◌, ◌++◌, map, drop, length, select,
  if◌then◌else◌, ◌&&◌, insert,
}
use mathlib.Core.List.{reverse}
use kitt.Prelude.Exec.{Result, ok, raised}
use kitt.Prelude.Floats.{FloatOps}
use kitt.Prelude.Text.{same_text, starts_with, codes}
use kitt.Prelude.Paths.{FilePath, name, begins, path_before, same_path, dots}
use kitt.Prelude.Sorting.{sorted}
use kitt.Storage.Json.{Json, Row, truthy, to_row}

pub data Content : Type 0 where
  parsed : Json → Content
  unreadable : Content

abbrev pub File : Type 0
File = FilePath × Content

-- The place of a path, with each ".." taken back, from the parts in reverse.
unfoldable pub lead : List (List ℕ) → List (List ℕ) → List (List ℕ)
unfolding same_text
lead back [] = reverse back
lead [] (p ∷ ps) = lead (if same_text p dots then [] else p ∷ []) ps
lead (b ∷ back) (p ∷ ps) = lead (if same_text p dots then back else p ∷ b ∷ back) ps

unfoldable pub place : FilePath → FilePath
unfolding lead
place p = record { absolute = p.absolute; parts = lead [] p.parts }

-- open(p, "w") and a write
unfoldable pub write : FilePath → Content → List File → List File
unfolding place
write p c files = (place p, c) ∷ select (λ (f : File). not (same_path f.0 (place p))) files

-- p.unlink()
unfoldable pub unlink : FilePath → List File → List File
unlink p files = select (λ (f : File). not (same_path f.0 p)) files

-- str(p)
joined : List (List ℕ) → List ℕ
joined [] = []
joined (p ∷ []) = p
joined (p ∷ q ∷ ps) = p ++ (b'/' ∷ joined (q ∷ ps))

unfoldable pub path_text : FilePath → List ℕ
unfolding joined
path_text p =
    if p.absolute
    then b'/' ∷ joined p.parts
    else elim p.parts [ [] ↦ b'.' ∷ [] | part ∷ parts ↦ joined (part ∷ parts) ]

unfoldable pub is_kitt : List (List ℕ) → Bool
is_kitt [] = false
is_kitt (d ∷ rest) = same_text d (codes "kitt-results")

pub is_karr : List (List ℕ) → Bool
is_karr [] = false
is_karr (d ∷ []) = false
is_karr (d ∷ r ∷ rest) = starts_with d (codes "karr-")

unfoldable pub metrics_in : (List (List ℕ) → Bool) → FilePath → File → Bool
unfolding is_kitt begins name same_text
metrics_in of_directory base f =
    begins f.0.parts base.parts
    && (of_directory (drop (length base.parts) f.0.parts)
        && same_text (name f.0) (codes "metrics.json"))

pub in_order : File → File → Bool
in_order f g = path_before f.0 g.0

unfoldable pub found_files : FilePath → List File → List File
unfolding is_kitt is_karr metrics_in in_order
found_files base files =
    sorted in_order (select (metrics_in is_kitt base) files)
    ++ sorted in_order (select (metrics_in is_karr base) files)

unfoldable pub add_row : Result (Option Row) → Result (List Row) → Result (List Row)
add_row (raised e) later = raised e
add_row (ok r) (raised e) = raised e
add_row (ok none) (ok rows) = ok rows
add_row (ok (some r)) (ok rows) = ok (r ∷ rows)

module _ (make_id : FilePath → String) where
  unfoldable pub marked : FilePath → Row → Row
  marked p r =
      insert "_id" (Json.text (codes (make_id p)))
        (insert "_source_path" (Json.text (path_text p)) r)

  -- A true value that is no dictionary raises at data["_source_path"].
  unfoldable pub take_fields : FilePath → Json → Result (Option Row)
  take_fields p (Json.object fields) = ok (some (marked p (to_row fields)))
  take_fields p j = raised "item assignment"

module _ (ops : FloatOps) (make_id : FilePath → String) where
  unfoldable pub row_of : File → Result (Option Row)
  row_of (p, unreadable) = ok none
  row_of (p, parsed j) = if truthy ops j then take_fields make_id p j else ok none

  -- The rows of the files in turn, or the first exception.
  unfoldable pub load_rows : List File → Result (List Row)
  load_rows [] = ok []
  load_rows (f ∷ files) = add_row (row_of f) (load_rows files)

  unfoldable pub scan_files : FilePath → List File → Result (List Row)
  scan_files base files = load_rows (found_files base files)
