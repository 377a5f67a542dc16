-- ===== src/Storage/JsonStore.antt =====
-- src/kitt/storage/json_store.py: the results of the JSON files, with a cache of the scan. The hash
-- of a path is a parameter; limits and offsets are not negative.
pub mod Cached
pub mod Saved
pub mod Counted
use Prim.Native.String.{String}
use kitt.Prelude.{
  ℕ, Bool, true, false, not, Option, none, some, List, [], ◌∷◌, ◌++◌, map, take, drop, length,
  select, any, if◌then◌else◌, eqb, ◌==◌, ◌&&◌, lookup,
}
use kitt.Prelude.Exec.{Result, ok, raised, Exec, pure, raise, gets, modify, ◌>>=◌, ◌>>◌}
use kitt.Prelude.Floats.{FloatOps}
use kitt.Prelude.Text.{codes, starts_with}
use kitt.Prelude.Paths.{FilePath, to_path, ◌/◌, same_path}
use kitt.Storage.Json.{Json, Row, get_or, to_fields, same, less}
use kitt.Storage.Files.{File, parsed, write, unlink, scan_files}

pub record Store : Type 0 where
  pub base_dir : FilePath
  pub cache : Option (List Row)
  pub files : List File

abbrev literal_path : String → FilePath
literal_path s = to_path (codes s)

-- {k: v for k, v in r.items() if not k.startswith("_")}
abbrev pub is_shown : String × Json → Bool
is_shown entry = not (starts_with (codes entry.0) (codes "_"))

unfoldable pub visible : Row → Row
visible r = select is_shown r

-- s.replace(c, d), for characters
unfoldable pub replace : ℕ → ℕ → List ℕ → List ℕ
replace c d s = map (λ x. if eqb x c then d else x) s

as_text : Json → Result (List ℕ)
as_text (Json.text s) = ok s
as_text j = raised "no text"

settle : {A : Type 0} → Result A → Exec Store A
settle r s = (r, s)

-- A list to sort by a key, with the item's place: items that have no order raise.
module _ (ops : FloatOps) where
  unfoldable pub matches : List (String × Json) → Row → Bool
  matches [] r = true
  matches ((k, v) ∷ filters) r = same ops (get_or k r Json.null) v && matches filters r

  -- `if filters:`, where no filters and None are the same
  unfoldable pub filtered : List (String × Json) → List Row → List Row
  unfolding matches
  filtered filters rows = select (matches filters) rows

  key_less : Bool → Json → Json → Option Bool
  key_less true a b = less ops b a
  key_less false a b = less ops a b

  placed_row : Option Bool → Row → Row → List Row → Result (List Row) → Result (List Row)
  placed_row none r q rows later = raised "'<' not supported"
  placed_row (some false) r q rows later = ok (r ∷ q ∷ rows)
  placed_row (some true) r q rows (ok later) = ok (q ∷ later)
  placed_row (some true) r q rows (raised e) = raised e

  insert_row : Bool → String → Row → List Row → Result (List Row)
  unfolding placed_row key_less
  insert_row desc key r [] = ok (r ∷ [])
  insert_row desc key r (q ∷ rows) =
      placed_row (key_less desc (get_or key q (Json.text [])) (get_or key r (Json.text []))) r q
        rows (insert_row desc key r rows)

  insert_into : Bool → String → Row → Result (List Row) → Result (List Row)
  insert_into desc key r (ok rows) = insert_row desc key r rows
  insert_into desc key r (raised e) = raised e

  -- sorted(results, key=lambda r: r.get(key, ""), reverse=desc)
  unfoldable pub sorted_rows : Bool → String → List Row → Result (List Row)
  unfolding insert_row insert_into
  sorted_rows desc key [] = ok []
  sorted_rows desc key (r ∷ rows) = insert_into desc key r (sorted_rows desc key rows)

-- order_by, after its sign: whether it descends, and the key
pub record Order : Type 0 where
  pub desc : Bool
  pub key : String

module _ (ops : FloatOps) where
  unfoldable pub ordered : Option Order → List Row → Result (List Row)
  ordered none rows = ok rows
  ordered (some order) rows = sorted_rows ops order.desc order.key rows

abbrev limited : Option ℕ → List Row → List Row
limited none rows = rows
limited (some limit) rows = take limit rows

unfoldable pub first : (Row → Bool) → List Row → Option Row
first p [] = none
first p (r ∷ rows) = if p r then some r else first p rows

-- What list_results tells of a result.
pub record Summary : Type 0 where
  pub id : Json
  pub model : Json
  pub engine : Json
  pub suite_name : Json
  pub timestamp : Json
  pub passed : Json

summary : Row → Summary
summary r = record {
  id = get_or "_id" r (Json.text []);
  model = get_or "model" r (Json.text []);
  engine = get_or "engine" r (Json.text []);
  suite_name = get_or "suite_name" r (Json.text []);
  timestamp = get_or "timestamp" r (Json.text []);
  passed = get_or "passed" r (Json.boolean false);
}

module _ (ops : FloatOps) where
  unfoldable pub has_id : String → Row → Bool
  unfolding same
  has_id result_id r = same ops (get_or "_id" r Json.null) (Json.text (codes result_id))

unfoldable pub invalidate_cache : Store → Store
invalidate_cache s = record s { cache = none }

unfoldable pub fill_cache : List Row → Store → Store
fill_cache rows s = record s { cache = some rows }

unfoldable pub output_path : FilePath → List ℕ → List ℕ → List ℕ → List ℕ → FilePath
output_path base model engine timestamp uid =
    base
    / literal_path "kitt-results"
    / to_path (replace b'/' b'_' model)
    / to_path engine
    / to_path (replace b':' b'-' (take 19 timestamp) ++ (b'_' ∷ uid))
    / literal_path "metrics.json"

unfoldable pub put_file : FilePath → Row → Store → Store
put_file p r s = record s { files = write p (parsed (Json.object (to_fields r))) s.files }

shown : Option Row → Option Row
shown none = none
shown (some r) = some (visible r)

path_of : Row → FilePath
path_of r = elim (get_or "_source_path" r Json.null) [ Json.text s ↦ to_path s | _ ↦ to_path [] ]

unfoldable pub exists : FilePath → Store → Bool
exists p s = any (λ (f : File). same_path f.0 p) s.files

unfoldable pub remove_file : FilePath → Store → Store
remove_file p s = record s { files = unlink p s.files }

module _ (ops : FloatOps) (make_id : FilePath → String) where
  unfoldable pub scan : Exec Store (List Row)
  unfolding settle
  scan = do
    rows ← λ s. settle (scan_files ops make_id s.base_dir s.files) s
    modify (fill_cache rows)
    pure rows

  known : Option (List Row) → Exec Store (List Row)
  unfolding scan
  known (some rows) = pure rows
  known none = scan

  unfoldable pub scan_results : Exec Store (List Row)
  unfolding known
  scan_results = do cache ← gets (λ s. s.cache); known cache

  unfoldable pub save_result : Row → List ℕ → Exec Store String
  unfolding as_text settle
  save_result r uid = do
    model ← settle (as_text (get_or "model" r (Json.text (codes "unknown"))))
    timestamp ← settle (as_text (get_or "timestamp" r (Json.text (codes "unknown"))))
    engine ← settle (as_text (get_or "engine" r (Json.text (codes "unknown"))))
    base ← gets (λ s. s.base_dir)
    modify (put_file (output_path base model engine timestamp uid) r)
    modify invalidate_cache
    pure (make_id (output_path base model engine timestamp uid))

  unfoldable pub get_result : String → Exec Store (Option Row)
  unfolding shown
  get_result result_id = do rows ← scan_results; pure (shown (first (has_id ops result_id) rows))

  unfoldable pub query : List (String × Json) → Option Order → Option ℕ → ℕ → Exec Store (List Row)
  unfolding settle
  query filters order limit offset = do
    rows ← scan_results
    in_order ← settle (ordered ops order (filtered ops filters rows))
    pure (map visible (limited limit (drop offset in_order)))

  unfoldable pub list_results : Exec Store (List Summary)
  unfolding summary
  list_results = do rows ← scan_results; pure (map summary rows)

  unfoldable pub count : List (String × Json) → Exec Store ℕ
  count filters = do rows ← scan_results; pure (length (filtered ops filters rows))

  -- The rows from the first of the id on: one whose file is gone does not end the loop.
  unfoldable pub delete_first : String → List Row → Exec Store Bool
  unfolding path_of
  delete_first result_id [] = pure false
  delete_first result_id (r ∷ rows) =
      let rest = delete_first result_id rows in
      let unlink_first : Exec Store Bool = do
        modify (remove_file (path_of r))
        modify invalidate_cache
        pure true
      in let look : Exec Store Bool = do
        there ← gets (exists (path_of r))
        if there then unlink_first else rest
        in if has_id ops result_id r then look else rest

  unfoldable pub delete_result : String → Exec Store Bool
  delete_result result_id = do rows ← scan_results; delete_first result_id rows

-- The operations of `ResultStore` and what they answer.
pub data Operation : Type 0 where
  saving : Row → List ℕ → Operation
  getting : String → Operation
  querying : List (String × Json) → Option Order → Option ℕ → ℕ → Operation
  listing : Operation
  counting : List (String × Json) → Operation
  deleting : String → Operation

pub data Answer : Type 0 where
  saved_as : String → Answer
  found : Option Row → Answer
  rows : List Row → Answer
  summaries : List Summary → Answer
  counted : ℕ → Answer
  deleted : Bool → Answer

module _ (ops : FloatOps) (make_id : FilePath → String) where
  unfoldable pub perform : Operation → Exec Store Answer
  perform (saving r uid) = do id ← save_result ops make_id r uid; pure (saved_as id)
  perform (getting id) = do r ← get_result ops make_id id; pure (found r)
  perform (querying filters order limit offset) = do
    rs ← query ops make_id filters order limit offset
    pure (rows rs)
  perform listing = do rs ← list_results ops make_id; pure (summaries rs)
  perform (counting filters) = do n ← count ops make_id filters; pure (counted n)
  perform (deleting id) = do b ← delete_result ops make_id id; pure (deleted b)

  -- The answers of operations one after the other.
  unfoldable pub perform_all : List Operation → Store → List (Result Answer)
  unfolding perform
  perform_all [] s = []
  perform_all (o ∷ os) s = let (r, t) = perform o s in r ∷ perform_all os t
