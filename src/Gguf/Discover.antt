-- ===== src/Gguf/Discover.antt =====
-- discover_gguf_quants, discover_ollama_tags and find_model_path of gguf_discovery.py.
use kitt.Prelude.{
  ℕ, Bool, true, false, not, Option, none, some, List, [], ◌∷◌, ◌++◌, map, select, any,
  if◌then◌else◌, ◌&&◌, ◌||◌,
}
use mathlib.Core.List.{reverse}
use kitt.Prelude.Text.{codes, lower, same_text, starts_with, ends_with, occurs_in}
use kitt.Prelude.Paths.{FilePath, to_path, name, parent, ◌/◌, text_before, split, path_before}
use kitt.Prelude.Sorting.{sorted}
use kitt.Gguf.Names.{extract_quant_name, without_shard}
use kitt.Gguf.Prefix.{common_prefix}
use kitt.Storage.Files.{path_text}

-- GGUFQuantInfo
pub record GgufQuantInfo : Type 0 where
  pub quant_name : List ℕ
  pub files : List (List ℕ)
  pub include_pattern : List ℕ

unfoldable pub is_sharded : GgufQuantInfo → Bool
is_sharded info = elim info.files [ [] ↦ false | f ∷ fs ↦ elim fs [ [] ↦ false | g ∷ gs ↦ true ] ]

unfoldable pub primary_file : GgufQuantInfo → List ℕ
primary_file info = elim info.files [ [] ↦ [] | f ∷ fs ↦ f ]

shard_base : Option (List ℕ) → List ℕ → List ℕ
shard_base none filename = filename
shard_base (some base) filename = base

-- The quantization of a file, by the name without the end of a shard.
unfoldable pub quant_of : List ℕ → List ℕ
unfolding shard_base
quant_of filepath =
    let filename = name (to_path filepath) in
    extract_quant_name (shard_base (without_shard filename) filename)

abbrev pub Groups : Type 0
Groups = List (List ℕ × List (List ℕ))

-- quant_groups.setdefault(quant_name, []).append(filepath)
unfoldable pub append_to : List ℕ → List ℕ → Groups → Groups
append_to quant_name filepath [] = (quant_name, filepath ∷ []) ∷ []
append_to quant_name filepath ((k, files) ∷ groups) =
    if same_text k quant_name
    then (k, files ++ (filepath ∷ [])) ∷ groups
    else (k, files) ∷ append_to quant_name filepath groups

unfoldable pub group_from : Groups → List (List ℕ) → Groups
group_from groups [] = groups
group_from groups (f ∷ files) = group_from (append_to (quant_of f) f groups) files

-- str(Path(p).parent)
common_dir : List ℕ → List ℕ
common_dir p = path_text (parent (to_path p))

include_of : List (List ℕ) → List ℕ
unfolding common_dir
include_of [] = codes "*.gguf"
include_of (f ∷ []) = f
include_of (f ∷ g ∷ files) =
    if same_text (common_dir f) (codes ".")
    then common_prefix (f ∷ g ∷ files) ++ codes "*.gguf"
    else common_dir f ++ codes "/*.gguf"

unfoldable pub quant_info : List ℕ × List (List ℕ) → GgufQuantInfo
unfolding include_of
quant_info (quant_name, files) =
    let in_order = sorted text_before files in
    record { quant_name = quant_name; files = in_order; include_pattern = include_of in_order }

-- sorted(f for f in all_files if f.endswith(".gguf"))
unfoldable pub gguf_files : List (List ℕ) → List (List ℕ)
gguf_files all_files = sorted text_before (select (λ f. ends_with f (codes ".gguf")) all_files)

-- What list_repo_files gives, `none` where it raises.
unfoldable pub discover_gguf_quants : Option (List (List ℕ)) → List GgufQuantInfo
discover_gguf_quants none = []
discover_gguf_quants (some all_files) = map quant_info (group_from [] (gguf_files all_files))

-- The first of equal tags.
unique : List (List ℕ) → List (List ℕ) → List (List ℕ)
unique seen [] = []
unique seen (tag ∷ tags) =
    let old = unique seen tags in
    let new = unique (tag ∷ seen) tags in if any (λ t. same_text t tag) seen then old else tag ∷ new

first_part : List (List ℕ) → List ℕ
first_part [] = []
first_part (p ∷ parts) = p

-- base_tag.split(":")[-1] if ":" in base_tag else None
target_size : List (List ℕ) → Option (List ℕ)
target_size [] = none
target_size (p ∷ []) = none
target_size (p ∷ r ∷ parts) = some (first_part (reverse (r ∷ parts)))

is_other_size : Option (List ℕ) → List ℕ → Bool
is_other_size none tag = false
is_other_size (some size) tag =
    not (same_text size []) && (not (same_text size (codes "latest")) && not (starts_with tag size))

keeps_tag : Option (List ℕ) → List ℕ → Bool
unfolding is_other_size
keeps_tag size tag =
    not (is_other_size size tag)
    && not (occurs_in (codes "-text-") tag || ends_with tag (codes "-text"))

or_base : List ℕ → List (List ℕ) → List (List ℕ)
or_base base_tag [] = base_tag ∷ []
or_base base_tag (tag ∷ tags) = sorted text_before (tag ∷ tags)

-- The tags that the page names, in its order, `none` where it could not be read.
unfoldable pub discover_ollama_tags : List ℕ → Option (List (List ℕ)) → List (List ℕ)
unfolding unique keeps_tag target_size or_base first_part
discover_ollama_tags base_tag none = base_tag ∷ []
discover_ollama_tags base_tag (some raw_tags) =
    let parts = split b':' base_tag in
    or_base base_tag (
      map (λ tag. first_part parts ++ (b':' ∷ tag))
        (select (keeps_tag (target_size parts)) (unique [] raw_tags)))

-- _find_first_shard
unfoldable pub find_first_shard : List FilePath → List ℕ → Option FilePath
find_first_shard [] quant = none
find_first_shard (p ∷ files) quant =
    if occurs_in (lower quant) (lower (name p)) && occurs_in (codes "-00001-of-") (lower (name p))
    then some p
    else find_first_shard files quant

-- The files of a storage: whether a path is there, and the paths below one with a name, or with the
-- ending ".gguf".
pub record Storage : Type 0 where
  pub exists : FilePath → Bool
  pub rglob : FilePath → List ℕ → List FilePath
  pub rglob_gguf : FilePath → List FilePath

first_path : List FilePath → Option FilePath
first_path [] = none
first_path (p ∷ paths) = some p

or_shard : Option FilePath → Option FilePath → Option FilePath
or_shard none shard = shard
or_shard (some p) shard = some p

find_gguf : Storage → FilePath → List ℕ → Option FilePath
unfolding first_path or_shard
find_gguf storage base relative =
    let filename = name (to_path relative) in
    if storage.exists (base / to_path relative)
    then some (base / to_path relative)
    else or_shard (first_path (sorted path_before (storage.rglob base filename))) (
        find_first_shard (sorted path_before (storage.rglob_gguf base))
          (extract_quant_name filename))

-- `if gguf_relative_path:`
find_below : Storage → FilePath → Option (List ℕ) → Option FilePath
unfolding find_gguf
find_below storage base none = some base
find_below storage base (some []) = some base
find_below storage base (some (c ∷ relative)) = find_gguf storage base (c ∷ relative)

-- find_model_path, below the root of the storage
unfoldable pub find_model_path : Storage → FilePath → List ℕ → Option (List ℕ) → Option FilePath
unfolding find_below
find_model_path storage root repo_id relative =
    let base = root / to_path (codes "huggingface") / to_path repo_id in
    if storage.exists base then find_below storage base relative else none
