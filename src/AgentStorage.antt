-- ===== src/AgentStorage.antt =====
-- model_storage.py of agent-package, and _execute_cleanup of daemon.py: the local copies of models.
-- The disk is a list of paths without links; mounting the share is a parameter.
pub mod Kept
pub mod Resolve
use kitt.Prelude.{
  ℕ, String, Bool, true, false, not, Option, none, some, List, [], ◌∷◌, ◌++◌, select, any,
  if◌then◌else◌, ◌&&◌, ◌||◌,
}
use kitt.Prelude.Text.{codes, same_text, starts_with}
use kitt.Prelude.Paths.{FilePath, to_path, name, ◌/◌, same_path, is_relative_to}
use kitt.Storage.Files.{place, path_text}

pub record ModelStorageManager : Type 0 where
  pub storage_dir : FilePath
  pub share_source : List ℕ
  pub share_mount : Option FilePath
  pub auto_cleanup : Bool

-- The paths that exist.
abbrev pub Disk : Type 0
Disk = List FilePath

unfoldable pub exists : FilePath → Disk → Bool
unfolding place
exists p disk = any (λ x. same_path x (place p)) disk

abbrev given_path : List ℕ → FilePath → FilePath
given_path [] p = p
given_path (c ∷ s) p = to_path (c ∷ s)

abbrev given_text : List ℕ → List ℕ → List ℕ
given_text [] t = t
given_text (c ∷ s) t = c ∷ s

abbrev given_mount : List ℕ → Option FilePath → Option FilePath
given_mount [] p = p
given_mount (c ∷ s) p = some (to_path (c ∷ s))

abbrev given_flag : Option Bool → Bool → Bool
given_flag none b = b
given_flag (some a) b = a

-- update_settings, where a text that is empty changes nothing; "~" is not expanded.
unfoldable pub update_settings :
    List ℕ → List ℕ → List ℕ → Option Bool → ModelStorageManager → ModelStorageManager
update_settings storage_dir share_source share_mount auto_cleanup m = record {
  storage_dir = given_path storage_dir m.storage_dir;
  share_source = given_text share_source m.share_source;
  share_mount = given_mount share_mount m.share_mount;
  auto_cleanup = given_flag auto_cleanup m.auto_cleanup;
}

-- rmtree or unlink: the path and all below it
unfoldable pub remove_tree : FilePath → Disk → Disk
unfolding place
remove_tree p disk = select (λ x. not (is_relative_to x (place p))) disk

unfoldable pub cleanup_model : ModelStorageManager → FilePath → Disk → Disk
unfolding place
cleanup_model m local_path disk =
    if not (exists local_path disk)
    then disk
    else if is_relative_to (place local_path) (place m.storage_dir)
    then remove_tree local_path disk
    else disk

-- The models of the storage that iterdir() gives, less the hidden ones.
unfoldable pub cleanup_items : ModelStorageManager → List FilePath → Disk → Disk
cleanup_items m [] disk = disk
cleanup_items m (p ∷ items) disk =
    let rest = cleanup_items m items disk in
    let cleaned = cleanup_items m items (cleanup_model m p disk) in
    if starts_with (name p) (codes ".") then rest else cleaned

-- _execute_cleanup: of a model, or else of all
unfoldable pub execute_cleanup : ModelStorageManager → List ℕ → List FilePath → Disk → Disk
execute_cleanup m (c ∷ target) items disk =
    cleanup_model m (m.storage_dir / to_path (name (to_path (c ∷ target)))) disk
execute_cleanup m [] items disk =
    if exists m.storage_dir disk then cleanup_items m items disk else disk
