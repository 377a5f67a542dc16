-- ===== src/AgentStorage/Resolve.antt =====
-- _find_on_share and resolve_model of model_storage.py. The share lies on the same disk.
use kitt.Prelude.{ℕ, Bool, true, false, Option, none, some, List, [], ◌∷◌, if◌then◌else◌, ◌&&◌}
use kitt.Prelude.Paths.{FilePath, to_path, name, ◌/◌, is_relative_to}
use kitt.Storage.Files.{place}
use kitt.AgentStorage.{ModelStorageManager, Disk, exists}

-- ensure_share_mounted, the paths below one that have a name, and whether a copy succeeds
pub record Host : Type 0 where
  pub share_mounted : Bool
  pub glob : FilePath → List ℕ → List FilePath
  pub copies : FilePath → FilePath → Bool

-- Path(*parts[i:]) for each i past the root
tails : List (List ℕ) → List FilePath
tails [] = []
tails (p ∷ parts) = record { absolute = false; parts = p ∷ parts } ∷ tails parts

candidates : FilePath → List FilePath
unfolding tails
candidates p = if p.absolute then p ∷ tails p.parts else tails p.parts

-- The first of the candidates that stays in the share and is there.
first_there : FilePath → Disk → List FilePath → Option FilePath
unfolding place
first_there root disk [] = none
first_there root disk (p ∷ paths) =
    let candidate = place (root / p) in
    if is_relative_to candidate (place root) && exists candidate disk
    then some candidate
    else first_there root disk paths

first_inside : FilePath → List FilePath → Option FilePath
unfolding place
first_inside root [] = none
first_inside root (p ∷ paths) =
    if is_relative_to (place p) (place root) then some p else first_inside root paths

by_name : Host → FilePath → List ℕ → Option FilePath
unfolding first_inside
by_name host root [] = none
by_name host root (c ∷ model_name) = first_inside root (host.glob root (c ∷ model_name))

or_by_name : Option FilePath → Option FilePath → Option FilePath
or_by_name none later = later
or_by_name (some p) later = some p

unfoldable pub find_on_share : Host → Option FilePath → FilePath → Disk → Option FilePath
unfolding candidates first_there by_name or_by_name
find_on_share host none model_path disk = none
find_on_share host (some root) model_path disk =
    if exists root disk
    then or_by_name (first_there root disk (candidates model_path))
        (by_name host root (name model_path))
    else none

-- The path that a benchmark is given: the local copy, or the one that was asked for.
pub data Resolved : Type 0 where
  local_copy : FilePath → Resolved
  as_given : Resolved

copied : Host → FilePath → Option FilePath → Disk → Resolved × Disk
unfolding place
copied host local_path none disk = (as_given, disk)
copied host local_path (some share_model) disk =
    if host.copies share_model local_path
    then (local_copy local_path, place local_path ∷ disk)
    else (as_given, disk)

-- Where nothing is copied the path is given back, whether it is there or not.
from_share : Host → ModelStorageManager → FilePath → FilePath → Disk → Resolved × Disk
unfolding copied find_on_share
from_share host m local_path model_path disk =
    if host.share_mounted
    then copied host local_path (find_on_share host m.share_mount model_path disk) disk
    else (as_given, disk)

has_mount : Option FilePath → Bool
has_mount none = false
has_mount (some p) = true

unfoldable pub resolve_model : Host → ModelStorageManager → FilePath → Disk → Resolved × Disk
unfolding from_share has_mount
resolve_model host m model_path disk =
    let local_path = m.storage_dir / to_path (name model_path) in
    if exists local_path disk
    then (local_copy local_path, disk)
    else if is_relative_to model_path m.storage_dir && exists model_path disk
    then (as_given, disk)
    else if has_mount m.share_mount
    then from_share host m local_path model_path disk
    else (as_given, disk)
