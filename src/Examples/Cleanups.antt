-- ===== src/Examples/Cleanups.antt =====
-- A cleanup whose target leads out of the storage.
use kitt.Prelude.{true, false, [], ◌∷◌, ◌≡◌, refl, none}
use kitt.Prelude.Text.{codes, same_text}
use kitt.Prelude.Paths.{FilePath, begins, is_relative_to}
use kitt.Storage.Files.{place, lead}
use kitt.AgentStorage.{ModelStorageManager, Disk, exists, execute_cleanup}
use kitt.AgentStorage.Kept.{exists-execute_cleanup}

abbrev models : FilePath
models = record { absolute = true; parts = codes "models" ∷ [] }

abbrev passwords : FilePath
passwords = record { absolute = true; parts = codes "etc" ∷ codes "passwd" ∷ [] }

abbrev manager : ModelStorageManager
manager = record {
  storage_dir = models;
  share_source = [];
  share_mount = none;
  auto_cleanup = true;
}

abbrev disk : Disk
disk = models ∷ passwords ∷ []

passwords-outside : is_relative_to (place passwords) (place models) ≡ false
unfolding is_relative_to place lead begins same_text
passwords-outside = refl

exists-execute_cleanup_example :
    exists passwords (execute_cleanup manager (codes "../..") [] disk) ≡ exists passwords disk
exists-execute_cleanup_example =
    exists-execute_cleanup manager passwords passwords-outside (codes "../..") [] disk
