-- ===== src/Files/Backup.antt =====
-- src/FileHandler.cpp: `mergeConfigFromBackup`, and the start behind it.
use Prim.Native.String.{String}
use text.Mathlib.Text.{◌==◌}
use byte_waterlevel.Prelude.{ℕ, ◌≡◌, false, arith, ◌⊎◌}
use byte_waterlevel.Json.{JsonLib}
use byte_waterlevel.Files.{Files, merge_config_from_backup}

module _ {F : Type 0} (J : JsonLib F) where
  open J use {Json, parse, serialize_pretty}

  -- `mergeConfigFromBackup` is all or nothing: it never touches the configuration in memory, and the
  -- file at a path is as before if the merge reports a failure or the path is another one.
  merge_config_from_backup_atomic :
      (fuel : ℕ) (config_file backup_file path : String) (f : Files Json)
      → ((merge_config_from_backup J fuel config_file backup_file f).0 ≡ false)
        ⊎ ((config_file == path) ≡ false)
      → let f' = (merge_config_from_backup J fuel config_file backup_file f).1 in
        (f'.config ≡ f.config) × (f'.storage path ≡ f.storage path)
  unfolding merge_config_from_backup
  merge_config_from_backup_atomic fuel config_file backup_file path f h = ground arith
