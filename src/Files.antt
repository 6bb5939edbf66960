-- ===== src/Files.antt =====
-- src/FileHandler.cpp: the files of the flash and the configuration in memory.
pub mod Merge
pub mod Config
pub mod Backup
use Prim.Native.String.{String, ◌++◌ as ◌<>◌}
use text.Mathlib.Text.{◌==◌}
use mathlib.Core.Option.{get_or}
use byte_waterlevel.Prelude.{
  ℕ, zero, suc, Bool, true, false, not, ◌||◌, List, [], ◌∷◌, Option, none, some, if◌then◌else◌,
}
use byte_waterlevel.Json.{JsonLib}

-- `writable` says whether an `open` for writing succeeds.
pub record Files (Json : Type 0) : Type 0 where
  pub storage : String → Option String
  pub writable : Bool
  pub config : Json

abbrev pub config_path : String
config_path = "/config.json"

abbrev pub backup_path : String
backup_path = "/config.json.bak"

-- `println` ends the line.
abbrev pub line_end : String → String
line_end s = s <> "\r\n"

abbrev write : {J : Type 0} → String → String → Files J → Files J
write path content f =
    if f.writable
    then record f { storage = λ p. if path == p then some content else f.storage p }
    else f

module _ {J : Type 0} where
  -- Mounts the flash; where that fails, there is no file and every `open` fails.
  unfoldable pub begin : (mounted : Bool) → Files J → Files J
  begin mounted f = if mounted then f else record f { storage = λ _. none; writable = false }

  pub exists : String → Files J → Bool
  exists path f = elim (f.storage path) [ none ↦ false | some _ ↦ true ]

  pub read_file : String → Files J → String
  read_file path f = elim (f.storage path) [ none ↦ "" | some content ↦ content ]

  pub save_file : String → String → Files J → Files J
  save_file path content f = write path (line_end content) f

  pub copy_file : String → String → Files J → Bool × Files J
  copy_file source destination f = (true, save_file destination (read_file source f) f)

  pub reset : Files J → Files J
  reset f = (copy_file backup_path config_path f).1

  abbrev pub get_config : Files J → J
  get_config f = f.config

  abbrev pub save_config : J → Files J → Files J
  save_config object f = record f { config = object }

module _ {F : Type 0} (J : JsonLib F) where
  open J use {Json, member, set_member, contains_key, keys, is_object, empty_object, parse}
  open J use {new_document, serialize_pretty}

  pub load_config : Files Json → Files Json
  load_config f =
      let f' = (if exists config_path f then f else (copy_file backup_path config_path f).1) in
      record f' { config = (parse (read_file config_path f')).0 }

  -- The branch of `mergeJsonObjects` for a missing object. `to<JsonObject>()` empties the whole target,
  -- then `createNestedObject` adds the member, which is assigned to itself.
  pub ensure_object : String → Json → Json
  ensure_object key target =
      let cleared = set_member empty_object key empty_object in
      if is_object (member target key) then target else set_member cleared key (member cleared key)

  -- One round of the loop of `mergeJsonObjects`; `recur` is the recursive call.
  pub merge_member : (Json → Json → Json) → Json → String → Json → Json
  merge_member recur source key target =
      let ready = ensure_object key target in
      if is_object (member source key)
      then set_member ready key (recur (member ready key) (member source key))
      else if contains_key target key
      then target
      else set_member target key (member source key)

  pub merge_members : (Json → Json → Json) → Json → List String → Json → Json
  merge_members recur source [] target = target
  merge_members recur source (key ∷ rest) target =
      merge_members recur source rest (merge_member recur source key target)

  -- `fuel` bounds the depth of the recursion.
  pub merge_json_objects : (fuel : ℕ) → (target source : Json) → Json
  merge_json_objects zero target source = target
  merge_json_objects (suc fuel) target source =
      if is_object source
      then merge_members (merge_json_objects fuel) source (keys source) target
      else target

  -- The document of the primary file: new if the file is missing or cannot be parsed.
  parsed_or_new : Option String → Json
  parsed_or_new none = new_document
  parsed_or_new (some content) =
      let (doc, failed) = parse content in if failed then new_document else doc

  pub merge_config_from_backup :
      (fuel : ℕ) → (config_file backup_file : String) → Files Json → Bool × Files Json
  unfolding parsed_or_new
  merge_config_from_backup fuel config_file backup_file f = elim (f.storage backup_file) [
    | none ↦ (false, f)
    | some backup ↦
        let (backup_doc, failed) = parse backup in
        let merged = merge_json_objects fuel (parsed_or_new (f.storage config_file)) backup_doc in
        if failed || not f.writable
        then (false, f)
        else (true, write config_file (serialize_pretty merged) f)
  ]
