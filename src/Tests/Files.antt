-- ===== src/Tests/Files.antt =====
-- The configuration at concrete documents.
use byte_waterlevel.Prelude.{
  [], ◌∷◌, ◌≡◌, refl, true, false, none, some, inl, inr, arith, if◌then◌else◌,
}
use byte_waterlevel.Files.{Files, config_path, backup_path, merge_json_objects}
use byte_waterlevel.Files.Merge.Paths.{at, at-merge_kept, at-merge_filled}
use Prim.Native.String.{String}
use text.Mathlib.Text.{◌==◌}
use byte_waterlevel.Json.Tree.{
  Value, bool, str, object, end, field, tree-IsDocument, tree-HasDepth, depth_of, depth_fields,
}
use byte_waterlevel.Files.Merge.Loop.{member-merge_json_objects}
use byte_waterlevel.Files.Merge.Fuel.{merge_json_objects_fuel}
use byte_waterlevel.Tests.Data.{lib, open_config, client, access_point}

-- A flash that holds the backup only.
abbrev fresh_flash : Files String
fresh_flash = record {
  storage = λ p. if p == backup_path then some "{backup}" else none;
  writable = true;
  config = "";
}

-- A configuration without the client of its backup.
abbrev primary : Value
primary = object (field "wifi" (object (field "ap" access_point end)) (field "ota" (bool true) end))

abbrev backup : Value
backup = object (field "wifi" (object (field "client" client end)) (field "ota" (bool false) end))

member-merge_json_objects_example :
    lib.member (merge_json_objects lib 3 primary backup) "ota" ≡ bool true
member-merge_json_objects_example =
    member-merge_json_objects lib (tree-IsDocument open_config) 2 primary backup "ota" refl refl
      (inr refl, (inl refl, tt))

merge_json_objects_fuel_example :
    merge_json_objects lib 9 primary backup ≡ merge_json_objects lib 4 primary backup
merge_json_objects_fuel_example =
    merge_json_objects_fuel lib (tree-HasDepth open_config) 4 5 primary backup
      (unfold depth_of depth_fields in omega arith)

-- A configuration whose access point lacks the password of its backup.
abbrev half_set : Value
half_set = object (
    field "wifi" (object (field "ap" (object (field "ssid" (str "tank") end)) end))
      (field "hardware" (object end) end))

-- It has an object off the path, the hardware's display, that the other one lacks.
abbrev factory : Value
factory = object (
    field "wifi" (object (field "ap" access_point end))
      (field "hardware" (object (field "display" (object end) end)) end))

at-merge_kept_example :
    at lib ("wifi" ∷ "ap" ∷ "ssid" ∷ []) (merge_json_objects lib 3 half_set factory) ≡ str "tank"
at-merge_kept_example =
    at-merge_kept lib (tree-IsDocument open_config) ("ap" ∷ "ssid" ∷ []) "wifi" 3 half_set factory
      ((inr refl, (inr refl, tt)), ((inr refl, tt), (inl refl, (inl refl, tt))))
      (refl, refl, (refl, refl, (refl, refl, refl)))

at-merge_filled_example :
    at lib ("wifi" ∷ "ap" ∷ "password" ∷ []) (merge_json_objects lib 3 half_set factory)
    ≡ str "secret"
at-merge_filled_example =
    at-merge_filled lib (tree-IsDocument open_config) ("ap" ∷ "password" ∷ []) "wifi" 3 half_set
      factory (omega arith)
      ((inr refl, (inr refl, tt)), ((inr refl, tt), (inl refl, (inl refl, tt))))
      (refl, refl, refl, refl, (refl, refl, refl, refl, (refl, refl, refl, refl, refl)))

-- A flash with both files, without a line end.
abbrev two_files : Files String
two_files = record {
  storage = λ p.
      if p == config_path
      then some "{old}\r\n"
      else if p == backup_path
      then some "{factory}\r\n"
      else none;
  writable = true;
  config = "";
}
