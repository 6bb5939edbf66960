-- ===== src/Tests/Storage.antt =====
-- The configuration over saves, restarts and resets.
use Prim.Native.String.{String}
use text.Mathlib.Text.{◌==◌}
use byte_waterlevel.Prelude.{none, some, if◌then◌else◌, ◌≡◌, refl, true, false, inr, [], ◌∷◌}
use byte_waterlevel.Floats.Milli.{Milli, milli}
use byte_waterlevel.Json.{JsonLib, ReadsBack}
use byte_waterlevel.Json.Plain.{plain, plain-ReadsBack}
use byte_waterlevel.Files.{Files, backup_path, load_config}
use byte_waterlevel.Firmware.{Boot, Firmware, pass, request, setup, run}
use byte_waterlevel.Firmware.Lives.{Life, live_all, setup-live_all-api_save}
use byte_waterlevel.Firmware.Stored.{setup-run}
use byte_waterlevel.Firmware.Unsaved.{setup-api_unsaved}
use byte_waterlevel.Firmware.Configured.{IsConfiguredBy}
use byte_waterlevel.Firmware.Reboot.{setup-setup_reset}
use byte_waterlevel.Web.{Request, need_auth, api}
use byte_waterlevel.Web.Save.{IsSaveCall}
use byte_waterlevel.World.{answer, power_on}
use byte_waterlevel.Tests.Data.{ambient, boot_with, pass_at}
use byte_waterlevel.Firmware.Settings.{settings}
use byte_waterlevel.Firmware.Start.{start_device, start}
use byte_waterlevel.Firmware.Start.Mixed.{mixed, start_saved}

-- A library that reads every document as a request of the type "save".
abbrev saving : JsonLib Milli
saving = record plain {
  member = λ _ k. if k == "type" then "save" else if k == "config" then "{new}" else "";
  is_object = λ _. true;
}

saving-ReadsBack : (s : String) → ReadsBack saving s
saving-ReadsBack = plain-ReadsBack

-- A flash that holds the backup only.
abbrev backup_only : Files String
backup_only = record {
  storage = λ p. if p == backup_path then some "{backup}" else none;
  writable = true;
  config = "";
}

abbrev save_request : Request String
save_request = record { authenticate = λ _ _. false; body = "{}" }

abbrev running : Firmware milli saving
running = power_on milli saving backup_only

save_request-IsSaveCall : IsSaveCall saving save_request running
unfolding need_auth
save_request-IsSaveCall = record {
  admitted = refl;
  type_is_string = refl;
  type_is = refl;
  config_is_object = refl;
}

-- A start and two passes.
abbrev day : Life milli saving
day = record { boot = boot_with true; events = pass (pass_at 1000) ∷ pass (pass_at 2000) ∷ [] }

setup-live_all-api_save_example : IsConfiguredBy milli saving "{new}" (boot_with true) (
    setup milli saving (boot_with true) (
      power_on milli saving (
        live_all milli saving
          (day ∷ day ∷ [])
          (run milli saving day.events (api saving ambient save_request running)).files)))
setup-live_all-api_save_example =
    setup-live_all-api_save milli saving ambient save_request running day.events (day ∷ day ∷ [])
      (boot_with true) save_request-IsSaveCall (saving-ReadsBack "{new}") refl (tt, (tt, tt))
      ((refl, (tt, (tt, tt))), ((refl, (tt, (tt, tt))), tt))

-- A start with the reset pin high.
abbrev reset_boot : Boot
reset_boot = record (boot_with true) { reset_level = true }

setup-setup_reset_example :
    let w = setup milli plain reset_boot (power_on milli plain backup_only) in
    IsConfiguredBy milli plain (load_config plain backup_only).config reset_boot w
    × IsConfiguredBy milli plain "{backup}"
        (boot_with true)
        (setup milli plain (boot_with true) (power_on milli plain w.files))
setup-setup_reset_example =
    setup-setup_reset milli plain "{backup}" backup_only reset_boot (boot_with true)
      (plain-ReadsBack "{backup}") refl refl refl

-- A save, and a start behind it.
setup-run_example :
    let w =
      run milli saving
        (request ambient save_request ∷ pass (pass_at 1000) ∷ [])
        (setup milli saving (boot_with true) running) in
    IsConfiguredBy milli saving w.files.config
      (boot_with false)
      (setup milli saving (boot_with false) (power_on milli saving w.files))
setup-run_example =
    setup-run milli saving (boot_with true) (boot_with false) backup_only
      (request ambient save_request ∷ pass (pass_at 1000) ∷ []) refl refl
      ((refl, inr (saving-ReadsBack "{new}")), (tt, tt))

-- A flash that cannot be written.
abbrev read_only : Firmware milli saving
read_only = power_on milli saving (record backup_only { writable = false })

read_only-IsSaveCall : IsSaveCall saving save_request read_only
unfolding need_auth
read_only-IsSaveCall = record {
  admitted = refl;
  type_is_string = refl;
  type_is = refl;
  config_is_object = refl;
}

setup-api_unsaved_example :
    let w' = api saving ambient save_request read_only in
    (w'.responses ≡ answer 200 "application/json" "{\"type\":\"success\",\"message\":\"OK\"}" ∷ [])
    × (w'.files.config ≡ "{new}")
    × IsConfiguredBy milli saving (load_config saving backup_only).config (boot_with true) (
        setup milli saving
          (boot_with true)
          (power_on milli saving (record w'.files { writable = true })))
setup-api_unsaved_example =
    setup-api_unsaved milli saving ambient save_request read_only true (boot_with true)
      read_only-IsSaveCall refl

-- The save comes while the start goes on.
save_request-IsSaveCall_started :
    IsSaveCall saving save_request (start_device milli saving (boot_with true) running)
unfolding need_auth
save_request-IsSaveCall_started = record {
  admitted = refl;
  type_is_string = refl;
  type_is = refl;
  config_is_object = refl;
}

start_saved_example :
    let w = start milli saving (boot_with true) (request ambient save_request ∷ []) [] [] running in
    (settings milli saving w
      ≡ mixed milli saving (boot_with true) (load_config saving backup_only).config "{new}")
    × (w.files.config ≡ "{new}")
start_saved_example =
    start_saved milli saving (boot_with true) backup_only ambient save_request [] [] []
      save_request-IsSaveCall_started tt tt tt
