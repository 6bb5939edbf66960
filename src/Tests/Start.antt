-- ===== src/Tests/Start.antt =====
-- Starts and the turns behind them.
use Prim.Native.String.{String}
use byte_waterlevel.Prelude.{◌≤◌, none, ◌≡◌, refl, true, false, List, [], ◌∷◌, arith}
use byte_waterlevel.Prelude.Int.{pos}
use byte_waterlevel.Floats.Milli.{Milli, milli}
use byte_waterlevel.Json.{JsonLib, IsBlank}
use byte_waterlevel.Json.Tree.{Value, null, tree}
use byte_waterlevel.Files.{Files, begin, config_path}
use byte_waterlevel.Wifi.Recovery.{mode, has_station}
use byte_waterlevel.World.{power_on}
use byte_waterlevel.Web.{need_auth}
use byte_waterlevel.Firmware.{
  Event, pass, turn, relais_turn, display_turn, request, adc_task, setup, run,
}
use byte_waterlevel.Firmware.Blank.{setup_blank}
use byte_waterlevel.Firmware.Settings.{settings, run-settings}
use byte_waterlevel.Firmware.Clocks.{HasTimes, run-HasTimes}
use byte_waterlevel.Firmware.Start.{start, start-setup}
use byte_waterlevel.Tests.Data.{
  lib, open_config, flash_with, ambient, relais_body, asking, status_body, boot_with, pass_at,
  world_with,
}

-- A pass of which two handlers have run when a request comes, and a whole one.
abbrev interrupted : List (Event milli lib)
interrupted =
    turn (relais_turn 1000)
    ∷ request ambient (asking (relais_body (pos 2) true (pos 5)))
    ∷ turn (display_turn 1001 true)
    ∷ pass (pass_at 2000)
    ∷ []

run-settings_example :
    settings milli lib (run milli lib interrupted (world_with open_config))
    ≡ settings milli lib (world_with open_config)
run-settings_example = run-settings milli lib interrupted (world_with open_config)

-- No handler keeps a time from the future.
run-HasTimes_example :
    HasTimes
      (λ t. t ≤ 2000)
      milli
      lib
      (run milli lib interrupted
        (setup milli lib (boot_with true) (power_on milli lib (flash_with open_config))))
run-HasTimes_example =
    run-HasTimes (λ t. t ≤ 2000) milli lib (boot_with true) (flash_with open_config) interrupted
      (omega arith) (omega arith) (omega arith)
      (
        omega arith,
        (
          omega arith,
          (
            omega arith,
            ((early, (early, (early, (early, (early, (early, (tt, (early, tt)))))))), tt),
          ),
        ),
      )
  where
    early : 2000 ≤ 2000
    early = omega arith

-- A request and a run of an ADC task come in the course of the start.
start-setup_example :
    let asked = request ambient (asking status_body) ∷ [] in
    let w =
      start milli lib
        (boot_with true)
        asked
        (adc_task (λ _. 900) ∷ [])
        asked
        (world_with open_config) in
    let w' = setup milli lib (boot_with true) (world_with open_config) in
    (settings milli lib w ≡ settings milli lib w') × (w.files ≡ w'.files)
start-setup_example =
    let asked = request ambient (asking status_body) ∷ [] in
    start-setup milli lib (boot_with true) asked (adc_task (λ _. 900) ∷ []) asked
      (world_with open_config) ((refl, refl), tt) (tt, tt) ((refl, refl), tt)

-- A library that fails on every text.
abbrev failing : JsonLib Milli
failing = record (tree null) { parse = λ _. (null, true) }

null-member :
    (j : Value) (k : String)
    → failing.is_null j ≡ true
    → failing.is_null (failing.member j k) ≡ true
null-member j k e = ground arith

failing-IsBlank : IsBlank failing
failing-IsBlank = record {
  parse_empty = refl;
  parse_line_end = refl;
  is_null-new_document = refl;
  is_null-member = null-member;
  as_bool-null = λ j e. ground arith;
  as_int-null = λ j e. ground arith;
}

-- A flash that is not mounted.
abbrev lost : Files Value
lost = begin false (flash_with open_config)

setup_blank_example :
    let w = setup milli failing (boot_with true) (power_on milli failing lost) in
    (w.files.storage config_path ≡ none)
    × ((w.auto).mode ≡ pos 0)
    × ((w.mqtt).is_enabled ≡ false)
    × ((w.ota).ota_enabled ≡ false)
    × (((w.wifi).ap_started ≡ true) × (has_station (mode w.wifi) ≡ false))
    × ((need_auth failing (asking null) w).0 ≡ true)
unfolding begin
setup_blank_example =
    setup_blank milli failing failing-IsBlank (boot_with true) false (flash_with open_config)
      (asking null) refl refl
