-- ===== src/Device/Loop.antt =====
-- `DeviceHandler::setup` and `DeviceHandler::loop` of src/DeviceHandler.cpp.
pub mod Laws
use byte_waterlevel.Prelude.{ℕ, Bool, if◌then◌else◌}
use byte_waterlevel.Floats.{Floats}
use byte_waterlevel.Json.{JsonLib}
use byte_waterlevel.Files.{Files, reset, get_config}
use byte_waterlevel.Device.State.{Device}
use byte_waterlevel.Device.Relays.{handle_relais}
use byte_waterlevel.Device.Blink.{handle_blink}
use byte_waterlevel.Device.Sensors.{handle_scan}
use byte_waterlevel.Device.Display.{handle_display, setup_display}

-- What one pass meets: the clock in each handler, the CPU temperature and the Wi-Fi state.
pub record DeviceTick (F : Type 0) : Type 0 where
  pub blink_time : ℕ
  pub relais_time : ℕ
  pub scan_time : ℕ
  pub display_time : ℕ
  pub temperature : F
  pub wifi_connected : Bool

module _ (R : Floats) where
  open R use {Float}

  unfoldable pub loop : DeviceTick Float → Device Float → Device Float
  loop k d = handle_display R k.display_time k.wifi_connected (
      handle_scan R k.scan_time k.temperature
        (handle_relais k.relais_time (handle_blink k.blink_time d)))

  -- `reset_level` is `digitalRead(RESET)`, `begun` the result of `display.begin`. The pin modes and
  -- the ADC resolution have no place in the state.
  unfoldable pub setup :
      (J : JsonLib Float) (reset_level begun : Bool)
      → Files J.Json
      → Device Float
      → Device Float × Files J.Json
  setup J reset_level begun f d =
      let f' = (if reset_level then reset f else f) in
      let config = get_config f' in
      let calibration = J.member config "calibration" in
      let hardware = J.member config "hardware" in
      let d' : Device Float = record d {
        system_led = J.as_bool (J.member hardware "led");
        max_v = J.as_float (J.member calibration "max");
        min_v = J.as_float (J.member calibration "min");
        tank_volume = J.as_float (J.member calibration "volume");
      } in
      (if J.as_bool (J.member hardware "oled") then setup_display J begun config d' else d', f')
