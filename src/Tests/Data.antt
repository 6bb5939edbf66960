-- ===== src/Tests/Data.antt =====
-- The inputs that the tests share: numbers are thousandths, documents trees.
use Prim.Native.String.{String}
use text.Mathlib.Text.{◌==◌}
use byte_waterlevel.Prelude.{ℕ, Bool, true, false, none, some, if◌then◌else◌}
use byte_waterlevel.Prelude.Int.{ℤ, pos}
use byte_waterlevel.Floats.Milli.{Milli, milli}
use byte_waterlevel.Json.{JsonLib}
use byte_waterlevel.Json.Tree.{Value, Fields, bool, int, str, float, object, end, field, tree}
use byte_waterlevel.Files.{Files, config_path}
use byte_waterlevel.Device.State.{Device, power_on as device_power_on}
use byte_waterlevel.Device.Loop.{DeviceTick}
use byte_waterlevel.Automation.{Automation, power_on as auto_power_on}
use byte_waterlevel.World.{World, power_on}
use byte_waterlevel.Web.{Ambient, Request}
use byte_waterlevel.Firmware.{Boot, Pass}

abbrev pub started : Device Milli
started = device_power_on milli

-- A tank that is half full, as the last scan cached it.
abbrev pub half_full : Device Milli
half_full = record started { latest_voltage = some 1200; scan_water_level = some 50_000 }

-- Filling from 20 to 80 percent, pumping above 10 percent.
abbrev pub both_modes : Automation Milli
both_modes = record (auto_power_on milli) {
  mode = pos 1;
  max_l = some 80_000;
  min_l = some 10_000;
  fill_l = some 20_000;
}

abbrev text_field : String → String → Fields → Fields
text_field k s rest = field k (str s) rest

abbrev pub client : Value
client = object (text_field "ssid" "home" (text_field "password" "secret" end))

abbrev pub access_point : Value
access_point = object (text_field "ssid" "waterlevel" (text_field "password" "secret" end))

abbrev broker : Value
broker =
    object
      (field "state" (bool true) (text_field "host" "broker" (field "port" (int (pos 1883)) end)))

abbrev pub administrator : Value
administrator =
    object (field "state" (bool true) (text_field "user" "admin" (text_field "password" "pw" end)))

abbrev modes : Value
modes = object (
    field "mode" (int (pos 1)) (
      field "max" (float (some 80_000))
        (field "min" (float (some 10_000)) (field "fill" (float (some 20_000)) end))))

abbrev pub open_config : Value
open_config = object (
    field "wifi" (object (field "client" client (field "ap" access_point end)))
      (field "mqtt" broker (field "auto" modes end)))

abbrev pub closed_config : Value
closed_config = object (field "admin" administrator end)

abbrev pub lib : JsonLib Milli
lib = tree open_config

abbrev pub flash_with : Value → Files Value
flash_with config = record {
  storage = λ p. if p == config_path then some "{}" else none;
  writable = true;
  config = config;
}

abbrev pub world_with : Value → World Milli Value
world_with config = power_on milli lib (flash_with config)

abbrev pub ambient : Ambient Milli
ambient = record {
  now = 1000;
  stray = 9;
  cpu_frequency = 160;
  rssi = some 0;
  mqtt_connected = false;
  wifi_connected = true;
  newer_firmware = false;
}

-- A request for a channel, a state and a duration in seconds.
abbrev pub relais_body : ℤ → Bool → ℤ → Value
relais_body channel state duration = object (
    text_field "type" "relais" (
      field "channel" (int channel)
        (field "state" (bool state) (field "duration" (int duration) end))))

abbrev pub asking : Value → Request Value
asking body = record { authenticate = λ _ _. false; body = body }

abbrev pub status_body : Value
status_body = object (text_field "type" "status" end)

abbrev pub boot_with : Bool → Boot
boot_with connected = record {
  reset_level = false;
  display_begun = false;
  joined = connected;
  connected = connected;
  wifi_time = 10;
  mqtt_time = 20;
}

abbrev tick_at : ℕ → DeviceTick Milli
tick_at now = record {
  blink_time = now;
  relais_time = now;
  scan_time = now;
  display_time = now;
  temperature = some 40_000;
  wifi_connected = false;
}

abbrev pub pass_at : ℕ → Pass Milli
pass_at now = record {
  device = tick_at now;
  wifi_time = now;
  wifi_connected = false;
  mqtt_time = now;
  mqtt_connected = false;
  wan_connected = false;
  auto_time = now;
}
