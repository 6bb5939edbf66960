-- ===== src/Firmware.antt =====
-- src/main.cpp: the start of the firmware, its loop, and runs of both with the requests and the ADC
-- tasks in between.
pub mod Pins
pub mod Offline
pub mod Automatic
pub mod Network
pub mod Timed
pub mod Overflow
pub mod Protection
pub mod Configured
pub mod Reboot
pub mod Bank
pub mod Denied
pub mod Lives
pub mod Turns
pub mod Blank
pub mod Start
pub mod Settings
pub mod Clocks
pub mod Stored
pub mod Unsaved
use byte_waterlevel.Prelude.{ℕ, Bool, true, false, List, [], ◌∷◌, if◌then◌else◌}
use byte_waterlevel.Floats.{Floats}
use byte_waterlevel.Json.{JsonLib}
use byte_waterlevel.Files.{load_config, get_config}
use byte_waterlevel.Device.Relays.{handle_relais}
use byte_waterlevel.Device.Blink.{handle_blink}
use byte_waterlevel.Device.Display.{handle_display}
use byte_waterlevel.Device.Sensors.{adc_task_function, handle_scan}
use byte_waterlevel.Device.Loop.{DeviceTick, loop as device_loop, setup as device_setup}
use byte_waterlevel.Automation.{loop as automation_loop, setup as automation_setup}
use byte_waterlevel.Mqtt.{
  Call, on_connect, loop as mqtt_loop, setup as mqtt_setup, connected_listener,
}
use byte_waterlevel.Wifi.{loop as wifi_loop, setup as wifi_setup}
use byte_waterlevel.Ota.{loop as ota_loop, setup as ota_setup}
use byte_waterlevel.World.{World}
use byte_waterlevel.Web.{Ambient, Request, api, root, not_found}

-- What `setup` meets: the level of the reset pin, whether the display begins, whether the station joins
-- in time, whether Wi-Fi is connected at the end, and the clock.
pub record Boot : Type 0 where
  pub reset_level : Bool
  pub display_begun : Bool
  pub joined : Bool
  pub connected : Bool
  pub wifi_time : ℕ
  pub mqtt_time : ℕ

-- What a pass of `loop` meets.
pub record Pass (F : Type 0) : Type 0 where
  pub device : DeviceTick F
  pub wifi_time : ℕ
  pub wifi_connected : Bool
  pub mqtt_time : ℕ
  pub mqtt_connected : Bool
  pub wan_connected : Bool
  pub auto_time : ℕ

-- One handler's part of a pass of `loop`, with what it meets. `DeviceHandler::loop` has four of them.
pub data Turn (F : Type 0) : Type 0 where
  blink_turn : (now : ℕ) → Turn F
  relais_turn : (now : ℕ) → Turn F
  scan_turn : (now : ℕ) (temperature : F) → Turn F
  display_turn : (now : ℕ) (connected : Bool) → Turn F
  wifi_turn : (now : ℕ) (connected : Bool) → Turn F
  mqtt_turn : (now : ℕ) (connected : Bool) → Turn F
  ota_turn : (connected : Bool) → Turn F
  auto_turn : (now : ℕ) → Turn F

-- Whether the client was given a listener for connections.
pub listens : {F : Type 0} → List (Call F) → Bool
listens [] = false
listens (on_connect ∷ calls) = true
listens (_ ∷ calls) = listens calls

module _ (R : Floats) (J : JsonLib R.Float) where
  abbrev pub Firmware : Type 0
  Firmware = World R.Float J.Json

  unfoldable pub setup : Boot → Firmware → Firmware
  setup b w =
      let (device, files) =
        device_setup R J b.reset_level b.display_begun (load_config J w.files) w.device in
      let config = get_config files in
      record w {
        device = device;
        files = files;
        wifi = wifi_setup J b.wifi_time b.joined config w.wifi;
        ota = ota_setup J config w.ota;
        auto = automation_setup J config w.auto;
        mqtt = if b.connected then mqtt_setup J b.mqtt_time config w.mqtt else w.mqtt;
      }

  unfoldable pub loop : Pass R.Float → Firmware → Firmware
  loop p w =
      let config = get_config w.files in
      let device = device_loop R p.device w.device in
      let (auto', device') = automation_loop R p.auto_time (w.auto, device) in
      record w {
        device = device';
        auto = auto';
        wifi = wifi_loop J p.wifi_time p.wifi_connected config w.wifi;
        mqtt = mqtt_loop J p.mqtt_time p.mqtt_connected config w.auto device w.mqtt;
        ota = ota_loop p.wan_connected w.ota;
      }

  pub take_turn : Turn R.Float → Firmware → Firmware
  take_turn (blink_turn now) w = record w { device = handle_blink now w.device }
  take_turn (relais_turn now) w = record w { device = handle_relais now w.device }
  take_turn (scan_turn now t) w = record w { device = handle_scan R now t w.device }
  take_turn (display_turn now connected) w = record w {
    device = handle_display R now connected w.device;
  }
  take_turn (wifi_turn now connected) w = record w {
    wifi = wifi_loop J now connected (get_config w.files) w.wifi;
  }
  take_turn (mqtt_turn now connected) w = record w {
    mqtt = mqtt_loop J now connected (get_config w.files) w.auto w.device w.mqtt;
  }
  take_turn (ota_turn connected) w = record w { ota = ota_loop connected w.ota }
  take_turn (auto_turn now) w =
      let (auto', device') = automation_loop R now (w.auto, w.device) in
      record w { auto = auto'; device = device' }

  -- What happens behind `setup`, one at a time: a pass of the loop as a whole or one handler's part of it
  -- (then what runs in another task may come between the parts), a request to the API, the run of an
  -- ADC task, the listener for a connection of the MQTT client, or a request for the page or for any
  -- other path.
  pub data Event : Type 0 where
    pass : Pass R.Float → Event
    turn : Turn R.Float → Event
    request : Ambient R.Float → Request J.Json → Event
    adc_task : (ℕ → ℕ) → Event
    mqtt_up : Event
    visit : Request J.Json → Event
    visit_other : Event

  unfoldable pub step : Event → Firmware → Firmware
  step (pass p) w = loop p w
  step (turn t) w = take_turn t w
  step (request env r) w = api J env r w
  step (adc_task reads) w = record w { device = adc_task_function R reads w.device }
  step mqtt_up w = if listens w.mqtt.calls then record w { mqtt = connected_listener w.mqtt } else w
  step (visit r) w = root J r w
  step visit_other w = not_found w

  unfoldable pub run : List Event → Firmware → Firmware
  run [] w = w
  run (e ∷ es) w = run es (step e w)
