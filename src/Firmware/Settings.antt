-- ===== src/Firmware/Settings.antt =====
-- src/main.cpp: the settings that the handlers took from the configuration when they started.
use byte_waterlevel.Prelude.{
  ◌≡◌, refl, ◌∙◌, sym, ap, Bool, Option, none, some, List, [], ◌∷◌, map, arith,
}
use byte_waterlevel.Prelude.Int.{ℤ}
use byte_waterlevel.Floats.{Floats}
use byte_waterlevel.Json.{JsonLib}
use byte_waterlevel.Device.State.{Device}
use byte_waterlevel.Device.Relays.{set_relais, set_relais_duration, handle_relais}
use byte_waterlevel.Device.Blink.{handle_blink}
use byte_waterlevel.Device.Sensors.{adc_task_function, handle_scan}
use byte_waterlevel.Device.Display.{handle_display}
use byte_waterlevel.Automation.{loop as automation_loop}
use byte_waterlevel.Mqtt.{loop as mqtt_loop, setup as mqtt_setup, connected_listener}
use byte_waterlevel.Ota.{loop as ota_loop}
use byte_waterlevel.World.{send}
use byte_waterlevel.Web.{Ambient, Request, switch_relais, duration_of, api, not_found}
use byte_waterlevel.Web.Pins.{api-auto}
use byte_waterlevel.Web.Served.{api-device}
use byte_waterlevel.Web.Updates.{api-ota_enabled}
use byte_waterlevel.Web.Access.{root-send}
use byte_waterlevel.Firmware.{
  Firmware, Turn, blink_turn, relais_turn, scan_turn, display_turn, wifi_turn, mqtt_turn, ota_turn,
  auto_turn, take_turn, Event, pass, turn, request, adc_task, mqtt_up, visit, visit_other, step,
  run,
}
use byte_waterlevel.Firmware.Turns.{turns_of, run-turns_of}

-- The calibration, the automation's mode and levels, and whether MQTT and local updates are on.
pub record Settings (F : Type 0) : Type 0 where
  pub max_v : F
  pub min_v : F
  pub tank_volume : F
  pub mode : ℤ
  pub max_l : F
  pub min_l : F
  pub fill_l : F
  pub mqtt : Bool
  pub ota : Bool

-- Those of the device alone.
abbrev calibration : {F : Type 0} → Device F → F × F × F
calibration d = (d.max_v, d.min_v, d.tank_volume)

module _ (R : Floats) (J : JsonLib R.Float) where
  abbrev pub settings : Firmware R J → Settings R.Float
  settings w = record {
    max_v = w.device.max_v;
    min_v = w.device.min_v;
    tank_volume = w.device.tank_volume;
    mode = (w.auto).mode;
    max_l = (w.auto).max_l;
    min_l = (w.auto).min_l;
    fill_l = (w.auto).fill_l;
    mqtt = (w.mqtt).is_enabled;
    ota = (w.ota).ota_enabled;
  }

  take_turn-settings :
      (t : Turn R.Float) (w : Firmware R J) → settings (take_turn R J t w) ≡ settings w
  unfolding take_turn handle_blink handle_relais handle_scan handle_display automation_loop
      set_relais mqtt_loop mqtt_setup ota_loop
  take_turn-settings (blink_turn now) w = ground arith
  take_turn-settings (relais_turn now) w = ground arith
  take_turn-settings (scan_turn now t) w = ground arith
  take_turn-settings (display_turn now on) w = ground arith
  take_turn-settings (wifi_turn now on) w = refl
  take_turn-settings (mqtt_turn now on) w = ground arith
  take_turn-settings (ota_turn on) w = ground arith
  take_turn-settings (auto_turn now) w = ground arith

  switch_relais-calibration :
      (env : Ambient R.Float) (c : ℤ) (state : Bool) (s : Option ℤ) (d : Device R.Float)
      → calibration (switch_relais env c state s d) ≡ calibration d
  unfolding switch_relais set_relais set_relais_duration
  switch_relais-calibration env c state none d = ground arith
  switch_relais-calibration env c state (some s) d = ground arith

  pub api-settings :
      (env : Ambient R.Float) (r : Request J.Json) (w : Firmware R J)
      → settings (api J env r w) ≡ settings w
  api-settings env r w = ground (
    arith,
    api-auto J env r w,
    api-ota_enabled J env r w,
    api-device J env r w,
    switch_relais-calibration env (J.as_int (J.member r.body "channel"))
        (J.as_bool (J.member r.body "state")) (duration_of J r.body) w.device,
  )

  turns-settings :
      (ts : List (Turn R.Float)) (w : Firmware R J)
      → settings (run R J (map turn ts) w) ≡ settings w
  unfolding run step
  turns-settings [] w = refl
  turns-settings (t ∷ ts) w = turns-settings ts (take_turn R J t w) ∙ take_turn-settings t w

  step-settings : (e : Event R J) (w : Firmware R J) → settings (step R J e w) ≡ settings w
  unfolding step send not_found adc_task_function connected_listener
  step-settings (pass p) w =
      ap settings (sym (run-turns_of R J p w)) ∙ turns-settings (turns_of R J p) w
  step-settings (turn t) w = take_turn-settings t w
  step-settings (request env r) w = api-settings env r w
  step-settings (adc_task reads) w = refl
  step-settings mqtt_up w = ground arith
  step-settings (visit r) w = rw (root-send J r w) refl
  step-settings visit_other w = refl

  -- The settings change at a start only: whatever happens in a run, saved and reset configurations
  -- included, the calibration, the automation's mode and levels, and whether MQTT and the local update
  -- server are on stay as they were.
  pub run-settings :
      (es : List (Event R J)) (w : Firmware R J) → settings (run R J es w) ≡ settings w
  unfolding run
  run-settings [] w = refl
  run-settings (e ∷ es) w = run-settings es (step R J e w) ∙ step-settings e w
