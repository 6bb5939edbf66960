-- ===== src/Firmware/Turns.antt =====
-- src/main.cpp: a pass of the loop as the turns of its handlers.
use byte_waterlevel.Prelude.{◌≡◌, refl, List, [], ◌∷◌, map}
use byte_waterlevel.Floats.{Floats}
use byte_waterlevel.Json.{JsonLib}
use byte_waterlevel.Device.Loop.{loop as device_loop}
use byte_waterlevel.Firmware.{
  Pass, Firmware, Turn, blink_turn, relais_turn, scan_turn, display_turn, wifi_turn, mqtt_turn,
  ota_turn, auto_turn, take_turn, loop, turn, step, run,
}

module _ (R : Floats) (J : JsonLib R.Float) where
  -- The turns of a pass, in the order of the source.
  abbrev pub turns_of : Pass R.Float → List (Turn R.Float)
  turns_of p =
      let k = p.device in
      blink_turn k.blink_time
      ∷ relais_turn k.relais_time
      ∷ scan_turn k.scan_time k.temperature
      ∷ display_turn k.display_time k.wifi_connected
      ∷ wifi_turn p.wifi_time p.wifi_connected
      ∷ mqtt_turn p.mqtt_time p.mqtt_connected
      ∷ ota_turn p.wan_connected
      ∷ auto_turn p.auto_time
      ∷ []

  pub run-turns_of :
      (p : Pass R.Float) (w : Firmware R J) → run R J (map turn (turns_of p)) w ≡ loop R J p w
  unfolding run step take_turn loop device_loop
  run-turns_of p w = refl
