-- ===== src/Firmware/Offline.antt =====
-- src/main.cpp: MQTT after a start without Wi-Fi.
use byte_waterlevel.Prelude.{◌≡◌, false, List, [], ◌∷◌, arith}
use byte_waterlevel.Floats.{Floats}
use byte_waterlevel.Json.{JsonLib}
use byte_waterlevel.Files.{Files}
use byte_waterlevel.Mqtt.{loop as mqtt_loop}
use byte_waterlevel.World.{power_on, send}
use byte_waterlevel.Web.Pins.{api-auto}
use byte_waterlevel.Web.Access.{root-send}
use byte_waterlevel.Web.{not_found}
use byte_waterlevel.Firmware.{
  Boot, Firmware, listens, setup, loop, Event, pass, request, adc_task, mqtt_up, visit, visit_other,
  Turn, take_turn, turn, step, run,
}

module _ (R : Floats) (J : JsonLib R.Float) where
  record IsSilent (w : Firmware R J) : Type 0 where
    disabled : (w.mqtt).is_enabled ≡ false
    nothing_called : (w.mqtt).calls ≡ []

  take_turn-IsSilent :
      (t : Turn R.Float) (w : Firmware R J) → IsSilent w → IsSilent (take_turn R J t w)
  unfolding take_turn mqtt_loop
  take_turn-IsSilent t w s = ground arith

  step-IsSilent : (e : Event R J) (w : Firmware R J) → IsSilent w → IsSilent (step R J e w)
  unfolding step loop mqtt_loop listens send not_found
  step-IsSilent (pass p) w s = ground arith
  step-IsSilent (turn t) w s = take_turn-IsSilent t w s
  step-IsSilent (request env r) w s = ground (arith, (api-auto J env r w).1)
  step-IsSilent (adc_task reads) w s = ground arith
  step-IsSilent mqtt_up w s = ground arith
  step-IsSilent (visit r) w s = ground (arith, root-send J r w)
  step-IsSilent visit_other w s = ground arith

  run-IsSilent : (es : List (Event R J)) (w : Firmware R J) → IsSilent w → IsSilent (run R J es w)
  unfolding run
  run-IsSilent [] w s = s
  run-IsSilent (e ∷ es) w s = run-IsSilent es (step R J e w) (step-IsSilent e w s)

  -- If Wi-Fi is not connected at the end of `setup`, the MQTT client is never called, whatever happens
  -- later: connections that come up and saved configurations included.
  pub run_offline :
      (b : Boot) (f : Files J.Json) (es : List (Event R J))
      → b.connected ≡ false
      → let m = (run R J es (setup R J b (power_on R J f))).mqtt in
        (m.is_enabled ≡ false) × (m.calls ≡ [])
  run_offline b f es offline =
      let start : IsSilent (setup R J b (power_on R J f)) = unfold setup in ground arith in
      let s = run-IsSilent es _ start in (s.disabled, s.nothing_called)
