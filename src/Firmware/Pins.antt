-- ===== src/Firmware/Pins.antt =====
-- src/main.cpp: over every run, the relays' and the LED's variables are the levels of their pins.
use byte_waterlevel.Prelude.{ℕ, Bool, List, [], ◌∷◌, All, arith}
use byte_waterlevel.Floats.{Floats}
use byte_waterlevel.Json.{JsonLib}
use byte_waterlevel.Files.{Files, load_config}
use byte_waterlevel.Device.State.{Device}
use byte_waterlevel.Device.Relays.{set_relais}
use byte_waterlevel.Device.Relays.Pins.{PinsAgree, handle_relais-PinsAgree}
use byte_waterlevel.Device.Sensors.{adc_task_function}
use byte_waterlevel.Device.Display.{setup_display}
use byte_waterlevel.Device.Loop.{setup as device_setup}
use byte_waterlevel.Device.Loop.Laws.{
  loop-PinsAgree, handle_scan-PinsAgree, handle_display-PinsAgree,
}
use byte_waterlevel.Device.Blink.Rate.{handle_blink-PinsAgree}
use byte_waterlevel.Automation.{Plant, loop as automation_loop}
use byte_waterlevel.World.{power_on, send}
use byte_waterlevel.Web.Pins.{IsHarmless, api-PinsAgree}
use byte_waterlevel.Web.Access.{root-send}
use byte_waterlevel.Web.{not_found}
use byte_waterlevel.Firmware.{
  Boot, Firmware, setup, loop, Event, pass, request, adc_task, mqtt_up, visit, visit_other, Turn,
  blink_turn, relais_turn, scan_turn, display_turn, wifi_turn, mqtt_turn, ota_turn, auto_turn,
  take_turn, turn, step, run,
}

module _ (R : Floats) (J : JsonLib R.Float) where
  automation_loop-PinsAgree :
      (now : ℕ) (p : Plant R.Float) → PinsAgree p.1 → PinsAgree (automation_loop R now p).1
  unfolding automation_loop set_relais
  automation_loop-PinsAgree now (a, d) p = ground arith

  device_setup-PinsAgree :
      (reset_level begun : Bool) (f : Files J.Json) (d : Device R.Float)
      → PinsAgree d
      → PinsAgree (device_setup R J reset_level begun f d).0
  unfolding device_setup setup_display
  device_setup-PinsAgree reset_level begun f d p = ground arith

  -- A request that may drive a stray pin is the one event that is left out.
  abbrev IsHarmlessEvent : Event R J → Type 0
  IsHarmlessEvent (pass _) = Unit
  IsHarmlessEvent (turn _) = Unit
  IsHarmlessEvent (request _ r) = IsHarmless J r.body
  IsHarmlessEvent (adc_task _) = Unit
  IsHarmlessEvent mqtt_up = Unit
  IsHarmlessEvent (visit _) = Unit
  IsHarmlessEvent visit_other = Unit

  take_turn-PinsAgree :
      (t : Turn R.Float) (w : Firmware R J)
      → PinsAgree w.device
      → PinsAgree (take_turn R J t w).device
  unfolding take_turn
  take_turn-PinsAgree (blink_turn now) w q = handle_blink-PinsAgree now w.device q
  take_turn-PinsAgree (relais_turn now) w q = handle_relais-PinsAgree now w.device q
  take_turn-PinsAgree (scan_turn now t) w q = handle_scan-PinsAgree R now t w.device q
  take_turn-PinsAgree (display_turn now on) w q = handle_display-PinsAgree R now on w.device q
  take_turn-PinsAgree (auto_turn now) w q = automation_loop-PinsAgree now (w.auto, w.device) q
  take_turn-PinsAgree (wifi_turn _ _) w q = q
  take_turn-PinsAgree (mqtt_turn _ _) w q = q
  take_turn-PinsAgree (ota_turn _) w q = q

  step-PinsAgree :
      (e : Event R J) (w : Firmware R J)
      → IsHarmlessEvent e
      → PinsAgree w.device
      → PinsAgree (step R J e w).device
  unfolding step loop adc_task_function send not_found
  step-PinsAgree (pass p) w h q =
      automation_loop-PinsAgree p.auto_time _ (loop-PinsAgree R p.device w.device q)
  step-PinsAgree (turn t) w h q = take_turn-PinsAgree t w q
  step-PinsAgree (request env r) w h q = api-PinsAgree J env r w h q
  step-PinsAgree (adc_task reads) w h q = ground arith
  step-PinsAgree mqtt_up w h q = ground arith
  step-PinsAgree (visit r) w h q = rw (root-send J r w) q
  step-PinsAgree visit_other w h q = q

  run-PinsAgree_from :
      (es : List (Event R J)) (w : Firmware R J)
      → All IsHarmlessEvent es
      → PinsAgree w.device
      → PinsAgree (run R J es w).device
  unfolding run
  run-PinsAgree_from [] w h q = q
  run-PinsAgree_from (e ∷ es) w (h, hs) q =
      run-PinsAgree_from es (step R J e w) hs (step-PinsAgree e w h q)

  -- From power-on, behind `setup` and any events but requests of the type "relais" with a channel that
  -- is neither 1 nor 2 modulo 256, the relays and the LED are what their variables say.
  pub run-PinsAgree :
      (b : Boot) (f : Files J.Json) (es : List (Event R J))
      → All IsHarmlessEvent es
      → PinsAgree (run R J es (setup R J b (power_on R J f))).device
  run-PinsAgree b f es h = run-PinsAgree_from es _ h (
      unfold setup in
      device_setup-PinsAgree b.reset_level b.display_begun (load_config J f) _ (ground arith))
