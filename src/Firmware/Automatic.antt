-- ===== src/Firmware/Automatic.antt =====
-- src/main.cpp: a run in which nobody switches a relay by hand.
use text.Mathlib.Text.{◌==◌}
use byte_waterlevel.Prelude.{ℕ, ◌≡◌, Bool, false, List, [], ◌∷◌, All, arith, subst, sym}
use byte_waterlevel.Floats.{Floats}
use byte_waterlevel.Json.{JsonLib}
use byte_waterlevel.Files.{Files}
use byte_waterlevel.Device.State.{Device, no_timer}
use byte_waterlevel.Device.Relays.{set_relais, handle_relais}
use byte_waterlevel.Device.Blink.{handle_blink}
use byte_waterlevel.Device.Sensors.{adc_task_function, handle_scan}
use byte_waterlevel.Device.Display.{setup_display, handle_display}
use byte_waterlevel.Device.Loop.{loop as device_loop, setup as device_setup}
use byte_waterlevel.Automation.{
  Automation, Plant, loop as automation_loop, setup as automation_setup,
}
use byte_waterlevel.Automation.Fill.{IsSynced}
use byte_waterlevel.World.{power_on, send}
use byte_waterlevel.Web.Pins.{api-device_other, api-auto}
use byte_waterlevel.Web.Access.{root-send}
use byte_waterlevel.Web.{not_found}
use byte_waterlevel.Firmware.{
  Boot, Firmware, setup, loop, Event, pass, request, adc_task, mqtt_up, visit, visit_other, Turn,
  blink_turn, relais_turn, scan_turn, display_turn, wifi_turn, mqtt_turn, ota_turn, auto_turn,
  take_turn, turn, step, run,
}

-- The automation's flags are the states of the relays and their pins, and no timer is set.
pub record IsAutomatic {F : Type 0} (p : Plant F) : Type 0 where
  pub synced : IsSynced p
  pub untimed1 : (p.1).ch1 ≡ no_timer
  pub untimed2 : (p.1).ch2 ≡ no_timer

module _ (R : Floats) (J : JsonLib R.Float) where
  blink-IsAutomatic :
      (now : ℕ) (a : Automation R.Float) (d : Device R.Float)
      → IsAutomatic (a, d)
      → IsAutomatic (a, handle_blink now d)
  unfolding handle_blink
  blink-IsAutomatic now a d s = ground arith

  relais-IsAutomatic :
      (now : ℕ) (a : Automation R.Float) (d : Device R.Float)
      → IsAutomatic (a, d)
      → IsAutomatic (a, handle_relais now d)
  unfolding handle_relais
  relais-IsAutomatic now a d s = ground arith

  scan-IsAutomatic :
      (now : ℕ) (t : R.Float) (a : Automation R.Float) (d : Device R.Float)
      → IsAutomatic (a, d)
      → IsAutomatic (a, handle_scan R now t d)
  unfolding handle_scan
  scan-IsAutomatic now t a d s = ground arith

  display-IsAutomatic :
      (now : ℕ) (connected : Bool) (a : Automation R.Float) (d : Device R.Float)
      → IsAutomatic (a, d)
      → IsAutomatic (a, handle_display R now connected d)
  unfolding handle_display
  display-IsAutomatic now connected a d s = ground arith

  automation_loop-IsAutomatic :
      (now : ℕ) (p : Plant R.Float) → IsAutomatic p → IsAutomatic (automation_loop R now p)
  unfolding automation_loop set_relais
  automation_loop-IsAutomatic now (a, d) s = ground arith

  -- A request of the type "relais" is the one event that is left out.
  abbrev IsHandsOff : Event R J → Type 0
  IsHandsOff (pass _) = Unit
  IsHandsOff (turn _) = Unit
  IsHandsOff (request _ r) = (J.as_string (J.member r.body "type") == "relais") ≡ false
  IsHandsOff (adc_task _) = Unit
  IsHandsOff mqtt_up = Unit
  IsHandsOff (visit _) = Unit
  IsHandsOff visit_other = Unit

  take_turn-IsAutomatic :
      (t : Turn R.Float) (w : Firmware R J)
      → IsAutomatic (w.auto, w.device)
      → IsAutomatic ((take_turn R J t w).auto, (take_turn R J t w).device)
  unfolding take_turn
  take_turn-IsAutomatic (blink_turn now) w s = blink-IsAutomatic now w.auto w.device s
  take_turn-IsAutomatic (relais_turn now) w s = relais-IsAutomatic now w.auto w.device s
  take_turn-IsAutomatic (scan_turn now t) w s = scan-IsAutomatic now t w.auto w.device s
  take_turn-IsAutomatic (display_turn now on) w s = display-IsAutomatic now on w.auto w.device s
  take_turn-IsAutomatic (auto_turn now) w s = automation_loop-IsAutomatic now (w.auto, w.device) s
  take_turn-IsAutomatic (wifi_turn _ _) w s = s
  take_turn-IsAutomatic (mqtt_turn _ _) w s = s
  take_turn-IsAutomatic (ota_turn _) w s = s

  step-IsAutomatic :
      (e : Event R J) (w : Firmware R J)
      → IsHandsOff e
      → IsAutomatic (w.auto, w.device)
      → IsAutomatic ((step R J e w).auto, (step R J e w).device)
  unfolding step loop adc_task_function device_loop send not_found
  step-IsAutomatic (pass p) w h s =
      let k = p.device in
      automation_loop-IsAutomatic p.auto_time _ (
        display-IsAutomatic k.display_time k.wifi_connected _ _ (
          scan-IsAutomatic k.scan_time k.temperature _ _
            (relais-IsAutomatic k.relais_time _ _ (blink-IsAutomatic k.blink_time _ _ s))))
  step-IsAutomatic (turn t) w h s = take_turn-IsAutomatic t w s
  step-IsAutomatic (request env r) w h s =
      subst (λ a. IsAutomatic (a, (step R J (request env r) w).device)) (sym (api-auto J env r w).0)
        (subst (λ d. IsAutomatic (w.auto, d)) (sym (api-device_other J env r w h)) s)
  step-IsAutomatic (adc_task reads) w h s = ground arith
  step-IsAutomatic mqtt_up w h s = ground arith
  step-IsAutomatic (visit r) w h s = rw (root-send J r w) s
  step-IsAutomatic visit_other w h s = s

  run-IsAutomatic_from :
      (es : List (Event R J)) (w : Firmware R J)
      → All IsHandsOff es
      → IsAutomatic (w.auto, w.device)
      → IsAutomatic ((run R J es w).auto, (run R J es w).device)
  unfolding run
  run-IsAutomatic_from [] w h s = s
  run-IsAutomatic_from (e ∷ es) w (h, hs) s =
      run-IsAutomatic_from es (step R J e w) hs (step-IsAutomatic e w h s)

  -- From power-on, behind `setup` and any events but requests of the type "relais", the automation's
  -- flags are the states of the relays and the levels of their pins, and no timer is set.
  pub run-IsAutomatic :
      (b : Boot) (f : Files J.Json) (es : List (Event R J))
      → All IsHandsOff es
      → let w = run R J es (setup R J b (power_on R J f)) in IsAutomatic (w.auto, w.device)
  run-IsAutomatic b f es h =
      run-IsAutomatic_from es _ h
        (unfold setup device_setup setup_display automation_setup in ground arith)
