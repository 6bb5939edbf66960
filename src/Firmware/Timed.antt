-- ===== src/Firmware/Timed.antt =====
-- src/main.cpp: a relay that a request switches on for a time, over the run behind the request.
mod Handlers
use text.Mathlib.Text.{◌==◌}
use byte_waterlevel.Prelude.{
  ℕ, ◌+◌, ◌*◌, ◌%◌, ◌≤◌, ◌<◌, ◌≡◌, ◌⊎◌, inl, inr, Bool, true, false, List, [], ◌∷◌, All, some,
  arith, subst, sym,
}
use byte_waterlevel.Prelude.Int.{ℤ, pos}
use byte_waterlevel.Prelude.Words.{add32, u32_mod}
use byte_waterlevel.Floats.{Floats}
use byte_waterlevel.Json.{JsonLib}
use byte_waterlevel.Device.State.{Device, no_timer}
use byte_waterlevel.Device.Relays.{set_relais, get_state, handle_relais}
use byte_waterlevel.Device.Relays.Pins.{IsChannel}
use byte_waterlevel.Device.Relays.Timers.{
  Shows, switch_on_for, switch_on_for-Shows, handle_relais-Shows_waiting, handle_relais-Shows_due,
}
use byte_waterlevel.Device.Blink.{handle_blink}
use byte_waterlevel.Device.Sensors.{adc_task_function, handle_scan}
use byte_waterlevel.Device.Display.{handle_display}
use byte_waterlevel.Device.Loop.{DeviceTick, loop as device_loop}
use byte_waterlevel.Automation.{Automation, loop as automation_loop}
use byte_waterlevel.Web.{Ambient, Request, api, not_found}
use byte_waterlevel.Web.Pins.{api-device_other, api-auto}
use byte_waterlevel.Web.Relays.{IsRelaisCall, api_timed}
use byte_waterlevel.Web.Access.{root-send}
use byte_waterlevel.World.{send}
use byte_waterlevel.Firmware.{
  Pass, Firmware, loop, Event, pass, request, adc_task, mqtt_up, visit, visit_other, Turn,
  blink_turn, relais_turn, scan_turn, display_turn, wifi_turn, mqtt_turn, ota_turn, auto_turn,
  take_turn, turn, step, run,
}
use byte_waterlevel.Firmware.Timed.Handlers.{
  blink-Shows, scan-Shows, display-Shows, device_loop-Shows, automation_loop-mode,
  automation_loop-Shows, IsUntouched,
}

module _ (R : Floats) (J : JsonLib R.Float) where
  -- The channel is left alone, and `on` with its timer at `n`.
  record IsTimed (c : ℤ) (on : Bool) (n : ℕ) (w : Firmware R J) : Type 0 where
    manual : IsUntouched c (w.auto).mode
    shown : Shows c on n w.device

  loop-IsTimed :
      (c : ℤ) (on on' : Bool) (n n' : ℕ) (p : Pass R.Float) (w : Firmware R J)
      → IsChannel c
      → ((e : Device R.Float)
          → Shows c on n e
          → Shows c on' n' (handle_relais p.device.relais_time e))
      → IsTimed c on n w
      → IsTimed c on' n' (loop R J p w)
  unfolding loop
  loop-IsTimed c on on' n n' p w h poll s =
      let d = device_loop R p.device w.device in
      let shown = device_loop-Shows R c on on' n n' p.device w.device h poll s.shown in
      record {
        manual =
            subst (λ m. IsUntouched c m) (sym (automation_loop-mode R p.auto_time w.auto d))
              s.manual;
        shown = automation_loop-Shows R c on' n' p.auto_time w.auto d s.manual shown;
      }

  -- A poll of the timers comes before the deadline.
  abbrev IsEarlyTurn : ℕ → Turn R.Float → Type 0
  IsEarlyTurn deadline (relais_turn now) = now < deadline
  IsEarlyTurn deadline (blink_turn _) = Unit
  IsEarlyTurn deadline (scan_turn _ _) = Unit
  IsEarlyTurn deadline (display_turn _ _) = Unit
  IsEarlyTurn deadline (wifi_turn _ _) = Unit
  IsEarlyTurn deadline (mqtt_turn _ _) = Unit
  IsEarlyTurn deadline (ota_turn _) = Unit
  IsEarlyTurn deadline (auto_turn _) = Unit

  -- The polls of the timers come before the deadline, and no request switches a relay.
  abbrev IsEarly : ℕ → Event R J → Type 0
  IsEarly deadline (pass p) = p.device.relais_time < deadline
  IsEarly deadline (turn t) = IsEarlyTurn deadline t
  IsEarly deadline (request _ r) = (J.as_string (J.member r.body "type") == "relais") ≡ false
  IsEarly deadline (adc_task _) = Unit
  IsEarly deadline mqtt_up = Unit
  IsEarly deadline (visit _) = Unit
  IsEarly deadline visit_other = Unit

  take_turn-IsTimed :
      (c : ℤ) (n : ℕ) (t : Turn R.Float) (w : Firmware R J)
      → IsChannel c
      → IsEarlyTurn n t
      → IsTimed c true n w
      → IsTimed c true n (take_turn R J t w)
  unfolding take_turn
  take_turn-IsTimed c n (blink_turn now) w h early s = record {
    manual = s.manual;
    shown = blink-Shows R c true n now w.device h s.shown;
  }
  take_turn-IsTimed c n (relais_turn now) w h early s = record {
    manual = s.manual;
    shown = handle_relais-Shows_waiting now c n w.device h (inl early) s.shown;
  }
  take_turn-IsTimed c n (scan_turn now t) w h early s = record {
    manual = s.manual;
    shown = scan-Shows R c true n now t w.device h s.shown;
  }
  take_turn-IsTimed c n (display_turn now on) w h early s = record {
    manual = s.manual;
    shown = display-Shows R c true n now on w.device h s.shown;
  }
  take_turn-IsTimed c n (auto_turn now) w h early s = record {
    manual =
        subst (λ m. IsUntouched c m) (sym (automation_loop-mode R now w.auto w.device)) s.manual;
    shown = automation_loop-Shows R c true n now w.auto w.device s.manual s.shown;
  }
  take_turn-IsTimed c n (wifi_turn _ _) w h early s = record { manual = s.manual; shown = s.shown }
  take_turn-IsTimed c n (mqtt_turn _ _) w h early s = record { manual = s.manual; shown = s.shown }
  take_turn-IsTimed c n (ota_turn _) w h early s = record { manual = s.manual; shown = s.shown }

  step-IsTimed :
      (c : ℤ) (n : ℕ) (e : Event R J) (w : Firmware R J)
      → IsChannel c
      → IsEarly n e
      → IsTimed c true n w
      → IsTimed c true n (step R J e w)
  unfolding step adc_task_function get_state send not_found
  step-IsTimed c n (pass p) w h early s =
      loop-IsTimed c true true n n p w h
        (λ e. handle_relais-Shows_waiting p.device.relais_time c n e h (inl early)) s
  step-IsTimed c n (turn t) w h early s = take_turn-IsTimed c n t w h early s
  step-IsTimed c n (request env r) w h other s = record {
    manual = rw (api-auto J env r w).0 s.manual;
    shown = subst (λ d. Shows c true n d) (sym (api-device_other J env r w other)) s.shown;
  }
  step-IsTimed c n (adc_task reads) w h early s = ground arith
  step-IsTimed c n mqtt_up w h early s = ground arith
  step-IsTimed c n (visit r) w h early s =
      rw (root-send J r w) (record { manual = s.manual; shown = s.shown })
  step-IsTimed c n visit_other w h early s = record { manual = s.manual; shown = s.shown }

  run-IsTimed :
      (c : ℤ) (n : ℕ) (es : List (Event R J)) (w : Firmware R J)
      → IsChannel c
      → All (IsEarly n) es
      → IsTimed c true n w
      → IsTimed c true n (run R J es w)
  unfolding run
  run-IsTimed c n [] w h early s = s
  run-IsTimed c n (e ∷ es) w h (early, rest) s =
      run-IsTimed c n es (step R J e w) h rest (step-IsTimed c n e w h early s)

  -- While the automation is off, or only fills and the channel is 2, an admitted request of the type
  -- "relais" that switches channel 1 or 2 on for `s` seconds, with a deadline below the value -1 of an
  -- `unsigned long`, keeps the relay and its pin on over any passes, and handlers that run by
  -- themselves, that poll before the deadline, requests that switch no relay, ADC tasks and MQTT
  -- connections; and the first pass, or the first `handleRelais` by itself, that polls from the deadline
  -- on switches them off and clears the timer.
  pub run-api_timed :
      (env : Ambient R.Float) (r : Request J.Json) (w : Firmware R J) (c : ℤ) (s : ℕ)
      (es : List (Event R J)) (p : Pass R.Float)
      → IsChannel c
      → IsUntouched c (w.auto).mode
      → IsRelaisCall J r w c true (some (pos s))
      → env.now + s * 1000 < no_timer
      → All (IsEarly (env.now + s * 1000)) es
      → env.now + s * 1000 ≤ p.device.relais_time
      → let waiting = run R J es (api J env r w) in
        Shows c true (env.now + s * 1000) waiting.device
        × Shows c false no_timer (loop R J p waiting).device
        × Shows c false no_timer (take_turn R J (relais_turn p.device.relais_time) waiting).device
  unfolding take_turn
  run-api_timed env r w c s es p h off call fits early late =
      let deadline = env.now + s * 1000 in
      let same : add32 env.now (s * 1000 % u32_mod) ≡ deadline = omega arith in
      let set : Shows c true deadline (api J env r w).device =
        rw (api_timed J env r w c (pos s) h call) (
          subst (λ n. Shows c true n (switch_on_for env.stray env.now c (pos s) w.device)) same
            (switch_on_for-Shows env.stray env.now c s w.device h)) in
      let begun : IsTimed c true deadline (api J env r w) = record {
        manual = rw (api-auto J env r w).0 off;
        shown = set;
      } in
      let waited = run-IsTimed c deadline es (api J env r w) h early begun in
      let ended =
        loop-IsTimed c true false deadline no_timer p (run R J es (api J env r w)) h
          (λ e. handle_relais-Shows_due p.device.relais_time c deadline e h fits late) waited in
      let polled =
        handle_relais-Shows_due p.device.relais_time c deadline _ h fits late waited.shown in
      (waited.shown, ended.shown, polled)
