-- ===== src/Firmware/Bank.antt =====
-- src/main.cpp: the firmware as the bank of two timed switches.
use text.Mathlib.Text.{◌==◌}
use byte_waterlevel.Prelude.{
  ℕ, ◌+◌, ◌*◌, ◌<◌, ◌≡◌, refl, ◌∙◌, sym, ap, ◌⊎◌, inl, inr, Bool, false, Option, none, some, List,
  [], ◌∷◌, ◌++◌, All, arith, Bool-cases, if◌then◌else◌,
}
use byte_waterlevel.Prelude.Int.{ℤ, pos, negsuc}
use byte_waterlevel.Prelude.Words.{to_i8}
use byte_waterlevel.Floats.{Floats}
use byte_waterlevel.Json.{JsonLib}
use byte_waterlevel.Device.State.{Device, no_timer}
use byte_waterlevel.Device.Relays.{handle_relais}
use byte_waterlevel.Device.Relays.Pins.{IsChannel}
use byte_waterlevel.Device.Relays.Bank.{
  Command, switch, start, poll, intended, intended_all, bank, bank-execute, intended_all-append,
  execute,
}
use byte_waterlevel.Device.Blink.{handle_blink}
use byte_waterlevel.Device.Sensors.{adc_task_function, handle_scan}
use byte_waterlevel.Device.Display.{handle_display}
use byte_waterlevel.Device.Loop.{DeviceTick, loop as device_loop}
use byte_waterlevel.Automation.Bank.{
  commands as automation_commands, bank-loop as bank-automation_loop,
}
use byte_waterlevel.Web.{Ambient, Request, switch_relais, duration_of, api, not_found}
use byte_waterlevel.Web.Served.{is_served, api-device}
use byte_waterlevel.Web.Access.{root-send}
use byte_waterlevel.World.{send}
use byte_waterlevel.Firmware.{
  Pass, Firmware, loop, Event, pass, request, adc_task, mqtt_up, visit, visit_other, Turn,
  blink_turn, relais_turn, scan_turn, display_turn, wifi_turn, mqtt_turn, ota_turn, auto_turn,
  take_turn, turn, step, run,
}

module _ (R : Floats) where
  bank-blink : (now : ℕ) (d : Device R.Float) → bank (handle_blink now d) ≡ bank d
  unfolding bank handle_blink
  bank-blink now d = ground arith

  bank-scan : (now : ℕ) (t : R.Float) (d : Device R.Float) → bank (handle_scan R now t d) ≡ bank d
  unfolding bank handle_scan
  bank-scan now t d = ground arith

  bank-display :
      (now : ℕ) (connected : Bool) (d : Device R.Float)
      → bank (handle_display R now connected d) ≡ bank d
  unfolding bank handle_display
  bank-display now connected d = ground arith

  bank-adc : (reads : ℕ → ℕ) (d : Device R.Float) → bank (adc_task_function R reads d) ≡ bank d
  unfolding bank adc_task_function
  bank-adc reads d = refl

  bank-device_loop :
      (k : DeviceTick R.Float) (d : Device R.Float)
      → bank (device_loop R k d) ≡ intended (poll k.relais_time) (bank d)
  unfolding device_loop handle_relais execute
  bank-device_loop k d =
      bank-display k.display_time k.wifi_connected _
      ∙ bank-scan k.scan_time k.temperature _
      ∙ bank-execute 0 (poll k.relais_time) (handle_blink k.blink_time d) tt
      ∙ ap (intended (poll k.relais_time)) (bank-blink k.blink_time d)

-- What a call of the type "relais" asks of the bank.
abbrev asked : ℕ → ℤ → Bool → Option ℤ → List Command
asked now channel state none = switch channel state ∷ []
asked now channel state (some (pos s)) = switch channel state ∷ start now channel s ∷ []
asked now channel state (some (negsuc _)) = switch channel state ∷ []

-- A duration that is not negative, with a deadline below the value -1.
abbrev pub Fits : ℕ → Option ℤ → Type 0
Fits now none = Unit
Fits now (some (pos s)) = now + s * 1000 < no_timer
Fits now (some (negsuc _)) = ⊥

to_i8-channel : (c : ℤ) → IsChannel c → to_i8 c ≡ c
to_i8-channel c (inl e) = rw e refl
to_i8-channel c (inr e) = rw e refl

bank-switch_relais :
    {F : Type 0} (env : Ambient F) (c : ℤ) (state : Bool) (duration : Option ℤ) (d : Device F)
    → IsChannel c
    → Fits env.now duration
    → bank (switch_relais env c state duration d)
      ≡ intended_all (asked env.now c state duration) (bank d)
unfolding switch_relais intended_all execute
bank-switch_relais env c state none d h fits =
    rw (to_i8-channel c h) (bank-execute env.stray (switch c state) d h)
bank-switch_relais env c state (some (pos s)) d h fits = rw (to_i8-channel c h) (
    bank-execute env.stray (start env.now c s) (execute env.stray (switch c state) d) (h, fits)
    ∙ ap (intended (start env.now c s)) (bank-execute env.stray (switch c state) d h))
bank-switch_relais env c state (some (negsuc _)) d h fits = elim fits [ ]

module _ (R : Floats) (J : JsonLib R.Float) where
  open J use {member}

  -- What a handler's turn asks of the bank.
  abbrev turn_commands : Turn R.Float → Firmware R J → List Command
  turn_commands (relais_turn now) w = poll now ∷ []
  turn_commands (auto_turn now) w = automation_commands R now w.auto w.device.scan_water_level
  turn_commands (blink_turn _) w = []
  turn_commands (scan_turn _ _) w = []
  turn_commands (display_turn _ _) w = []
  turn_commands (wifi_turn _ _) w = []
  turn_commands (mqtt_turn _ _) w = []
  turn_commands (ota_turn _) w = []

  -- What an event asks of the bank: a pass polls the timers and lets the automation act, a served call
  -- switches.
  commands : Event R J → Firmware R J → List Command
  commands (pass p) w =
      let d = device_loop R p.device w.device in
      poll p.device.relais_time ∷ automation_commands R p.auto_time w.auto d.scan_water_level
  commands (turn t) w = turn_commands t w
  commands (request env r) w =
      if is_served J r w
      then asked env.now (J.as_int (member r.body "channel")) (J.as_bool (member r.body "state"))
          (duration_of J r.body)
      else []
  commands (adc_task _) w = []
  commands mqtt_up w = []
  commands (visit _) w = []
  commands visit_other w = []

  pub history : List (Event R J) → Firmware R J → List Command
  history [] w = []
  history (e ∷ es) w = commands e w ++ history es (step R J e w)

  -- Of calls of the type "relais": a channel that exists, and a duration that fits.
  abbrev IsSoundEvent : Event R J → Type 0
  IsSoundEvent (pass _) = Unit
  IsSoundEvent (turn _) = Unit
  IsSoundEvent (request env r) =
      ((J.as_string (member r.body "type") == "relais") ≡ false)
      ⊎ (IsChannel (J.as_int (member r.body "channel")) × Fits env.now (duration_of J r.body))
  IsSoundEvent (adc_task _) = Unit
  IsSoundEvent mqtt_up = Unit
  IsSoundEvent (visit _) = Unit
  IsSoundEvent visit_other = Unit

  bank-request :
      (env : Ambient R.Float) (r : Request J.Json) (w : Firmware R J)
      → IsSoundEvent (request env r)
      → bank (api J env r w).device ≡ intended_all (commands (request env r) w) (bank w.device)
  unfolding commands intended_all
  bank-request env r w h = elim (Bool-cases (is_served J r w)) [
    | inr e ↦ ap bank (api-device J env r w) ∙ rw e refl
    | inl e ↦ elim h [
      | inl other ↦ ground (arith, e, other)
      | inr (channel, fits) ↦
          ap bank (api-device J env r w)
          ∙ rw e (
              bank-switch_relais env _ (J.as_bool (member r.body "state")) (duration_of J r.body)
                w.device channel fits)
    ]
  ]

  bank-pass :
      (p : Pass R.Float) (w : Firmware R J)
      → bank (loop R J p w).device ≡ intended_all (commands (pass p) w) (bank w.device)
  unfolding loop commands intended_all
  bank-pass p w =
      let d = device_loop R p.device w.device in
      bank-automation_loop R p.auto_time w.auto d
      ∙ ap (intended_all (automation_commands R p.auto_time w.auto d.scan_water_level))
          (bank-device_loop R p.device w.device)

  bank-take_turn :
      (t : Turn R.Float) (w : Firmware R J)
      → bank (take_turn R J t w).device ≡ intended_all (turn_commands t w) (bank w.device)
  unfolding take_turn intended_all execute
  bank-take_turn (relais_turn now) w = bank-execute 0 (poll now) w.device tt
  bank-take_turn (auto_turn now) w = bank-automation_loop R now w.auto w.device
  bank-take_turn (blink_turn now) w = bank-blink R now w.device
  bank-take_turn (scan_turn now t) w = bank-scan R now t w.device
  bank-take_turn (display_turn now on) w = bank-display R now on w.device
  bank-take_turn (wifi_turn _ _) w = refl
  bank-take_turn (mqtt_turn _ _) w = refl
  bank-take_turn (ota_turn _) w = refl

  step-bank :
      (e : Event R J) (w : Firmware R J)
      → IsSoundEvent e
      → bank (step R J e w).device ≡ intended_all (commands e w) (bank w.device)
  unfolding step commands intended_all send not_found
  step-bank (pass p) w s = bank-pass p w
  step-bank (turn t) w s = bank-take_turn t w
  step-bank (request env r) w s = bank-request env r w s
  step-bank (adc_task reads) w s = bank-adc R reads w.device
  step-bank mqtt_up w s = ground arith
  step-bank (visit r) w s = rw (root-send J r w) refl
  step-bank visit_other w s = refl

  -- The whole firmware refines the bank of two switches: in any run of passes, of handlers that run
  -- one at a time with other events in between, of requests, ADC tasks and connections, whose calls
  -- of the type "relais" name a channel that exists and a duration that fits, the levels of the pins
  -- and the timers are those of the bank that is polled where `handleRelais` runs, switched as the
  -- automation says at the level of the last scan where its loop runs, and switched by each call that
  -- is admitted and well formed.
  pub bank-run :
      (es : List (Event R J)) (w : Firmware R J)
      → All IsSoundEvent es
      → bank (run R J es w).device ≡ intended_all (history es w) (bank w.device)
  unfolding run history intended_all
  bank-run [] w ss = refl
  bank-run (e ∷ es) w (s, ss) =
      bank-run es (step R J e w) ss
      ∙ ap (intended_all (history es (step R J e w))) (step-bank e w s)
      ∙ sym (intended_all-append (commands e w) (history es (step R J e w)) (bank w.device))
