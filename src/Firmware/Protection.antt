-- ===== src/Firmware/Protection.antt =====
-- src/main.cpp: the filling relay over a run in which the tank is full, and the pump over one in which it
-- is empty.
use text.Mathlib.Text.{◌==◌}
use byte_waterlevel.Prelude.{
  ℕ, ◌≤◌, ◌<◌, ◌≡◌, ◌∙◌, Bool, false, List, [], ◌∷◌, ◌++◌, ◌⊎◌, inl, inr, arith,
}
use byte_waterlevel.Prelude.Int.{ℤ, pos}
use byte_waterlevel.Prelude.Words.{sub32}
use byte_waterlevel.Settings.{relais_ch1, relais_ch2, scan_interval}
use byte_waterlevel.Floats.{Floats}
use byte_waterlevel.Json.{JsonLib}
use byte_waterlevel.Device.State.{Device}
use byte_waterlevel.Device.Relays.{set_relais, handle_relais}
use byte_waterlevel.Device.Blink.{handle_blink}
use byte_waterlevel.Device.Sensors.{
  raw_percent, get_level, round_to_two_decimals, adc_task_function, handle_scan,
}
use byte_waterlevel.Device.Display.{handle_display}
use byte_waterlevel.Device.Loop.{DeviceTick, loop as device_loop}
use byte_waterlevel.Automation.{Automation, loop as automation_loop}
use byte_waterlevel.World.{send}
use byte_waterlevel.Web.{not_found}
use byte_waterlevel.Web.Pins.{api-device_other, api-auto}
use byte_waterlevel.Web.Access.{root-send}
use byte_waterlevel.Firmware.{
  Firmware, loop, blink_turn, relais_turn, scan_turn, display_turn, wifi_turn, mqtt_turn, ota_turn,
  auto_turn, take_turn, Event, pass, turn, request, adc_task, mqtt_up, visit, visit_other, step,
  run,
}
use byte_waterlevel.Firmware.Overflow.{
  blink-IsSameSensor, relais-IsSameSensor, IsSameSensor-get_level, handle_display-level,
}

-- Filling by channel 1, pumping by channel 2.
pub data Part : Type 0 where
  fill : Part
  pump : Part

-- The modes in which a part runs.
abbrev pub Works : Part → ℤ → Type 0
Works fill mode = (mode ≡ pos 1) ⊎ (mode ≡ pos 2)
Works pump mode = mode ≡ pos 1

-- The relay of a part and its pin are off.
abbrev pub IsOff : {F : Type 0} → Part → Device F → Type 0
IsOff fill d = (d.relay1 ≡ false) × (d.pins relais_ch1 ≡ false)
IsOff pump d = (d.relay2 ≡ false) × (d.pins relais_ch2 ≡ false)

module _ (R : Floats) where
  -- What the automation asks before it lets a part run, of a level.
  abbrev pub allows : Part → Automation R.Float → R.Float → Bool
  allows fill a level = R.lt level a.max_l
  allows pump a level = R.lt a.min_l level

  -- The cached level forbids the part, and so does the level that a scan would find.
  abbrev Forbids : Part → Automation R.Float → Device R.Float → Type 0
  Forbids part a d = allows part a d.scan_water_level ≡ false

  abbrev FindsForbidden : Part → Automation R.Float → Device R.Float → Type 0
  FindsForbidden part a d = allows part a (round_to_two_decimals R (get_level R d)) ≡ false

  -- A scan at this time is not due, or finds such a level.
  abbrev ScanForbids : Part → Automation R.Float → ℕ → Device R.Float → Type 0
  ScanForbids part a now d = (sub32 now d.scan_millis < scan_interval) ⊎ FindsForbidden part a d

  handle_scan-Forbids :
      (part : Part) (a : Automation R.Float) (now : ℕ) (t : R.Float) (d : Device R.Float)
      → ScanForbids part a now d
      → Forbids part a d
      → Forbids part a (handle_scan R now t d)
  unfolding handle_scan get_level raw_percent
  handle_scan-Forbids part a now t d found high = ground arith

  polled-Forbids :
      (part : Part) (a : Automation R.Float) (k : DeviceTick R.Float) (d : Device R.Float)
      → Forbids part a d
      → Forbids part a (handle_relais k.relais_time (handle_blink k.blink_time d))
  unfolding handle_relais handle_blink
  polled-Forbids part a k d high = ground arith

  polled-scan_millis :
      (k : DeviceTick R.Float) (d : Device R.Float)
      → (handle_relais k.relais_time (handle_blink k.blink_time d)).scan_millis ≡ d.scan_millis
  unfolding handle_relais handle_blink
  polled-scan_millis k d = ground arith

  device_loop-Forbids :
      (part : Part) (a : Automation R.Float) (k : DeviceTick R.Float) (d : Device R.Float)
      → ScanForbids part a k.scan_time d
      → Forbids part a d
      → Forbids part a (device_loop R k d)
  unfolding device_loop
  device_loop-Forbids part a k d found high =
      let lit = handle_blink k.blink_time d in
      let polled = handle_relais k.relais_time lit in
      let level =
        IsSameSensor-get_level R polled lit (relais-IsSameSensor R k.relais_time lit)
        ∙ IsSameSensor-get_level R lit d (blink-IsSameSensor R k.blink_time d) in
      let time = polled-scan_millis k d in
      rw (handle_display-level R k.display_time k.wifi_connected _) (
        handle_scan-Forbids part a k.scan_time k.temperature polled (rw (level, time) found)
          (polled-Forbids part a k d high))

  device_loop-IsOff :
      (part : Part) (k : DeviceTick R.Float) (d : Device R.Float)
      → IsOff part d
      → IsOff part (device_loop R k d)
  unfolding device_loop handle_display handle_scan handle_relais handle_blink
  device_loop-IsOff part k d off = ground arith

  automation_loop-IsOff :
      (part : Part) (now : ℕ) (a : Automation R.Float) (d : Device R.Float)
      → Works part a.mode
      → Forbids part a d
      → IsOff part d ⊎ (1000 ≤ sub32 now a.auto_millis)
      → IsOff part (automation_loop R now (a, d)).1
  unfolding automation_loop set_relais
  automation_loop-IsOff part now a d m high off = ground arith

  automation_loop-kept :
      (now : ℕ) (a : Automation R.Float) (d : Device R.Float)
      → let (a', d') = automation_loop R now (a, d) in
        (a'.mode ≡ a.mode)
        × (a'.max_l ≡ a.max_l)
        × (a'.min_l ≡ a.min_l)
        × (d'.scan_water_level ≡ d.scan_water_level)
  unfolding automation_loop set_relais
  automation_loop-kept now a d = ground arith

  module _ (J : JsonLib R.Float) (part : Part) where
    -- A mode in which the part runs, and a cached level that forbids it.
    pub record IsForbidden (w : Firmware R J) : Type 0 where
      pub works : Works part (w.auto).mode
      pub forbids : Forbids part w.auto w.device

    -- A scan that is due finds a level that forbids it, and nobody switches a relay by hand.
    abbrev pub KeepsForbidden : Event R J → Firmware R J → Type 0
    KeepsForbidden (pass p) w = ScanForbids part w.auto p.device.scan_time w.device
    KeepsForbidden (turn (scan_turn now _)) w = ScanForbids part w.auto now w.device
    KeepsForbidden (turn _) w = Unit
    KeepsForbidden (request _ r) w = (J.as_string (J.member r.body "type") == "relais") ≡ false
    KeepsForbidden (adc_task _) w = Unit
    KeepsForbidden mqtt_up w = Unit
    KeepsForbidden (visit _) w = Unit
    KeepsForbidden visit_other w = Unit

    -- So all along a run.
    abbrev pub AllForbid : List (Event R J) → Firmware R J → Type 0
    AllForbid [] w = Unit
    AllForbid (e ∷ es) w = KeepsForbidden e w × AllForbid es (step R J e w)

    -- The automation runs, and is due.
    abbrev pub Acts : Event R J → Firmware R J → Type 0
    Acts (pass p) w = 1000 ≤ sub32 p.auto_time w.auto.auto_millis
    Acts (turn (auto_turn now)) w = 1000 ≤ sub32 now w.auto.auto_millis
    Acts (turn _) w = ⊥
    Acts (request _ _) w = ⊥
    Acts (adc_task _) w = ⊥
    Acts mqtt_up w = ⊥
    Acts (visit _) w = ⊥
    Acts visit_other w = ⊥

    step-IsForbidden :
        (e : Event R J) (w : Firmware R J)
        → KeepsForbidden e w
        → IsForbidden w
        → IsForbidden (step R J e w)
    unfolding step loop take_turn handle_blink handle_relais handle_display adc_task_function send
        not_found
    step-IsForbidden (pass p) w k f =
        let d = device_loop R p.device w.device in
        let kept = automation_loop-kept p.auto_time w.auto d in
        let forbids = device_loop-Forbids part w.auto p.device w.device k f.forbids in
        ground (arith, f.works)
    step-IsForbidden (turn (scan_turn now t)) w k f = record {
      works = f.works;
      forbids = handle_scan-Forbids part w.auto now t w.device k f.forbids;
    }
    step-IsForbidden (turn (auto_turn now)) w k f =
        let kept = automation_loop-kept now w.auto w.device in ground (arith, f.works, f.forbids)
    step-IsForbidden (turn (blink_turn now)) w k f = ground (arith, f.works, f.forbids)
    step-IsForbidden (turn (relais_turn now)) w k f = ground (arith, f.works, f.forbids)
    step-IsForbidden (turn (display_turn now on)) w k f = ground (arith, f.works, f.forbids)
    step-IsForbidden (turn (wifi_turn _ _)) w k f = record { works = f.works; forbids = f.forbids }
    step-IsForbidden (turn (mqtt_turn _ _)) w k f = record { works = f.works; forbids = f.forbids }
    step-IsForbidden (turn (ota_turn _)) w k f = record { works = f.works; forbids = f.forbids }
    step-IsForbidden (request env r) w k f =
        let device = api-device_other J env r w k in
        let auto = (api-auto J env r w).0 in
        record { works = rw auto f.works; forbids = rw (auto, device) f.forbids }
    step-IsForbidden (adc_task reads) w k f = ground (arith, f.works, f.forbids)
    step-IsForbidden mqtt_up w k f = ground (arith, f.works, f.forbids)
    step-IsForbidden (visit r) w k f =
        rw (root-send J r w) (record { works = f.works; forbids = f.forbids })
    step-IsForbidden visit_other w k f = record { works = f.works; forbids = f.forbids }

    step-IsOff :
        (e : Event R J) (w : Firmware R J)
        → KeepsForbidden e w
        → IsForbidden w
        → IsOff part w.device ⊎ Acts e w
        → IsOff part (step R J e w).device
    unfolding step loop take_turn handle_blink handle_relais handle_scan handle_display
        adc_task_function send not_found
    step-IsOff (pass p) w k f (inl off) =
        let d = device_loop R p.device w.device in
        automation_loop-IsOff part p.auto_time w.auto d f.works
          (device_loop-Forbids part w.auto p.device w.device k f.forbids)
          (inl (device_loop-IsOff part p.device w.device off))
    step-IsOff (pass p) w k f (inr due) =
        let d = device_loop R p.device w.device in
        automation_loop-IsOff part p.auto_time w.auto d f.works
          (device_loop-Forbids part w.auto p.device w.device k f.forbids) (inr due)
    step-IsOff (turn (auto_turn now)) w k f off =
        automation_loop-IsOff part now w.auto w.device f.works f.forbids off
    step-IsOff (turn (blink_turn now)) w k f (inl off) = ground arith
    step-IsOff (turn (relais_turn now)) w k f (inl off) = ground arith
    step-IsOff (turn (scan_turn now t)) w k f (inl off) = ground arith
    step-IsOff (turn (display_turn now on)) w k f (inl off) = ground arith
    step-IsOff (turn (wifi_turn _ _)) w k f (inl off) = off
    step-IsOff (turn (mqtt_turn _ _)) w k f (inl off) = off
    step-IsOff (turn (ota_turn _)) w k f (inl off) = off
    step-IsOff (request env r) w k f (inl off) = rw (api-device_other J env r w k) off
    step-IsOff (adc_task reads) w k f (inl off) = ground arith
    step-IsOff mqtt_up w k f (inl off) = ground arith
    step-IsOff (visit r) w k f (inl off) = rw (root-send J r w) off
    step-IsOff visit_other w k f (inl off) = off
    step-IsOff _ w k f (inr due) = elim due [ ]

    run-IsOff :
        (es : List (Event R J)) (w : Firmware R J)
        → AllForbid es w
        → IsForbidden w
        → IsOff part w.device
        → IsOff part (run R J es w).device
    unfolding run
    run-IsOff [] w ks f off = off
    run-IsOff (e ∷ es) w (k, ks) f off =
        run-IsOff es (step R J e w) ks (step-IsForbidden e w k f) (step-IsOff e w k f (inl off))

    -- Protection against overflow and dry running over time: from a state with a mode in which the
    -- automation fills (or pumps) and a cached level that is not below the upper level (not above
    -- the lower one), NaN included, in any run in which every scan that is due finds such a level
    -- and no request is of the type "relais": from the first event on in which the automation runs
    -- and is due, the relay and the pin of filling (of the pump) are off, whatever they were and
    -- whatever else happens.
    pub run-protects :
        (es fs : List (Event R J)) (e : Event R J) (w : Firmware R J)
        → IsForbidden w
        → AllForbid (es ++ e ∷ fs) w
        → Acts e (run R J es w)
        → IsOff part (run R J (es ++ e ∷ fs) w).device
    unfolding run
    run-protects [] fs e w f (k, ks) acts =
        run-IsOff fs (step R J e w) ks (step-IsForbidden e w k f) (step-IsOff e w k f (inr acts))
    run-protects (x ∷ es) fs e w f (k, ks) acts =
        run-protects es fs e (step R J x w) (step-IsForbidden x w k f) ks acts
