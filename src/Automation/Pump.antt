-- ===== src/Automation/Pump.antt =====
-- src/AutomationHandler.cpp: pumping, and the modes that do neither.
use byte_waterlevel.Prelude.{ℕ, ◌≤◌, ◌≡◌, ◌≢◌, false, not, ◌&&◌, ◌||◌, arith}
use byte_waterlevel.Prelude.Int.{pos}
use byte_waterlevel.Prelude.Words.{sub32}
use byte_waterlevel.Settings.{relais_ch1, relais_ch2}
use byte_waterlevel.Floats.{Floats, IsNumber, IsOrdered}
use byte_waterlevel.Device.State.{no_timer}
use byte_waterlevel.Device.Relays.{set_relais}
use byte_waterlevel.Automation.{Plant, loop}

module _ (R : Floats) where
  -- In mode 1 a pass that is due sets the pump's flag, relay and pin to whether the cached level is
  -- above the lower level, with no upper bound, and clears the timer of the pump's relay.
  loop_pumps :
      (now : ℕ) (p : Plant R.Float)
      → (p.0).mode ≡ pos 1
      → 1000 ≤ sub32 now (p.0).auto_millis
      → let on = R.lt (p.0).min_l (p.1).scan_water_level in
        let (a, d) = loop R now p in
        (a.pump_m ≡ on) × (d.relay2 ≡ on) × (d.pins relais_ch2 ≡ on) × (d.ch2 ≡ no_timer)
  unfolding loop set_relais
  loop_pumps now (a, d) m due = ground arith

  -- If the cached level is NaN, a pass of mode 1 that is due switches both relays and pins off.
  loop_nan :
      (laws : IsOrdered R) (now : ℕ) (p : Plant R.Float)
      → (p.0).mode ≡ pos 1
      → 1000 ≤ sub32 now (p.0).auto_millis
      → ¬ IsNumber R (p.1).scan_water_level
      → let d = (loop R now p).1 in
        (d.relay1 ≡ false)
        × (d.relay2 ≡ false)
        × (d.pins relais_ch1 ≡ false)
        × (d.pins relais_ch2 ≡ false)
  unfolding loop set_relais
  loop_nan laws now (a, d) m due nan =
      let low = laws.numbers_of_lt d.scan_water_level a.max_l in
      let high = laws.numbers_of_lt a.min_l d.scan_water_level in ground (arith, low, high)

  -- In a mode other than 0, 1 and 2 a pass that is due clears both flags. It switches both relays off
  -- if a flag was set, and leaves them if not.
  loop_other_mode :
      (now : ℕ) (p : Plant R.Float)
      → (p.0).mode ≢ pos 0
      → (p.0).mode ≢ pos 1
      → (p.0).mode ≢ pos 2
      → 1000 ≤ sub32 now (p.0).auto_millis
      → let kept = not ((p.0).fill_m || (p.0).pump_m) in
        let (a, d) = loop R now p in
        (a.fill_m ≡ false)
        × (a.pump_m ≡ false)
        × (d.relay1 ≡ (kept && (p.1).relay1))
        × (d.relay2 ≡ (kept && (p.1).relay2))
  unfolding loop set_relais
  loop_other_mode now (a, d) m0 m1 m2 due = ground arith
