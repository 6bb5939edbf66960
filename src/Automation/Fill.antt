-- ===== src/Automation/Fill.antt =====
-- src/AutomationHandler.cpp: filling is a thermostat with a dead band.
use byte_waterlevel.Prelude.{ℕ, ◌≤◌, ◌≡◌, ◌⊎◌, Bool, false, not, ◌&&◌, ◌||◌, arith, if◌then◌else◌}
use byte_waterlevel.Prelude.Int.{pos}
use byte_waterlevel.Prelude.Words.{sub32}
use byte_waterlevel.Settings.{relais_ch1, relais_ch2}
use byte_waterlevel.Floats.{Floats}
use byte_waterlevel.Device.State.{no_timer}
use byte_waterlevel.Device.Relays.{set_relais}
use byte_waterlevel.Device.Relays.Pins.{PinsAgree}
use byte_waterlevel.Automation.{Plant, handle_fill, handle_pump, run_mode, loop}

-- The handler's flags are the states of the relays, and those the levels of the pins.
pub record IsSynced {F : Type 0} (p : Plant F) : Type 0 where
  pub fill_synced : (p.0).fill_m ≡ (p.1).relay1
  pub pump_synced : (p.0).pump_m ≡ (p.1).relay2
  pub pins_agree : PinsAgree p.1

-- The abstract thermostat: off from the upper level on, on up to the lower level, and as before
-- in between.
abbrev thermostat : (below_max at_fill before : Bool) → Bool
thermostat below_max at_fill before = below_max && (before || at_fill)

-- Below the upper level, it is on, or not asked to go on.
abbrev stays : (below_max at_fill before : Bool) → Bool
stays below_max at_fill before = below_max && (before || not at_fill)

module _ (R : Floats) where
  handle_fill-IsSynced : (p : Plant R.Float) → IsSynced p → IsSynced (handle_fill R p)
  unfolding handle_fill set_relais
  handle_fill-IsSynced (a, d) s = ground arith

  handle_pump-IsSynced : (p : Plant R.Float) → IsSynced p → IsSynced (handle_pump R p)
  unfolding handle_pump set_relais
  handle_pump-IsSynced (a, d) s = ground arith

  run_mode-IsSynced : (p : Plant R.Float) → IsSynced p → IsSynced (run_mode R p)
  unfolding run_mode set_relais
  run_mode-IsSynced (a, d) s = ground arith

  -- A pass of the automation keeps its flags equal to the states of the relays and to their pins.
  loop-IsSynced : (now : ℕ) (p : Plant R.Float) → IsSynced p → IsSynced (loop R now p)
  unfolding loop set_relais
  loop-IsSynced now (a, d) s = ground arith

  -- Filling refines the thermostat, whatever state the plant is in: the flag becomes the thermostat's
  -- output on the cached level, and the relay, its pin and its timer are switched to that, the timer to
  -- none; but where the tank is below the upper level and the flag stays as it is, all three are left as
  -- they are. The other relay, its pin, its timer and the flag of pumping are not touched.
  pub handle_fill-thermostat :
      (p : Plant R.Float)
      → let below_max = R.lt (p.1).scan_water_level (p.0).max_l in
        let at_fill = R.le (p.1).scan_water_level (p.0).fill_l in
        let on = thermostat below_max at_fill (p.0).fill_m in
        let left = stays below_max at_fill (p.0).fill_m in
        let (a, d) = handle_fill R p in
        (a.fill_m ≡ on)
        × (d.relay1 ≡ (if left then (p.1).relay1 else on))
        × (d.pins relais_ch1 ≡ (if left then (p.1).pins relais_ch1 else on))
        × (d.ch1 ≡ (if left then (p.1).ch1 else no_timer))
        × (d.relay2 ≡ (p.1).relay2)
        × (d.pins relais_ch2 ≡ (p.1).pins relais_ch2)
        × (d.ch2 ≡ (p.1).ch2)
        × (a.pump_m ≡ (p.0).pump_m)
  unfolding handle_fill set_relais
  handle_fill-thermostat (a, d) = ground arith

  -- In a mode that fills, a pass that is due switches the filling relay and its pin off whenever the
  -- cached level is not below the upper level, NaN included, whatever state the plant was in.
  pub loop_stops_fill :
      (now : ℕ) (p : Plant R.Float)
      → ((p.0).mode ≡ pos 1) ⊎ ((p.0).mode ≡ pos 2)
      → 1000 ≤ sub32 now (p.0).auto_millis
      → R.lt (p.1).scan_water_level (p.0).max_l ≡ false
      → let (a, d) = loop R now p in
        (a.fill_m ≡ false) × (d.relay1 ≡ false) × (d.pins relais_ch1 ≡ false)
  unfolding loop set_relais
  loop_stops_fill now (a, d) m due full = ground arith
