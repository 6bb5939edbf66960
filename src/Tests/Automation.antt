-- ===== src/Tests/Automation.antt =====
-- The automation at concrete levels.
use byte_waterlevel.Prelude.{List, ℕ, ◌≡◌, refl, true, false, some, [], ◌∷◌, inl}
use byte_waterlevel.Automation.Hysteresis.{starts, seen, swings, starts-swings}
use byte_waterlevel.Prelude.Int.{pos}
use byte_waterlevel.Settings.{relais_ch1, relais_ch2, pump_fill}
use byte_waterlevel.Floats.Milli.{Milli, milli}
use byte_waterlevel.Device.State.{no_timer}
use byte_waterlevel.Device.Relays.{set_relais}
use byte_waterlevel.Automation.{Plant, handle_fill}
use byte_waterlevel.Automation.Fill.{handle_fill-thermostat}
use byte_waterlevel.Automation.Manual.{passes, passes_after_manual_off}
use byte_waterlevel.Tests.Data.{half_full, both_modes}

-- A tank at 15 percent.
abbrev low_tank : Plant Milli
low_tank = (both_modes, record half_full { scan_water_level = some 15_000 })

handle_fill-thermostat_example :
    let (a, d) = handle_fill milli low_tank in
    (a.fill_m ≡ true)
    × (d.relay1 ≡ true)
    × (d.pins relais_ch1 ≡ true)
    × (d.ch1 ≡ no_timer)
    × (d.relay2 ≡ false)
    × (d.pins relais_ch2 ≡ false)
    × (d.ch2 ≡ no_timer)
    × (a.pump_m ≡ false)
handle_fill-thermostat_example = handle_fill-thermostat milli low_tank

-- Mode 3, with the filling relay switched on by hand.
abbrev by_hand : Plant Milli
by_hand = (record both_modes { mode = pos 3 }, record half_full { relay1 = true })

passes_after_manual_off_example :
    let (b, e) =
      passes milli
        ((5000, some 15_000) ∷ (6000, some 1_000) ∷ [])
        (record both_modes { fill_m = true }, set_relais 9 pump_fill false half_full) in
    (e.relay1 ≡ false) × (b.fill_m ≡ true)
passes_after_manual_off_example =
    passes_after_manual_off milli 9 ((5000, some 15_000) ∷ (6000, some 1_000) ∷ [])
      (record both_modes { fill_m = true }) half_full (inl refl) refl (refl, (refl, tt))

-- The tank falls, fills up, and falls again; one pass comes too early.
abbrev two_fillings : List (ℕ × Milli)
two_fillings =
    (5000, some 15_000)
    ∷ (6000, some 50_000)
    ∷ (7000, some 90_000)
    ∷ (7500, some 15_000)
    ∷ (8000, some 50_000)
    ∷ (9000, some 15_000)
    ∷ []

starts-swings_example : starts milli two_fillings (both_modes, half_full) ≡ 2
unfolding seen swings
starts-swings_example = starts-swings milli two_fillings both_modes half_full (inl refl)
