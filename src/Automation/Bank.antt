-- ===== src/Automation/Bank.antt =====
-- src/AutomationHandler.cpp: what the automation asks of the bank of relays.
use byte_waterlevel.Prelude.{
  ℕ, ◌≡◌, refl, ◌∙◌, ap, sym, inl, inr, Bool, true, false, not, leb, ◌&&◌, ◌||◌, List, [], ◌∷◌,
  ◌++◌, arith, if◌then◌else◌,
}
use byte_waterlevel.Prelude.Int.{ℤ, pos, ◌==ℤ◌}
use byte_waterlevel.Prelude.Words.{sub32}
use byte_waterlevel.Floats.{Floats}
use byte_waterlevel.Device.State.{Device}
use byte_waterlevel.Device.Relays.{set_relais}
use byte_waterlevel.Device.Relays.Bank.{
  Command, switch, intended, intended_all, bank, execute, bank-execute, intended_all-append,
}
use byte_waterlevel.Device.Relays.Pins.{IsChannel}
use byte_waterlevel.Automation.{
  Automation, set_fill, set_pump, handle_fill, handle_pump, run_mode, loop,
}

module _ {F : Type 0} where
  bank-set_relais :
      (c : ℤ) (on : Bool) (d : Device F)
      → IsChannel c
      → bank (set_relais 0 c on d) ≡ intended (switch c on) (bank d)
  bank-set_relais c on d h = unfold execute in bank-execute 0 (switch c on) d h

module _ (R : Floats) where
  open R use {Float, lt, le}

  -- Channel 1 goes on where the tank is at the lower level or below it, if it is not filling, and off
  -- where the tank is not below the upper level.
  abbrev fill_commands : Automation Float → (level : Float) → List Command
  fill_commands a level =
      if lt level a.max_l
      then (if not a.fill_m && le level a.fill_l then switch (pos 1) true ∷ [] else [])
      else switch (pos 1) false ∷ []

  -- Channel 2 is on while the tank is above its lowest level.
  abbrev pump_commands : Automation Float → (level : Float) → List Command
  pump_commands a level = switch (pos 2) (lt a.min_l level) ∷ []

  -- Both in mode 1, filling in mode 2; in any other mode what was switched on goes off.
  abbrev mode_commands : Automation Float → (level : Float) → List Command
  mode_commands a level =
      if a.mode ==ℤ pos 1
      then fill_commands a level ++ pump_commands a level
      else if a.mode ==ℤ pos 2
      then fill_commands a level
      else if a.fill_m || a.pump_m
      then switch (pos 2) false ∷ switch (pos 1) false ∷ []
      else []

  -- Once in a second, if it is not off.
  unfoldable pub commands : ℕ → Automation Float → (level : Float) → List Command
  commands now a level =
      if not (a.mode ==ℤ pos 0) && leb 1000 (sub32 now a.auto_millis)
      then mode_commands a level
      else []

  bank-handle_fill :
      (a : Automation Float) (d : Device Float)
      → bank (handle_fill R (a, d)).1 ≡ intended_all (fill_commands a d.scan_water_level) (bank d)
  unfolding handle_fill set_fill intended_all
  bank-handle_fill a d =
      ground (
        arith,
        bank-set_relais (pos 1) true d (inl refl),
        bank-set_relais (pos 1) false d (inl refl),
      )

  handle_fill-kept :
      (a : Automation Float) (d : Device Float)
      → ((handle_fill R (a, d)).1.scan_water_level ≡ d.scan_water_level)
        × ((handle_fill R (a, d)).0.min_l ≡ a.min_l)
  unfolding handle_fill set_fill set_relais
  handle_fill-kept a d = ground arith

  bank-handle_pump :
      (a : Automation Float) (d : Device Float)
      → bank (handle_pump R (a, d)).1 ≡ intended_all (pump_commands a d.scan_water_level) (bank d)
  unfolding handle_pump set_pump intended_all
  bank-handle_pump a d =
      ground (
        arith,
        bank-set_relais (pos 2) true d (inr refl),
        bank-set_relais (pos 2) false d (inr refl),
      )

  bank-handle_both :
      (a : Automation Float) (d : Device Float)
      → bank (handle_pump R (handle_fill R (a, d))).1
        ≡ intended_all
            (fill_commands a d.scan_water_level ++ pump_commands a d.scan_water_level)
            (bank d)
  bank-handle_both a d =
      let (a', d') = handle_fill R (a, d) in
      let kept = handle_fill-kept a d in
      bank-handle_pump a' d'
      ∙ rw (kept.0, kept.1) refl
      ∙ ap (intended_all (pump_commands a d.scan_water_level)) (bank-handle_fill a d)
      ∙ sym (intended_all-append (fill_commands a d.scan_water_level) _ (bank d))

  bank-set_both :
      (a : Automation Float) (d : Device Float)
      → bank (set_fill false (set_pump false (a, d))).1
        ≡ intended_all (switch (pos 2) false ∷ switch (pos 1) false ∷ []) (bank d)
  unfolding set_fill set_pump intended_all
  bank-set_both a d =
      bank-set_relais (pos 1) false _ (inl refl)
      ∙ ap (intended (switch (pos 1) false)) (bank-set_relais (pos 2) false d (inr refl))

  bank-run_mode :
      (a : Automation Float) (d : Device Float)
      → bank (run_mode R (a, d)).1 ≡ intended_all (mode_commands a d.scan_water_level) (bank d)
  unfolding run_mode intended_all
  bank-run_mode a d = ground (arith, bank-handle_both a d, bank-handle_fill a d, bank-set_both a d)

  -- A pass of the automation has on the bank the effect of its commands at the cached level.
  pub bank-loop :
      (now : ℕ) (a : Automation Float) (d : Device Float)
      → bank (loop R now (a, d)).1 ≡ intended_all (commands now a d.scan_water_level) (bank d)
  unfolding loop commands intended_all
  bank-loop now a d = ground (arith, bank-run_mode (record a { auto_millis = now }) d)
