-- ===== src/Automation/Manual.antt =====
-- src/AutomationHandler.cpp: a relay that is switched by hand while the automation runs.
use byte_waterlevel.Prelude.{ℕ, ◌≡◌, refl, ◌⊎◌, true, false, List, [], ◌∷◌, All, arith}
use byte_waterlevel.Prelude.Int.{pos}
use byte_waterlevel.Settings.{pump_fill}
use byte_waterlevel.Floats.{Floats}
use byte_waterlevel.Device.State.{Device}
use byte_waterlevel.Device.Relays.{set_relais}
use byte_waterlevel.Automation.{Automation, Plant, loop}

module _ (R : Floats) where
  -- Passes of the automation, each at its time and after a scan that cached its level.
  pub passes : List (ℕ × R.Float) → Plant R.Float → Plant R.Float
  passes [] p = p
  passes ((now, level) ∷ rest) (a, d) =
      passes rest (loop R now (a, record d { scan_water_level = level }))

  -- Filling is under way by the flag, with the relay off.
  record IsStuck (max : R.Float) (p : Plant R.Float) : Type 0 where
    filling : (p.0).fill_m ≡ true
    dry : (p.1).relay1 ≡ false
    fills : ((p.0).mode ≡ pos 1) ⊎ ((p.0).mode ≡ pos 2)
    max_kept : (p.0).max_l ≡ max

  loop-IsStuck :
      (now : ℕ) (level max : R.Float) (p : Plant R.Float)
      → R.lt level max ≡ true
      → IsStuck max p
      → IsStuck max (loop R now (p.0, record (p.1) { scan_water_level = level }))
  unfolding loop set_relais
  loop-IsStuck now level max (a, d) low s = ground arith

  passes-IsStuck :
      (ps : List (ℕ × R.Float)) (max : R.Float) (p : Plant R.Float)
      → All (λ q. R.lt q.1 max ≡ true) ps
      → IsStuck max p
      → IsStuck max (passes ps p)
  unfolding passes
  passes-IsStuck [] max p low s = s
  passes-IsStuck ((now, level) ∷ rest) max (a, d) (l, ls) s =
      passes-IsStuck rest max _ ls (loop-IsStuck now level max (a, d) l s)

  -- If the filling relay is switched off by hand while the automation is filling in mode 1 or 2,
  -- its passes do not switch it on again as long as the cached level is below the upper level at
  -- every pass, however low it falls.
  pub passes_after_manual_off :
      (stray : ℕ) (ps : List (ℕ × R.Float)) (a : Automation R.Float) (d : Device R.Float)
      → (a.mode ≡ pos 1) ⊎ (a.mode ≡ pos 2)
      → a.fill_m ≡ true
      → All (λ q. R.lt q.1 a.max_l ≡ true) ps
      → let (b, e) = passes ps (a, set_relais stray pump_fill false d) in
        (e.relay1 ≡ false) × (b.fill_m ≡ true)
  unfolding set_relais
  passes_after_manual_off stray ps a d m on low =
      let start : IsStuck a.max_l (a, set_relais stray pump_fill false d) = record {
        filling = on;
        dry = refl;
        fills = m;
        max_kept = refl;
      } in
      let s = passes-IsStuck ps a.max_l _ low start in (s.dry, s.filling)
