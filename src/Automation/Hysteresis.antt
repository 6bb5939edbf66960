-- ===== src/Automation/Hysteresis.antt =====
-- src/AutomationHandler.cpp: how often the automation starts to fill.
use byte_waterlevel.Prelude.{
  ℕ, ◌+◌, ◌≡◌, refl, ◌⊎◌, Bool, true, false, not, leb, ◌&&◌, List, [], ◌∷◌, arith, if◌then◌else◌,
}
use byte_waterlevel.Prelude.Int.{pos}
use byte_waterlevel.Prelude.Words.{sub32}
use byte_waterlevel.Floats.{Floats}
use byte_waterlevel.Device.State.{Device}
use byte_waterlevel.Device.Relays.{set_relais}
use byte_waterlevel.Automation.{Automation, Plant, loop}

module _ (R : Floats) where
  -- The passes of the automation that begin to fill, each at its time and after a scan that cached its
  -- level.
  pub starts : List (ℕ × R.Float) → Plant R.Float → ℕ
  starts [] p = 0
  starts ((now, level) ∷ rest) (a, d) =
      let (a', d') = loop R now (a, record d { scan_water_level = level }) in
      (if not a.fill_m && a'.fill_m then 1 else 0) + starts rest (a', d')

  -- The levels at the passes that are due: at least a second behind the last one that was.
  unfoldable pub seen : (last : ℕ) → List (ℕ × R.Float) → List R.Float
  seen last [] = []
  seen last ((now, level) ∷ rest) =
      let due = seen now rest in
      let waiting = seen last rest in if leb 1000 (sub32 now last) then level ∷ due else waiting

  -- The swings of a level from the upper level down to the lower one. Those count that are `armed`, by
  -- a level that is not below the upper one since the last swing.
  unfoldable pub swings : (fill max : R.Float) (armed : Bool) → List R.Float → ℕ
  swings fill max armed [] = 0
  swings fill max armed (level ∷ rest) =
      let still = swings fill max armed rest in
      let idle = swings fill max false rest in
      let again = swings fill max true rest in
      if R.lt level max then (if armed && R.le level fill then 1 + idle else still) else again

  starts_step :
      (now : ℕ) (level : R.Float) (a : Automation R.Float) (d : Device R.Float)
      → (a.mode ≡ pos 1) ⊎ (a.mode ≡ pos 2)
      → let a' = (loop R now (a, record d { scan_water_level = level })).0 in
        (a'.mode ≡ a.mode)
        × (a'.max_l ≡ a.max_l)
        × (a'.fill_l ≡ a.fill_l)
        × (a'.auto_millis ≡ (if leb 1000 (sub32 now a.auto_millis) then now else a.auto_millis))
        × (a'.fill_m ≡ (
            if leb 1000 (sub32 now a.auto_millis)
            then (R.lt level a.max_l && (if a.fill_m then true else R.le level a.fill_l))
            else a.fill_m))
  unfolding loop set_relais
  starts_step now level a d m = ground arith

  -- The dead band: in a mode that fills, over any passes, the automation starts to fill exactly as
  -- often as the levels that it sees swing: from one that is not below the upper level down to one at
  -- the lower level or below it. Between two starts the tank was full, and each start is at the lower
  -- level or below. If it is not filling at first, the first swing needs no full tank before.
  pub starts-swings :
      (ps : List (ℕ × R.Float)) (a : Automation R.Float) (d : Device R.Float)
      → (a.mode ≡ pos 1) ⊎ (a.mode ≡ pos 2)
      → starts ps (a, d) ≡ swings a.fill_l a.max_l (not a.fill_m) (seen a.auto_millis ps)
  unfolding starts seen swings
  starts-swings [] a d m = refl
  starts-swings ((now, level) ∷ rest) a d m =
      let (a', d') = loop R now (a, record d { scan_water_level = level }) in
      let one = starts_step now level a d m in
      let more = starts-swings rest a' d' (rw one.0 m) in ground (arith, m, one, more)
