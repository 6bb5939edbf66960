-- ===== src/Automation.antt =====
-- src/AutomationHandler.cpp: the automatic filling and pumping. A function takes and returns the
-- variables of the handler and the device whose relays it switches.
pub mod Fill
pub mod Pump
pub mod Manual
pub mod Bank
pub mod Hysteresis
use byte_waterlevel.Prelude.{ℕ, Bool, true, false, not, leb, ◌&&◌, ◌||◌, if◌then◌else◌}
use byte_waterlevel.Prelude.Int.{ℤ, pos, ◌==ℤ◌}
use byte_waterlevel.Prelude.Words.{sub32}
use byte_waterlevel.Settings.{auto_interval, pump_fill, pump_empty}
use byte_waterlevel.Floats.{Floats}
use byte_waterlevel.Json.{JsonLib}
use byte_waterlevel.Device.State.{Device, get_level_cached}
use byte_waterlevel.Device.Relays.{set_relais}

pub record Automation (F : Type 0) : Type 0 where
  pub mode : ℤ
  pub max_l : F
  pub min_l : F
  pub fill_l : F
  pub fill_m : Bool
  pub pump_m : Bool
  pub auto_millis : ℕ

-- The variables at power-on.
abbrev pub power_on : (R : Floats) → Automation R.Float
power_on R = record {
  mode = pos 0;
  max_l = R.of_nat 0;
  min_l = R.of_nat 0;
  fill_l = R.of_nat 0;
  fill_m = false;
  pump_m = false;
  auto_millis = 0;
}

module _ {F : Type 0} where
  abbrev pub is_filling : Automation F → Bool
  is_filling a = a.fill_m

  abbrev pub is_pumping : Automation F → Bool
  is_pumping a = a.pump_m

  abbrev pub get_mode : Automation F → ℤ
  get_mode a = a.mode

-- The handler's variables and the device.
abbrev pub Plant : Type 0 → Type 0
Plant F = Automation F × Device F

module _ {F : Type 0} where
  set_pump : Bool → Plant F → Plant F
  set_pump on (a, d) = (record a { pump_m = on }, set_relais 0 pump_empty on d)

  set_fill : Bool → Plant F → Plant F
  set_fill on (a, d) = (record a { fill_m = on }, set_relais 0 pump_fill on d)

  unfoldable pub setup : (J : JsonLib F) → J.Json → Automation F → Automation F
  setup J config a =
      let auto = J.member config "auto" in
      record a {
        mode = J.as_int (J.member auto "mode");
        max_l = J.as_float (J.member auto "max");
        min_l = J.as_float (J.member auto "min");
        fill_l = J.as_float (J.member auto "fill");
      }

module _ (R : Floats) where
  open R use {Float, lt, le}

  pub handle_pump : Plant Float → Plant Float
  unfolding set_pump
  handle_pump (a, d) =
      if lt a.min_l (get_level_cached d) then set_pump true (a, d) else set_pump false (a, d)

  pub handle_fill : Plant Float → Plant Float
  unfolding set_fill
  handle_fill (a, d) =
      if lt (get_level_cached d) a.max_l
      then if not a.fill_m && le (get_level_cached d) a.fill_l then set_fill true (a, d) else (a, d)
      else set_fill false (a, d)

  -- The `switch` of `loop`.
  pub run_mode : Plant Float → Plant Float
  unfolding handle_fill handle_pump
  run_mode (a, d) =
      if a.mode ==ℤ pos 1
      then handle_pump (handle_fill (a, d))
      else if a.mode ==ℤ pos 2
      then handle_fill (a, d)
      else if a.fill_m || a.pump_m
      then set_fill false (set_pump false (a, d))
      else (a, d)

  unfoldable pub loop : ℕ → Plant Float → Plant Float
  unfolding run_mode
  loop now (a, d) =
      if not (a.mode ==ℤ pos 0) && leb auto_interval (sub32 now a.auto_millis)
      then run_mode (record a { auto_millis = now }, d)
      else (a, d)
