-- ===== src/Device/State.antt =====
-- The file-level variables of src/DeviceHandler.cpp, with the hardware that the functions write to:
-- the levels of the output pins, what the display shows, and the ADC tasks that were created and have
-- not run yet.
use Prim.Native.String.{String}
use byte_waterlevel.Prelude.{ℕ, Bool, false, true, List, [], ◌==◌, if◌then◌else◌}
use byte_waterlevel.Floats.{Floats}

-- The value -1 of `ch1` and `ch2`: no timer is set.
abbrev pub no_timer : ℕ
no_timer = 4_294_967_295

-- The calls of the display library that draw, with their arguments.
pub data Draw (F : Type 0) : Type 0 where
  cursor : ℕ → ℕ → Draw F
  text : String → Draw F
  text_line : String → Draw F
  number : F → ℕ → Draw F
  number_line : F → ℕ → Draw F
  line : ℕ → ℕ → ℕ → ℕ → Draw F
  rect : ℕ → ℕ → ℕ → ℕ → Draw F
  fill_rect : ℕ → ℕ → ℕ → ℕ → Draw F

pub record Device (F : Type 0) : Type 0 where
  pub previous_millis : ℕ
  pub scan_millis : ℕ
  pub display_millis : ℕ
  pub ch1 : ℕ
  pub ch2 : ℕ
  pub relay1 : Bool
  pub relay2 : Bool
  pub led_state : Bool
  pub latest_voltage : F
  pub system_led : Bool
  pub max_v : F
  pub min_v : F
  pub tank_volume : F
  pub scan_current : F
  pub scan_temperature : F
  pub scan_water_level : F
  pub scan_water_volume : F
  pub display_enabled : Bool
  pub pins : ℕ → Bool
  pub screen : List (Draw F)
  pub contrast : ℕ
  pub adc_tasks : ℕ

-- The device at power-on: the initialisers of the variables, and every pin low.
abbrev pub power_on : (R : Floats) → Device R.Float
power_on R = record {
  previous_millis = 0;
  scan_millis = 0;
  display_millis = 0;
  ch1 = no_timer;
  ch2 = no_timer;
  relay1 = false;
  relay2 = false;
  led_state = false;
  latest_voltage = R.narrow (R.decimal 0 2);
  system_led = true;
  max_v = R.narrow (R.decimal 24 1);
  min_v = R.narrow (R.decimal 0 1);
  tank_volume = R.narrow (R.decimal 10_000 1);
  scan_current = R.narrow (R.decimal 0 2);
  scan_temperature = R.narrow (R.decimal 0 2);
  scan_water_level = R.narrow (R.decimal 0 2);
  scan_water_volume = R.narrow (R.decimal 0 2);
  display_enabled = false;
  pins = λ _. false;
  screen = [];
  contrast = 0;
  adc_tasks = 0;
}

-- `digitalWrite`
abbrev pub digital_write : {F : Type 0} → ℕ → Bool → Device F → Device F
digital_write pin level d = record d { pins = λ q. if q == pin then level else d.pins q }

-- The values of the last scan.
module _ {F : Type 0} where
  abbrev pub get_volume_cached : Device F → F
  get_volume_cached d = d.scan_water_volume

  abbrev pub get_cpu_temperature_cached : Device F → F
  get_cpu_temperature_cached d = d.scan_temperature

  abbrev pub get_level_cached : Device F → F
  get_level_cached d = d.scan_water_level

  abbrev pub get_current_cached : Device F → F
  get_current_cached d = d.scan_current

  -- The voltage that the last task or reading left.
  abbrev pub get_adc_value_cached : Device F → F
  get_adc_value_cached d = d.latest_voltage
