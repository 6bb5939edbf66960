-- ===== src/Device/Sensors.antt =====
-- The sensor of src/DeviceHandler.cpp: the ADC, the values derived from it, and the periodic scan.
-- `reads i` is the i-th result of `analogReadMilliVolts` in a call.
pub mod Level
pub mod Scan
use byte_waterlevel.Prelude.{ℕ, zero, suc, ◌+◌, ◌-◌, Bool, leb, if◌then◌else◌}
use byte_waterlevel.Prelude.Words.{u32_mod, add32, sub32}
use byte_waterlevel.Settings.{scan_interval}
use byte_waterlevel.Floats.{Floats}
use byte_waterlevel.Device.State.{Device}

-- The loop of `readVoltage`, with `left` readings to go.
unfoldable pub read_sum : (left i sum : ℕ) → (ℕ → ℕ) → ℕ
read_sum zero i sum reads = sum
read_sum (suc left) i sum reads = read_sum left (i + 1) (add32 sum (reads i)) reads

module _ (R : Floats) where
  open R use {Float, of_nat, sub, mul, div, lt, round, decimal, widen, narrow, add_double}
  open R use {sub_double, mul_double}

  abbrev ema_alpha : R.Double
  ema_alpha = decimal 3 1

  -- Both products and their sum are computed in `double`.
  unfoldable pub read_voltage : (samples : ℕ) → (ℕ → ℕ) → Device Float → Float × Device Float
  read_voltage samples reads d =
      let average =
        div (div (of_nat (read_sum samples 0 0 reads)) (of_nat samples)) (of_nat 1000) in
      let kept = mul_double (widen d.latest_voltage) (sub_double (widen (of_nat 1)) ema_alpha) in
      let voltage = narrow (add_double kept (mul_double (widen average) ema_alpha)) in
      (voltage, record d { latest_voltage = voltage })

  unfoldable pub get_adc_value : (ℕ → ℕ) → Device Float → Float × Device Float
  unfolding read_voltage
  get_adc_value reads d = read_voltage 64 reads d

  get_current : Bool → (ℕ → ℕ) → Device Float → Float × Device Float
  unfolding get_adc_value
  get_current new_reading reads d =
      let (v, d') = (if new_reading then get_adc_value reads d else (d.latest_voltage, d)) in
      (narrow (mul_double (widen (div v (of_nat 120))) (decimal 10_000 1)), d')

  -- The percentage before it is limited.
  unfoldable pub raw_percent : Device Float → Float
  raw_percent d = mul (div (sub d.latest_voltage d.min_v) (sub d.max_v d.min_v)) (of_nat 100)

  unfoldable pub limit_percent : Float → Float
  limit_percent percent =
      let p = (if lt percent (of_nat 0) then of_nat 0 else percent) in
      if lt (of_nat 100) p then of_nat 100 else p

  unfoldable pub get_level : Device Float → Float
  get_level d = limit_percent (raw_percent d)

  pub get_volume : Device Float → Float
  get_volume d = mul d.tank_volume (div (get_level d) (of_nat 100))

  abbrev pub round_to_two_decimals : Float → Float
  round_to_two_decimals value = div (round (mul value (of_nat 100))) (of_nat 100)

  -- The created task, when the scheduler runs it; it then deletes itself.
  unfoldable pub adc_task_function : (ℕ → ℕ) → Device Float → Device Float
  unfolding get_adc_value
  adc_task_function reads d =
      let (_, d') = get_adc_value reads d in record d' { adc_tasks = d'.adc_tasks - 1 }

  -- `temperature` is the result of `temperatureRead`.
  scan_sensors : Float → Device Float → Device Float
  unfolding get_current
  scan_sensors temperature d =
      let (current, _) = get_current (Bool.false) (λ _. 0) d in
      record d {
        adc_tasks = d.adc_tasks + 1;
        scan_current = round_to_two_decimals current;
        scan_temperature = round_to_two_decimals temperature;
        scan_water_level = round_to_two_decimals (get_level d);
        scan_water_volume = round_to_two_decimals (get_volume d);
      }

  unfoldable pub handle_scan : ℕ → Float → Device Float → Device Float
  unfolding scan_sensors
  handle_scan now temperature d =
      if leb scan_interval (sub32 now d.scan_millis)
      then scan_sensors temperature (record d { scan_millis = now })
      else d
