-- ===== src/Device/Sensors/Scan.antt =====
-- src/DeviceHandler.cpp: the sum of the ADC readings, and what a scan caches.
use byte_waterlevel.Prelude.{ℕ, zero, suc, ◌+◌, ◌*◌, ◌≤◌, ◌<◌, ◌≡◌, arith}
use byte_waterlevel.Prelude.Words.{u32_mod, add32, sub32}
use byte_waterlevel.Floats.{Floats}
use byte_waterlevel.Device.State.{Device}
use byte_waterlevel.Device.Sensors.{
  read_sum, raw_percent, get_level, get_volume, round_to_two_decimals, adc_task_function,
  handle_scan,
}

-- The sum of `left` readings from the i-th on, as a number without bound.
total : (left i : ℕ) → (ℕ → ℕ) → ℕ
total zero i reads = 0
total (suc left) i reads = reads i + total left (i + 1) reads

total-le : (left i m : ℕ) (reads : ℕ → ℕ) → ((j : ℕ) → reads j ≤ m) → total left i reads ≤ left * m
unfolding total
total-le zero i m reads h = omega arith
total-le (suc left) i m reads h = omega (arith, h i, total-le left (i + 1) m reads h)

read_sum-eq-total_from :
    (left i sum : ℕ) (reads : ℕ → ℕ)
    → sum + total left i reads < u32_mod
    → read_sum left i sum reads ≡ sum + total left i reads
unfolding read_sum total
read_sum-eq-total_from zero i sum reads h = omega arith
read_sum-eq-total_from (suc left) i sum reads h =
    omega (arith, read_sum-eq-total_from left (i + 1) (add32 sum (reads i)) reads (omega arith))

-- The `uint32_t` sum of `getADCValue` does not wrap as long as every one of its 64 readings is at most
-- 67,108,863 millivolts.
read_sum-eq-total :
    (reads : ℕ → ℕ) → ((j : ℕ) → reads j ≤ 67_108_863) → read_sum 64 0 0 reads ≡ total 64 0 reads
read_sum-eq-total reads h =
    let bound = total-le 64 0 67_108_863 reads h in
    omega (arith, read_sum-eq-total_from 64 0 0 reads (omega arith))

module _ (R : Floats) where
  -- A scan that is due keeps its time and caches the level and the volume of the voltage that it
  -- finds: the ADC task that it creates runs later, and whatever it reads, the cached values stay
  -- those of the earlier voltage, while the voltage is filtered as without the scan.
  pub handle_scan_stale :
      (now : ℕ) (temperature : R.Float) (reads : ℕ → ℕ) (d : Device R.Float)
      → d.scan_millis < u32_mod
      → now < u32_mod
      → 1000 ≤ sub32 now d.scan_millis
      → let d' = adc_task_function R reads (handle_scan R now temperature d) in
        (d'.scan_water_level ≡ round_to_two_decimals R (get_level R d))
        × (d'.scan_water_volume ≡ round_to_two_decimals R (get_volume R d))
        × (d'.latest_voltage ≡ (adc_task_function R reads d).latest_voltage)
        × (d'.adc_tasks ≡ d.adc_tasks)
        × (d'.scan_millis ≡ now)
  unfolding handle_scan adc_task_function get_volume get_level raw_percent
  handle_scan_stale now temperature reads d kept small due = ground arith
