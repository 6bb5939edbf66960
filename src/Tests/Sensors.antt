-- ===== src/Tests/Sensors.antt =====
-- The sensor at concrete values.
use byte_waterlevel.Prelude.{◌≡◌, refl, true, some, arith}
use byte_waterlevel.Floats.Milli.{milli, milli-IsOrdered, milli-IsMonotone}
use byte_waterlevel.Device.Sensors.{
  raw_percent, limit_percent, get_level, get_volume, round_to_two_decimals, adc_task_function,
  handle_scan,
}
use byte_waterlevel.Device.Sensors.Level.{get_level_mono}
use byte_waterlevel.Device.Sensors.Scan.{handle_scan_stale}
use byte_waterlevel.Tests.Data.{half_full}

get_level_run : get_level milli half_full ≡ some 50_000
unfolding get_level raw_percent limit_percent
get_level_run = refl

get_level_mono_example :
    let higher = record half_full { latest_voltage = some 1300 } in
    (milli.le (milli.of_nat 0) (get_level milli half_full) ≡ true)
    × (milli.le (get_level milli half_full) (get_level milli higher) ≡ true)
    × (milli.le (get_level milli higher) (milli.of_nat 100) ≡ true)
get_level_mono_example =
    get_level_mono milli milli-IsOrdered milli-IsMonotone half_full (some 1300) refl refl
      (refl, refl) (refl, refl) (refl, refl)

handle_scan_stale_example :
    let d = adc_task_function milli (λ _. 2000) (handle_scan milli 5000 (some 40_000) half_full) in
    (d.scan_water_level ≡ round_to_two_decimals milli (get_level milli half_full))
    × (d.scan_water_volume ≡ round_to_two_decimals milli (get_volume milli half_full))
    × (d.latest_voltage ≡ (adc_task_function milli (λ _. 2000) half_full).latest_voltage)
    × (d.adc_tasks ≡ 0)
    × (d.scan_millis ≡ 5000)
handle_scan_stale_example =
    handle_scan_stale milli 5000 (some 40_000) (λ _. 2000) half_full (omega arith) (omega arith)
      (omega arith)
