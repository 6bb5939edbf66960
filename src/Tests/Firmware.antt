-- ===== src/Tests/Firmware.antt =====
-- Runs of the firmware from power-on.
use byte_waterlevel.Prelude.{arith, ◌≡◌, refl, true, false, List, [], ◌∷◌, some, inl, inr}
use byte_waterlevel.Floats.Milli.{milli}
use byte_waterlevel.Settings.{relais_ch1}
use byte_waterlevel.Device.Sensors.{
  raw_percent, limit_percent, get_level, adc_task_function, get_adc_value, read_voltage, read_sum,
  handle_scan,
}
use byte_waterlevel.Device.Relays.{set_relais, handle_relais}
use byte_waterlevel.Device.Blink.{handle_blink}
use byte_waterlevel.Device.Display.{handle_display}
use byte_waterlevel.Device.Loop.{loop as device_loop}
use byte_waterlevel.Automation.{loop as automation_loop}
use byte_waterlevel.Device.Relays.Bank.{bank, intended_all}
use byte_waterlevel.Firmware.{
  Firmware, step, Event, pass, turn, relais_turn, request, adc_task, mqtt_up, take_turn, visit,
  visit_other, setup, loop, run,
}
use byte_waterlevel.Firmware.Denied.{unanswered, unasked, run-unasked}
use byte_waterlevel.Firmware.Bank.{history, bank-run}
use byte_waterlevel.Firmware.Overflow.{adc-loop_stops_fill}
use byte_waterlevel.Firmware.Protection.{fill, IsOff, run-protects}
use byte_waterlevel.Web.{duration_of, api}
use byte_waterlevel.Prelude.Int.{pos}
use byte_waterlevel.Device.Relays.Pins.{PinsAgree}
use byte_waterlevel.World.{power_on}
use byte_waterlevel.Firmware.Pins.{run-PinsAgree}
use byte_waterlevel.Firmware.Automatic.{IsAutomatic, run-IsAutomatic}
use byte_waterlevel.Firmware.Network.{IsOrderly, run-IsOrderly}
use byte_waterlevel.Firmware.Offline.{run_offline}
use byte_waterlevel.Firmware.Timed.{run-api_timed}
use byte_waterlevel.Device.State.{no_timer}
use byte_waterlevel.Device.Relays.Timers.{Shows}
use byte_waterlevel.Tests.Web.{relais_body-IsRelaisCall}
use byte_waterlevel.Tests.Data.{
  lib, open_config, flash_with, ambient, relais_body, asking, status_body, boot_with, pass_at,
  world_with, closed_config, both_modes, half_full,
}

abbrev untouched : List (Event milli lib)
untouched =
    pass (pass_at 1000)
    ∷ adc_task (λ _. 900)
    ∷ pass (pass_at 2000)
    ∷ request ambient (asking status_body)
    ∷ mqtt_up
    ∷ pass (pass_at 9000)
    ∷ turn (relais_turn 9500)
    ∷ []

abbrev by_request : List (Event milli lib)
by_request = request ambient (asking (relais_body (pos 2) true (pos 5))) ∷ untouched

run-PinsAgree_example :
    PinsAgree
      (run milli lib by_request
        (setup milli lib (boot_with true) (power_on milli lib (flash_with open_config)))).device
run-PinsAgree_example =
    run-PinsAgree milli lib (boot_with true) (flash_with open_config) by_request
      (inr (inr refl), (tt, (tt, (tt, (inl refl, (tt, (tt, (tt, tt))))))))

run-IsAutomatic_example :
    let w =
      run milli lib untouched
        (setup milli lib (boot_with true) (power_on milli lib (flash_with open_config))) in
    IsAutomatic (w.auto, w.device)
run-IsAutomatic_example =
    run-IsAutomatic milli lib (boot_with true) (flash_with open_config) untouched
      (tt, (tt, (tt, (refl, (tt, (tt, (tt, tt)))))))

run-IsOrderly_example : IsOrderly milli lib (
    run milli lib by_request
      (setup milli lib (boot_with true) (power_on milli lib (flash_with open_config))))
run-IsOrderly_example = run-IsOrderly milli lib (boot_with true) (flash_with open_config) by_request

run_offline_example :
    let m =
      (run milli lib by_request
        (setup milli lib (boot_with false) (power_on milli lib (flash_with open_config)))).mqtt in
    (m.is_enabled ≡ false) × (m.calls ≡ [])
run_offline_example =
    run_offline milli lib (boot_with false) (flash_with open_config) by_request refl

run-api_timed_example :
    let waiting =
      run milli lib untouched
        (api lib ambient (asking (relais_body (pos 2) true (pos 9))) (world_with open_config)) in
    Shows (pos 2) true 10_000 waiting.device
    × Shows (pos 2) false no_timer (loop milli lib (pass_at 10_001) waiting).device
    × Shows (pos 2) false no_timer (take_turn milli lib (relais_turn 10_001) waiting).device
run-api_timed_example =
    run-api_timed milli lib ambient (asking (relais_body (pos 2) true (pos 9)))
      (world_with open_config) (pos 2) 9 untouched (pass_at 10_001) (inr refl) (inl refl)
      (relais_body-IsRelaisCall (pos 2) true (pos 9)) (omega arith)
      (omega arith, (tt, (omega arith, (refl, (tt, (omega arith, (omega arith, tt)))))))
      (omega arith)

-- The firmware fills a tank that is half full.
abbrev filling : Firmware milli lib
filling = record (world_with open_config) { auto = both_modes; device = half_full }

bank-run_example :
    bank (run milli lib by_request filling).device
    ≡ intended_all (history milli lib by_request filling) (bank filling.device)
unfolding duration_of
bank-run_example =
    bank-run milli lib by_request filling
      (inr (inr refl, omega arith), (tt, (tt, (tt, (inl refl, (tt, (tt, (tt, tt))))))))

adc-loop_stops_fill_example :
    let d =
      (loop milli lib (pass_at 5000) (step milli lib (adc_task (λ _. 4000)) filling)).device in
    (d.relay1 ≡ false) × (d.pins relais_ch1 ≡ false)
unfolding get_level raw_percent limit_percent adc_task_function get_adc_value read_voltage read_sum
adc-loop_stops_fill_example =
    adc-loop_stops_fill milli lib (λ _. 4000) (pass_at 5000) filling (inl refl) (omega arith)
      (omega arith) refl

-- The tank has become full, and the relay is still on.
abbrev brimming : Firmware milli lib
brimming = record filling {
  device = record half_full {
    latest_voltage = some 2600;
    scan_water_level = some 90_000;
    relay1 = true;
    pins = λ _. true;
  };
}

abbrev overnight : List (Event milli lib)
overnight =
    pass (pass_at 9000) ∷ turn (relais_turn 9500) ∷ request ambient (asking status_body) ∷ []

run-protects_example :
    IsOff fill
      (run milli lib (adc_task (λ _. 4000) ∷ pass (pass_at 5000) ∷ overnight) brimming).device
unfolding run adc_task_function get_adc_value read_voltage read_sum get_level raw_percent
    limit_percent step loop device_loop automation_loop handle_blink handle_relais handle_scan
    handle_display set_relais
run-protects_example =
    run-protects milli lib fill (adc_task (λ _. 4000) ∷ []) overnight (pass (pass_at 5000)) brimming
      (record { works = inl refl; forbids = refl }) (tt, (inr refl, (inr refl, (tt, (refl, tt)))))
      (omega arith)

-- A stranger asks to switch a relay on.
abbrev stranger : Event milli lib
stranger = request ambient (asking (relais_body (pos 1) true (pos 5)))

abbrev strangers : List (Event milli lib)
strangers =
    stranger ∷ pass (pass_at 2000) ∷ visit (asking status_body) ∷ visit_other ∷ stranger ∷ []

run-unasked_example :
    unanswered milli lib (run milli lib strangers (world_with closed_config))
    ≡ run milli lib (pass (pass_at 2000) ∷ []) (unanswered milli lib (world_with closed_config))
unfolding unasked
run-unasked_example =
    run-unasked milli lib closed_config strangers (world_with closed_config) refl refl
      (refl, (tt, (tt, (tt, (refl, tt)))))
