-- ===== src/Firmware/Overflow.antt =====
-- src/main.cpp: from the sensor to the filling relay.
use byte_waterlevel.Prelude.{ℕ, ◌≤◌, ◌≡◌, refl, ◌∙◌, Bool, false, ◌⊎◌, arith}
use byte_waterlevel.Prelude.Int.{pos}
use byte_waterlevel.Prelude.Words.{sub32}
use byte_waterlevel.Settings.{relais_ch1}
use byte_waterlevel.Floats.{Floats}
use byte_waterlevel.Json.{JsonLib}
use byte_waterlevel.Device.State.{Device}
use byte_waterlevel.Device.Relays.{handle_relais}
use byte_waterlevel.Device.Blink.{handle_blink}
use byte_waterlevel.Device.Sensors.{
  raw_percent, get_level, round_to_two_decimals, adc_task_function, handle_scan,
}
use byte_waterlevel.Device.Display.{handle_display}
use byte_waterlevel.Device.Loop.{DeviceTick, loop as device_loop}
use byte_waterlevel.Automation.Fill.{loop_stops_fill}
use byte_waterlevel.Firmware.{Pass, Firmware, loop, adc_task, step}

module _ (R : Floats) where
  -- Two devices with the same sensor: the same voltage and calibration, and the same time of the scan.
  pub record IsSameSensor (d e : Device R.Float) : Type 0 where
    voltage : d.latest_voltage ≡ e.latest_voltage
    low : d.min_v ≡ e.min_v
    high : d.max_v ≡ e.max_v
    scanned : d.scan_millis ≡ e.scan_millis

  pub blink-IsSameSensor : (now : ℕ) (d : Device R.Float) → IsSameSensor (handle_blink now d) d
  unfolding handle_blink
  blink-IsSameSensor now d = ground arith

  pub relais-IsSameSensor : (now : ℕ) (d : Device R.Float) → IsSameSensor (handle_relais now d) d
  unfolding handle_relais
  relais-IsSameSensor now d = ground arith

  pub IsSameSensor-get_level :
      (d e : Device R.Float) → IsSameSensor d e → get_level R d ≡ get_level R e
  unfolding get_level raw_percent
  IsSameSensor-get_level d e s = rw (s.voltage, s.low, s.high)

  handle_scan_due :
      (now : ℕ) (t : R.Float) (d : Device R.Float)
      → 1000 ≤ sub32 now d.scan_millis
      → (handle_scan R now t d).scan_water_level ≡ round_to_two_decimals R (get_level R d)
  unfolding handle_scan get_level raw_percent
  handle_scan_due now t d due = ground arith

  pub handle_display-level :
      (now : ℕ) (connected : Bool) (d : Device R.Float)
      → (handle_display R now connected d).scan_water_level ≡ d.scan_water_level
  unfolding handle_display
  handle_display-level now connected d = ground arith

  -- A pass that scans caches the level of the voltage that it finds.
  device_loop-level :
      (k : DeviceTick R.Float) (d : Device R.Float)
      → 1000 ≤ sub32 k.scan_time d.scan_millis
      → (device_loop R k d).scan_water_level ≡ round_to_two_decimals R (get_level R d)
  unfolding device_loop
  device_loop-level k d due =
      let lit = handle_blink k.blink_time d in
      let polled = handle_relais k.relais_time lit in
      let s = relais-IsSameSensor k.relais_time lit in
      let t = blink-IsSameSensor k.blink_time d in
      handle_display-level k.display_time k.wifi_connected _
      ∙ handle_scan_due k.scan_time k.temperature polled (rw (s.scanned, t.scanned) due)
      ∙ rw (IsSameSensor-get_level polled lit s, IsSameSensor-get_level lit d t)

  module _ (J : JsonLib R.Float) where
    -- In a mode that fills, a pass that scans and whose automation is due reads the voltage that the last
    -- ADC task left: if its level, rounded, is not below the upper level, NaN included, the pass switches
    -- the filling relay and its pin off, whatever state the firmware was in.
    pub adc-loop_stops_fill :
        (reads : ℕ → ℕ) (p : Pass R.Float) (w : Firmware R J)
        → ((w.auto).mode ≡ pos 1) ⊎ ((w.auto).mode ≡ pos 2)
        → 1000 ≤ sub32 p.device.scan_time w.device.scan_millis
        → 1000 ≤ sub32 p.auto_time w.auto.auto_millis
        → R.lt
            (round_to_two_decimals R (get_level R (adc_task_function R reads w.device)))
            w.auto.max_l
          ≡ false
        → let d = (loop R J p (step R J (adc_task reads) w)).device in
          (d.relay1 ≡ false) × (d.pins relais_ch1 ≡ false)
    unfolding loop step
    adc-loop_stops_fill reads p w m scans due full =
        let read = adc_task_function R reads w.device in
        let kept : read.scan_millis ≡ w.device.scan_millis = unfold adc_task_function in refl in
        let level = device_loop-level p.device read (rw kept scans) in
        let off =
          loop_stops_fill R p.auto_time (w.auto, device_loop R p.device read) m due
            (rw level full) in
        (off.1, off.2)
