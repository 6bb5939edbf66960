-- ===== src/Device/Loop/Laws.antt =====
-- src/DeviceHandler.cpp: what a pass of `loop` keeps.
use byte_waterlevel.Floats.{Floats}
use byte_waterlevel.Device.State.{Device}
use byte_waterlevel.Device.Relays.Pins.{PinsAgree, handle_relais-PinsAgree}
use byte_waterlevel.Device.Blink.Rate.{handle_blink-PinsAgree}
use byte_waterlevel.Device.Sensors.{handle_scan}
use byte_waterlevel.Device.Display.{handle_display}
use byte_waterlevel.Device.Loop.{DeviceTick, loop}
use byte_waterlevel.Prelude.{ℕ, Bool, arith}

module _ (R : Floats) where
  pub handle_scan-PinsAgree :
      (now : ℕ) (temperature : R.Float) (d : Device R.Float)
      → PinsAgree d
      → PinsAgree (handle_scan R now temperature d)
  unfolding handle_scan
  handle_scan-PinsAgree now temperature d p = ground arith

  pub handle_display-PinsAgree :
      (now : ℕ) (connected : Bool) (d : Device R.Float)
      → PinsAgree d
      → PinsAgree (handle_display R now connected d)
  unfolding handle_display
  handle_display-PinsAgree now connected d p = ground arith

  -- A pass of the loop keeps the variables of the relays and of the LED equal to their pins.
  pub loop-PinsAgree :
      (k : DeviceTick R.Float) (d : Device R.Float) → PinsAgree d → PinsAgree (loop R k d)
  unfolding loop
  loop-PinsAgree k d p = handle_display-PinsAgree _ _ _ (
      handle_scan-PinsAgree _ _ _
        (handle_relais-PinsAgree k.relais_time _ (handle_blink-PinsAgree k.blink_time d p)))
