-- ===== src/Device/Blink.antt =====
-- The status LED of src/DeviceHandler.cpp.
pub mod Rate
use byte_waterlevel.Prelude.{ℕ, not, leb, if◌then◌else◌}
use byte_waterlevel.Prelude.Words.{sub32}
use byte_waterlevel.Settings.{blink_interval, led_pin}
use byte_waterlevel.Device.State.{Device, digital_write}

module _ {F : Type 0} where
  unfoldable pub handle_blink : ℕ → Device F → Device F
  handle_blink now d =
      if leb blink_interval (sub32 now d.previous_millis)
      then digital_write led_pin (not d.led_state)
          (record d { previous_millis = now; led_state = not d.led_state })
      else d
