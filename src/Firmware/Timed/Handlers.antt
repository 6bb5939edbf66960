-- ===== src/Firmware/Timed/Handlers.antt =====
-- src/DeviceHandler.cpp, src/AutomationHandler.cpp: the handlers of the loop that leave a channel and its timer.
use byte_waterlevel.Prelude.{ℕ, ◌≡◌, ◌⊎◌, inl, inr, Bool, arith}
use byte_waterlevel.Prelude.Int.{ℤ, pos}
use byte_waterlevel.Floats.{Floats}
use byte_waterlevel.Device.State.{Device}
use byte_waterlevel.Device.Relays.{set_relais, get_state, handle_relais}
use byte_waterlevel.Device.Relays.Pins.{IsChannel}
use byte_waterlevel.Device.Relays.Timers.{Shows}
use byte_waterlevel.Device.Blink.{handle_blink}
use byte_waterlevel.Device.Sensors.{handle_scan}
use byte_waterlevel.Device.Display.{handle_display}
use byte_waterlevel.Device.Loop.{DeviceTick, loop as device_loop}
use byte_waterlevel.Automation.{Automation, loop as automation_loop}

-- The mode leaves the channel alone: the automation is off, or only fills, by channel 1.
abbrev pub IsUntouched : ℤ → ℤ → Type 0
IsUntouched c mode = (mode ≡ pos 0) ⊎ ((mode ≡ pos 2) × (c ≡ pos 2))

module _ (R : Floats) where
  pub blink-Shows :
      (c : ℤ) (on : Bool) (n now : ℕ) (d : Device R.Float)
      → IsChannel c
      → Shows c on n d
      → Shows c on n (handle_blink now d)
  unfolding handle_blink get_state
  blink-Shows c on n now d h s = ground arith

  pub scan-Shows :
      (c : ℤ) (on : Bool) (n now : ℕ) (t : R.Float) (d : Device R.Float)
      → IsChannel c
      → Shows c on n d
      → Shows c on n (handle_scan R now t d)
  unfolding handle_scan get_state
  scan-Shows c on n now t d h s = ground arith

  pub display-Shows :
      (c : ℤ) (on : Bool) (n now : ℕ) (connected : Bool) (d : Device R.Float)
      → IsChannel c
      → Shows c on n d
      → Shows c on n (handle_display R now connected d)
  unfolding handle_display get_state
  display-Shows c on n now connected d h s = ground arith

  -- A pass does to the channel what its poll of the timers does.
  pub device_loop-Shows :
      (c : ℤ) (on on' : Bool) (n n' : ℕ) (k : DeviceTick R.Float) (d : Device R.Float)
      → IsChannel c
      → ((e : Device R.Float) → Shows c on n e → Shows c on' n' (handle_relais k.relais_time e))
      → Shows c on n d
      → Shows c on' n' (device_loop R k d)
  unfolding device_loop
  device_loop-Shows c on on' n n' k d h poll s =
      display-Shows c on' n' k.display_time k.wifi_connected _ h (
        scan-Shows c on' n' k.scan_time k.temperature _ h
          (poll _ (blink-Shows c on n k.blink_time d h s)))

  pub automation_loop-mode :
      (now : ℕ) (a : Automation R.Float) (d : Device R.Float)
      → (automation_loop R now (a, d)).0.mode ≡ a.mode
  unfolding automation_loop
  automation_loop-mode now a d = ground arith

  pub automation_loop-Shows :
      (c : ℤ) (on : Bool) (n now : ℕ) (a : Automation R.Float) (d : Device R.Float)
      → IsUntouched c a.mode
      → Shows c on n d
      → Shows c on n (automation_loop R now (a, d)).1
  unfolding automation_loop set_relais get_state
  automation_loop-Shows c on n now a d (inl m) s = rw m s
  automation_loop-Shows c on n now a d (inr (m, e)) s = ground arith
