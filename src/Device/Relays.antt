-- ===== src/Device/Relays.antt =====
-- The relays of src/DeviceHandler.cpp and their timers. `stray` is the pin that an unset `pin`
-- happens to hold in `setRelais`; a call with channel 1 or 2 does not read it.
pub mod Pins
pub mod Timers
pub mod Remaining
pub mod Bank
pub mod Tasks
use byte_waterlevel.Prelude.{ℕ, Bool, false, true, not, ◌&&◌, ltb, leb, ◌==◌, if◌then◌else◌}
use byte_waterlevel.Prelude.Int.{ℤ, pos, ◌==ℤ◌, is_positive, thousandfold}
use byte_waterlevel.Prelude.Words.{add32, sub32, to_u32, to_i32}
use byte_waterlevel.Settings.{relais_ch1, relais_ch2}
use byte_waterlevel.Device.State.{Device, no_timer, digital_write}

-- `ch != -1 && (currentMillis >= ch)`
unfoldable pub is_due : ℕ → ℕ → Bool
is_due now ch = not (ch == no_timer) && leb ch now

module _ {F : Type 0} where
  unfoldable pub set_relais : ℕ → ℤ → Bool → Device F → Device F
  set_relais stray relais state d =
      if relais ==ℤ pos 1
      then digital_write relais_ch1 state (record d { ch1 = no_timer; relay1 = state })
      else if relais ==ℤ pos 2
      then digital_write relais_ch2 state (record d { ch2 = no_timer; relay2 = state })
      else digital_write stray state d

  -- The product wraps as the target's `int` does; it is then added as an `unsigned long`.
  unfoldable pub set_relais_duration : ℕ → ℤ → ℤ → Device F → Device F
  set_relais_duration now channel duration d =
      if channel ==ℤ pos 1
      then record d { ch1 = add32 now (to_u32 (thousandfold duration)) }
      else if channel ==ℤ pos 2
      then record d { ch2 = add32 now (to_u32 (thousandfold duration)) }
      else d

  unfoldable pub handle_relais : ℕ → Device F → Device F
  unfolding is_due set_relais
  handle_relais now d =
      let d' = (if is_due now d.ch1 then set_relais relais_ch1 (pos 1) false d else d) in
      if is_due now d'.ch2 then set_relais relais_ch2 (pos 2) false d' else d'

  unfoldable pub get_state : ℤ → Device F → Bool
  get_state i d = if i ==ℤ pos 1 then d.relay1 else if i ==ℤ pos 2 then d.relay2 else false

  -- The timer of a channel as an `int`; `ch <= 0` on `unsigned long` is `ch == 0`.
  duration_of : ℤ → Device F → ℤ
  duration_of i d =
      let first = (if i ==ℤ pos 1 then (if d.ch1 == 0 then pos 0 else to_i32 d.ch1) else pos 0) in
      if i ==ℤ pos 2 then (if d.ch2 == 0 then pos 0 else to_i32 d.ch2) else first

  -- The clock is read once; `duration - millis()` is an `unsigned long`.
  pub get_duration : ℕ → ℤ → Device F → ℤ
  unfolding duration_of
  get_duration now i d =
      let duration = duration_of i d in
      let left = sub32 (to_u32 duration) now in
      if is_positive duration && ltb 0 left then to_i32 left else pos 0
