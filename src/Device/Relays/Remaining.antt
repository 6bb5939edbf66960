-- ===== src/Device/Relays/Remaining.antt =====
-- src/DeviceHandler.cpp: what `getDuration` reports.
use byte_waterlevel.Prelude.{ℕ, ◌+◌, ◌*◌, ◌-◌, ◌≤◌, ◌<◌, ◌≡◌, arith, leb, ◌==◌, if◌then◌else◌}
use byte_waterlevel.Prelude.Int.{ℤ, pos, negsuc}
use byte_waterlevel.Prelude.Words.{u32_mod}
use byte_waterlevel.Device.State.{Device}
use byte_waterlevel.Device.Relays.{set_relais_duration, get_duration}
use byte_waterlevel.Device.Relays.Pins.{IsChannel}
use byte_waterlevel.Device.Relays.Timers.{timer}

-- The time that a timer has left, as it is reported: in whole numbers, without a machine word.
unfoldable pub reported : (timer now : ℕ) → ℤ
reported timer now =
    if leb 2_147_483_648 timer
    then pos 0
    else if timer == 0
    then pos 0
    else if leb now timer
    then pos (timer - now)
    else if leb now (timer + 2_147_483_648)
    then negsuc (now - timer - 1)
    else pos (u32_mod + timer - now)

module _ {F : Type 0} where
  -- Where a timer is set at `now` for `s` seconds on channel 1 or 2, with a deadline below 2 ^ 31
  -- milliseconds of uptime, `getDuration` gives at every time from then to the deadline the
  -- milliseconds that are left.
  get_duration-set_relais_duration :
      (now t : ℕ) (c : ℤ) (s : ℕ) (d : Device F)
      → IsChannel c
      → now + s * 1000 < 2_147_483_648
      → now ≤ t
      → t ≤ now + s * 1000
      → get_duration t c (set_relais_duration now c (pos s) d) ≡ pos (now + s * 1000 - t)
  unfolding get_duration set_relais_duration
  get_duration-set_relais_duration now t c s d h p q r = ground arith

  -- `getDuration` computes in `int` and `unsigned long` what `reported` says in whole numbers, for
  -- either channel, every timer and every clock below 2 ^ 32: the milliseconds that are left up to the
  -- deadline, minus the milliseconds since then for 2 ^ 31 milliseconds behind it, a positive number
  -- again behind those, and 0 for a deadline of 2 ^ 31 milliseconds of uptime or more.
  pub get_duration-reported :
      (t : ℕ) (c : ℤ) (d : Device F)
      → IsChannel c
      → timer c d < u32_mod
      → t < u32_mod
      → get_duration t c d ≡ reported (timer c d) t
  unfolding get_duration reported
  get_duration-reported t c d h p q = ground arith

  -- `getDuration` is 0 for a channel whose timer stands at 2 ^ 31 or above: where no timer is
  -- set, but also for a deadline from 2 ^ 31 milliseconds of uptime on, however much time is
  -- left.
  get_duration_zero :
      (t : ℕ) (c : ℤ) (d : Device F)
      → IsChannel c
      → 2_147_483_648 ≤ timer c d
      → timer c d < u32_mod
      → get_duration t c d ≡ pos 0
  unfolding get_duration
  get_duration_zero t c d h p q = ground arith

  -- If the timer of a channel stands above 0 and below the clock, and the clock below 2 ^ 31,
  -- then `getDuration` is negative: minus the milliseconds since the deadline.
  get_duration_expired :
      (t : ℕ) (c : ℤ) (d : Device F)
      → IsChannel c
      → 0 < timer c d
      → timer c d < t
      → t < 2_147_483_648
      → get_duration t c d ≡ negsuc (t - timer c d - 1)
  unfolding get_duration
  get_duration_expired t c d h p q r = ground arith
