-- ===== src/Device/Blink/Rate.antt =====
-- src/DeviceHandler.cpp: how often `handleBlink` toggles the LED.
use mathlib.Core.Bool.{xor}
use byte_waterlevel.Prelude.{
  ℕ, ◌+◌, ◌*◌, ◌≤◌, ◌<◌, ◌≡◌, not, leb, List, [], ◌∷◌, sum, arith, if◌then◌else◌,
}
use byte_waterlevel.Prelude.Words.{u32_mod, add32, sub32}
use byte_waterlevel.Settings.{led_pin}
use byte_waterlevel.Device.State.{Device}
use byte_waterlevel.Device.Blink.{handle_blink}
use byte_waterlevel.Device.Relays.Pins.{PinsAgree}

module _ {F : Type 0} where
  pub handle_blink-PinsAgree :
      (now : ℕ) (d : Device F) → PinsAgree d → PinsAgree (handle_blink now d)
  unfolding handle_blink
  handle_blink-PinsAgree now d p = ground arith

  -- A poll `k` milliseconds after the last toggle, with `k` and the time of the toggle below 2 ^
  -- 32, also across the rollover of `millis()`, toggles the LED and its pin and keeps the time if
  -- `k` is at least 250, and leaves all three if not.
  handle_blink_lem :
      (k : ℕ) (d : Device F)
      → k < u32_mod
      → d.previous_millis < u32_mod
      → let due = leb 250 k in
        let d' = handle_blink (add32 d.previous_millis k) d in
        (d'.led_state ≡ xor d.led_state due)
        × (d'.pins led_pin ≡ (if due then not d.led_state else d.pins led_pin))
        × (d'.previous_millis ≡ (if due then add32 d.previous_millis k else d.previous_millis))
  unfolding handle_blink xor
  handle_blink_lem k d small kept = ground arith

  -- How often the LED changes in polls at `now` plus the waits, one after the other.
  unfoldable pub changes : ℕ → List ℕ → Device F → ℕ
  changes now [] d = 0
  changes now (k ∷ ks) d =
      let d' = handle_blink (add32 now k) d in
      (if xor d.led_state d'.led_state then 1 else 0) + changes (add32 now k) ks d'

  -- One poll: a change uses up 250 milliseconds of the time since the last toggle.
  change_step :
      (now k : ℕ) (d : Device F)
      → now < u32_mod
      → d.previous_millis < u32_mod
      → let t = add32 now k in
        let d' = handle_blink t d in
        ((if xor d.led_state d'.led_state then 1 else 0) * 250 + sub32 t d'.previous_millis
          ≤ sub32 now d.previous_millis + k)
        × (d'.previous_millis < u32_mod)
  unfolding handle_blink xor
  change_step now k d p q = ground arith

  -- However often and at whatever times the LED is polled from the time `now` on, it changes at
  -- most once in 250 milliseconds, counted from its last toggle; both times are below 2 ^ 32.
  changes-le :
      (now : ℕ) (ks : List ℕ) (d : Device F)
      → now < u32_mod
      → d.previous_millis < u32_mod
      → changes now ks d * 250 ≤ sub32 now d.previous_millis + sum ks
  unfolding changes
  changes-le now [] d p q = omega arith
  changes-le now (k ∷ ks) d p q =
      let (spent, kept) = change_step now k d p q in
      omega (
        arith,
        spent,
        changes-le (add32 now k) ks (handle_blink (add32 now k) d) (omega arith) kept,
      )
