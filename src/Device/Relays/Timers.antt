-- ===== src/Device/Relays/Timers.antt =====
-- src/DeviceHandler.cpp: a relay that is switched on for a number of seconds, polled by
-- `handleRelais`.
use byte_waterlevel.Prelude.{
  ℕ, ◌+◌, ◌*◌, ◌%◌, ◌≤◌, ◌<◌, ◌≡◌, Bool, true, false, List, [], ◌∷◌, All, arith, if◌then◌else◌, inl,
  inr, refl, ◌⊎◌, subst,
}
use byte_waterlevel.Prelude.Int.{ℤ, pos, ◌==ℤ◌}
use byte_waterlevel.Prelude.Words.{add32, u32_mod}
use byte_waterlevel.Settings.{relais_ch1, relais_ch2}
use byte_waterlevel.Device.State.{Device, no_timer}
use byte_waterlevel.Device.Relays.{set_relais, set_relais_duration, handle_relais, get_state}
use byte_waterlevel.Device.Relays.Pins.{IsChannel}

module _ {F : Type 0} where
  -- The polls of the main loop, each at its time.
  pub poll : List ℕ → Device F → Device F
  poll [] d = d
  poll (t ∷ ts) d = poll ts (handle_relais t d)

  abbrev pub timer : ℤ → Device F → ℕ
  timer c d = if c ==ℤ pos 1 then d.ch1 else d.ch2

  abbrev pub level : ℤ → Device F → Bool
  level c d = if c ==ℤ pos 1 then d.pins relais_ch1 else d.pins relais_ch2

  -- The state and the pin of a channel are `on`, and its timer stands at `deadline`.
  pub record Shows (c : ℤ) (on : Bool) (deadline : ℕ) (d : Device F) : Type 0 where
    pub state_shown : get_state c d ≡ on
    pub level_shown : level c d ≡ on
    pub timer_shown : timer c d ≡ deadline

  unfoldable pub switch_on_for : ℕ → ℕ → ℤ → ℤ → Device F → Device F
  switch_on_for stray now c seconds d =
      set_relais_duration now c seconds (set_relais stray c true d)

  pub switch_on_for-Shows :
      (stray now : ℕ) (c : ℤ) (s : ℕ) (d : Device F)
      → IsChannel c
      → Shows c true (add32 now (s * 1000 % u32_mod)) (switch_on_for stray now c (pos s) d)
  unfolding switch_on_for set_relais set_relais_duration get_state
  switch_on_for-Shows stray now c s d h = ground arith

  -- A poll that is not due leaves the channel.
  pub handle_relais-Shows_waiting :
      (t : ℕ) (c : ℤ) (deadline : ℕ) (d : Device F)
      → IsChannel c
      → (t < deadline) ⊎ (deadline ≡ no_timer)
      → Shows c true deadline d
      → Shows c true deadline (handle_relais t d)
  unfolding handle_relais get_state
  handle_relais-Shows_waiting t c deadline d h w s = ground arith

  pub handle_relais-Shows_due :
      (t : ℕ) (c : ℤ) (deadline : ℕ) (d : Device F)
      → IsChannel c
      → deadline < no_timer
      → deadline ≤ t
      → Shows c true deadline d
      → Shows c false no_timer (handle_relais t d)
  unfolding handle_relais get_state
  handle_relais-Shows_due t c deadline d h p q s = ground arith

  poll-Shows :
      (ts : List ℕ) (c : ℤ) (deadline : ℕ) (d : Device F)
      → IsChannel c
      → All (λ t. (t < deadline) ⊎ (deadline ≡ no_timer)) ts
      → Shows c true deadline d
      → Shows c true deadline (poll ts d)
  unfolding poll
  poll-Shows [] c deadline d h w s = s
  poll-Shows (t ∷ ts) c deadline d h (w, ws) s =
      poll-Shows ts c deadline (handle_relais t d) h ws
        (handle_relais-Shows_waiting t c deadline d h w s)

  -- A channel that is switched on for `s` seconds, with a deadline below the value -1 of an
  -- `unsigned long`, is on behind any polls that all come before the deadline, and the first poll
  -- from the deadline on switches it off, clears its timer and drives its pin low.
  poll-switch_on_for :
      (stray now : ℕ) (c : ℤ) (s : ℕ) (d : Device F) (ts : List ℕ) (t : ℕ)
      → IsChannel c
      → now + s * 1000 < no_timer
      → All (λ u. u < now + s * 1000) ts
      → now + s * 1000 ≤ t
      → let waiting = poll ts (switch_on_for stray now c (pos s) d) in
        Shows c true (now + s * 1000) waiting × Shows c false no_timer (handle_relais t waiting)
  poll-switch_on_for stray now c s d ts t h fits before after =
      let deadline = now + s * 1000 in
      let same : add32 now (s * 1000 % u32_mod) ≡ deadline = omega arith in
      let set =
        subst (λ n. Shows c true n (switch_on_for stray now c (pos s) d)) same
          (switch_on_for-Shows stray now c s d h) in
      let shown = poll-Shows ts c deadline _ h (All-mono ts before) set in
      (shown, handle_relais-Shows_due t c deadline _ h fits after shown)
    where
      All-mono :
          (us : List ℕ)
          → All (λ u. u < now + s * 1000) us
          → All (λ u. (u < now + s * 1000) ⊎ (now + s * 1000 ≡ no_timer)) us
      All-mono [] _ = tt
      All-mono (u ∷ us) (x, xs) = (inl x, All-mono us xs)

  -- If the deadline of a channel that is switched on for `s` seconds is, modulo 2 ^ 32, the value
  -- -1 that stands for no timer, no polls ever switch the channel off.
  poll-switch_on_for_sentinel :
      (stray now : ℕ) (c : ℤ) (s : ℕ) (d : Device F) (ts : List ℕ)
      → IsChannel c
      → (now + s * 1000) % u32_mod ≡ no_timer
      → Shows c true no_timer (poll ts (switch_on_for stray now c (pos s) d))
  poll-switch_on_for_sentinel stray now c s d ts h hit =
      let same : add32 now (s * 1000 % u32_mod) ≡ no_timer = omega arith in
      let set =
        subst (λ n. Shows c true n (switch_on_for stray now c (pos s) d)) same
          (switch_on_for-Shows stray now c s d h) in
      poll-Shows ts c no_timer _ h (All-const ts) set
    where
      All-const : (us : List ℕ) → All (λ u. (u < no_timer) ⊎ (no_timer ≡ no_timer)) us
      All-const [] = tt
      All-const (u ∷ us) = (inr refl, All-const us)

  -- If the deadline of a channel that is switched on for `s` seconds reaches 2 ^ 32, a poll whose
  -- clock reads at least the deadline less 2 ^ 32, and less than the value -1, switches the
  -- channel off: also a poll before the deadline, while the clock has not rolled over yet.
  handle_relais-switch_on_for_rollover :
      (stray now : ℕ) (c : ℤ) (s : ℕ) (d : Device F) (t : ℕ)
      → IsChannel c
      → u32_mod ≤ now + s * 1000
      → now + s * 1000 ≤ u32_mod + t
      → t < no_timer
      → Shows c false no_timer (handle_relais t (switch_on_for stray now c (pos s) d))
  handle_relais-switch_on_for_rollover stray now c s d t h wraps soon small =
      handle_relais-Shows_due t c (add32 now (s * 1000 % u32_mod)) _ h (omega arith) (omega arith)
        (switch_on_for-Shows stray now c s d h)
