-- ===== src/Device/Relays/Tasks.antt =====
-- src/DeviceHandler.cpp: the relays under two tasks. The loop polls the timers in its own task; the web
-- server calls `setRelais` and `setRelaisDuration` in another one, and either may go on behind any
-- statement of the other.
pub mod Alone
pub mod Calm
pub mod Race
pub mod Kept
pub mod Atomic
use byte_waterlevel.Prelude.{ℕ, Bool, false, List, [], ◌∷◌, ◌++◌, if◌then◌else◌}
use byte_waterlevel.Prelude.Int.{ℤ, pos}
use byte_waterlevel.Settings.{relais_ch1, relais_ch2}
use byte_waterlevel.Device.State.{Device, no_timer, digital_write}
use byte_waterlevel.Device.Relays.{is_due}

pub data Channel : Type 0 where
  channel1 : Channel
  channel2 : Channel

abbrev pub number : Channel → ℤ
number channel1 = pos 1
number channel2 = pos 2

abbrev pub pin_of : Channel → ℕ
pin_of channel1 = relais_ch1
pin_of channel2 = relais_ch2

-- The statements of `handleRelais`, `setRelais` and `setRelaisDuration` for a channel that exists. A
-- condition is read at once, and `deadline` is what `millis() + (duration * 1000)` came to.
pub data Statement : Type 0 where
  test_timer : (now : ℕ) → Channel → Statement
  clear_timer : Channel → Statement
  set_state : Channel → Bool → Statement
  write_pin : Channel → Bool → Statement
  set_timer : Channel → (deadline : ℕ) → Statement

-- `setRelais`
abbrev pub set_relais_code : Channel → Bool → List Statement
set_relais_code c on = clear_timer c ∷ set_state c on ∷ write_pin c on ∷ []

-- `setRelais` and then `setRelaisDuration`
abbrev pub switch_for_code : Channel → Bool → (deadline : ℕ) → List Statement
switch_for_code c on deadline = set_relais_code c on ++ set_timer c deadline ∷ []

-- `handleRelais`
abbrev pub handle_relais_code : (now : ℕ) → List Statement
handle_relais_code now = test_timer now channel1 ∷ test_timer now channel2 ∷ []

module _ {F : Type 0} where
  abbrev pub timer_of : Channel → Device F → ℕ
  timer_of channel1 d = d.ch1
  timer_of channel2 d = d.ch2

  abbrev pub state_of : Channel → Device F → Bool
  state_of channel1 d = d.relay1
  state_of channel2 d = d.relay2

  -- What a statement writes.
  abbrev pub effect : Statement → Device F → Device F
  effect (test_timer now c) d = d
  effect (clear_timer channel1) d = record d { ch1 = no_timer }
  effect (clear_timer channel2) d = record d { ch2 = no_timer }
  effect (set_state channel1 on) d = record d { relay1 = on }
  effect (set_state channel2 on) d = record d { relay2 = on }
  effect (write_pin c on) d = digital_write (pin_of c) on d
  effect (set_timer channel1 deadline) d = record d { ch1 = deadline }
  effect (set_timer channel2 deadline) d = record d { ch2 = deadline }

  -- The call that follows a statement, if any.
  unfoldable pub followed_by : Statement → Device F → List Statement
  followed_by (test_timer now c) d =
      if is_due now (timer_of c d) then set_relais_code c false else []
  followed_by (clear_timer _) d = []
  followed_by (set_state _ _) d = []
  followed_by (write_pin _ _) d = []
  followed_by (set_timer _ _) d = []

  -- The runs of two tasks with the statements that each has left: from a device to a device.
  pub data Runs : Device F → List Statement → List Statement → Device F → Type 0 where
    done : {d : Device F} → Runs d [] [] d
    left :
        {d e : Device F} (x : Statement) {xs ys : List Statement}
        → Runs (effect x d) (followed_by x d ++ xs) ys e
        → Runs d (x ∷ xs) ys e
    right :
        {d e : Device F} (y : Statement) {xs ys : List Statement}
        → Runs (effect y d) xs (followed_by y d ++ ys) e
        → Runs d xs (y ∷ ys) e
