-- ===== src/Device/Relays/Bank.antt =====
-- src/DeviceHandler.cpp: the relays as a bank of two timed switches.
use byte_waterlevel.Prelude.{
  ℕ, ◌+◌, ◌*◌, ◌<◌, ◌≡◌, refl, ◌∙◌, ap, Bool, false, Option, none, some, List, [], ◌∷◌, ◌++◌, All,
  arith, leb, ◌==◌, if◌then◌else◌,
}
use byte_waterlevel.Prelude.Int.{ℤ, pos, ◌==ℤ◌}
use byte_waterlevel.Settings.{relais_ch1, relais_ch2}
use byte_waterlevel.Device.State.{Device, no_timer}
use byte_waterlevel.Device.Relays.{set_relais, set_relais_duration, handle_relais}
use byte_waterlevel.Device.Relays.Pins.{IsChannel}

-- A switch with its output and the time at which it goes off, if any.
pub record Switch : Type 0 where
  pub output : Bool
  pub off_at : Option ℕ

-- Channel 1 and channel 2.
abbrev pub Bank : Type 0
Bank = Switch × Switch

-- What happens to the relays: `setRelais`, `setRelaisDuration` at a time, and a poll at a time.
pub data Command : Type 0 where
  switch : ℤ → Bool → Command
  start : ℕ → ℤ → ℕ → Command
  poll : ℕ → Command

-- A switch that is due goes off.
abbrev expire : ℕ → Switch → Switch
expire now s = elim s.off_at [
  | none ↦ s
  | some t ↦ if leb t now then record { output = false; off_at = none } else s
]

abbrev on_channel : ℤ → (Switch → Switch) → Bank → Bank
on_channel c f (a, b) = if c ==ℤ pos 1 then (f a, b) else (a, f b)

-- The bank that is meant: a switch by hand forgets the time, a start keeps the output.
unfoldable pub intended : Command → Bank → Bank
intended (switch c on) b = on_channel c (λ _. record { output = on; off_at = none }) b
intended (start now c seconds) b =
    on_channel c (λ s. record s { off_at = some (now + seconds * 1000) }) b
intended (poll now) (a, b) = (expire now a, expire now b)

abbrev time_of : ℕ → Option ℕ
time_of n = if n == no_timer then none else some n

module _ {F : Type 0} where
  unfoldable pub execute : ℕ → Command → Device F → Device F
  execute stray (switch c on) d = set_relais stray c on d
  execute stray (start now c seconds) d = set_relais_duration now c (pos seconds) d
  execute stray (poll now) d = handle_relais now d

  -- The bank that a device shows: the levels of the pins and the timers.
  unfoldable pub bank : Device F → Bank
  bank d = (
    record { output = d.pins relais_ch1; off_at = time_of d.ch1 },
    record { output = d.pins relais_ch2; off_at = time_of d.ch2 },
  )

-- A channel that exists, and a deadline below the value -1.
abbrev IsSound : Command → Type 0
IsSound (switch c on) = IsChannel c
IsSound (start now c seconds) = IsChannel c × (now + seconds * 1000 < no_timer)
IsSound (poll now) = Unit

unfoldable pub intended_all : List Command → Bank → Bank
intended_all [] b = b
intended_all (k ∷ ks) b = intended_all ks (intended k b)

pub intended_all-append :
    (ks js : List Command) (b : Bank)
    → intended_all (ks ++ js) b ≡ intended_all js (intended_all ks b)
unfolding intended_all
intended_all-append [] js b = refl
intended_all-append (k ∷ ks) js b = intended_all-append ks js (intended k b)

module _ {F : Type 0} where
  pub bank-execute :
      (stray : ℕ) (k : Command) (d : Device F)
      → IsSound k
      → bank (execute stray k d) ≡ intended k (bank d)
  unfolding bank execute intended set_relais set_relais_duration handle_relais
  bank-execute stray (switch c on) d h = ground arith
  bank-execute stray (start now c seconds) d (h, fits) = ground arith
  bank-execute stray (poll now) d h = ground arith

  execute_all : ℕ → List Command → Device F → Device F
  execute_all stray [] d = d
  execute_all stray (k ∷ ks) d = execute_all stray ks (execute stray k d)

  -- The relays refine the bank: whatever is switched, started and polled, in any order, with channels
  -- that exist and deadlines below the value -1 of an `unsigned long`, the levels of the pins and the
  -- timers are those of the bank that is meant.
  bank-execute_all :
      (stray : ℕ) (ks : List Command) (d : Device F)
      → All IsSound ks
      → bank (execute_all stray ks d) ≡ intended_all ks (bank d)
  unfolding execute_all intended_all
  bank-execute_all stray [] d h = refl
  bank-execute_all stray (k ∷ ks) d (h, hs) =
      bank-execute_all stray ks (execute stray k d) hs
      ∙ ap (intended_all ks) (bank-execute stray k d h)
