-- ===== src/Device/Relays/Tasks/Atomic.antt =====
-- src/DeviceHandler.cpp: when the calls of two tasks are as if each were one step.
use byte_waterlevel.Prelude.{ℕ, ◌≡◌, refl, ◌∙◌, sym, subst, ◌⊎◌, inl, inr, Bool, arith}
use byte_waterlevel.Prelude.Int.{ℤ, thousandfold}
use byte_waterlevel.Prelude.Words.{add32, to_u32}
use byte_waterlevel.Device.State.{Device}
use byte_waterlevel.Device.Relays.{is_due, set_relais, set_relais_duration, handle_relais}
use byte_waterlevel.Device.Relays.Tasks.{
  Channel, channel1, channel2, number, switch_for_code, handle_relais_code, timer_of, Runs,
}
use byte_waterlevel.Device.Relays.Tasks.Calm.{view, other, IsWaiting, Runs-undisturbed}

-- `setRelais` and then `setRelaisDuration`.
abbrev pub switch_for : {F : Type 0} → (stray now : ℕ) → Channel → Bool → ℤ → Device F → Device F
switch_for stray now c on seconds d =
    set_relais_duration now (number c) seconds (set_relais stray (number c) on d)

-- The deadline that it sets.
abbrev deadline_of : (now : ℕ) → (seconds : ℤ) → ℕ
deadline_of now seconds = add32 now (to_u32 (thousandfold seconds))

Channel-cases : (c k : Channel) → (k ≡ c) ⊎ (k ≡ other c)
Channel-cases channel1 channel1 = inl refl
Channel-cases channel1 channel2 = inr refl
Channel-cases channel2 channel1 = inr refl
Channel-cases channel2 channel2 = inl refl

module _ {F : Type 0} (stray at : ℕ) (seconds : ℤ) where
  view-switch_for :
      (c : Channel) (on : Bool) (d : Device F)
      → (view c (switch_for stray at c on seconds d)
          ≡ record { timer = deadline_of at seconds; state = on; level = on })
        × (view (other c) (switch_for stray at c on seconds d) ≡ view (other c) d)
  unfolding set_relais set_relais_duration
  view-switch_for c on d = ground arith

  -- A channel whose timer is not due is left alone by a poll, and what a poll does to a channel depends on
  -- that channel only.
  view-handle_relais_waiting :
      (now : ℕ) (c : Channel) (d : Device F)
      → IsWaiting now (timer_of c d)
      → view c (handle_relais now d) ≡ view c d
  unfolding handle_relais is_due
  view-handle_relais_waiting now c d h = ground arith

  view-handle_relais_cong :
      (now : ℕ) (c : Channel) (d d' : Device F)
      → view c d ≡ view c d'
      → view c (handle_relais now d) ≡ view c (handle_relais now d')
  unfolding handle_relais is_due
  view-handle_relais_cong now c d d' e = ground arith

  -- If neither the old timer of the channel nor the new one is due, the calls of both tasks are atomic:
  -- whatever the interleaving of their statements, both channels show what they show behind the poll
  -- and then the call of the web server, and also what they show behind these two the other way round.
  pub Runs-atomic :
      (now : ℕ) (c : Channel) (on : Bool) (d e : Device F)
      → Runs d (handle_relais_code now) (switch_for_code c on (deadline_of at seconds)) e
      → IsWaiting now (timer_of c d)
      → IsWaiting now (deadline_of at seconds)
      → (k : Channel)
      → (view k e ≡ view k (switch_for stray at c on seconds (handle_relais now d)))
        × (view k e ≡ view k (handle_relais now (switch_for stray at c on seconds d)))
  Runs-atomic now c on d e runs old new k =
      let (here, there) = Runs-undisturbed now (deadline_of at seconds) c on runs old new in
      let first = view-switch_for c on (handle_relais now d) in
      let second = view-switch_for c on d in
      let d' = switch_for stray at c on seconds d in
      let waits : IsWaiting now (timer_of c d') =
        subst (λ v. IsWaiting now v.timer) (sym second.0) new in
      elim (Channel-cases c k) [
        | inl same ↦
            rw same (
              here ∙ sym first.0,
              here ∙ sym (view-handle_relais_waiting now c d' waits ∙ second.0),
            )
        | inr differ ↦
            rw differ (
              there ∙ sym first.1,
              there ∙ sym (view-handle_relais_cong now (other c) d' d second.1),
            )
      ]
