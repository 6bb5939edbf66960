-- ===== src/Device/Relays/Tasks/Race.antt =====
-- src/DeviceHandler.cpp: what can happen when the web server switches a channel while its timer is due.
use byte_waterlevel.Prelude.{
  ℕ, ◌≡◌, refl, ◌∙◌, ap, ◌++◌, true, false, List, [], ◌∷◌, All, ◌≤◌, ◌<◌, arith,
}
use byte_waterlevel.Device.State.{Device, no_timer}
use byte_waterlevel.Device.Relays.{is_due}
use byte_waterlevel.Device.Relays.Tasks.{
  Channel, channel1, channel2, Statement, test_timer, clear_timer, set_state, write_pin, set_timer,
  set_relais_code, switch_for_code, handle_relais_code, timer_of, followed_by, Runs, left, right,
}
use byte_waterlevel.Device.Relays.Tasks.Alone.{
  effects, perform, perform_all, left-perform, Runs-perform_all,
}
use byte_waterlevel.Device.Relays.Tasks.Calm.{IsOwn, View, view, view_turns, Runs-view}

abbrev pub lost : View
lost = record { timer = no_timer; state = false; level = false }

abbrev torn : (deadline : ℕ) → View
torn deadline = record { timer = deadline; state = true; level = false }

IsOwn-any : (x : Statement) → IsOwn (λ _. Unit) x
IsOwn-any (test_timer _ _) = tt
IsOwn-any (clear_timer _) = tt
IsOwn-any (set_state _ _) = tt
IsOwn-any (write_pin _ _) = tt
IsOwn-any (set_timer _ _) = tt

All-IsOwn : (xs : List Statement) → All (IsOwn (λ _. Unit)) xs
All-IsOwn [] = tt
All-IsOwn (x ∷ xs) = (IsOwn-any x, All-IsOwn xs)

IsDue-is_due : (now timer : ℕ) → timer ≤ now → timer < no_timer → is_due now timer ≡ true
unfolding is_due
IsDue-is_due now timer p q = ground arith

abbrev torn_order : Channel → (deadline : ℕ) → List Statement
torn_order c deadline =
    clear_timer c ∷ set_state c false ∷ (switch_for_code c true deadline ++ write_pin c false ∷ [])

module _ {F : Type 0} where
  pub view-perform_all :
      (c : Channel) (xs : List Statement) (d : Device F)
      → view c (perform_all xs d) ≡ view_turns c xs (view c d)
  view-perform_all c xs d = Runs-view (λ _. Unit) c (Runs-perform_all xs d) tt tt (All-IsOwn xs) tt

  view-effects-lost :
      (deadline : ℕ) (c : Channel) (d : Device F)
      → view c (effects (switch_for_code c true deadline ++ set_relais_code c false) d) ≡ lost
  view-effects-lost deadline channel1 d = refl
  view-effects-lost deadline channel2 d = refl

  view-effects-torn :
      (deadline : ℕ) (c : Channel) (d : Device F)
      → view c (effects (torn_order c deadline) d) ≡ torn deadline
  view-effects-torn deadline channel1 d = refl
  view-effects-torn deadline channel2 d = refl

  -- The call of the web server as a whole comes behind the test of a timer that is due.
  Runs-lost :
      (now deadline : ℕ) (c : Channel) (xs : List Statement) (d : Device F)
      → is_due now (timer_of c d) ≡ true
      → (e : Device F) × Runs d (test_timer now c ∷ xs) (switch_for_code c true deadline) e
        × (view c e ≡ view_turns c xs lost)
  unfolding followed_by
  Runs-lost now deadline c xs d due =
      let f = effects (switch_for_code c true deadline ++ set_relais_code c false) d in
      let rest = left _ (left _ (left _ (Runs-perform_all xs f))) in
      (
        perform_all xs f,
        left (test_timer now c) (rw due (right _ (right _ (right _ (right _ rest))))),
        view-perform_all c xs f ∙ ap (view_turns c xs) (view-effects-lost deadline c d),
      )

  -- The call comes between the last two statements of the `setRelais` that follows the test.
  Runs-torn :
      (now deadline : ℕ) (c : Channel) (xs : List Statement) (d : Device F)
      → is_due now (timer_of c d) ≡ true
      → (e : Device F) × Runs d (test_timer now c ∷ xs) (switch_for_code c true deadline) e
        × (view c e ≡ view_turns c xs (torn deadline))
  unfolding followed_by
  Runs-torn now deadline c xs d due =
      let f = effects (torn_order c deadline) d in
      let rest = right _ (right _ (right _ (right _ (left _ (Runs-perform_all xs f))))) in
      (
        perform_all xs f,
        left (test_timer now c) (rw due (left _ (left _ rest))),
        view-perform_all c xs f ∙ ap (view_turns c xs) (view-effects-torn deadline c d),
      )

  -- If the timer of a channel is due at a poll, the web server can switch the channel on for a time,
  -- in its own task and at the same time, so that the relay is off in the end though the call came
  -- behind the test (its timer is forgotten with it); and so that the relay's pin is low in the end while
  -- its variable says that it is on and its timer runs.
  pub Runs-disturbed :
      (now deadline : ℕ) (c : Channel) (d : Device F)
      → timer_of c d ≤ now
      → timer_of c d < no_timer
      → ((e : Device F) × Runs d (handle_relais_code now) (switch_for_code c true deadline) e
          × (view c e ≡ record { timer = no_timer; state = false; level = false }))
        × ((e : Device F) × Runs d (handle_relais_code now) (switch_for_code c true deadline) e
            × (view c e ≡ record { timer = deadline; state = true; level = false }))
  Runs-disturbed now deadline channel1 d p q =
      let due = IsDue-is_due now d.ch1 p q in
      (
        Runs-lost now deadline channel1 (test_timer now channel2 ∷ []) d due,
        Runs-torn now deadline channel1 (test_timer now channel2 ∷ []) d due,
      )
  Runs-disturbed now deadline channel2 d p q =
      let d' = perform (test_timer now channel1) d in
      let kept : d'.ch2 ≡ d.ch2 =
        ap (λ v. v.timer) (view-perform_all channel2 (test_timer now channel1 ∷ []) d) in
      let due = IsDue-is_due now d'.ch2 (rw kept p) (rw kept q) in
      let one = Runs-lost now deadline channel2 [] d' due in
      let two = Runs-torn now deadline channel2 [] d' due in
      (
        (one.0, left-perform (test_timer now channel1) d one.1, one.2),
        (two.0, left-perform (test_timer now channel1) d two.1, two.2),
      )
