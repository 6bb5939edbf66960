-- ===== src/Device/Relays/Tasks/Kept.antt =====
-- src/DeviceHandler.cpp: what every interleaving of a poll of the timers with a timed switch leaves.
use byte_waterlevel.Prelude.{
  ℕ, ◌≡◌, refl, ◌∙◌, sym, ap, subst, ◌⊎◌, inl, inr, Bool, false, List, [], ◌∷◌, ◌++◌, arith,
  Bool-cases,
}
use byte_waterlevel.Device.State.{Device, no_timer}
use byte_waterlevel.Device.Relays.{is_due}
use byte_waterlevel.Device.Relays.Tasks.{
  Channel, channel1, channel2, Statement, test_timer, clear_timer, set_state, write_pin, set_timer,
  switch_for_code, handle_relais_code, timer_of, effect, followed_by, Runs, done, left, right,
}
use byte_waterlevel.Device.Relays.Tasks.Alone.{IsPlain, IsPlain-followed_by, Runs-unique}
use byte_waterlevel.Device.Relays.Tasks.Calm.{View, view, view_turns}
use byte_waterlevel.Device.Relays.Tasks.Race.{lost, view-perform_all}

-- What is left of a task that tests timers and switches channels off.
data Polls : List Statement → Type 0 where
  polls_done : Polls []
  polls_test :
      (now : ℕ) (k : Channel) {xs : List Statement} → Polls xs → Polls (test_timer now k ∷ xs)
  polls_clear :
      (k : Channel) {xs : List Statement}
      → Polls xs
      → Polls (clear_timer k ∷ set_state k false ∷ write_pin k false ∷ xs)
  polls_set :
      (k : Channel) {xs : List Statement}
      → Polls xs
      → Polls (set_state k false ∷ write_pin k false ∷ xs)
  polls_write : (k : Channel) {xs : List Statement} → Polls xs → Polls (write_pin k false ∷ xs)

-- What is left of a call that has not yet set its timer: plain statements, the last one `s`.
abbrev EndsIn : Statement → List Statement → Type 0
EndsIn s [] = ⊥
EndsIn s (y ∷ ys) = IsPlain y × (((y ≡ s) × (ys ≡ [])) ⊎ EndsIn s ys)

-- The timer is as the call set it, or the channel is off.
abbrev IsKept : (deadline : ℕ) → View → Type 0
IsKept deadline v = (v.timer ≡ deadline) ⊎ (v ≡ lost)

view_turns-IsKept :
    (deadline : ℕ) (c : Channel) {xs : List Statement} (v : View)
    → Polls xs
    → IsKept deadline v
    → IsKept deadline (view_turns c xs v)
view_turns-IsKept deadline c v polls_done kept = kept
view_turns-IsKept deadline c v (polls_test now k rest) kept =
    view_turns-IsKept deadline c _ rest (ground arith)
view_turns-IsKept deadline c v (polls_clear k rest) kept =
    view_turns-IsKept deadline c _ rest (ground arith)
view_turns-IsKept deadline c v (polls_set k rest) kept =
    view_turns-IsKept deadline c _ rest (ground arith)
view_turns-IsKept deadline c v (polls_write k rest) kept =
    view_turns-IsKept deadline c _ rest (ground arith)

module _ {F : Type 0} where
  Polls-followed_by :
      {x : Statement} {xs : List Statement} (d : Device F)
      → Polls (x ∷ xs)
      → Polls (followed_by x d ++ xs)
  unfolding followed_by
  Polls-followed_by d (polls_test now k rest) = elim (Bool-cases (is_due now (timer_of k d))) [
    | inl e ↦ rw e (polls_clear k rest)
    | inr e ↦ rw e rest
  ]
  Polls-followed_by d (polls_clear k rest) = polls_set k rest
  Polls-followed_by d (polls_set k rest) = polls_write k rest
  Polls-followed_by d (polls_write k rest) = rest

  timer_of-set_timer :
      (deadline : ℕ) (c : Channel) (d : Device F)
      → timer_of c (effect (set_timer c deadline) d) ≡ deadline
  timer_of-set_timer deadline channel1 d = refl
  timer_of-set_timer deadline channel2 d = refl

  -- The call has ended.
  Runs-IsKept_ended :
      (deadline : ℕ) (c : Channel) {d e : Device F} {xs : List Statement}
      → Runs d xs [] e
      → Polls xs
      → IsKept deadline (view c d)
      → IsKept deadline (view c e)
  Runs-IsKept_ended deadline c {d} {e} {xs} runs p kept =
      let shown = ap (view c) (Runs-unique runs) ∙ view-perform_all c xs d in
      subst (IsKept deadline) (sym shown) (view_turns-IsKept deadline c (view c d) p kept)

  Runs-IsKept :
      (deadline : ℕ) (c : Channel) {d e : Device F} {xs ys : List Statement}
      → Runs d xs ys e
      → Polls xs
      → EndsIn (set_timer c deadline) ys
      → IsKept deadline (view c e)
  Runs-IsKept deadline c done p ends = elim ends [ ]
  Runs-IsKept deadline c (left {d = d} x rest) p ends =
      Runs-IsKept deadline c rest (Polls-followed_by d p) ends
  Runs-IsKept deadline c (right {d = d} y rest) p (plain, inr ends) =
      Runs-IsKept deadline c rest p (rw (IsPlain-followed_by y d plain) ends)
  Runs-IsKept deadline c (right {d = d} y rest) p (plain, inl (last, none)) =
      let set = ap (λ z. timer_of c (effect z d)) last ∙ timer_of-set_timer deadline c d in
      Runs-IsKept_ended deadline c (rw (IsPlain-followed_by y d plain, none) at rest) p (inl set)

  -- However the statements of a poll of the timers and of a call that switches a channel and starts its
  -- timer interleave, timers that are due included: in the end the channel's timer is the one that the
  -- call set, or the channel is off, variable and pin, and has no timer.
  pub Runs-timed :
      (now deadline : ℕ) (c : Channel) (on : Bool) {d e : Device F}
      → Runs d (handle_relais_code now) (switch_for_code c on deadline) e
      → (timer_of c e ≡ deadline)
        ⊎ (view c e ≡ record { timer = no_timer; state = false; level = false })
  Runs-timed now deadline c on runs =
      Runs-IsKept deadline c runs (polls_test now channel1 (polls_test now channel2 polls_done))
        (tt, inr (tt, inr (tt, inr (tt, inl (refl, refl)))))
