-- ===== src/Device/Relays/Tasks/Calm.antt =====
-- src/DeviceHandler.cpp: when a poll of the timers and a call of the web server do not disturb each
-- other.
use byte_waterlevel.Prelude.{
  ℕ, ◌≡◌, refl, ◌∙◌, sym, ap, subst, Bool, true, false, List, [], ◌∷◌, ◌++◌, All, ◌<◌, ◌⊎◌, arith,
  if◌then◌else◌, inr,
}
use byte_waterlevel.Device.State.{Device, no_timer}
use byte_waterlevel.Device.Relays.{is_due, handle_relais}
use byte_waterlevel.Device.Relays.Tasks.{
  Channel, channel1, channel2, pin_of, Statement, test_timer, clear_timer, set_state, write_pin,
  set_timer, switch_for_code, handle_relais_code, timer_of, state_of, effect, followed_by, Runs,
  done, left, right,
}

-- What a channel shows.
pub record View : Type 0 where
  pub timer : ℕ
  pub state : Bool
  pub level : Bool

abbrev pub view : {F : Type 0} → Channel → Device F → View
view c d = record { timer = timer_of c d; state = state_of c d; level = d.pins (pin_of c) }

abbrev pub same : Channel → Channel → Bool
same channel1 channel1 = true
same channel2 channel2 = true
same _ _ = false

-- What a statement, with the call that follows it, does to what a channel shows.
abbrev view_turn : Channel → Statement → View → View
view_turn k (test_timer now c) v =
    if same c k
    then (if is_due now v.timer
        then record { timer = no_timer; state = false; level = false }
        else v)
    else v
view_turn k (clear_timer c) v = if same c k then record v { timer = no_timer } else v
view_turn k (set_state c on) v = if same c k then record v { state = on } else v
view_turn k (write_pin c on) v = if same c k then record v { level = on } else v
view_turn k (set_timer c deadline) v = if same c k then record v { timer = deadline } else v

abbrev pub view_turns : Channel → List Statement → View → View
view_turns k [] v = v
view_turns k (x ∷ xs) v = view_turns k xs (view_turn k x v)

-- `Timer` says which values a timer has. A task that owns a channel sets only such values.
module _ (Timer : ℕ → Type 0) where
  abbrev pub IsOwn : Statement → Type 0
  IsOwn (set_timer c deadline) = Timer deadline
  IsOwn (test_timer _ _) = Unit
  IsOwn (clear_timer _) = Unit
  IsOwn (set_state _ _) = Unit
  IsOwn (write_pin _ _) = Unit

  -- A statement that leaves a channel alone: of the other channel, or a test that is not due.
  abbrev IsForeign : Channel → Statement → Type 0
  IsForeign k (test_timer now c) = same c k ≡ true → (t : ℕ) → Timer t → is_due now t ≡ false
  IsForeign k (clear_timer c) = same c k ≡ false
  IsForeign k (set_state c _) = same c k ≡ false
  IsForeign k (write_pin c _) = same c k ≡ false
  IsForeign k (set_timer c _) = same c k ≡ false

  All-append :
      (P : Statement → Type 0) (xs ys : List Statement) → All P xs → All P ys → All P (xs ++ ys)
  All-append P [] ys p q = q
  All-append P (x ∷ xs) ys (p, ps) q = (p, All-append P xs ys ps q)

  module _ {F : Type 0} where
    view-effect_foreign :
        (k : Channel) (y : Statement) (d : Device F)
        → IsForeign k y
        → view k (effect y d) ≡ view k d
    view-effect_foreign k y d h = ground arith

    followed_by-IsForeign :
        (k : Channel) (y : Statement) (d : Device F)
        → Timer (timer_of k d)
        → IsForeign k y
        → All (IsForeign k) (followed_by y d)
    unfolding followed_by
    followed_by-IsForeign channel1 (test_timer now channel1) d t h = rw (h refl d.ch1 t) tt
    followed_by-IsForeign channel2 (test_timer now channel2) d t h = rw (h refl d.ch2 t) tt
    followed_by-IsForeign channel1 (test_timer now channel2) d t h = ground arith
    followed_by-IsForeign channel2 (test_timer now channel1) d t h = ground arith
    followed_by-IsForeign k (clear_timer c) d t h = tt
    followed_by-IsForeign k (set_state c on) d t h = tt
    followed_by-IsForeign k (write_pin c on) d t h = tt
    followed_by-IsForeign k (set_timer c n) d t h = tt

    view_turns-followed_by :
        (k : Channel) (x : Statement) (xs : List Statement) (d : Device F)
        → view_turns k (followed_by x d ++ xs) (view k (effect x d))
          ≡ view_turns k (x ∷ xs) (view k d)
    unfolding followed_by
    view_turns-followed_by k x xs d = ground arith

    followed_by-IsOwn : (x : Statement) (d : Device F) → All IsOwn (followed_by x d)
    unfolding followed_by
    followed_by-IsOwn x d = ground arith

    timer_of-effect :
        (k : Channel) (x : Statement) (d : Device F)
        → Timer no_timer
        → IsOwn x
        → Timer (timer_of k d)
        → Timer (timer_of k (effect x d))
    timer_of-effect k x d none own t = ground arith

    -- A channel shows what the statements of the task that owns it say, whatever a task that leaves it
    -- alone does in between.
    pub Runs-view :
        (k : Channel) {d e : Device F} {xs ys : List Statement}
        → Runs d xs ys e
        → Timer no_timer
        → Timer (timer_of k d)
        → All IsOwn xs
        → All (IsForeign k) ys
        → view k e ≡ view_turns k xs (view k d)
    Runs-view k done none t own foreign = refl
    Runs-view k (left {d = d} x {xs = xs} rest) none t (o, os) foreign =
        Runs-view k rest none (timer_of-effect k x d none o t)
          (All-append IsOwn (followed_by x d) xs (followed_by-IsOwn x d) os) foreign
        ∙ view_turns-followed_by k x xs d
    Runs-view k (right {d = d} y {xs = xs} {ys = ys} rest) none t own (f, fs) =
        let kept = view-effect_foreign k y d f in
        let timer : Timer (timer_of k (effect y d)) = subst (λ v. Timer v.timer) (sym kept) t in
        Runs-view k rest none timer own
          (All-append (IsForeign k) (followed_by y d) ys (followed_by-IsForeign k y d t f) fs)
        ∙ ap (view_turns k xs) kept

Runs-swap : {F : Type 0} {d e : Device F} {xs ys : List Statement} → Runs d xs ys e → Runs d ys xs e
Runs-swap done = done
Runs-swap (left x rest) = right x (Runs-swap rest)
Runs-swap (right y rest) = left y (Runs-swap rest)

-- A timer that is not due.
abbrev pub IsWaiting : (now timer : ℕ) → Type 0
IsWaiting now timer = (now < timer) ⊎ (timer ≡ no_timer)

IsWaiting-is_due : (now timer : ℕ) → IsWaiting now timer → is_due now timer ≡ false
unfolding is_due
IsWaiting-is_due now timer h = ground arith

abbrev pub other : Channel → Channel
other channel1 = channel2
other channel2 = channel1

module _ {F : Type 0} where
  view-handle_relais :
      (now : ℕ) (k : Channel) (d : Device F)
      → view_turns k (handle_relais_code now) (view k d) ≡ view k (handle_relais now d)
  unfolding handle_relais
  view-handle_relais now k d = ground arith

  -- While the loop polls the timers at `now` and the web server switches a channel and starts its
  -- timer, in any interleaving of their statements: if neither the old timer of the channel nor the
  -- new one is due at `now`, the channel ends as it was switched, and the other channel as the poll
  -- alone leaves it.
  pub Runs-undisturbed :
      (now deadline : ℕ) (c : Channel) (on : Bool) {d e : Device F}
      → Runs d (handle_relais_code now) (switch_for_code c on deadline) e
      → IsWaiting now (timer_of c d)
      → IsWaiting now deadline
      → (view c e ≡ record { timer = deadline; state = on; level = on })
        × (view (other c) e ≡ view (other c) (handle_relais now d))
  Runs-undisturbed now deadline channel1 on {d} runs old new =
      let calm = λ (t : ℕ) (h : IsWaiting now t). IsWaiting-is_due now t h in
      (
        Runs-view (IsWaiting now) channel1 (Runs-swap runs) (inr refl) old
            (tt, (tt, (tt, (new, tt)))) ((λ _. calm), ((λ e. cc), tt)),
        Runs-view (λ _. Unit) channel2 runs tt tt (tt, (tt, tt)) (refl, (refl, (refl, (refl, tt))))
            ∙ view-handle_relais now channel2 d,
      )
  Runs-undisturbed now deadline channel2 on {d} runs old new =
      let calm = λ (t : ℕ) (h : IsWaiting now t). IsWaiting-is_due now t h in
      (
        Runs-view (IsWaiting now) channel2 (Runs-swap runs) (inr refl) old
            (tt, (tt, (tt, (new, tt)))) ((λ e. cc), ((λ _. calm), tt)),
        Runs-view (λ _. Unit) channel1 runs tt tt (tt, (tt, tt)) (refl, (refl, (refl, (refl, tt))))
            ∙ view-handle_relais now channel1 d,
      )
