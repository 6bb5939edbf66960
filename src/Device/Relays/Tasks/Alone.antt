-- ===== src/Device/Relays/Tasks/Alone.antt =====
-- src/DeviceHandler.cpp: the statements of one task, without another one, are the functions of the relays.
use byte_waterlevel.Prelude.{
  ℕ, ◌≡◌, ◌↔◌, refl, ◌∙◌, sym, ap, subst, Bool, List, [], ◌∷◌, ◌++◌, All, arith, Bool-cases, inl,
  inr,
}
use byte_waterlevel.Prelude.Int.{ℤ}
use byte_waterlevel.Prelude.Words.{add32, to_u32}
use byte_waterlevel.Prelude.Int.{thousandfold}
use byte_waterlevel.Device.State.{Device}
use byte_waterlevel.Device.Relays.{is_due, set_relais, set_relais_duration, handle_relais}
use byte_waterlevel.Device.Relays.Tasks.{
  Channel, channel1, channel2, number, Statement, test_timer, clear_timer, set_state, write_pin,
  set_timer, switch_for_code, handle_relais_code, timer_of, effect, followed_by, Runs, done, left,
}

-- No call follows the statement.
abbrev pub IsPlain : Statement → Type 0
IsPlain (test_timer _ _) = ⊥
IsPlain (clear_timer _) = Unit
IsPlain (set_state _ _) = Unit
IsPlain (write_pin _ _) = Unit
IsPlain (set_timer _ _) = Unit

module _ {F : Type 0} where
  abbrev pub effects : List Statement → Device F → Device F
  effects [] d = d
  effects (x ∷ xs) d = effects xs (effect x d)

  -- A statement with the call that follows it, and a list of them.
  abbrev pub perform : Statement → Device F → Device F
  perform x d = effects (followed_by x d) (effect x d)

  abbrev pub perform_all : List Statement → Device F → Device F
  perform_all [] d = d
  perform_all (x ∷ xs) d = perform_all xs (perform x d)

  pub IsPlain-followed_by : (x : Statement) (d : Device F) → IsPlain x → followed_by x d ≡ []
  unfolding followed_by
  IsPlain-followed_by (test_timer now _) d p = elim p [ ]
  IsPlain-followed_by (clear_timer _) d p = refl
  IsPlain-followed_by (set_state _ _) d p = refl
  IsPlain-followed_by (write_pin _ _) d p = refl
  IsPlain-followed_by (set_timer _ _) d p = refl

  followed_by-IsPlain : (x : Statement) (d : Device F) → All IsPlain (followed_by x d)
  unfolding followed_by
  followed_by-IsPlain (test_timer now c) d = elim (Bool-cases (is_due now (timer_of c d))) [
    | inl e ↦ rw e (tt, (tt, (tt, tt)))
    | inr e ↦ rw e tt
  ]
  followed_by-IsPlain (clear_timer _) d = tt
  followed_by-IsPlain (set_state _ _) d = tt
  followed_by-IsPlain (write_pin _ _) d = tt
  followed_by-IsPlain (set_timer _ _) d = tt

  -- Plain statements of the first task in a row.
  left-effects :
      (zs : List Statement) (d : Device F) {e : Device F} {xs ys : List Statement}
      → All IsPlain zs
      → Runs (effects zs d) xs ys e
      → Runs d (zs ++ xs) ys e
  left-effects [] d ps r = r
  left-effects (z ∷ zs) d {e} {xs} {ys} (p, ps) r =
      left z (rw (IsPlain-followed_by z d p) (left-effects zs (effect z d) ps r))

  pub left-perform :
      (x : Statement) (d : Device F) {e : Device F} {xs ys : List Statement}
      → Runs (perform x d) xs ys e
      → Runs d (x ∷ xs) ys e
  left-perform x d r =
      left x (left-effects (followed_by x d) (effect x d) (followed_by-IsPlain x d) r)

  -- A task alone has a run, to the device that `perform_all` gives, and no other.
  pub Runs-perform_all : (xs : List Statement) (d : Device F) → Runs d xs [] (perform_all xs d)
  Runs-perform_all [] d = done
  Runs-perform_all (x ∷ xs) d = left-perform x d (Runs-perform_all xs (perform x d))

  perform_all-append :
      (zs xs : List Statement) (d : Device F)
      → All IsPlain zs
      → perform_all (zs ++ xs) d ≡ perform_all xs (effects zs d)
  perform_all-append [] xs d ps = refl
  perform_all-append (z ∷ zs) xs d (p, ps) =
      ap (λ fs. perform_all (zs ++ xs) (effects fs (effect z d))) (IsPlain-followed_by z d p)
      ∙ perform_all-append zs xs (effect z d) ps

  pub Runs-unique : {d e : Device F} {xs : List Statement} → Runs d xs [] e → e ≡ perform_all xs d
  Runs-unique done = refl
  Runs-unique (left {d = d} x {xs = xs} r) =
      Runs-unique r ∙ perform_all-append (followed_by x d) xs (effect x d) (followed_by-IsPlain x d)

  handle_relais_code_lem :
      (now : ℕ) (d : Device F) → perform_all (handle_relais_code now) d ≡ handle_relais now d
  unfolding followed_by handle_relais set_relais
  handle_relais_code_lem now d = ground arith

  switch_for_code_lem :
      (stray now : ℕ) (c : Channel) (on : Bool) (seconds : ℤ) (d : Device F)
      → perform_all (switch_for_code c on (add32 now (to_u32 (thousandfold seconds)))) d
        ≡ set_relais_duration now (number c) seconds (set_relais stray (number c) on d)
  unfolding followed_by set_relais set_relais_duration
  switch_for_code_lem stray now channel1 on seconds d = refl
  switch_for_code_lem stray now channel2 on seconds d = refl

  -- A poll of the timers, or a call of `setRelais` and `setRelaisDuration` for a channel that exists,
  -- statement by statement and without another task, ends, and always where the functions of the
  -- relays take it.
  Runs-alone :
      (stray now : ℕ) (c : Channel) (on : Bool) (seconds : ℤ) (d e : Device F)
      → (Runs d (handle_relais_code now) [] e ↔ (e ≡ handle_relais now d))
        × (Runs d (switch_for_code c on (add32 now (to_u32 (thousandfold seconds)))) [] e
            ↔ (e ≡ set_relais_duration now (number c) seconds (set_relais stray (number c) on d)))
  Runs-alone stray now c on seconds d e = (
    (
      λ r. Runs-unique r ∙ handle_relais_code_lem now d,
      λ same.
          subst (λ f. Runs d (handle_relais_code now) [] f)
            (handle_relais_code_lem now d ∙ sym same) (Runs-perform_all (handle_relais_code now) d),
    ),
    (
      λ r. Runs-unique r ∙ switch_for_code_lem stray now c on seconds d,
      λ same.
          subst
            (λ f. Runs d (switch_for_code c on (add32 now (to_u32 (thousandfold seconds)))) [] f)
            (switch_for_code_lem stray now c on seconds d ∙ sym same)
            (Runs-perform_all (switch_for_code c on (add32 now (to_u32 (thousandfold seconds)))) d),
    ),
  )
