-- ===== src/Tests/Tasks.antt =====
-- The two tasks at concrete times.
use byte_waterlevel.Prelude.{◌≡◌, ◌⊎◌, refl, true, false, [], ◌∷◌, inl, inr, arith}
use byte_waterlevel.Prelude.Int.{pos}
use byte_waterlevel.Floats.Milli.{Milli}
use byte_waterlevel.Device.State.{Device, no_timer}
use byte_waterlevel.Device.Relays.{is_due, handle_relais}
use byte_waterlevel.Device.Relays.Tasks.{
  channel1, channel2, clear_timer, set_state, write_pin, set_timer, switch_for_code,
  handle_relais_code, timer_of, followed_by, Runs, done, left, right,
}
use byte_waterlevel.Device.Relays.Tasks.Alone.{effects}
use byte_waterlevel.Device.Relays.Tasks.Calm.{view}
use byte_waterlevel.Device.Relays.Tasks.Atomic.{switch_for, Runs-atomic}
use byte_waterlevel.Device.Relays.Tasks.Kept.{Runs-timed}
use byte_waterlevel.Device.Relays.Tasks.Race.{Runs-disturbed}
use byte_waterlevel.Tests.Data.{started}

-- Channel 2 runs out at 4000.
abbrev running_out : Device Milli
running_out = record started { relay2 = true; ch2 = 4000 }

abbrev switched : Device Milli
switched =
    effects
      (clear_timer channel1
        ∷ set_state channel1 true
        ∷ write_pin channel1 true
        ∷ clear_timer channel2
        ∷ set_state channel2 false
        ∷ set_timer channel1 15_000
        ∷ write_pin channel2 false
        ∷ [])
      running_out

-- The poll at 5000 and the call for channel 1 take turns.
alternating :
    Runs running_out (handle_relais_code 5000) (switch_for_code channel1 true 15_000) switched
unfolding followed_by is_due
alternating =
    right _ (left _ (right _ (left _ (right _ (left _ (left _ (right _ (left _ done))))))))

Runs-atomic_example :
    (view channel2 switched
      ≡ view channel2 (switch_for 9 5000 channel1 true (pos 10) (handle_relais 5000 running_out)))
    × (view channel2 switched
        ≡ view channel2 (handle_relais 5000 (switch_for 9 5000 channel1 true (pos 10) running_out)))
Runs-atomic_example =
    Runs-atomic 9 5000 (pos 10) 5000 channel1 true running_out switched alternating (inr refl)
      (inl (omega arith)) channel2

Runs-disturbed_example :
    ((e : Device Milli) × Runs running_out
        (handle_relais_code 5000)
        (switch_for_code channel2 true 15_000)
        e
      × (view channel2 e ≡ record { timer = no_timer; state = false; level = false }))
    × ((e : Device Milli) × Runs running_out
          (handle_relais_code 5000)
          (switch_for_code channel2 true 15_000)
          e
        × (view channel2 e ≡ record { timer = 15_000; state = true; level = false }))
Runs-disturbed_example = Runs-disturbed 5000 15_000 channel2 running_out (omega arith) (omega arith)

Runs-timed_example :
    (timer_of channel1 switched ≡ 15_000)
    ⊎ (view channel1 switched ≡ record { timer = no_timer; state = false; level = false })
Runs-timed_example = Runs-timed 5000 15_000 channel1 true alternating
