-- ===== src/Tests/Relays.antt =====
-- The relays and the LED at concrete times.
use byte_waterlevel.Device.Relays.Remaining.{reported, get_duration-reported}
use byte_waterlevel.Prelude.{◌≡◌, refl, [], ◌∷◌, inl, arith}
use mathlib.Core.Bool.{xor}
use byte_waterlevel.Prelude.Int.{pos, negsuc}
use byte_waterlevel.Device.Relays.{get_duration}
use byte_waterlevel.Device.Blink.{handle_blink}
use byte_waterlevel.Device.Blink.Rate.{changes}
use byte_waterlevel.Tests.Data.{started}

-- The LED does change twice in that run.
changes_run : changes 0 (100 ∷ 200 ∷ 300 ∷ []) started ≡ 2
unfolding changes handle_blink xor
changes_run = refl

get_duration-reported_example :
    get_duration 7000 (pos 1) (record started { ch1 = 6000 }) ≡ negsuc 999
unfolding reported
get_duration-reported_example =
    get_duration-reported 7000 (pos 1) (record started { ch1 = 6000 }) (inl refl) (omega arith)
      (omega arith)
