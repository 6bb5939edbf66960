-- ===== src/Mqtt/Polls.antt =====
-- src/MQTTHandler.cpp: passes of the loop over time, and how often they do something that is spaced.
use byte_waterlevel.Prelude.{ℕ, ◌+◌, ◌*◌, ◌≤◌, ◌<◌, Bool, List, [], ◌∷◌, arith}
use byte_waterlevel.Prelude.Words.{u32_mod, add32, sub32}
use byte_waterlevel.Json.{JsonLib}
use byte_waterlevel.Device.State.{Device}
use byte_waterlevel.Automation.{Automation}
use byte_waterlevel.Mqtt.{Mqtt, loop}

-- A pass, `wait` milliseconds behind the one before it, with what it meets.
pub record Poll (F : Type 0) : Type 0 where
  pub wait : ℕ
  pub connected : Bool
  pub auto : Automation F
  pub device : Device F

abbrev pub waits : {F : Type 0} → List (Poll F) → ℕ
waits [] = 0
waits (p ∷ ps) = p.wait + waits ps

module _ {F : Type 0} (J : JsonLib F) where
  pub polls : ℕ → J.Json → List (Poll F) → Mqtt F → Mqtt F
  polls now config [] m = m
  polls now config (p ∷ ps) m =
      let t = add32 now p.wait in polls t config ps (loop J t p.connected config p.auto p.device m)

  -- If each pass pays for what it counts by the time since `last`, no run counts more than its time
  -- allows.
  pub polls-rate :
      (config : J.Json) (count last : Mqtt F → ℕ) (interval : ℕ)
      → ((now : ℕ) (p : Poll F) (m : Mqtt F)
          → now < u32_mod
          → last m < u32_mod
          → let t = add32 now p.wait in
            let m' = loop J t p.connected config p.auto p.device m in
            (count m' * interval + sub32 t (last m')
              ≤ count m * interval + sub32 now (last m) + p.wait)
            × (last m' < u32_mod))
      → (now : ℕ) (ps : List (Poll F)) (m : Mqtt F) → now < u32_mod
      → last m < u32_mod
      → count (polls now config ps m) * interval
        ≤ count m * interval + sub32 now (last m) + waits ps
  unfolding polls
  polls-rate config count last interval step now [] m p q = omega arith
  polls-rate config count last interval step now (x ∷ xs) m p q =
      let t = add32 now x.wait in
      let m' = loop J t x.connected config x.auto x.device m in
      let one = step now x m p q in
      let rest = polls-rate config count last interval step t xs m' (omega arith) one.1 in
      omega (arith, one.0, rest)
