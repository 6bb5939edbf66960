-- ===== src/Mqtt/Reconnect.antt =====
-- src/MQTTHandler.cpp: how often the client connects.
use byte_waterlevel.Prelude.{
  ℕ, ◌+◌, ◌*◌, ◌≤◌, ◌<◌, ◌≡◌, refl, Bool, List, [], ◌∷◌, ◌++◌, arith, suc, Bool-cases, inl, inr,
}
use byte_waterlevel.Prelude.Words.{u32_mod, add32, sub32}
use byte_waterlevel.Json.{JsonLib, is_empty}
use byte_waterlevel.Automation.{Automation}
use byte_waterlevel.Device.State.{Device}
use byte_waterlevel.Mqtt.Polls.{Poll, polls, waits, polls-rate}
use byte_waterlevel.Mqtt.{Call, connect, Mqtt, setup_calls, state_calls, loop}

module _ {F : Type 0} where
  unfoldable pub connects : List (Call F) → ℕ
  connects [] = 0
  connects (connect ∷ rest) = suc (connects rest)
  connects (_ ∷ rest) = connects rest

  connects-append : (xs ys : List (Call F)) → connects (xs ++ ys) ≡ connects xs + connects ys
  unfolding connects
  connects-append [] ys = omega arith
  connects-append (connect ∷ rest) ys = omega (arith, connects-append rest ys)
  connects-append (_ ∷ rest) ys = omega (arith, connects-append rest ys)

  connects-state_calls :
      (now : ℕ) (a : Automation F) (d : Device F) → connects (state_calls now a d) ≡ 0
  unfolding connects state_calls
  connects-state_calls now a d = refl

  module _ (J : JsonLib F) where
    connects-setup_calls : (mqtt : J.Json) → connects (setup_calls J mqtt) ≡ 1
    unfolding connects setup_calls
    connects-setup_calls mqtt = elim (Bool-cases (is_empty (J.as_string (J.member mqtt "user")))) [
      | inl e ↦ rw e
      | inr e ↦ rw e
    ]

    -- One pass: a new connection uses up more than five seconds since the last attempt.
    connects_step :
        (now k : ℕ) (connected : Bool) (config : J.Json) (a : Automation F) (d : Device F)
        (m : Mqtt F)
        → now < u32_mod
        → m.reconnect < u32_mod
        → let t = add32 now k in
          let m' = loop J t connected config a d m in
          (connects m'.calls * 5001 + sub32 t m'.reconnect
            ≤ connects m.calls * 5001 + sub32 now m.reconnect + k)
          × (m'.reconnect < u32_mod)
    unfolding loop
    connects_step now k connected config a d m p q = ground (
      arith,
      connects-append m.calls (state_calls (add32 now k) a d),
      connects-state_calls (add32 now k) a d,
      connects-append m.calls (setup_calls J (J.member config "mqtt")),
      connects-setup_calls (J.member config "mqtt"),
    )

    -- Whatever the polls of an MQTT client meet, it connects at most once in 5001 milliseconds,
    -- counted from its last attempt; the clock and the time of the attempt are below 2 ^ 32.
    pub connects-polls-le :
        (now : ℕ) (config : J.Json) (ps : List (Poll F)) (m : Mqtt F)
        → now < u32_mod
        → m.reconnect < u32_mod
        → connects (polls J now config ps m).calls * 5001
          ≤ connects m.calls * 5001 + sub32 now m.reconnect + waits ps
    connects-polls-le now config ps m p q =
        polls-rate J config (λ n. connects n.calls) (λ n. n.reconnect) 5001
          (λ t x n h k. connects_step t x.wait x.connected config x.auto x.device n h k) now ps m p
          q
