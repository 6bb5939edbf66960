-- ===== src/Mqtt/Period.antt =====
-- src/MQTTHandler.cpp: how often the state is published.
use text.Mathlib.Text.{◌==◌}
use byte_waterlevel.Prelude.{
  ℕ, ◌+◌, ◌*◌, ◌≤◌, ◌<◌, ◌≡◌, refl, List, [], ◌∷◌, ◌++◌, arith, Bool-cases, inl, inr, if◌then◌else◌,
}
use byte_waterlevel.Prelude.Words.{u32_mod, add32, sub32}
use byte_waterlevel.Json.{JsonLib, is_empty}
use byte_waterlevel.Device.State.{Device}
use byte_waterlevel.Automation.{Automation}
use byte_waterlevel.Mqtt.Polls.{Poll, polls, waits, polls-rate}
use byte_waterlevel.Mqtt.{Call, publish, Mqtt, setup_calls, setup, state_calls, loop}

module _ {F : Type 0} where
  -- How often a topic is published.
  unfoldable pub publications : List (Call F) → ℕ
  publications [] = 0
  publications (publish topic _ _ _ ∷ rest) =
      (if topic == "waterlevel/level" then 1 else 0) + publications rest
  publications (_ ∷ rest) = publications rest

  publications-append :
      (xs ys : List (Call F)) → publications (xs ++ ys) ≡ publications xs + publications ys
  unfolding publications
  publications-append [] ys = omega arith
  publications-append (publish topic _ _ _ ∷ rest) ys = omega (arith, publications-append rest ys)
  publications-append (_ ∷ rest) ys = publications-append rest ys

  publications-state_calls :
      (now : ℕ) (a : Automation F) (d : Device F) → publications (state_calls now a d) ≡ 1
  unfolding publications state_calls
  publications-state_calls now a d = refl

  module _ (J : JsonLib F) where
    publications-setup_calls : (mqtt : J.Json) → publications (setup_calls J mqtt) ≡ 0
    unfolding publications setup_calls
    publications-setup_calls mqtt =
        elim (Bool-cases (is_empty (J.as_string (J.member mqtt "user")))) [
          | inl e ↦ rw e
          | inr e ↦ rw e
        ]

    publications_step :
        (config : J.Json) (now : ℕ) (p : Poll F) (m : Mqtt F)
        → now < u32_mod
        → m.previous_millis < u32_mod
        → let t = add32 now p.wait in
          let m' = loop J t p.connected config p.auto p.device m in
          (publications m'.calls * 1000 + sub32 t m'.previous_millis
            ≤ publications m.calls * 1000 + sub32 now m.previous_millis + p.wait)
          × (m'.previous_millis < u32_mod)
    unfolding loop setup
    publications_step config now p m h q =
        let t = add32 now p.wait in
        ground (
          arith,
          publications-append m.calls (state_calls t p.auto p.device),
          publications-state_calls t p.auto p.device,
          publications-append m.calls (setup_calls J (J.member config "mqtt")),
          publications-setup_calls (J.member config "mqtt"),
        )

    -- Whatever the polls of an MQTT client meet, it publishes the level at most once in a second,
    -- counted from its last publication; the clock and the time of that are below 2 ^ 32.
    pub publications-polls-le :
        (now : ℕ) (config : J.Json) (ps : List (Poll F)) (m : Mqtt F)
        → now < u32_mod
        → m.previous_millis < u32_mod
        → publications (polls J now config ps m).calls * 1000
          ≤ publications m.calls * 1000 + sub32 now m.previous_millis + waits ps
    publications-polls-le now config ps m p q =
        polls-rate J config (λ n. publications n.calls) (λ n. n.previous_millis) 1000
          (publications_step config) now ps m p q
