-- ===== src/Mqtt/Publishing.antt =====
-- src/MQTTHandler.cpp: the order of the client's calls.
use byte_waterlevel.Prelude.{
  ℕ, ◌≡◌, refl, ◌∙◌, Bool, true, false, ◌&&◌, List, [], ◌∷◌, ◌++◌, arith, Bool-cases, inl, inr,
  if◌then◌else◌,
}
use byte_waterlevel.Json.{JsonLib, is_empty}
use byte_waterlevel.Automation.{Automation}
use byte_waterlevel.Device.State.{Device}
use byte_waterlevel.Mqtt.{
  Call, connect, set_will, Mqtt, power_on, setup_calls, setup, state_calls, loop,
  connected_listener,
}

module _ {F : Type 0} where
  -- Every `connect` stands behind a `setWill` of its own.
  pub will_first : Bool → List (Call F) → Bool
  will_first armed [] = true
  will_first armed (set_will topic qos retain payload ∷ rest) = will_first true rest
  will_first armed (connect ∷ rest) = armed && will_first false rest
  will_first armed (_ ∷ rest) = will_first armed rest

  will_first-append :
      (new : List (Call F))
      → ((armed : Bool) → will_first armed new ≡ true)
      → (old : List (Call F)) (armed : Bool) → will_first armed (old ++ new) ≡ will_first armed old
  unfolding will_first
  will_first-append new h [] armed = h armed
  will_first-append new h (set_will topic qos retain payload ∷ rest) armed =
      will_first-append new h rest true
  will_first-append new h (connect ∷ rest) armed = rw (will_first-append new h rest false)
  will_first-append new h (_ ∷ rest) armed = will_first-append new h rest armed

  will_first-state_calls :
      (now : ℕ) (a : Automation F) (d : Device F) (armed : Bool)
      → will_first armed (state_calls now a d) ≡ true
  unfolding will_first state_calls
  will_first-state_calls now a d armed = refl

  pub will_first-listener :
      (m : Mqtt F)
      → will_first false m.calls ≡ true
      → will_first false (connected_listener m).calls ≡ true
  unfolding connected_listener will_first
  will_first-listener m h = will_first-append _ (λ _. refl) m.calls false ∙ h

  module _ (J : JsonLib F) where
    will_first-setup_calls :
        (mqtt : J.Json) (armed : Bool) → will_first armed (setup_calls J mqtt) ≡ true
    unfolding will_first setup_calls
    will_first-setup_calls mqtt armed =
        elim (Bool-cases (is_empty (J.as_string (J.member mqtt "user")))) [
          | inl e ↦ rw e
          | inr e ↦ rw e
        ]

    will_first-setup :
        (now : ℕ) (config : J.Json) (m : Mqtt F)
        → will_first false m.calls ≡ true
        → will_first false (setup J now config m).calls ≡ true
    unfolding setup
    will_first-setup now config m h = ground (
      arith,
      will_first-append (setup_calls J (J.member config "mqtt"))
          (will_first-setup_calls (J.member config "mqtt")) m.calls false,
    )

    -- The start, from power-on, with and without Wi-Fi.
    pub will_first-start :
        (connected : Bool) (now : ℕ) (config : J.Json)
        → will_first false (if connected then setup J now config power_on else power_on).calls
          ≡ true
    will_first-start true now config =
        will_first-setup now config power_on (unfold will_first in refl)
    will_first-start false now config = unfold will_first in refl

    -- A pass of the loop keeps the order in which each connection has its last will set first.
    pub will_first-loop :
        (now : ℕ) (connected : Bool) (config : J.Json) (a : Automation F) (d : Device F)
        (m : Mqtt F)
        → will_first false m.calls ≡ true
        → will_first false (loop J now connected config a d m).calls ≡ true
    unfolding loop
    will_first-loop now connected config a d m h = ground (
      arith,
      will_first-append (state_calls now a d) (will_first-state_calls now a d) m.calls false,
      will_first-append (setup_calls J (J.member config "mqtt"))
          (will_first-setup_calls (J.member config "mqtt")) m.calls false,
    )
