-- ===== src/Mqtt.antt =====
-- src/MQTTHandler.cpp: the calls of the MQTT client library, in order, and when they are made.
pub mod Publishing
pub mod Polls
pub mod Reconnect
pub mod Period
use Prim.Native.String.{String}
use byte_waterlevel.Prelude.{
  ℕ, Bool, true, false, ltb, leb, ◌&&◌, not, List, [], ◌∷◌, ◌++◌, if◌then◌else◌,
}
use byte_waterlevel.Prelude.Int.{ℤ, pos, is_positive}
use byte_waterlevel.Prelude.Words.{sub32}
use byte_waterlevel.Settings.{mqtt_interval}
use byte_waterlevel.Json.{JsonLib, is_empty}
use byte_waterlevel.Automation.{Automation, is_filling, is_pumping, get_mode}
use byte_waterlevel.Device.State.{
  Device, get_level_cached, get_volume_cached, get_cpu_temperature_cached, get_adc_value_cached,
}
use byte_waterlevel.Device.Relays.{get_state, get_duration}

-- A payload is a text, or what `String` makes of a number.
pub data Payload (F : Type 0) : Type 0 where
  text : String → Payload F
  decimals : F → ℕ → Payload F
  integer : ℤ → Payload F

pub data Call (F : Type 0) : Type 0 where
  set_server : String → ℤ → Call F
  set_keep_alive : ℕ → Call F
  set_client_id : String → Call F
  set_credentials : String → String → Call F
  set_will : String → ℕ → Bool → String → Call F
  on_connect : Call F
  on_disconnect : Call F
  connect : Call F
  publish : String → ℕ → Bool → Payload F → Call F

pub record Mqtt (F : Type 0) : Type 0 where
  pub is_enabled : Bool
  pub previous_millis : ℕ
  pub reconnect : ℕ
  pub calls : List (Call F)

abbrev pub power_on : {F : Type 0} → Mqtt F
power_on = record { is_enabled = false; previous_millis = 0; reconnect = 0; calls = [] }

abbrev bit : {F : Type 0} → Bool → Payload F
bit b = if b then text "1" else text "0"

module _ {F : Type 0} where
  abbrev pub add_calls : List (Call F) → Mqtt F → Mqtt F
  add_calls new m = record m { calls = m.calls ++ new }

  -- `MQTTHandler::publish`
  abbrev published : String → Payload F → Call F
  published topic payload = publish topic 1 false payload

  abbrev last_will : Call F
  last_will = set_will "waterlevel/status" 1 true "offline"

  -- The listener that `setup` registers for a connection.
  unfoldable pub connected_listener : Mqtt F → Mqtt F
  connected_listener m = add_calls (published "waterlevel/status" (text "online") ∷ []) m

  module _ (J : JsonLib F) where
    open J use {Json, member, as_bool, as_int, as_string}

    -- The calls of `setup` for a host and a port that can be used.
    pub setup_calls : Json → List (Call F)
    setup_calls mqtt =
        let user = as_string (member mqtt "user") in
        set_server (as_string (member mqtt "host")) (as_int (member mqtt "port"))
        ∷ set_keep_alive 120
        ∷ set_client_id "walterlevel"
        ∷ ((if is_empty user
              then []
              else set_credentials user (as_string (member mqtt "password")) ∷ [])
            ++ (last_will ∷ on_connect ∷ on_disconnect ∷ connect ∷ []))

    unfoldable pub setup : ℕ → Json → Mqtt F → Mqtt F
    unfolding setup_calls
    setup now config m =
        let mqtt = member config "mqtt" in
        let usable =
          not (is_empty (as_string (member mqtt "host")))
          && is_positive (as_int (member mqtt "port")) in
        let started = record m { is_enabled = true; reconnect = now } in
        if as_bool (member mqtt "state")
        then (if usable then add_calls (setup_calls mqtt) started else started)
        else m

  -- What a publication sends: the device's and the automation's state.
  pub state_calls : ℕ → Automation F → Device F → List (Call F)
  state_calls now a d =
      published "waterlevel/voltage" (decimals (get_adc_value_cached d) 2)
      ∷ published "waterlevel/channel/1/state" (bit (get_state (pos 1) d))
      ∷ published "waterlevel/channel/1/duration" (integer (get_duration now (pos 1) d))
      ∷ published "waterlevel/channel/2/state" (bit (get_state (pos 2) d))
      ∷ published "waterlevel/channel/2/duration" (integer (get_duration now (pos 2) d))
      ∷ published "waterlevel/cpu" (decimals (get_cpu_temperature_cached d) 1)
      ∷ published "waterlevel/level" (decimals (get_level_cached d) 1)
      ∷ published "waterlevel/volume" (decimals (get_volume_cached d) 1)
      ∷ published "waterlevel/operation/fill" (bit (is_filling a))
      ∷ published "waterlevel/operation/pump" (bit (is_pumping a))
      ∷ published "waterlevel/operation/mode" (integer (get_mode a))
      ∷ []

  -- `connected` is `client.connected()`; `setup` reads the clock again, here the same value.
  unfoldable pub loop :
      (J : JsonLib F)
      → (now : ℕ) (connected : Bool) → J.Json
      → Automation F
      → Device F
      → Mqtt F
      → Mqtt F
  unfolding setup state_calls
  loop J now connected config a d m =
      if m.is_enabled
      then if connected
        then if leb mqtt_interval (sub32 now m.previous_millis)
          then add_calls (state_calls now a d) (record m { previous_millis = now })
          else m
        else if ltb 5000 (sub32 now m.reconnect)
        then setup J now config m
        else m
      else m
