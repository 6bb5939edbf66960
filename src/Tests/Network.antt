-- ===== src/Tests/Network.antt =====
-- MQTT and Wi-Fi at concrete times.
use byte_waterlevel.Mqtt.Polls.{Poll, polls}
use byte_waterlevel.Mqtt.Period.{publications, publications-polls-le}
use byte_waterlevel.Wifi.Recovery.{done, pass, mode, has_station, Passes-setup_stranded}
use byte_waterlevel.Wifi.{setup as wifi_setup, Wifi, power_on as wifi_power_on, loop}
use byte_waterlevel.Prelude.{ℕ, ◌*◌, ◌≤◌, ◌≡◌, refl, true, false, [], ◌∷◌, arith}
use byte_waterlevel.Mqtt.{Mqtt, power_on as mqtt_power_on}
use byte_waterlevel.Floats.Milli.{Milli}
use byte_waterlevel.Mqtt.Reconnect.{connects, connects-polls-le}
use byte_waterlevel.Json.Tree.{Value, object, field, bool, end}
use byte_waterlevel.Ota.{setup as ota_setup, power_on as ota_power_on}
use byte_waterlevel.Ota.Secured.{secured, passes, secured-passes-setup}
use byte_waterlevel.Tests.Data.{administrator, lib, open_config, half_full, both_modes}

abbrev enabled : Mqtt Milli
enabled = record mqtt_power_on { is_enabled = true }

abbrev offline_after : ℕ → Poll Milli
offline_after wait = record {
  wait = wait;
  connected = false;
  auto = both_modes;
  device = half_full;
}

connects-polls-le_example :
    connects (polls lib 0 open_config (offline_after 6000 ∷ offline_after 6000 ∷ []) enabled).calls
      * 5001
    ≤ 12_000
unfolding connects
connects-polls-le_example =
    connects-polls-le lib 0 open_config (offline_after 6000 ∷ offline_after 6000 ∷ []) enabled
      (omega arith) (omega arith)

-- An administrator, and the local update server on.
abbrev guarded_config : Value
guarded_config = object (field "ota" (bool true) (field "admin" administrator end))

secured-passes-setup_example :
    secured false false
      (passes (true ∷ false ∷ []) (ota_setup lib guarded_config ota_power_on)).calls
    ≡ true
secured-passes-setup_example = secured-passes-setup lib guarded_config (true ∷ false ∷ []) refl

abbrev online_after : ℕ → Poll Milli
online_after wait = record (offline_after wait) { connected = true }

publications-polls-le_example :
    publications (polls lib 0 open_config (online_after 600 ∷ online_after 600 ∷ []) enabled).calls
      * 1000
    ≤ 1200
unfolding publications
publications-polls-le_example =
    publications-polls-le lib 0 open_config (online_after 600 ∷ online_after 600 ∷ []) enabled
      (omega arith) (omega arith)

-- The station does not join; forty seconds later it is still off.
abbrev unjoined : Wifi
unjoined = wifi_setup lib 10 false open_config wifi_power_on

Passes-setup_stranded_example :
    let v = loop lib 40_000 false open_config unjoined in
    (v.ap_started ≡ true) × (has_station (mode v) ≡ false)
Passes-setup_stranded_example =
    Passes-setup_stranded lib 10 false open_config wifi_power_on refl
      (pass 40_000 false open_config done) ((λ e. cc), tt)

abbrev joined : Wifi
joined = wifi_setup lib 10 true open_config wifi_power_on
