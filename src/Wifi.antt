-- ===== src/Wifi.antt =====
-- src/WiFiHandler.cpp: the station, the access point, and the calls of the WiFi library, in order.
pub mod Laws
pub mod Recovery
use Prim.Native.String.{String}
use byte_waterlevel.Prelude.{
  ℕ, Bool, true, false, not, ltb, leb, ◌&&◌, List, [], ◌∷◌, ◌++◌, if◌then◌else◌,
}
use byte_waterlevel.Prelude.Words.{sub32}
use byte_waterlevel.Json.{JsonLib, is_empty}

pub data WifiMode : Type 0 where
  sta ap ap_sta : WifiMode

pub data Call : Type 0 where
  set_auto_reconnect : Bool → Call
  hostname : String → Call
  set_mode : WifiMode → Call
  begin : String → String → Call
  soft_ap_config : List ℕ → List ℕ → List ℕ → Call
  soft_ap : String → String → Call
  soft_ap_disconnect : Bool → Call
  reconnect : Call

pub record Wifi : Type 0 where
  pub connection_start : ℕ
  pub last_reconnect : ℕ
  pub ap_started : Bool
  pub calls : List Call

abbrev pub power_on : Wifi
power_on = record { connection_start = 0; last_reconnect = 0; ap_started = false; calls = [] }

abbrev connection_timeout : ℕ
connection_timeout = 30_000

abbrev ap_ip : List ℕ
ap_ip = 10 ∷ 10 ∷ 10 ∷ 1 ∷ []

abbrev subnet : List ℕ
subnet = 255 ∷ 255 ∷ 255 ∷ 0 ∷ []

abbrev pub add_calls : List Call → Wifi → Wifi
add_calls new w = record w { calls = w.calls ++ new }

unfoldable pub stop_ap : Wifi → Wifi
stop_ap w =
    if w.ap_started
    then record (add_calls (soft_ap_disconnect true ∷ []) w) { ap_started = false }
    else w

-- The periodic attempt of `checkConnection`.
unfoldable pub try_reconnect : (now : ℕ) → Wifi → Wifi
try_reconnect now w =
    if leb 5000 (sub32 now w.last_reconnect)
    then record (add_calls (reconnect ∷ []) w) { last_reconnect = now }
    else w

module _ {F : Type 0} (J : JsonLib F) where
  open J use {Json, member, as_string, is_null}

  abbrev ap_of : Json → Json
  ap_of config = member (member config "wifi") "ap"

  abbrev client_of : Json → Json
  client_of config = member (member config "wifi") "client"

  abbrev pub is_wifi_client_usable : Json → Bool
  is_wifi_client_usable config =
      not (is_null (member config "wifi"))
      && not (is_null (member (client_of config) "ssid"))
      && not (is_empty (as_string (member (client_of config) "ssid")))
      && not (is_null (member (client_of config) "password"))

  unfoldable pub start_ap : Json → Bool → Wifi → Wifi
  start_ap config combine w =
      let ap_config = ap_of config in
      record (add_calls
        (set_mode (if combine then ap_sta else ap)
          ∷ soft_ap_config ap_ip ap_ip subnet
          ∷ soft_ap (as_string (member ap_config "ssid")) (as_string (member ap_config "password"))
          ∷ [])
        w) { ap_started = true }

  -- The start of the station in `setup`.
  unfoldable pub begin_station : (now : ℕ) → Json → Wifi → Wifi
  begin_station now config w =
      let client = client_of config in
      record (add_calls
        (hostname (as_string (member (ap_of config) "ssid"))
          ∷ set_mode sta
          ∷ begin (as_string (member client "ssid")) (as_string (member client "password"))
          ∷ [])
        w) { connection_start = now; ap_started = false }

  -- `joined` says whether `waitForConnectResult` returns WL_CONNECTED.
  unfoldable pub setup : (now : ℕ) (joined : Bool) → Json → Wifi → Wifi
  setup now joined config w =
      let ready = add_calls (set_auto_reconnect true ∷ []) w in
      let begun = begin_station now config ready in
      if is_wifi_client_usable config
      then (if joined then begun else start_ap config false begun)
      else start_ap config false ready

  -- The timeout of `checkConnection`: it is counted from the start of the connection.
  unfoldable pub start_ap_on_timeout : (now : ℕ) → Json → Wifi → Wifi
  start_ap_on_timeout now config w =
      if not w.ap_started && ltb connection_timeout (sub32 now w.connection_start)
      then start_ap config true w
      else w

  -- `connected` is `WiFi.status() == WL_CONNECTED`, read once.
  unfoldable pub check_connection : (now : ℕ) (connected : Bool) → Json → Wifi → Wifi
  check_connection now connected config w =
      if connected && w.ap_started
      then add_calls (set_mode sta ∷ []) (stop_ap w)
      else if connected
      then w
      else start_ap_on_timeout now config (try_reconnect now w)

  unfoldable pub loop : (now : ℕ) (connected : Bool) → Json → Wifi → Wifi
  loop now connected config w = check_connection now connected config w
