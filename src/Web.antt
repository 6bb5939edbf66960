-- ===== src/Web.antt =====
-- src/WebHandler.cpp: the page, the API and its authentication.
pub mod Dispatch
pub mod Answers
pub mod Access
pub mod Relays
pub mod Pins
pub mod Save
pub mod Storage
pub mod Served
pub mod Status
pub mod Updates
use Prim.Native.String.{String}
use text.Mathlib.Text.{◌==◌}
use byte_waterlevel.Prelude.{
  ℕ, ◌/◌, Bool, true, false, not, ◌&&◌, List, [], ◌∷◌, Option, none, some, if◌then◌else◌,
}
use byte_waterlevel.Prelude.Int.{ℤ, pos}
use byte_waterlevel.Prelude.Words.{to_i8}
use byte_waterlevel.Settings.{version}
use byte_waterlevel.Floats.{Floats}
use byte_waterlevel.Json.{JsonLib}
use byte_waterlevel.Files.{Files, exists, config_path, save_file, reset, get_config, save_config}
use byte_waterlevel.Device.State.{
  Device, get_level_cached, get_volume_cached, get_current_cached, get_cpu_temperature_cached,
  get_adc_value_cached,
}
use byte_waterlevel.Device.Relays.{set_relais, set_relais_duration, get_state}
use byte_waterlevel.Ota.{has_update, update}
use byte_waterlevel.World.{World, Response, answer, challenge, page, send}

-- What a call meets: the clock, the pin of an unset variable, and what the hardware and the libraries
-- report.
pub record Ambient (F : Type 0) : Type 0 where
  pub now : ℕ
  pub stray : ℕ
  pub cpu_frequency : ℕ
  pub rssi : F
  pub mqtt_connected : Bool
  pub wifi_connected : Bool
  pub newer_firmware : Bool

-- `authenticate` tells whether the request carries the given user and password.
pub record Request (Json : Type 0) : Type 0 where
  pub authenticate : Json → Json → Bool
  pub body : Json

-- `sendResponse`
abbrev send_response : {F J : Type 0} → ℕ → String → World F J → World F J
send_response status content = send (answer status "application/json" content)

abbrev send_invalid : {F J : Type 0} → World F J → World F J
send_invalid = send_response 400 "{\"type\":\"error\",\"message\":\"Invalid request\"}"

abbrev send_ok : {F J : Type 0} → World F J → World F J
send_ok = send_response 200 "{\"type\":\"success\",\"message\":\"OK\"}"

-- What the branch "relais" does to the device. The channel of `setRelais` is an `int8_t`.
unfoldable pub switch_relais : {F : Type 0} → Ambient F → ℤ → Bool → Option ℤ → Device F → Device F
switch_relais env channel state none d = set_relais env.stray (to_i8 channel) state d
switch_relais env channel state (some duration) d =
    set_relais_duration env.now channel duration (set_relais env.stray (to_i8 channel) state d)

module _ {F : Type 0} (J : JsonLib F) where
  open J use {Json, member, set_member, set_element, new_document, as_bool, as_int, as_string}
  open J use {
    is_object, is_int, is_bool, is_string, of_bool, of_int, of_float, of_string, serialize,
  }

  unfoldable pub duration_of : Json → Option ℤ
  duration_of json =
      let duration = member json "duration" in
      if is_int duration then some (as_int duration) else none

  -- The branch "relais" of `handleAPICall`.
  pub relais_call : Ambient F → Json → World F Json → World F Json
  unfolding duration_of
  relais_call env json w =
      let channel = as_int (member json "channel") in
      let state = as_bool (member json "state") in
      let switched = switch_relais env channel state (duration_of json) w.device in
      if is_int (member json "channel") && is_bool (member json "state")
      then send_ok (record w { device = switched })
      else w

  -- The document that "status" sends.
  unfoldable pub status_document : Ambient F → World F Json → Json
  status_document env w =
      let typed = set_member new_document "type" (of_string "success") in
      let first = set_element (member typed "channels") 0 (of_bool (get_state (pos 1) w.device)) in
      let second = set_element first 1 (of_bool (get_state (pos 2) w.device)) in
      let channels = set_member typed "channels" second in
      let adc = set_member channels "adc" (of_float (get_adc_value_cached w.device)) in
      let current = set_member adc "current" (of_float (get_current_cached w.device)) in
      let level = set_member current "level" (of_float (get_level_cached w.device)) in
      let volume = set_member level "volume" (of_float (get_volume_cached w.device)) in
      let cpu = set_member volume "cpu" (of_float (get_cpu_temperature_cached w.device)) in
      let frequency = set_member cpu "frequency" (of_int (pos env.cpu_frequency)) in
      let rssi = set_member frequency "rssi" (of_float env.rssi) in
      let mqtt = set_member rssi "mqtt" (of_bool env.mqtt_connected) in
      set_member mqtt "up" (of_int (pos (env.now / 1000)))

  -- The document that "info" sends.
  unfoldable pub info_document : Ambient F → World F Json → Json
  info_document env w =
      let config = set_member new_document "config" (get_config w.files) in
      let firmware = set_member config "firmware" (of_string version) in
      let newer = of_bool (has_update env.wifi_connected env.newer_firmware) in
      set_member (set_member firmware "update" newer) "type" (of_string "success")

  -- The branch "save".
  pub save_call : Json → World F Json → World F Json
  save_call json w =
      let config = member json "config" in
      let saved = save_config config (save_file config_path (serialize config) w.files) in
      if is_object config then send_ok (record w { files = saved }) else send_invalid w

  -- The branch "update".
  pub update_call : Ambient F → World F Json → World F Json
  update_call env w =
      if has_update env.wifi_connected env.newer_firmware
      then send_ok (record w { ota = update w.ota })
      else send_response 400 "{\"type\":\"error\",\"message\":\"No update available\"}" w

  -- The branches of `handleAPICall` from "save" on.
  pub maintenance_call : Ambient F → Json → World F Json → World F Json
  maintenance_call env json w =
      let type = as_string (member json "type") in
      if type == "save"
      then save_call json w
      else if type == "restart"
      then send_ok (record w { restarting = true })
      else if type == "update"
      then update_call env w
      else if type == "reset"
      then send_ok (record w { files = reset w.files; restarting = true })
      else send_response 400 "{\"type\":\"error\",\"message\":\"Not implemented\"}" w

  pub handle_api_call : Ambient F → Json → World F Json → World F Json
  handle_api_call env json w =
      let type = as_string (member json "type") in
      if type == "relais"
      then relais_call env json w
      else if type == "status"
      then send_response 200 (serialize (status_document env w)) w
      else if type == "info"
      then send_response 200 (serialize (info_document env w)) w
      else maintenance_call env json w

  -- The answer, and what `needAuth` sends.
  unfoldable pub need_auth : Request Json → World F Json → Bool × World F Json
  need_auth request w =
      let admin = member (get_config w.files) "admin" in
      if as_bool (member admin "state")
        && not (request.authenticate (member admin "user") (member admin "password"))
      then (false, send challenge w)
      else (true, w)

  pub check_request : Json → World F Json → Bool × World F Json
  check_request json w = if is_string (member json "type") then (true, w) else (
    false,
    send_response 400 "{\"type\":\"error\",\"message\":\"No JSON payload provided\"}" w,
  )

  -- The handler of "/api".
  pub api : Ambient F → Request Json → World F Json → World F Json
  api env request w =
      let (authorized, w1) = need_auth request w in
      let (valid, w2) = check_request request.body w1 in
      if authorized then (if valid then handle_api_call env request.body w2 else w2) else w1

  -- The handler of "/".
  pub root : Request Json → World F Json → World F Json
  root request w =
      let (authorized, w1) = need_auth request w in
      if authorized
      then if exists "/index.html" w1.files
        then send page w1
        else send (answer 500 "text/plain" "Invalid LittleFS") w1
      else w1

-- The handler of every other path.
unfoldable pub not_found : {F J : Type 0} → World F J → World F J
not_found w = send (answer 404 "text/plain" "Page not found") w
