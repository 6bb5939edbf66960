-- ===== src/Ota.antt =====
-- src/OTAHandler.cpp: the calls of the update libraries (ArduinoOTA and esp32FOTA), in order.
pub mod Secured
use Prim.Native.String.{String}
use byte_waterlevel.Prelude.{Bool, true, false, List, [], ◌∷◌, ◌++◌, if◌then◌else◌}
use byte_waterlevel.Settings.{update_server}
use byte_waterlevel.Json.{JsonLib}

pub data Call : Type 0 where
  set_hostname : String → Call
  set_mdns_enabled : Bool → Call
  set_reboot_on_success : Bool → Call
  set_password : String → Call
  begin : Call
  set_manifest_url : String → Call
  handle : Call
  pull_handle : Call
  exec_ota : Call

pub record Ota : Type 0 where
  pub ota_enabled : Bool
  pub calls : List Call

abbrev pub power_on : Ota
power_on = record { ota_enabled = false; calls = [] }

abbrev pub add_calls : List Call → Ota → Ota
add_calls new o = record o { calls = o.calls ++ new }

module _ {F : Type 0} (J : JsonLib F) where
  open J use {Json, member, as_bool, as_string}

  -- With an administrator the password is set before the server begins.
  unfoldable pub setup : Json → Ota → Ota
  setup config o =
      let admin = member config "admin" in
      let name = as_string (member (member (member config "wifi") "ap") "ssid") in
      let secured =
        (if as_bool (member admin "state")
          then set_password (as_string (member admin "password")) ∷ []
          else []) in
      let local =
        set_hostname name
        ∷ set_mdns_enabled true
        ∷ set_reboot_on_success true
        ∷ (secured ++ (begin ∷ [])) in
      let started = record (add_calls local o) { ota_enabled = true } in
      add_calls (set_manifest_url update_server ∷ [])
        (if as_bool (member config "ota") then started else o)

-- `connected` is `checkWAN()`.
unfoldable pub loop : Bool → Ota → Ota
loop connected o =
    let handled = (if o.ota_enabled then add_calls (handle ∷ []) o else o) in
    if connected then add_calls (pull_handle ∷ []) handled else handled

-- `newer` is the result of `execHTTPcheck`, which is called only with a connection.
abbrev pub has_update : (connected newer : Bool) → Bool
has_update connected newer = if connected then newer else false

abbrev pub update : Ota → Ota
update o = add_calls (exec_ota ∷ []) o
