-- ===== src/Web/Served.antt =====
-- src/WebHandler.cpp: what any request does to the device.
use text.Mathlib.Text.{◌==◌}
use byte_waterlevel.Prelude.{◌≡◌, Bool, ◌&&◌, arith, if◌then◌else◌}
use byte_waterlevel.Json.{JsonLib}
use byte_waterlevel.World.{World, send}
use byte_waterlevel.Web.Pins.{maintenance_call-device}
use byte_waterlevel.Web.Relays.{need_auth-device}
use byte_waterlevel.Web.{
  Ambient, Request, switch_relais, duration_of, relais_call, handle_api_call, need_auth,
  check_request, api,
}

module _ {F : Type 0} (J : JsonLib F) where
  open J use {Json, member}

  -- Whether a request is admitted, and a well-formed call of the type "relais".
  abbrev pub is_served : Request Json → World F Json → Bool
  is_served r w =
      (need_auth J r w).0
      && J.is_string (member r.body "type")
      && (J.as_string (member r.body "type") == "relais")
      && J.is_int (member r.body "channel")
      && J.is_bool (member r.body "state")

  relais_call-device :
      (env : Ambient F) (json : Json) (w : World F Json)
      → (relais_call J env json w).device ≡ (
          if J.is_int (member json "channel") && J.is_bool (member json "state")
          then switch_relais env
              (J.as_int (member json "channel"))
              (J.as_bool (member json "state"))
              (duration_of J json)
              w.device
          else w.device)
  unfolding relais_call send
  relais_call-device env json w = ground arith

  pub api-device :
      (env : Ambient F) (r : Request Json) (w : World F Json)
      → (api J env r w).device ≡ (
          if is_served r w
          then switch_relais env
              (J.as_int (member r.body "channel"))
              (J.as_bool (member r.body "state"))
              (duration_of J r.body)
              w.device
          else w.device)
  unfolding api handle_api_call check_request send
  api-device env r w =
      let w1 = (need_auth J r w).1 in
      ground (
        arith,
        need_auth-device J r w,
        relais_call-device env r.body w1,
        maintenance_call-device J env r.body w1,
      )
