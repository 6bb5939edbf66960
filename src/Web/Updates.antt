-- ===== src/Web/Updates.antt =====
-- src/WebHandler.cpp: no request turns the local update server on or off.
use byte_waterlevel.Prelude.{◌≡◌, Bool, arith}
use byte_waterlevel.Json.{JsonLib}
use byte_waterlevel.World.{World, send}
use byte_waterlevel.Web.{
  Ambient, Request, relais_call, save_call, update_call, maintenance_call, handle_api_call,
  need_auth, check_request, api,
}

module _ {F : Type 0} (J : JsonLib F) where
  open J use {Json}

  abbrev enabled : World F Json → Bool
  enabled w = (w.ota).ota_enabled

  need_auth-enabled :
      (r : Request Json) (w : World F Json) → enabled (need_auth J r w).1 ≡ enabled w
  unfolding need_auth send
  need_auth-enabled r w = ground arith

  check_request-enabled :
      (json : Json) (w : World F Json) → enabled (check_request J json w).1 ≡ enabled w
  unfolding check_request send
  check_request-enabled json w = ground arith

  relais_call-enabled :
      (env : Ambient F) (json : Json) (w : World F Json)
      → enabled (relais_call J env json w) ≡ enabled w
  unfolding relais_call send
  relais_call-enabled env json w = ground arith

  maintenance_call-enabled :
      (env : Ambient F) (json : Json) (w : World F Json)
      → enabled (maintenance_call J env json w) ≡ enabled w
  unfolding maintenance_call save_call update_call send
  maintenance_call-enabled env json w = ground arith

  handle_api_call-enabled :
      (env : Ambient F) (json : Json) (w : World F Json)
      → enabled (handle_api_call J env json w) ≡ enabled w
  unfolding handle_api_call send
  handle_api_call-enabled env json w =
      ground (arith, relais_call-enabled env json w, maintenance_call-enabled env json w)

  pub api-ota_enabled :
      (env : Ambient F) (r : Request Json) (w : World F Json)
      → (api J env r w).ota.ota_enabled ≡ w.ota.ota_enabled
  unfolding api
  api-ota_enabled env r w =
      let w1 = (need_auth J r w).1 in
      let w2 = (check_request J r.body w1).1 in
      ground (
        arith,
        need_auth-enabled r w,
        check_request-enabled r.body w1,
        handle_api_call-enabled env r.body w2,
      )
