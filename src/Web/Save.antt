-- ===== src/Web/Save.antt =====
-- src/WebHandler.cpp: the request "save" and the flash.
use text.Mathlib.Text.{◌==◌}
use byte_waterlevel.Prelude.{◌≡◌, ◌∙◌, ap, true, false, arith}
use byte_waterlevel.Json.{JsonLib}
use byte_waterlevel.Files.{config_path, save_file, save_config}
use byte_waterlevel.World.{World, answer, send}
use byte_waterlevel.Web.{
  Ambient, Request, relais_call, update_call, check_request, save_call, maintenance_call,
  handle_api_call, need_auth, api,
}
use byte_waterlevel.Web.Dispatch.{api-admitted}

module _ {F : Type 0} (J : JsonLib F) where
  open J use {Json, member}

  -- An admitted request of the type "save" with an object as its configuration.
  pub record IsSaveCall (r : Request Json) (w : World F Json) : Type 0 where
    pub admitted : (need_auth J r w).0 ≡ true
    pub type_is_string : J.is_string (member r.body "type") ≡ true
    pub type_is : J.as_string (member r.body "type") ≡ "save"
    pub config_is_object : J.is_object (member r.body "config") ≡ true

  -- What it does.
  pub api_save-send :
      (env : Ambient F) (r : Request Json) (w : World F Json)
      → IsSaveCall r w
      → let config = member r.body "config" in
        api J env r w
        ≡ send
            (answer 200 "application/json" "{\"type\":\"success\",\"message\":\"OK\"}")
            (record w {
              files = save_config config (save_file config_path (J.serialize config) w.files);
            })
  unfolding handle_api_call maintenance_call save_call
  api_save-send env r w call =
      api-admitted J env r w call.admitted call.type_is_string
      ∙ rw (call.type_is, call.config_is_object)

  pub api_save-files :
      (env : Ambient F) (r : Request Json) (w : World F Json)
      → IsSaveCall r w
      → (api J env r w).files
        ≡ save_config
            (member r.body "config")
            (save_file config_path (J.serialize (member r.body "config")) w.files)
  unfolding send
  api_save-files env r w call = ap (λ v. v.files) (api_save-send env r w call)

  need_auth-files : (r : Request Json) (w : World F Json) → (need_auth J r w).1.files ≡ w.files
  unfolding need_auth send
  need_auth-files r w = ground arith

  check_request-files :
      (json : Json) (w : World F Json) → (check_request J json w).1.files ≡ w.files
  unfolding check_request send
  check_request-files json w = ground arith

  relais_call-files :
      (env : Ambient F) (json : Json) (w : World F Json)
      → (relais_call J env json w).files ≡ w.files
  unfolding relais_call send
  relais_call-files env json w = ground arith

  maintenance_call-files :
      (env : Ambient F) (json : Json) (w : World F Json)
      → (J.as_string (member json "type") == "save") ≡ false
      → (J.as_string (member json "type") == "reset") ≡ false
      → (maintenance_call J env json w).files ≡ w.files
  unfolding maintenance_call update_call send
  maintenance_call-files env json w not_save not_reset = rw (not_save, not_reset) (ground arith)

  handle_api_call-files :
      (env : Ambient F) (json : Json) (w : World F Json)
      → (J.as_string (member json "type") == "save") ≡ false
      → (J.as_string (member json "type") == "reset") ≡ false
      → (handle_api_call J env json w).files ≡ w.files
  unfolding handle_api_call send
  handle_api_call-files env json w not_save not_reset =
      ground
        (arith, relais_call-files env json w, maintenance_call-files env json w not_save not_reset)

  -- Any other request but "reset" leaves the files.
  pub api-files :
      (env : Ambient F) (r : Request Json) (w : World F Json)
      → (J.as_string (member r.body "type") == "save") ≡ false
      → (J.as_string (member r.body "type") == "reset") ≡ false
      → (api J env r w).files ≡ w.files
  unfolding api
  api-files env r w not_save not_reset =
      let w1 = (need_auth J r w).1 in
      let w2 = (check_request J r.body w1).1 in
      ground (
        arith,
        need_auth-files r w,
        check_request-files r.body w1,
        handle_api_call-files env r.body w2 not_save not_reset,
      )
