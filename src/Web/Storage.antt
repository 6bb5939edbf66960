-- ===== src/Web/Storage.antt =====
-- src/WebHandler.cpp: what a request other than "reset" does to the files.
use text.Mathlib.Text.{◌==◌}
use byte_waterlevel.Prelude.{◌≡◌, false, arith}
use byte_waterlevel.Json.{JsonLib}
use byte_waterlevel.Files.{Files, config_path, save_file, save_config}
use byte_waterlevel.World.{World, send}
use byte_waterlevel.Web.{
  Ambient, Request, relais_call, update_call, check_request, save_call, maintenance_call,
  handle_api_call, need_auth, api,
}

module _ {F : Type 0} (J : JsonLib F) where
  open J use {Json, member}

  -- The files behind a save.
  abbrev pub saved : Json → Files Json → Files Json
  saved config f = save_config config (save_file config_path (J.serialize config) f)

  -- `P` is what a save of this document keeps.
  module _ (P : Files Json → Type 0) (env : Ambient F) where
    save_call-files :
        (json : Json) (w : World F Json)
        → ((f : Files Json) → P f → P (saved (member json "config") f))
        → P w.files
        → P (save_call J json w).files
    unfolding save_call send
    save_call-files json w kept p = ground (arith, kept w.files p)

    maintenance_call-kept :
        (json : Json) (w : World F Json)
        → ((f : Files Json) → P f → P (saved (member json "config") f))
        → (J.as_string (member json "type") == "reset") ≡ false
        → P w.files
        → P (maintenance_call J env json w).files
    unfolding maintenance_call update_call send
    maintenance_call-kept json w kept not_reset p = ground (arith, save_call-files json w kept p)

    handle_api_call-kept :
        (json : Json) (w : World F Json)
        → ((f : Files Json) → P f → P (saved (member json "config") f))
        → (J.as_string (member json "type") == "reset") ≡ false
        → P w.files
        → P (handle_api_call J env json w).files
    unfolding handle_api_call relais_call send
    handle_api_call-kept json w kept not_reset p =
        ground (arith, maintenance_call-kept json w kept not_reset p)

    -- So does every request with it that is no reset.
    pub api-kept :
        (r : Request Json) (w : World F Json)
        → ((f : Files Json) → P f → P (saved (member r.body "config") f))
        → (J.as_string (member r.body "type") == "reset") ≡ false
        → P w.files
        → P (api J env r w).files
    unfolding api need_auth check_request send
    api-kept r w kept not_reset p = ground (arith, handle_api_call-kept r.body w kept not_reset p)
