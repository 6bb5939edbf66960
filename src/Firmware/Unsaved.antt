-- ===== src/Firmware/Unsaved.antt =====
-- src/main.cpp: a configuration that is saved while the flash cannot be written.
use byte_waterlevel.Prelude.{◌≡◌, ◌∙◌, ap, subst, Bool, false, [], ◌∷◌, ◌++◌}
use byte_waterlevel.Floats.{Floats}
use byte_waterlevel.Json.{JsonLib}
use byte_waterlevel.Files.{Files, load_config, save_config}
use byte_waterlevel.Files.Config.{save_file_unwritable, load_config-config}
use byte_waterlevel.World.{power_on, answer, send}
use byte_waterlevel.Web.{Ambient, Request, api}
use byte_waterlevel.Web.Save.{IsSaveCall, api_save-send}
use byte_waterlevel.Firmware.{Boot, Firmware, setup}
use byte_waterlevel.Firmware.Configured.{IsConfiguredBy, setup-IsConfiguredBy}

module _ (R : Floats) (J : JsonLib R.Float) where
  open J use {Json, member}

  -- The flash, when it can be written again or not.
  abbrev flash : Bool → Files Json → Files Json
  flash again f = record f { writable = again }

  -- If the flash cannot be written, an admitted request of the type "save" is answered by 200 and "OK" all
  -- the same, and the configuration is in memory only: the next start, also one with a flash that can be
  -- written again, sets every handler up, the calls of Wi-Fi, MQTT and the updates included, by the
  -- configuration that it would have loaded without the request.
  pub setup-api_unsaved :
      (env : Ambient R.Float) (r : Request Json) (w : Firmware R J) (again : Bool) (b : Boot)
      → IsSaveCall J r w
      → w.files.writable ≡ false
      → let w' = api J env r w in
        (w'.responses
          ≡ w.responses
            ++ answer 200 "application/json" "{\"type\":\"success\",\"message\":\"OK\"}" ∷ [])
        × (w'.files.config ≡ member r.body "config")
        × IsConfiguredBy R J
            (load_config J (flash again w.files)).config
            b
            (setup R J b (power_on R J (flash again w'.files)))
  unfolding send
  setup-api_unsaved env r w again b call unwritable =
      let sent = api_save-send J env r w call in
      let config = member r.body "config" in
      let kept = save_file_unwritable _ (J.serialize config) w.files unwritable in
      let files : (api J env r w).files ≡ record w.files { config = config } =
        ap (λ v. v.files) sent ∙ ap (save_config config) kept in
      let again_f = flash again (api J env r w).files in
      let same : (load_config J again_f).config ≡ (load_config J (flash again w.files)).config =
        ap (λ f. (load_config J (flash again f)).config) files
        ∙ ap (λ f. f.config) (load_config-config J config (flash again w.files)) in
      (
        ap (λ v. v.responses) sent,
        ap (λ f. f.config) files,
        subst (λ c. IsConfiguredBy R J c b (setup R J b (power_on R J again_f))) same
            (setup-IsConfiguredBy R J b again_f),
      )
