-- ===== src/Firmware/Lives.antt =====
-- src/main.cpp: the firmware over restarts. A restart keeps the flash and loses everything else.
use Prim.Native.String.{String}
use text.Mathlib.Text.{◌==◌}
use byte_waterlevel.Prelude.{
  ◌≡◌, refl, subst, ◌∙◌, ap, true, false, some, List, [], ◌∷◌, All, arith,
}
use byte_waterlevel.Floats.{Floats}
use byte_waterlevel.Json.{JsonLib, ReadsBack}
use byte_waterlevel.Files.{Files, config_path, line_end, load_config}
use byte_waterlevel.Files.Config.{storage-save_file, load_config-some, load_config-kept}
use byte_waterlevel.Firmware.Configured.{IsConfiguredBy, setup-IsConfiguredBy}
use byte_waterlevel.World.{power_on, send}
use byte_waterlevel.Device.Loop.{setup as device_setup}
use byte_waterlevel.Web.{Ambient, Request, api, not_found}
use byte_waterlevel.Web.Save.{IsSaveCall, api-files, api_save-files}
use byte_waterlevel.Web.Access.{root-send}
use byte_waterlevel.Firmware.{
  Boot, Firmware, setup, loop, Event, pass, request, adc_task, mqtt_up, visit, visit_other, Turn,
  take_turn, turn, step, run,
}

module _ (R : Floats) (J : JsonLib R.Float) where
  open J use {Json, member}

  -- From a start to the loss of power.
  pub record Life : Type 0 where
    pub boot : Boot
    pub events : List (Event R J)

  -- What the flash holds behind a life, and behind several.
  live : Life → Files Json → Files Json
  live l f = (run R J l.events (setup R J l.boot (power_on R J f))).files

  pub live_all : List Life → Files Json → Files Json
  live_all [] f = f
  live_all (l ∷ ls) f = live_all ls (live l f)

  -- No request of the type "save" or "reset".
  abbrev pub IsHarmless : Event R J → Type 0
  IsHarmless (request env r) =
      ((J.as_string (member r.body "type") == "save") ≡ false)
      × ((J.as_string (member r.body "type") == "reset") ≡ false)
  IsHarmless (pass _) = Unit
  IsHarmless (turn _) = Unit
  IsHarmless (adc_task _) = Unit
  IsHarmless mqtt_up = Unit
  IsHarmless (visit _) = Unit
  IsHarmless visit_other = Unit

  -- The reset pin is low, and no request changes the configuration.
  abbrev IsQuiet : Life → Type 0
  IsQuiet l = (l.boot.reset_level ≡ false) × All IsHarmless l.events

  take_turn-files : (t : Turn R.Float) (w : Firmware R J) → (take_turn R J t w).files ≡ w.files
  unfolding take_turn
  take_turn-files t w = ground arith

  pub step-files :
      (e : Event R J) (w : Firmware R J) → IsHarmless e → (step R J e w).files ≡ w.files
  unfolding step loop send not_found
  step-files (pass p) w h = refl
  step-files (turn t) w h = take_turn-files t w
  step-files (request env r) w h = api-files J env r w h.0 h.1
  step-files (adc_task reads) w h = refl
  step-files mqtt_up w h = ground arith
  step-files (visit r) w h = rw (root-send J r w) refl
  step-files visit_other w h = refl

  pub run-files :
      (es : List (Event R J)) (w : Firmware R J)
      → All IsHarmless es
      → (run R J es w).files ≡ w.files
  unfolding run
  run-files [] w hs = refl
  run-files (e ∷ es) w (h, hs) = run-files es (step R J e w) hs ∙ step-files e w h

  pub setup-files :
      (b : Boot) (w : Firmware R J)
      → b.reset_level ≡ false
      → (setup R J b w).files ≡ load_config J w.files
  unfolding setup device_setup
  setup-files b w low = rw low refl

  live-storage :
      (l : Life) (f : Files Json) (text : String)
      → IsQuiet l
      → f.storage config_path ≡ some text
      → (live l f).storage config_path ≡ some text
  unfolding live
  live-storage l f text (low, hs) stored =
      rw
        (
          run-files l.events (setup R J l.boot (power_on R J f)) hs,
          setup-files l.boot (power_on R J f) low,
        )
        (load_config-kept J f text stored)

  live_all-storage :
      (ls : List Life) (f : Files Json) (text : String)
      → All IsQuiet ls
      → f.storage config_path ≡ some text
      → (live_all ls f).storage config_path ≡ some text
  unfolding live_all
  live_all-storage [] f text qs stored = stored
  live_all-storage (l ∷ ls) f text (q, qs) stored =
      live_all-storage ls (live l f) text qs (live-storage l f text q stored)

  -- A saved configuration lasts: if the JSON library reads back what it writes for it, the
  -- configuration of an admitted request of the type "save" on a writable flash is the one by which a
  -- start sets every handler up, the calls of Wi-Fi, MQTT and the updates included, behind whatever
  -- else the firmware does in that life and in any number of further ones, as long as the reset pin is
  -- low when they start and no other request saves or resets.
  pub setup-live_all-api_save :
      (env : Ambient R.Float) (r : Request Json) (w : Firmware R J) (es : List (Event R J))
      (ls : List Life) (b : Boot)
      → IsSaveCall J r w
      → ReadsBack J (member r.body "config")
      → w.files.writable ≡ true
      → All IsHarmless es
      → All IsQuiet ls
      → IsConfiguredBy R J
          (member r.body "config")
          b
          (setup R J b (power_on R J (live_all ls (run R J es (api J env r w)).files)))
  setup-live_all-api_save env r w es ls b call reads writes hs qs =
      let text = line_end (J.serialize (member r.body "config")) in
      let saved : (api J env r w).files.storage config_path ≡ some text =
        rw (api_save-files J env r w call)
          (storage-save_file config_path _ w.files config_path writes) in
      let now : (run R J es (api J env r w)).files.storage config_path ≡ some text =
        rw (run-files es (api J env r w) hs) saved in
      let later = live_all ls (run R J es (api J env r w)).files in
      let loaded : (load_config J later).config ≡ member r.body "config" =
        load_config-some J later text (live_all-storage ls _ text qs now) ∙ ap (λ q. q.0) reads in
      subst (λ c. IsConfiguredBy R J c b (setup R J b (power_on R J later))) loaded
        (setup-IsConfiguredBy R J b later)
