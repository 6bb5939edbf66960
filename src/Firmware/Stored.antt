-- ===== src/Firmware/Stored.antt =====
-- src/main.cpp: the configuration in memory and the one on the flash.
use Prim.Native.String.{String}
use text.Mathlib.Text.{◌==◌}
use byte_waterlevel.Prelude.{
  ◌≡◌, ◌∙◌, ◌⊎◌, sym, ap, subst, true, false, some, List, [], ◌∷◌, inl, inr, Option-cases, All,
}
use byte_waterlevel.Floats.{Floats}
use byte_waterlevel.Json.{JsonLib, ReadsBack}
use byte_waterlevel.Files.{Files, config_path, line_end, load_config}
use byte_waterlevel.Files.Config.{
  storage-save_file, writable-save_file, load_config-some, load_config-none, load_config-kept,
  load_config-backup,
}
use byte_waterlevel.World.{power_on}
use byte_waterlevel.Web.Storage.{saved, api-kept}
use byte_waterlevel.Web.Save.{api-files}
use byte_waterlevel.Firmware.{
  Boot, Firmware, setup, Event, pass, turn, request, adc_task, mqtt_up, visit, visit_other, step,
  run,
}
use byte_waterlevel.Firmware.Lives.{setup-files, step-files}
use byte_waterlevel.Firmware.Configured.{IsConfiguredBy, setup-IsConfiguredBy}

module _ (R : Floats) (J : JsonLib R.Float) where
  open J use {Json, member}

  -- The flash can be written, and the configuration file holds a text that reads as the configuration in
  -- memory.
  record IsStored (f : Files Json) : Type 0 where
    writes : f.writable ≡ true
    text : String
    holds : f.storage config_path ≡ some text
    reads : f.config ≡ (J.parse text).0

  -- No request of the type "reset", and a configuration that is saved is read back.
  abbrev IsKeeping : Event R J → Type 0
  IsKeeping (request env r) =
      ((J.as_string (member r.body "type") == "reset") ≡ false)
      × (((J.as_string (member r.body "type") == "save") ≡ false)
          ⊎ ReadsBack J (member r.body "config"))
  IsKeeping (pass _) = Unit
  IsKeeping (turn _) = Unit
  IsKeeping (adc_task _) = Unit
  IsKeeping mqtt_up = Unit
  IsKeeping (visit _) = Unit
  IsKeeping visit_other = Unit

  load_config-IsStored : (f : Files Json) → f.writable ≡ true → IsStored (load_config J f)
  load_config-IsStored f w = elim (Option-cases (f.storage config_path)) [
    | inl missing ↦
        let new = load_config-none J f w missing in
        record { writes = (load_config-backup J f).1 ∙ w; text = _; holds = new.0; reads = new.1 }
    | inr (text, there) ↦ record {
      writes = (load_config-backup J f).1 ∙ w;
      text = text;
      holds = load_config-kept J f text there;
      reads = load_config-some J f text there;
    }
  ]

  load_config-config : (f : Files Json) → IsStored f → (load_config J f).config ≡ f.config
  load_config-config f s = load_config-some J f s.text s.holds ∙ sym s.reads

  saved-IsStored :
      (config : Json) (f : Files Json)
      → ReadsBack J config
      → IsStored f
      → IsStored (saved J config f)
  saved-IsStored config f reads s = record {
    writes = writable-save_file config_path (J.serialize config) f ∙ s.writes;
    text = line_end (J.serialize config);
    holds = storage-save_file config_path (J.serialize config) f config_path s.writes;
    reads = sym (ap (λ r. r.0) reads);
  }

  step-IsStored :
      (e : Event R J) (w : Firmware R J)
      → IsKeeping e
      → IsStored w.files
      → IsStored (step R J e w).files
  unfolding step
  step-IsStored (request env r) w (not_reset, inl not_save) s =
      subst IsStored (sym (api-files J env r w not_save not_reset)) s
  step-IsStored (request env r) w (not_reset, inr reads) s =
      api-kept J IsStored env r w (λ f. saved-IsStored (member r.body "config") f reads) not_reset s
  step-IsStored (pass p) w h s = subst IsStored (sym (step-files R J (pass p) w tt)) s
  step-IsStored (turn t) w h s = subst IsStored (sym (step-files R J (turn t) w tt)) s
  step-IsStored (adc_task reads) w h s = s
  step-IsStored mqtt_up w h s = subst IsStored (sym (step-files R J mqtt_up w tt)) s
  step-IsStored (visit r) w h s = subst IsStored (sym (step-files R J (visit r) w tt)) s
  step-IsStored visit_other w h s = subst IsStored (sym (step-files R J visit_other w tt)) s

  run-IsStored :
      (es : List (Event R J)) (w : Firmware R J)
      → All IsKeeping es
      → IsStored w.files
      → IsStored (run R J es w).files
  unfolding run
  run-IsStored [] w hs s = s
  run-IsStored (e ∷ es) w (h, hs) s = run-IsStored es (step R J e w) hs (step-IsStored e w h s)

  -- A restart loses no configuration: from a start on a writable flash with the reset pin low, and
  -- behind any events but requests of the type "reset", if the JSON library reads back what it writes
  -- for each configuration that a request saves, the next start sets every handler up, the calls of
  -- Wi-Fi, MQTT and the updates included, by the configuration that is in memory.
  pub setup-run :
      (b b' : Boot) (f : Files Json) (es : List (Event R J))
      → f.writable ≡ true
      → b.reset_level ≡ false
      → All IsKeeping es
      → let w = run R J es (setup R J b (power_on R J f)) in
        IsConfiguredBy R J w.files.config b' (setup R J b' (power_on R J w.files))
  setup-run b b' f es w low hs =
      let started = setup R J b (power_on R J f) in
      let first : IsStored started.files =
        subst IsStored (sym (setup-files R J b (power_on R J f) low)) (load_config-IsStored f w) in
      let last = run-IsStored es started hs first in
      let files = (run R J es started).files in
      subst (λ c. IsConfiguredBy R J c b' (setup R J b' (power_on R J files)))
        (load_config-config files last) (setup-IsConfiguredBy R J b' files)
