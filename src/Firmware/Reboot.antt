-- ===== src/Firmware/Reboot.antt =====
-- src/main.cpp: what survives a restart: the flash, and through it the configuration of every handler.
use byte_waterlevel.Prelude.{◌≡◌, ◌∙◌, subst, true, some}
use byte_waterlevel.Floats.{Floats}
use byte_waterlevel.Json.{JsonLib, ReadsBack}
use byte_waterlevel.Files.{Files, backup_path, reset, load_config}
use byte_waterlevel.Files.Config.{load_config-reset, load_config-backup}
use byte_waterlevel.Device.Loop.{setup as device_setup}
use byte_waterlevel.World.{power_on}
use byte_waterlevel.Firmware.{Boot, setup}
use byte_waterlevel.Firmware.Configured.{IsConfiguredBy, setup-IsConfiguredBy}

module _ (R : Floats) (J : JsonLib R.Float) where
  open J use {Json}

  -- A start with the reset pin high, on a writable flash with a backup that the JSON library wrote for
  -- a document and reads back, still sets every handler up by the configuration that it loaded before,
  -- the calls of Wi-Fi, MQTT and the updates included; a second start does so by the backup.
  pub setup-setup_reset :
      (backup : Json) (f : Files Json) (b b' : Boot)
      → ReadsBack J backup
      → f.writable ≡ true
      → f.storage backup_path ≡ some (J.serialize backup)
      → b.reset_level ≡ true
      → let w = setup R J b (power_on R J f) in
        IsConfiguredBy R J (load_config J f).config b w
        × IsConfiguredBy R J backup b' (setup R J b' (power_on R J w.files))
  unfolding setup device_setup
  setup-setup_reset backup f b b' reads writes stored high =
      let loaded = load_config J f in
      let kept = load_config-backup J f in
      let again = load_config-reset J backup loaded reads (kept.1 ∙ writes) (kept.0 ∙ stored) in
      (
        setup-IsConfiguredBy R J b f,
        rw high (
            subst (λ c. IsConfiguredBy R J c b' (setup R J b' (power_on R J (reset loaded))))
              again.0 (setup-IsConfiguredBy R J b' (reset loaded))),
      )
