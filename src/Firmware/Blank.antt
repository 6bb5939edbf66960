-- ===== src/Firmware/Blank.antt =====
-- src/main.cpp: the first start of a board whose flash holds neither a configuration nor a backup.
use Prim.Native.String.{String}
use byte_waterlevel.Prelude.{
  ◌≡◌, refl, ◌∙◌, ◌&&◌, Bool, true, false, none, some, arith, if◌then◌else◌,
}
use byte_waterlevel.Prelude.Int.{pos}
use byte_waterlevel.Floats.{Floats}
use byte_waterlevel.Json.{JsonLib, IsBlank}
use byte_waterlevel.Files.{Files, begin, config_path, backup_path, load_config}
use byte_waterlevel.Files.Config.{load_config-backup, load_config_blank, storage-reset_missing}
use byte_waterlevel.Device.Loop.{setup as device_setup}
use byte_waterlevel.Wifi.{is_wifi_client_usable, setup as wifi_setup, power_on as wifi_power_on}
use byte_waterlevel.Wifi.Recovery.{mode, has_station, done, Passes-setup_stranded}
use byte_waterlevel.World.{power_on}
use byte_waterlevel.Web.{Request, need_auth}
use byte_waterlevel.Firmware.{Boot, Firmware, setup}
use byte_waterlevel.Firmware.Configured.{setup-IsConfiguredBy}

module _ (R : Floats) (J : JsonLib R.Float) where
  setup-storage :
      (b : Boot) (f : Files J.Json)
      → f.storage config_path ≡ none
      → f.storage backup_path ≡ none
      → (setup R J b (power_on R J f)).files.storage config_path
        ≡ (if f.writable then some "\r\n" else none)
  unfolding setup device_setup
  setup-storage b f no_config no_backup =
      let loaded = load_config J f in
      let kept = load_config-backup J f in
      let first = (load_config_blank J f no_config no_backup).0 in
      let again = storage-reset_missing loaded (kept.0 ∙ no_backup) in
      ground (arith, kept.1, first, again)

  setup-wifi :
      (b : Boot) (f : Files J.Json)
      → (setup R J b (power_on R J f)).wifi
        ≡ wifi_setup J b.wifi_time b.joined
            (setup R J b (power_on R J f)).files.config
            wifi_power_on
  unfolding setup
  setup-wifi b f = refl

  need_auth-open :
      (r : Request J.Json) (w : Firmware R J)
      → J.as_bool (J.member (J.member w.files.config "admin") "state") ≡ false
      → (need_auth J r w).0 ≡ true
  unfolding need_auth
  need_auth-open r w e = rw e refl

  blank-is_null :
      (laws : IsBlank J) (f : Files J.Json)
      → f.storage config_path ≡ none
      → f.storage backup_path ≡ none
      → J.is_null (load_config J f).config ≡ true
  blank-is_null laws f no_config no_backup =
      let read = (load_config_blank J f no_config no_backup).1 in
      ground (arith, read, laws.parse_empty, laws.parse_line_end, laws.is_null-new_document)

  -- A start without a configuration and without a backup, with a flash that cannot be mounted or
  -- written included, and with a JSON library that reads nothing from an empty text or line: where
  -- it can, it leaves a configuration file of one empty line; the automation, MQTT and the local
  -- update server are off, the radio serves the access point alone, and every request to the API is
  -- admitted.
  pub setup_blank :
      (laws : IsBlank J) (b : Boot) (mounted : Bool) (flash : Files J.Json) (r : Request J.Json)
      → (begin mounted flash).storage config_path ≡ none
      → (begin mounted flash).storage backup_path ≡ none
      → let f = begin mounted flash in
        let w = setup R J b (power_on R J f) in
        (w.files.storage config_path ≡ (if f.writable then some "\r\n" else none))
        × ((w.auto).mode ≡ pos 0)
        × ((w.mqtt).is_enabled ≡ false)
        × ((w.ota).ota_enabled ≡ false)
        × (((w.wifi).ap_started ≡ true) × (has_station (mode w.wifi) ≡ false))
        × ((need_auth J r w).0 ≡ true)
  setup_blank laws b mounted flash r no_config no_backup =
      let f = begin mounted flash in
      let w = setup R J b (power_on R J f) in
      let config = (load_config J f).config in
      let by = setup-IsConfiguredBy R J b f in
      let null : J.is_null config ≡ true = blank-is_null laws f no_config no_backup in
      let part : (k : String) → J.is_null (J.member config k) ≡ true =
        λ k. laws.is_null-member config k null in
      let value : (k i : String) → J.is_null (J.member (J.member config k) i) ≡ true =
        λ k i. laws.is_null-member (J.member config k) i (part k) in
      let unusable : (is_wifi_client_usable J config && b.joined) ≡ false = rw (part "wifi") refl in
      (
        setup-storage b f no_config no_backup,
        by.mode ∙ laws.as_int-null _ (value "auto" "mode"),
        by.mqtt ∙ rw (laws.as_bool-null _ (value "mqtt" "state")) (ground arith),
        by.ota ∙ laws.as_bool-null _ (part "ota"),
        rw (setup-wifi b f, by.kept)
            (Passes-setup_stranded J b.wifi_time b.joined config wifi_power_on unusable done tt),
        need_auth-open r w (rw by.kept (laws.as_bool-null _ (value "admin" "state"))),
      )
