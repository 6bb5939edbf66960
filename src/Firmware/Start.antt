-- ===== src/Firmware/Start.antt =====
-- src/main.cpp: the start with requests in between. The web server serves from `WebHandler::setup` on, in
-- its own task, while `setup` goes on with the updates, the automation and MQTT.
pub mod Mixed
use byte_waterlevel.Prelude.{◌≡◌, refl, sym, ◌∙◌, ap, true, List, [], All, arith, if◌then◌else◌}
use byte_waterlevel.Floats.{Floats}
use byte_waterlevel.Json.{JsonLib}
use byte_waterlevel.Files.{Files, load_config, get_config}
use byte_waterlevel.Device.Loop.{setup as device_setup}
use byte_waterlevel.Automation.{setup as automation_setup}
use byte_waterlevel.Mqtt.{setup as mqtt_setup}
use byte_waterlevel.Wifi.{setup as wifi_setup}
use byte_waterlevel.Ota.{setup as ota_setup}
use byte_waterlevel.Firmware.{Boot, Firmware, setup, Event, run}
use byte_waterlevel.Firmware.Lives.{IsHarmless, run-files}
use byte_waterlevel.Firmware.Settings.{Settings, settings, run-settings}

module _ (R : Floats) (J : JsonLib R.Float) where
  -- `setup` up to the start of the web server, and what it does behind it.
  pub start_device : Boot → Firmware R J → Firmware R J
  start_device b w =
      let (device, files) =
        device_setup R J b.reset_level b.display_begun (load_config J w.files) w.device in
      record w {
        device = device;
        files = files;
        wifi = wifi_setup J b.wifi_time b.joined (get_config files) w.wifi;
      }

  start_ota : Firmware R J → Firmware R J
  start_ota w = record w { ota = ota_setup J (get_config w.files) w.ota }

  start_automation : Firmware R J → Firmware R J
  start_automation w = record w { auto = automation_setup J (get_config w.files) w.auto }

  start_mqtt : Boot → Firmware R J → Firmware R J
  start_mqtt b w = record w {
    mqtt = if b.connected then mqtt_setup J b.mqtt_time (get_config w.files) w.mqtt else w.mqtt;
  }

  -- What happens in between stands in three lists.
  pub start : Boot → (early middle late : List (Event R J)) → Firmware R J → Firmware R J
  start b early middle late w = start_mqtt b (
      run R J late
        (start_automation (run R J middle (start_ota (run R J early (start_device b w))))))

  -- What a start leaves of the configuration: the settings of the handlers, and the files.
  abbrev pub View : Type 0
  View = Settings R.Float × Files J.Json

  abbrev pub view : Firmware R J → View
  view w = (settings R J w, w.files)

  pub view_ota : View → View
  view_ota (s, f) =
      (record s { ota = if J.as_bool (J.member (get_config f) "ota") then true else s.ota }, f)

  pub view_automation : View → View
  view_automation (s, f) =
      let auto = J.member (get_config f) "auto" in
      (
        record s {
          mode = J.as_int (J.member auto "mode");
          max_l = J.as_float (J.member auto "max");
          min_l = J.as_float (J.member auto "min");
          fill_l = J.as_float (J.member auto "fill");
        },
        f,
      )

  pub view_mqtt : Boot → View → View
  view_mqtt b (s, f) =
      let state = J.as_bool (J.member (J.member (get_config f) "mqtt") "state") in
      (record s { mqtt = if b.connected then (if state then true else s.mqtt) else s.mqtt }, f)

  view-start_ota : (w : Firmware R J) → view (start_ota w) ≡ view_ota (view w)
  unfolding start_ota ota_setup view_ota
  view-start_ota w = ground arith

  view-start_automation : (w : Firmware R J) → view (start_automation w) ≡ view_automation (view w)
  unfolding start_automation automation_setup view_automation
  view-start_automation w = refl

  view-start_mqtt : (b : Boot) (w : Firmware R J) → view (start_mqtt b w) ≡ view_mqtt b (view w)
  unfolding start_mqtt mqtt_setup view_mqtt
  view-start_mqtt b w = ground arith

  pub view-run :
      (es : List (Event R J)) (w : Firmware R J)
      → All (IsHarmless R J) es
      → view (run R J es w) ≡ view w
  view-run es w hs = cc (run-settings R J es w, run-files R J es w hs)

  -- What is served before the updates are set up may change the configuration.
  pub view-start_early :
      (b : Boot) (early middle late : List (Event R J)) (w : Firmware R J)
      → All (IsHarmless R J) middle
      → All (IsHarmless R J) late
      → view (start b early middle late w)
        ≡ view_mqtt b (view_automation (view_ota (view (run R J early (start_device b w)))))
  unfolding start
  view-start_early b early middle late w k l =
      let w1 = start_ota (run R J early (start_device b w)) in
      let w2 = start_automation (run R J middle w1) in
      view-start_mqtt b (run R J late w2)
      ∙ ap (view_mqtt b) (
          view-run late w2 l
          ∙ view-start_automation (run R J middle w1)
          ∙ ap view_automation
              (view-run middle w1 k ∙ view-start_ota (run R J early (start_device b w))))

  view-start :
      (b : Boot) (early middle late : List (Event R J)) (w : Firmware R J)
      → All (IsHarmless R J) early
      → All (IsHarmless R J) middle
      → All (IsHarmless R J) late
      → view (start b early middle late w)
        ≡ view_mqtt b (view_automation (view_ota (view (start_device b w))))
  view-start b early middle late w h k l =
      view-start_early b early middle late w k l
      ∙ ap (λ v. view_mqtt b (view_automation (view_ota v))) (view-run early (start_device b w) h)

  -- `setup` is the start in which nothing happens in between.
  start_undisturbed : (b : Boot) (w : Firmware R J) → start b [] [] [] w ≡ setup R J b w
  unfolding start start_device start_ota start_automation start_mqtt setup run
  start_undisturbed b w = refl

  -- Whatever is served while `setup` is still running, as long as no request saves or resets, the start
  -- ends with the settings and the files of a start that nothing interrupts.
  pub start-setup :
      (b : Boot) (early middle late : List (Event R J)) (w : Firmware R J)
      → All (IsHarmless R J) early
      → All (IsHarmless R J) middle
      → All (IsHarmless R J) late
      → let w' = start b early middle late w in
        (settings R J w' ≡ settings R J (setup R J b w)) × (w'.files ≡ (setup R J b w).files)
  start-setup b early middle late w h k l =
      let same : view (start b early middle late w) ≡ view (setup R J b w) =
        view-start b early middle late w h k l
        ∙ sym (view-start b [] [] [] w tt tt tt)
        ∙ ap view (start_undisturbed b w) in
      (ap (λ v. v.0) same, ap (λ v. v.1) same)
