-- ===== src/Firmware/Configured.antt =====
-- src/main.cpp: what a start makes of a configuration, handler by handler.
use Prim.Native.String.{String}
use byte_waterlevel.Prelude.{
  ℕ, ◌≡◌, refl, Bool, true, not, ◌&&◌, List, [], ◌∷◌, ◌++◌, arith, if◌then◌else◌,
}
use byte_waterlevel.Prelude.Int.{is_positive}
use byte_waterlevel.Settings.{update_server}
use byte_waterlevel.Floats.{Floats}
use byte_waterlevel.Json.{JsonLib, is_empty}
use byte_waterlevel.Files.{Files, load_config}
use byte_waterlevel.Files.Config.{config-reset}
use byte_waterlevel.Files.Merge.Paths.{at}
use byte_waterlevel.Device.State.{Device, power_on as device_power_on}
use byte_waterlevel.Device.Loop.{setup as device_setup}
use byte_waterlevel.Device.Display.{setup_display}
use byte_waterlevel.Automation.{setup as automation_setup}
use byte_waterlevel.Mqtt
use byte_waterlevel.Wifi
use byte_waterlevel.Wifi.{ap as ap_mode, sta}
use byte_waterlevel.Ota
use byte_waterlevel.World.{power_on}
use byte_waterlevel.Firmware.{Boot, Firmware, setup}

module _ (R : Floats) (J : JsonLib R.Float) where
  open J use {Json, as_int, as_float, as_bool, as_u8, as_string, is_null}

  -- The text at a path of keys.
  abbrev text_at : List String → Json → String
  text_at path config = as_string (at J path config)

  -- A name and a password for the station.
  abbrev can_join : Json → Bool
  can_join config =
      not (is_null (at J ("wifi" ∷ []) config))
      && not (is_null (at J ("wifi" ∷ "client" ∷ "ssid" ∷ []) config))
      && not (is_empty (text_at ("wifi" ∷ "client" ∷ "ssid" ∷ []) config))
      && not (is_null (at J ("wifi" ∷ "client" ∷ "password" ∷ []) config))

  abbrev station_calls : Json → List Wifi.Call
  station_calls config =
      Wifi.hostname (text_at ("wifi" ∷ "ap" ∷ "ssid" ∷ []) config)
      ∷ Wifi.set_mode sta
      ∷ Wifi.begin (text_at ("wifi" ∷ "client" ∷ "ssid" ∷ []) config)
          (text_at ("wifi" ∷ "client" ∷ "password" ∷ []) config)
      ∷ []

  abbrev access_point_calls : Json → List Wifi.Call
  access_point_calls config =
      Wifi.set_mode ap_mode
      ∷ Wifi.soft_ap_config (10 ∷ 10 ∷ 10 ∷ 1 ∷ []) (10 ∷ 10 ∷ 10 ∷ 1 ∷ [])
          (255 ∷ 255 ∷ 255 ∷ 0 ∷ [])
      ∷ Wifi.soft_ap (text_at ("wifi" ∷ "ap" ∷ "ssid" ∷ []) config)
          (text_at ("wifi" ∷ "ap" ∷ "password" ∷ []) config)
      ∷ []

  -- The station where it can be used, and the access point where that does not join.
  abbrev radio_calls : (joined : Bool) → Json → List Wifi.Call
  radio_calls joined config =
      Wifi.set_auto_reconnect true
      ∷ ((if can_join config then station_calls config else [])
          ++ (if can_join config && joined then [] else access_point_calls config))

  -- The broker, where there is a host and a port.
  abbrev broker_calls : Json → List (Mqtt.Call R.Float)
  broker_calls config =
      let host = text_at ("mqtt" ∷ "host" ∷ []) config in
      let port = as_int (at J ("mqtt" ∷ "port" ∷ []) config) in
      let user = text_at ("mqtt" ∷ "user" ∷ []) config in
      let password = text_at ("mqtt" ∷ "password" ∷ []) config in
      if not (is_empty host) && is_positive port
      then (Mqtt.set_server host port
          ∷ Mqtt.set_keep_alive 120
          ∷ Mqtt.set_client_id "walterlevel"
          ∷ ((if is_empty user then [] else Mqtt.set_credentials user password ∷ [])
              ++ (Mqtt.set_will "waterlevel/status" 1 true "offline"
                  ∷ Mqtt.on_connect
                  ∷ Mqtt.on_disconnect
                  ∷ Mqtt.connect
                  ∷ [])))
      else []

  -- The local update server, with the administrator's password, and the manifest of the updates.
  abbrev update_calls : Json → List Ota.Call
  update_calls config =
      (if as_bool (at J ("ota" ∷ []) config)
        then (Ota.set_hostname (text_at ("wifi" ∷ "ap" ∷ "ssid" ∷ []) config)
            ∷ Ota.set_mdns_enabled true
            ∷ Ota.set_reboot_on_success true
            ∷ ((if as_bool (at J ("admin" ∷ "state" ∷ []) config)
                  then Ota.set_password (text_at ("admin" ∷ "password" ∷ []) config) ∷ []
                  else [])
                ++ (Ota.begin ∷ [])))
        else [])
      ++ (Ota.set_manifest_url update_server ∷ [])

  -- The display is switched on in the configuration, and begins.
  abbrev shows : (begun : Bool) → Json → Bool
  shows begun config = as_bool (at J ("hardware" ∷ "oled" ∷ []) config) && begun

  -- The device by its calibration, its LED and its display.
  pub record IsDeviceBy (config : Json) (begun : Bool) (d : Device R.Float) : Type 0 where
    pub max_v : d.max_v ≡ as_float (at J ("calibration" ∷ "max" ∷ []) config)
    pub min_v : d.min_v ≡ as_float (at J ("calibration" ∷ "min" ∷ []) config)
    pub tank_volume : d.tank_volume ≡ as_float (at J ("calibration" ∷ "volume" ∷ []) config)
    pub system_led : d.system_led ≡ as_bool (at J ("hardware" ∷ "led" ∷ []) config)
    pub display_enabled : d.display_enabled ≡ shows begun config
    pub contrast :
        d.contrast
        ≡ (if shows begun config then as_u8 (at J ("hardware" ∷ "level" ∷ []) config) else 0)

  -- Every handler runs by a configuration, and has made the calls of its library for it and no others.
  pub record IsConfiguredBy (config : Json) (b : Boot) (w : Firmware R J) : Type 0 where
    pub kept : w.files.config ≡ config
    pub device : IsDeviceBy config b.display_begun w.device
    pub radio : (w.wifi).calls ≡ radio_calls b.joined config
    pub ap_started : (w.wifi).ap_started ≡ not (can_join config && b.joined)
    pub ota : (w.ota).ota_enabled ≡ as_bool (at J ("ota" ∷ []) config)
    pub updates : (w.ota).calls ≡ update_calls config
    pub mode : (w.auto).mode ≡ as_int (at J ("auto" ∷ "mode" ∷ []) config)
    pub max_l : (w.auto).max_l ≡ as_float (at J ("auto" ∷ "max" ∷ []) config)
    pub min_l : (w.auto).min_l ≡ as_float (at J ("auto" ∷ "min" ∷ []) config)
    pub fill_l : (w.auto).fill_l ≡ as_float (at J ("auto" ∷ "fill" ∷ []) config)
    pub mqtt : (w.mqtt).is_enabled ≡ (b.connected && as_bool (at J ("mqtt" ∷ "state" ∷ []) config))
    pub broker : (w.mqtt).calls ≡ (
        if b.connected && as_bool (at J ("mqtt" ∷ "state" ∷ []) config)
        then broker_calls config
        else [])

  device_setup-IsDeviceBy :
      (reset_level begun : Bool) (f : Files Json)
      → IsDeviceBy f.config begun (device_setup R J reset_level begun f (device_power_on R)).0
  unfolding device_setup setup_display
  device_setup-IsDeviceBy reset_level begun f = ground (arith, config-reset f)

  device_setup-config :
      (reset_level begun : Bool) (f : Files Json) (d : Device R.Float)
      → (device_setup R J reset_level begun f d).1.config ≡ f.config
  unfolding device_setup
  device_setup-config reset_level begun f d = ground (arith, config-reset f)

  wifi_setup-radio :
      (now : ℕ) (joined : Bool) (config : Json)
      → let w = Wifi.setup J now joined config Wifi.power_on in
        (w.calls ≡ radio_calls joined config) × (w.ap_started ≡ not (can_join config && joined))
  unfolding Wifi.setup Wifi.begin_station Wifi.start_ap
  wifi_setup-radio now joined config = ground arith

  mqtt_setup-broker :
      (now : ℕ) (config : Json)
      → let m = Mqtt.setup J now config Mqtt.power_on in
        (m.is_enabled ≡ as_bool (at J ("mqtt" ∷ "state" ∷ []) config))
        × (m.calls
            ≡ (if as_bool (at J ("mqtt" ∷ "state" ∷ []) config) then broker_calls config else []))
  unfolding Mqtt.setup
  mqtt_setup-broker now config = ground arith

  ota_setup-updates :
      (config : Json)
      → let o = Ota.setup J config Ota.power_on in
        (o.ota_enabled ≡ as_bool (at J ("ota" ∷ []) config)) × (o.calls ≡ update_calls config)
  unfolding Ota.setup
  ota_setup-updates config = ground arith

  -- A start sets every handler up by the configuration that it loads, also where it resets the file.
  pub setup-IsConfiguredBy :
      (b : Boot) (f : Files Json)
      → IsConfiguredBy (load_config J f).config b (setup R J b (power_on R J f))
  unfolding setup automation_setup
  setup-IsConfiguredBy b f =
      let loaded = load_config J f in
      let same = device_setup-config b.reset_level b.display_begun loaded (device_power_on R) in
      let device = device_setup-IsDeviceBy b.reset_level b.display_begun loaded in
      let radio = wifi_setup-radio b.wifi_time b.joined loaded.config in
      let broker = mqtt_setup-broker b.mqtt_time loaded.config in
      let updates = ota_setup-updates loaded.config in
      rw same (record {
        kept = same;
        device = device;
        radio = radio.0;
        ap_started = radio.1;
        ota = updates.0;
        updates = updates.1;
        mode = refl;
        max_l = refl;
        min_l = refl;
        fill_l = refl;
        mqtt = ground (arith, broker);
        broker = ground (arith, broker);
      })
