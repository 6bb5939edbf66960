-- ===== src/Firmware/Start/Mixed.antt =====
-- src/main.cpp: a configuration that is saved while the start goes on.
use byte_waterlevel.Prelude.{◌≡◌, ◌∙◌, ap, ◌&&◌, List, ◌∷◌, All, arith}
use byte_waterlevel.Floats.{Floats}
use byte_waterlevel.Json.{JsonLib}
use byte_waterlevel.Files.{Files, load_config}
use byte_waterlevel.Files.Config.{config-reset}
use byte_waterlevel.Device.Loop.{setup as device_setup}
use byte_waterlevel.Device.Display.{setup_display}
use byte_waterlevel.World.{power_on}
use byte_waterlevel.Web.{Ambient, Request, api}
use byte_waterlevel.Web.Save.{IsSaveCall, api_save-files}
use byte_waterlevel.Firmware.{Boot, Event, request, step, run}
use byte_waterlevel.Firmware.Lives.{IsHarmless}
use byte_waterlevel.Firmware.Settings.{Settings, settings, api-settings}
use byte_waterlevel.Firmware.Start.{
  start_device, start, View, view, view_ota, view_automation, view_mqtt, view-run, view-start_early,
}

module _ (R : Floats) (J : JsonLib R.Float) where
  open J use {Json, member, as_int, as_float, as_bool}

  -- The device by one configuration, everything else by another one.
  abbrev pub mixed : Boot → (old new : Json) → Settings R.Float
  mixed b old new =
      let calibration = member old "calibration" in
      let auto = member new "auto" in
      record {
        max_v = as_float (member calibration "max");
        min_v = as_float (member calibration "min");
        tank_volume = as_float (member calibration "volume");
        mode = as_int (member auto "mode");
        max_l = as_float (member auto "max");
        min_l = as_float (member auto "min");
        fill_l = as_float (member auto "fill");
        mqtt = b.connected && as_bool (member (member new "mqtt") "state");
        ota = as_bool (member new "ota");
      }

  -- What the start does behind the web server, to what it leaves of the configuration.
  finish : Boot → View R J → View R J
  finish b v = view_mqtt R J b (view_automation R J (view_ota R J v))

  finish-start_device :
      (b : Boot) (f : Files Json) (config : Json) (g : Files Json)
      → g.config ≡ config
      → let v = finish b (settings R J (start_device R J b (power_on R J f)), g) in
        (v.0 ≡ mixed b (load_config J f).config config) × (v.1.config ≡ config)
  unfolding finish start_device device_setup setup_display view_mqtt view_automation view_ota
  finish-start_device b f config g e = ground (arith, config-reset (load_config J f))

  -- A request of the type "save" that is served right after the web server has started, before the
  -- updates are set up, mixes two configurations, whatever else without a save or a reset is served
  -- during the start: the start ends with the calibration of the configuration that was loaded, and
  -- with the automation, MQTT and the local update server by the one that was saved.
  pub start_saved :
      (b : Boot) (f : Files Json) (env : Ambient R.Float) (r : Request Json)
      (early middle late : List (Event R J))
      → IsSaveCall J r (start_device R J b (power_on R J f))
      → All (IsHarmless R J) early
      → All (IsHarmless R J) middle
      → All (IsHarmless R J) late
      → let w = start R J b (request env r ∷ early) middle late (power_on R J f) in
        (settings R J w ≡ mixed b (load_config J f).config (member r.body "config"))
        × (w.files.config ≡ member r.body "config")
  unfolding run step finish
  start_saved b f env r early middle late call h k l =
      let w0 = start_device R J b (power_on R J f) in
      let w1 = api J env r w0 in
      let config = ap (λ g. g.config) (api_save-files J env r w0 call) in
      let same : view R J (start R J b (request env r ∷ early) middle late (power_on R J f))
          ≡ finish b (settings R J w0, w1.files) =
        view-start_early R J b (request env r ∷ early) middle late (power_on R J f) k l
        ∙ ap (finish b)
            (view-run R J early w1 h ∙ ap (λ s. (s, w1.files)) (api-settings R J env r w0)) in
      let (both, last) = finish-start_device b f (member r.body "config") w1.files config in
      (ap (λ v. v.0) same ∙ both, ap (λ v. v.1.config) same ∙ last)
