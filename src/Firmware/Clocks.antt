-- ===== src/Firmware/Clocks.antt =====
-- src/main.cpp: the variables that keep a time, an `unsigned long` each.
use byte_waterlevel.Prelude.{
  ℕ, ◌<◌, subst, Bool, Option, none, some, List, [], ◌∷◌, All, map, arith,
}
use byte_waterlevel.Prelude.Int.{ℤ}
use byte_waterlevel.Prelude.Words.{u32_mod}
use byte_waterlevel.Floats.{Floats}
use byte_waterlevel.Json.{JsonLib}
use byte_waterlevel.Files.{Files}
use byte_waterlevel.Device.State.{Device}
use byte_waterlevel.Device.Relays.{set_relais, set_relais_duration, handle_relais}
use byte_waterlevel.Device.Blink.{handle_blink}
use byte_waterlevel.Device.Sensors.{adc_task_function, handle_scan}
use byte_waterlevel.Device.Display.{handle_display, setup_display}
use byte_waterlevel.Device.Loop.{setup as device_setup}
use byte_waterlevel.Automation.{loop as automation_loop, setup as automation_setup}
use byte_waterlevel.Mqtt.{loop as mqtt_loop, setup as mqtt_setup, connected_listener}
use byte_waterlevel.Wifi.{
  Wifi, check_connection, try_reconnect, start_ap_on_timeout, start_ap, stop_ap, begin_station,
  loop as wifi_loop, setup as wifi_setup,
}
use byte_waterlevel.World.{power_on, send}
use byte_waterlevel.Web.{Ambient, Request, switch_relais, duration_of, api, not_found}
use byte_waterlevel.Web.Pins.{api-auto}
use byte_waterlevel.Web.Served.{api-device}
use byte_waterlevel.Web.Access.{root-send}
use byte_waterlevel.Firmware.{
  Boot, Firmware, setup, Turn, blink_turn, relais_turn, scan_turn, display_turn, wifi_turn,
  mqtt_turn, ota_turn, auto_turn, take_turn, Event, pass, turn, request, adc_task, mqtt_up, visit,
  visit_other, step, run,
}
use byte_waterlevel.Firmware.Turns.{turns_of, run-turns_of}

-- `Clock` says what the times have in common that the handlers read.
module _ (Clock : ℕ → Type 0) where
  pub record DeviceTimes {F : Type 0} (d : Device F) : Type 0 where
    blink : Clock d.previous_millis
    scan : Clock d.scan_millis
    display : Clock d.display_millis
    pub channel1 : d.ch1 < u32_mod
    pub channel2 : d.ch2 < u32_mod

  abbrev WifiTimes : Wifi → Type 0
  WifiTimes w = Clock w.connection_start × Clock w.last_reconnect

  switch_relais-DeviceTimes :
      {F : Type 0} (env : Ambient F) (c : ℤ) (state : Bool) (s : Option ℤ) (d : Device F)
      → DeviceTimes d
      → DeviceTimes (switch_relais env c state s d)
  unfolding switch_relais set_relais set_relais_duration
  switch_relais-DeviceTimes env c state none d t = ground arith
  switch_relais-DeviceTimes env c state (some s) d t = ground arith

  module _ {F : Type 0} (J : JsonLib F) where
    wifi_loop-times :
        (now : ℕ) (connected : Bool) (config : J.Json) (w : Wifi)
        → Clock now
        → WifiTimes w
        → WifiTimes (wifi_loop J now connected config w)
    unfolding wifi_loop check_connection try_reconnect start_ap_on_timeout start_ap stop_ap
    wifi_loop-times now connected config w n t = ground arith

    wifi_setup-times :
        (now : ℕ) (joined : Bool) (config : J.Json) (w : Wifi)
        → Clock now
        → WifiTimes w
        → WifiTimes (wifi_setup J now joined config w)
    unfolding wifi_setup begin_station start_ap
    wifi_setup-times now joined config w n t = ground arith

  module _ (R : Floats) (J : JsonLib R.Float) where
    -- Every time that is kept is such a time, and every deadline fits into 32 bits.
    pub record HasTimes (w : Firmware R J) : Type 0 where
      pub device : DeviceTimes w.device
      pub automation : Clock (w.auto).auto_millis
      pub published : Clock (w.mqtt).previous_millis
      pub connected : Clock (w.mqtt).reconnect
      pub wifi : WifiTimes w.wifi

    abbrev TurnTime : Turn R.Float → Type 0
    TurnTime (blink_turn now) = Clock now
    TurnTime (relais_turn now) = Clock now
    TurnTime (scan_turn now _) = Clock now
    TurnTime (display_turn now _) = Clock now
    TurnTime (wifi_turn now _) = Clock now
    TurnTime (mqtt_turn now _) = Clock now
    TurnTime (ota_turn _) = Unit
    TurnTime (auto_turn now) = Clock now

    abbrev EventTime : Event R J → Type 0
    EventTime (pass p) = All TurnTime (turns_of R J p)
    EventTime (turn t) = TurnTime t
    EventTime (request env _) = Clock env.now
    EventTime (adc_task _) = Unit
    EventTime mqtt_up = Unit
    EventTime (visit _) = Unit
    EventTime visit_other = Unit

    take_turn-HasTimes :
        (t : Turn R.Float) (w : Firmware R J)
        → TurnTime t
        → HasTimes w
        → HasTimes (take_turn R J t w)
    unfolding take_turn handle_blink handle_relais handle_scan handle_display automation_loop
        set_relais mqtt_loop mqtt_setup
    take_turn-HasTimes (blink_turn now) w n s = ground arith
    take_turn-HasTimes (relais_turn now) w n s = ground arith
    take_turn-HasTimes (scan_turn now t) w n s = ground arith
    take_turn-HasTimes (display_turn now on) w n s = ground arith
    take_turn-HasTimes (wifi_turn now on) w n s =
        let wifi' = wifi_loop-times J now on w.files.config w.wifi n s.wifi in ground arith
    take_turn-HasTimes (mqtt_turn now on) w n s = ground arith
    take_turn-HasTimes (ota_turn on) w n s = ground arith
    take_turn-HasTimes (auto_turn now) w n s = ground arith

    turns-HasTimes :
        (ts : List (Turn R.Float)) (w : Firmware R J)
        → All TurnTime ts
        → HasTimes w
        → HasTimes (run R J (map turn ts) w)
    unfolding run step
    turns-HasTimes [] w ns s = s
    turns-HasTimes (t ∷ ts) w (n, ns) s =
        turns-HasTimes ts (take_turn R J t w) ns (take_turn-HasTimes t w n s)

    api-HasTimes :
        (env : Ambient R.Float) (r : Request J.Json) (w : Firmware R J)
        → HasTimes w
        → HasTimes (api J env r w)
    api-HasTimes env r w s =
        let same = api-auto J env r w in
        let switched =
          switch_relais-DeviceTimes env (J.as_int (J.member r.body "channel"))
            (J.as_bool (J.member r.body "state")) (duration_of J r.body) w.device s.device in
        record {
          device = rw (api-device J env r w) (ground (arith, switched, s.device));
          automation = rw same.0 s.automation;
          published = rw same.1 s.published;
          connected = rw same.1 s.connected;
          wifi = rw same.2 s.wifi;
        }

    step-HasTimes :
        (e : Event R J) (w : Firmware R J) → EventTime e → HasTimes w → HasTimes (step R J e w)
    unfolding step send not_found adc_task_function connected_listener
    step-HasTimes (pass p) w ns s =
        subst HasTimes (run-turns_of R J p w) (turns-HasTimes (turns_of R J p) w ns s)
    step-HasTimes (turn t) w n s = take_turn-HasTimes t w n s
    step-HasTimes (request env r) w n s = api-HasTimes env r w s
    step-HasTimes (adc_task reads) w n s = ground arith
    step-HasTimes mqtt_up w n s = ground arith
    step-HasTimes (visit r) w n s = rw (root-send J r w) (ground arith)
    step-HasTimes visit_other w n s = ground arith

    run-HasTimes_from :
        (es : List (Event R J)) (w : Firmware R J)
        → All EventTime es
        → HasTimes w
        → HasTimes (run R J es w)
    unfolding run
    run-HasTimes_from [] w ns s = s
    run-HasTimes_from (e ∷ es) w (n, ns) s =
        run-HasTimes_from es (step R J e w) ns (step-HasTimes e w n s)

    setup-HasTimes :
        (b : Boot) (f : Files J.Json)
        → Clock 0
        → Clock b.wifi_time
        → Clock b.mqtt_time
        → HasTimes (setup R J b (power_on R J f))
    unfolding setup device_setup setup_display automation_setup mqtt_setup
    setup-HasTimes b f zero n m =
        let config = (setup R J b (power_on R J f)).files.config in
        let wifi' =
          wifi_setup-times J b.wifi_time b.joined config (power_on R J f).wifi n (zero, zero) in
        ground arith

    -- Every variable that keeps a time holds 0 or a time that a handler has read, whatever happens from
    -- power-on: what holds of 0, of the clock at the start and of the clock in every event, holds of
    -- all of them; and both deadlines stay below 2 ^ 32.
    pub run-HasTimes :
        (b : Boot) (f : Files J.Json) (es : List (Event R J))
        → Clock 0
        → Clock b.wifi_time
        → Clock b.mqtt_time
        → All EventTime es
        → HasTimes (run R J es (setup R J b (power_on R J f)))
    run-HasTimes b f es zero n m ns = run-HasTimes_from es _ ns (setup-HasTimes b f zero n m)
