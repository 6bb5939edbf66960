-- ===== src/Firmware/Network.antt =====
-- src/main.cpp: the order of the calls of the WiFi and MQTT libraries over every run.
use byte_waterlevel.Prelude.{◌≡◌, refl, true, false, List, [], ◌∷◌, arith}
use byte_waterlevel.Floats.{Floats}
use byte_waterlevel.Json.{JsonLib}
use byte_waterlevel.Files.{Files}
use byte_waterlevel.Mqtt.Publishing.{
  will_first, will_first-loop, will_first-start, will_first-listener,
}
use byte_waterlevel.Wifi.Laws.{
  IsBracketed, loop-IsBracketed, setup-IsBracketed, power_on-IsBracketed,
}
use byte_waterlevel.World.{power_on, send}
use byte_waterlevel.Web.Pins.{api-auto}
use byte_waterlevel.Web.Access.{root-send}
use byte_waterlevel.Web.{not_found}
use byte_waterlevel.Firmware.{
  Boot, Firmware, setup, loop, Event, pass, request, adc_task, mqtt_up, visit, visit_other, Turn,
  wifi_turn, mqtt_turn, take_turn, turn, step, run,
}

module _ (R : Floats) (J : JsonLib R.Float) where
  -- The calls of both libraries are in order.
  pub record IsOrderly (w : Firmware R J) : Type 0 where
    pub wills_first : will_first false (w.mqtt).calls ≡ true
    pub access_point : IsBracketed w.wifi

  take_turn-IsOrderly :
      (t : Turn R.Float) (w : Firmware R J) → IsOrderly w → IsOrderly (take_turn R J t w)
  unfolding take_turn
  take_turn-IsOrderly (mqtt_turn now up) w s = record {
    wills_first = will_first-loop J _ _ _ _ _ w.mqtt s.wills_first;
    access_point = s.access_point;
  }
  take_turn-IsOrderly (wifi_turn now up) w s = record {
    wills_first = s.wills_first;
    access_point = loop-IsBracketed J _ _ _ w.wifi s.access_point;
  }
  take_turn-IsOrderly t w s = record { wills_first = s.wills_first; access_point = s.access_point }

  step-IsOrderly : (e : Event R J) (w : Firmware R J) → IsOrderly w → IsOrderly (step R J e w)
  unfolding step loop send not_found
  step-IsOrderly (pass p) w s = record {
    wills_first = will_first-loop J _ _ _ _ _ w.mqtt s.wills_first;
    access_point = loop-IsBracketed J _ _ _ w.wifi s.access_point;
  }
  step-IsOrderly (turn t) w s = take_turn-IsOrderly t w s
  step-IsOrderly (request env r) w s = ground (arith, s.access_point, api-auto J env r w)
  step-IsOrderly (adc_task reads) w s = record {
    wills_first = s.wills_first;
    access_point = s.access_point;
  }
  step-IsOrderly mqtt_up w s =
      ground (arith, s.access_point, will_first-listener w.mqtt s.wills_first)
  step-IsOrderly (visit r) w s =
      rw (root-send J r w) (record { wills_first = s.wills_first; access_point = s.access_point })
  step-IsOrderly visit_other w s = record {
    wills_first = s.wills_first;
    access_point = s.access_point;
  }

  run-IsOrderly_from :
      (es : List (Event R J)) (w : Firmware R J) → IsOrderly w → IsOrderly (run R J es w)
  unfolding run
  run-IsOrderly_from [] w s = s
  run-IsOrderly_from (e ∷ es) w s = run-IsOrderly_from es (step R J e w) (step-IsOrderly e w s)

  setup-IsOrderly : (b : Boot) (f : Files J.Json) → IsOrderly (setup R J b (power_on R J f))
  unfolding setup
  setup-IsOrderly b f = record {
    wills_first = will_first-start J b.connected b.mqtt_time _;
    access_point = setup-IsBracketed J _ _ _ _ refl power_on-IsBracketed;
  }

  -- From power-on, behind `setup` and any events: each connection of the MQTT client has its last will set
  -- first; the access point is not started twice nor stopped while it is down, and `apStarted` tells
  -- whether it is up.
  pub run-IsOrderly :
      (b : Boot) (f : Files J.Json) (es : List (Event R J))
      → IsOrderly (run R J es (setup R J b (power_on R J f)))
  run-IsOrderly b f es = run-IsOrderly_from es _ (setup-IsOrderly b f)
