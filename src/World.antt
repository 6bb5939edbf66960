-- ===== src/World.antt =====
-- The firmware as a whole: the state of every handler, the answers that the web server has sent, and
-- whether a restart was asked for.
use Prim.Native.String.{String}
use byte_waterlevel.Prelude.{ℕ, Bool, false, List, [], ◌∷◌, ◌++◌}
use byte_waterlevel.Floats.{Floats}
use byte_waterlevel.Json.{JsonLib}
use byte_waterlevel.Files.{Files}
use byte_waterlevel.Device.State.{Device, power_on as device_power_on}
use byte_waterlevel.Automation.{Automation, power_on as auto_power_on}
use byte_waterlevel.Mqtt.{Mqtt, power_on as mqtt_power_on}
use byte_waterlevel.Wifi.{Wifi, power_on as wifi_power_on}
use byte_waterlevel.Ota.{Ota, power_on as ota_power_on}

-- What the web server sends: an answer with its status, type and content, the challenge of
-- `requestAuthentication`, or the page.
pub data Response : Type 0 where
  answer : ℕ → String → String → Response
  challenge : Response
  page : Response

pub record World (F : Type 0) (Json : Type 0) : Type 0 where
  pub device : Device F
  pub auto : Automation F
  pub mqtt : Mqtt F
  pub wifi : Wifi
  pub ota : Ota
  pub files : Files Json
  pub responses : List Response
  pub restarting : Bool

-- The firmware at power-on, over what the flash holds.
abbrev pub power_on : (R : Floats) (J : JsonLib R.Float) → Files J.Json → World R.Float J.Json
power_on R J f = record {
  device = device_power_on R;
  auto = auto_power_on R;
  mqtt = mqtt_power_on;
  wifi = wifi_power_on;
  ota = ota_power_on;
  files = f;
  responses = [];
  restarting = false;
}

unfoldable pub send : {F J : Type 0} → Response → World F J → World F J
send r w = record w { responses = w.responses ++ (r ∷ []) }
