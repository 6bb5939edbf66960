-- ===== src/Settings.antt =====
-- src/InternalConfig.h: the constants of the firmware.
use Prim.Native.String.{String}
use byte_waterlevel.Prelude.{ℕ}
use byte_waterlevel.Prelude.Int.{ℤ, pos}

abbrev pub version : String
version = "1.5.0"

abbrev pub blink_interval : ℕ
blink_interval = 250

abbrev pub scan_interval : ℕ
scan_interval = 1000

abbrev pub display_interval : ℕ
display_interval = 1000

abbrev pub mqtt_interval : ℕ
mqtt_interval = 1000

abbrev pub auto_interval : ℕ
auto_interval = 1000

abbrev pub led_pin : ℕ
led_pin = 2

abbrev pub relais_ch1 : ℕ
relais_ch1 = 0

abbrev pub relais_ch2 : ℕ
relais_ch2 = 1

abbrev pub pump_fill : ℤ
pump_fill = pos 1

abbrev pub pump_empty : ℤ
pump_empty = pos 2

abbrev pub update_server : String
update_server = "https://space.byte-store.de/external/waterlevel/versions.json"
