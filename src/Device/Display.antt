-- ===== src/Device/Display.antt =====
-- The display of src/DeviceHandler.cpp: the calls of the display library that draw are data.
use byte_waterlevel.Prelude.{ℕ, Bool, [], ◌∷◌, ◌&&◌, leb, if◌then◌else◌}
use byte_waterlevel.Prelude.Words.{sub32}
use byte_waterlevel.Settings.{display_interval}
use byte_waterlevel.Floats.{Floats}
use byte_waterlevel.Json.{JsonLib}
use byte_waterlevel.Device.State.{
  Device, get_level_cached, get_volume_cached, get_current_cached, get_adc_value_cached, cursor,
  text, text_line, number, number_line, line, rect, fill_rect,
}
use byte_waterlevel.Device.Sensors.{round_to_two_decimals}

module _ (R : Floats) where
  open R use {Float}

  -- `connected` is `WiFiHandler::isConnected()`; the display is cleared first.
  update_display : Bool → Device Float → Device Float
  update_display connected d = record d {
    screen =
        cursor 0 0
        ∷ text "BYTE"
        ∷ text "LEVEL"
        ∷ line 0 9 128 9
        ∷ cursor 0 18
        ∷ text "WiFi: "
        ∷ text_line (if connected then "OK" else "AP")
        ∷ text "Level: "
        ∷ number (get_level_cached d) 1
        ∷ text_line "%"
        ∷ text "Volume: "
        ∷ number_line (get_volume_cached d) 2
        ∷ text_line "L"
        ∷ text "ADC: "
        ∷ number (round_to_two_decimals R (get_adc_value_cached d)) 2
        ∷ text_line "V"
        ∷ text_line "Current: "
        ∷ number_line (round_to_two_decimals R (get_current_cached d)) 2
        ∷ text_line "mA"
        ∷ rect 95 18 30 40
        ∷ fill_rect 97 20 26 36
        ∷ [];
  }

  unfoldable pub handle_display : ℕ → Bool → Device Float → Device Float
  unfolding update_display
  handle_display now connected d =
      if d.display_enabled && leb display_interval (sub32 now d.display_millis)
      then update_display connected (record d { display_millis = now })
      else d

module _ {F : Type 0} where
  set_brightness : ℕ → Device F → Device F
  set_brightness brightness d = record d { contrast = brightness }

  -- `begun` is the result of `display.begin`.
  unfoldable pub setup_display : (J : JsonLib F) → Bool → J.Json → Device F → Device F
  unfolding set_brightness
  setup_display J begun config d =
      if begun
      then record (set_brightness (J.as_u8 (J.member (J.member config "hardware") "level")) d) {
        display_enabled = Bool.true;
      }
      else d
