-- ===== src/Device/Relays/Pins.antt =====
-- src/DeviceHandler.cpp: the variables of the relays and of the LED agree with the output pins.
use byte_waterlevel.Prelude.{ℕ, Bool, ◌≡◌, ◌⊎◌, arith}
use byte_waterlevel.Prelude.Int.{ℤ, pos}
use byte_waterlevel.Settings.{led_pin, relais_ch1, relais_ch2}
use byte_waterlevel.Device.State.{Device}
use byte_waterlevel.Device.Relays.{set_relais, handle_relais}

-- Each variable is the level of its pin.
pub record PinsAgree {F : Type 0} (d : Device F) : Type 0 where
  pub relay1_pin : d.pins relais_ch1 ≡ d.relay1
  pub relay2_pin : d.pins relais_ch2 ≡ d.relay2
  pub led_agrees : d.pins led_pin ≡ d.led_state

abbrev pub IsChannel : ℤ → Type 0
IsChannel c = (c ≡ pos 1) ⊎ (c ≡ pos 2)

module _ {F : Type 0} where
  pub set_relais-PinsAgree :
      (stray : ℕ) (c : ℤ) (state : Bool) (d : Device F)
      → IsChannel c
      → PinsAgree d
      → PinsAgree (set_relais stray c state d)
  unfolding set_relais
  set_relais-PinsAgree stray c state d h p = ground arith

  pub handle_relais-PinsAgree :
      (now : ℕ) (d : Device F) → PinsAgree d → PinsAgree (handle_relais now d)
  unfolding handle_relais
  handle_relais-PinsAgree now d p = ground arith
