-- ===== src/Matter.antt =====
-- disabled/MatterHandler.cpp: the relays as two Matter plugins, which the build leaves out.
pub mod Accessory
use Prim.Native.String.{String}
use byte_waterlevel.Prelude.{ℕ, Bool, if◌then◌else◌}
use byte_waterlevel.Prelude.Int.{ℤ, pos}
use byte_waterlevel.Device.State.{Device}
use byte_waterlevel.Device.Relays.{set_relais}

-- What the listener of a plugin does with the wanted state: its answer, and the effect on the device.
abbrev pub Listener : Type 0 → Type 0
Listener D = Bool → D → Bool × D

-- The Matter library: the plugins `MatterOnOffPlugin` and the stack `Matter`. An `Event` is
-- anything that happens in it between two calls, such as a device that connects or leaves, or a
-- controller that switches a plugin; `plugin1_event`, `plugin2_event` and `stack_event` are what it
-- leaves. What a plugin's listener does to the device meanwhile is no part of that.
pub record MatterLib (D : Type 0) : Type 1 where
  pub Plugin : Type 0
  pub Stack : Type 0
  pub Event : Type 0
  pub plugin1_event : Event → Plugin → Plugin
  pub plugin2_event : Event → Plugin → Plugin
  pub stack_event : Event → Stack → Stack
  pub begin_plugin : Plugin → Plugin
  pub on_change : Listener D → Plugin → Plugin
  pub on_off : Plugin → Bool
  pub update_accessory : Plugin → D → D
  pub begin_stack : Stack → Stack
  pub is_device_connected : Stack → Bool
  pub get_manual_pairing_code : Stack → String

module _ {F : Type 0} (lib : MatterLib (Device F)) where
  open lib use {Plugin, Stack, begin_plugin, on_change, update_accessory, begin_stack}

  pub record Matter : Type 0 where
    pub mrelay1 : Plugin
    pub mrelay2 : Plugin
    pub stack : Stack

  -- What the library does by itself.
  unfoldable pub happen : lib.Event → Matter → Matter
  happen e m = record m {
    mrelay1 = lib.plugin1_event e m.mrelay1;
    mrelay2 = lib.plugin2_event e m.mrelay2;
    stack = lib.stack_event e m.stack;
  }

  -- The listener for a channel. `stray` is the pin of an unset variable.
  pub listener : ℕ → ℤ → Listener (Device F)
  listener stray channel cond d = (cond, set_relais stray channel cond d)

  unfoldable pub begin_plugins : ℕ → Matter → Matter
  begin_plugins stray m = record m {
    mrelay1 = on_change (listener stray (pos 1)) (begin_plugin m.mrelay1);
    mrelay2 = on_change (listener stray (pos 2)) (begin_plugin m.mrelay2);
  }

  unfoldable pub setup : ℕ → Matter → Matter
  setup stray m = let m' = begin_plugins stray m in record m' { stack = begin_stack m'.stack }

  -- With the stack and the plugins as they are at this pass.
  unfoldable pub loop : Matter → Device F → Device F
  loop m d =
      if lib.is_device_connected m.stack
      then update_accessory m.mrelay2 (update_accessory m.mrelay1 d)
      else d

  abbrev get_pairing_code : Matter → String
  get_pairing_code m = lib.get_manual_pairing_code m.stack
