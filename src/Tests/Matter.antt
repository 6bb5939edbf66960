-- ===== src/Tests/Matter.antt =====
-- The Matter plugins with a library that does what is documented.
use byte_waterlevel.Prelude.{◌≡◌, refl, ◌∙◌, Bool, true, false, Option, none, some, [], ◌∷◌}
use byte_waterlevel.Floats.Milli.{Milli}
use byte_waterlevel.Device.State.{Device}
use byte_waterlevel.Device.Relays.Bank.{bank}
use byte_waterlevel.Matter.{Listener, MatterLib, Matter, happen, begin_plugins, setup, loop}
use byte_waterlevel.Matter.Accessory.{IsPlugin, happen_all, bank-loop}
use byte_waterlevel.Tests.Data.{started}

-- A plugin as its own state and its listener.
abbrev called : Option (Listener (Device Milli)) → Bool → Device Milli → Device Milli
called none on d = d
called (some f) on d = (f on d).1

-- What happens: a device connects, or a controller switches a plugin.
data Happening : Type 0 where
  connects : Happening
  switches1 : Bool → Happening
  switches2 : Bool → Happening

abbrev SomePlugin : Type 0
SomePlugin = Bool × Option (Listener (Device Milli))

abbrev event1 : Happening → SomePlugin → SomePlugin
event1 (switches1 on) p = (on, p.1)
event1 _ p = p

abbrev event2 : Happening → SomePlugin → SomePlugin
event2 (switches2 on) p = (on, p.1)
event2 _ p = p

abbrev stack_after : Happening → Bool → Bool
stack_after connects s = true
stack_after _ s = s

abbrev plugins : MatterLib (Device Milli)
plugins = record {
  Plugin = SomePlugin;
  Stack = Bool;
  Event = Happening;
  plugin1_event = event1;
  plugin2_event = event2;
  stack_event = stack_after;
  begin_plugin = λ p. p;
  on_change = λ f p. (p.0, some f);
  on_off = λ p. p.0;
  update_accessory = λ p d. called p.1 p.0 d;
  begin_stack = λ s. s;
  is_device_connected = λ s. s;
  get_manual_pairing_code = λ _. "";
}

event1_kept : (e : Happening) (p : SomePlugin) → (event1 e p).1 ≡ p.1
event1_kept connects p = refl
event1_kept (switches1 on) p = refl
event1_kept (switches2 on) p = refl

event2_kept : (e : Happening) (p : SomePlugin) → (event2 e p).1 ≡ p.1
event2_kept connects p = refl
event2_kept (switches1 on) p = refl
event2_kept (switches2 on) p = refl

plugins-IsPlugin : IsPlugin plugins
plugins-IsPlugin = record {
  Listens = λ f p. p.1 ≡ some f;
  Listens-on_change = λ f p. refl;
  Listens-plugin1_event = λ f e p h. event1_kept e p ∙ h;
  Listens-plugin2_event = λ f e p h. event2_kept e p ∙ h;
  update_accessory-Listens = λ f p d h. rw h refl;
}

abbrev home : Matter plugins
home = record { mrelay1 = (true, none); mrelay2 = (false, none); stack = false }

-- A device connects, and a controller switches the second plugin on and the first one off.
bank-loop_example :
    bank (
      loop plugins
        (happen_all plugins
          (connects ∷ switches2 true ∷ switches1 false ∷ [])
          (setup plugins 9 home))
        started)
    ≡ (record { output = false; off_at = none }, record { output = true; off_at = none })
unfolding setup happen_all happen begin_plugins
bank-loop_example =
    bank-loop plugins plugins-IsPlugin 9 home (connects ∷ switches2 true ∷ switches1 false ∷ [])
      started
