-- ===== src/Matter/Accessory.antt =====
-- disabled/MatterHandler.cpp: what a pass of its loop does to the relays.
use byte_waterlevel.Prelude.{
  ℕ, ◌≡◌, refl, ◌∙◌, ap, inl, inr, Bool, true, false, none, Bool-cases, List, [], ◌∷◌,
  if◌then◌else◌,
}
use byte_waterlevel.Prelude.Int.{pos}
use byte_waterlevel.Device.State.{Device}
use byte_waterlevel.Device.Relays.Bank.{Switch, switch, execute, bank, bank-execute, intended}
use byte_waterlevel.Matter.{
  Listener, MatterLib, Matter, happen, listener, begin_plugins, setup, loop,
}

-- The documented behaviour of a plugin: it keeps the listener that it was given, whatever happens in the
-- library, and `updateAccessory` calls it with the state that the plugin has then.
pub record IsPlugin {D : Type 0} (lib : MatterLib D) : Type 1 where
  pub Listens : Listener D → lib.Plugin → Type 0
  pub Listens-on_change : (f : Listener D) (p : lib.Plugin) → Listens f (lib.on_change f p)
  pub Listens-plugin1_event :
      (f : Listener D) (e : lib.Event) (p : lib.Plugin)
      → Listens f p
      → Listens f (lib.plugin1_event e p)
  pub Listens-plugin2_event :
      (f : Listener D) (e : lib.Event) (p : lib.Plugin)
      → Listens f p
      → Listens f (lib.plugin2_event e p)
  pub update_accessory-Listens :
      (f : Listener D) (p : lib.Plugin) (d : D)
      → Listens f p
      → lib.update_accessory p d ≡ (f (lib.on_off p) d).1

abbrev steady : Bool → Switch
steady on = record { output = on; off_at = none }

module _ {F : Type 0} (lib : MatterLib (Device F)) where
  -- Behind several events of the library.
  unfoldable pub happen_all : List lib.Event → Matter lib → Matter lib
  happen_all [] m = m
  happen_all (e ∷ es) m = happen_all es (happen lib e m)

  module _ (laws : IsPlugin lib) where
    -- Both plugins have the listener of their channel.
    record IsListening (stray : ℕ) (m : Matter lib) : Type 0 where
      first : laws.Listens (listener lib stray (pos 1)) m.mrelay1
      second : laws.Listens (listener lib stray (pos 2)) m.mrelay2

    setup-IsListening : (stray : ℕ) (m : Matter lib) → IsListening stray (setup lib stray m)
    unfolding setup begin_plugins
    setup-IsListening stray m = record {
      first = laws.Listens-on_change _ _;
      second = laws.Listens-on_change _ _;
    }

    happen_all-IsListening :
        (es : List lib.Event) (stray : ℕ) (m : Matter lib)
        → IsListening stray m
        → IsListening stray (happen_all es m)
    unfolding happen_all happen
    happen_all-IsListening [] stray m h = h
    happen_all-IsListening (e ∷ es) stray m h =
        happen_all-IsListening es stray (happen lib e m) (record {
          first = laws.Listens-plugin1_event _ e _ h.first;
          second = laws.Listens-plugin2_event _ e _ h.second;
        })

    loop_on :
        (stray : ℕ) (m : Matter lib) (d : Device F)
        → IsListening stray m
        → lib.is_device_connected m.stack ≡ true
        → loop lib m d
          ≡ execute stray
              (switch (pos 2) (lib.on_off m.mrelay2))
              (execute stray (switch (pos 1) (lib.on_off m.mrelay1)) d)
    unfolding loop listener execute
    loop_on stray m d h on = rw on (
        laws.update_accessory-Listens (listener lib stray (pos 2)) m.mrelay2 _ h.second
        ∙ ap (λ e. (listener lib stray (pos 2) (lib.on_off m.mrelay2) e).1)
            (laws.update_accessory-Listens (listener lib stray (pos 1)) m.mrelay1 d h.first))

    loop_off :
        (m : Matter lib) (d : Device F) → lib.is_device_connected m.stack ≡ false → loop lib m d ≡ d
    unfolding loop
    loop_off m d off = rw off refl

    -- At any time behind `setup`, whatever has happened in the library since, a pass of the loop puts
    -- both relays into the state that their plugin has then and forgets both timers, if a device is
    -- connected then: whatever was switched, and whatever timer was started, by other means since the
    -- last pass does not survive it. Without a device connected a pass leaves the relays.
    pub bank-loop :
        (stray : ℕ) (initial : Matter lib) (es : List lib.Event) (d : Device F)
        → let m = happen_all es (setup lib stray initial) in
          bank (loop lib m d) ≡ (
            if lib.is_device_connected m.stack
            then (steady (lib.on_off m.mrelay1), steady (lib.on_off m.mrelay2))
            else bank d)
    unfolding intended
    bank-loop stray initial es d =
        let m = happen_all es (setup lib stray initial) in
        let h =
          happen_all-IsListening es stray (setup lib stray initial)
            (setup-IsListening stray initial) in
        elim (Bool-cases (lib.is_device_connected m.stack)) [
          | inl e ↦
              ap bank (loop_on stray m d h e)
              ∙ bank-execute stray (switch (pos 2) _) _ (inr refl)
              ∙ ap (intended (switch (pos 2) _))
                  (bank-execute stray (switch (pos 1) _) d (inl refl))
              ∙ rw e refl
          | inr e ↦ ap bank (loop_off m d e) ∙ rw e refl
        ]
