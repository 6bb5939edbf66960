-- ===== src/Web/Pins.antt =====
-- src/WebHandler.cpp: the API keeps the relays' variables equal to their pins.
use text.Mathlib.Text.{◌==◌}
use byte_waterlevel.Prelude.{
  ℕ, ◌≡◌, sym, subst, ◌⊎◌, inl, inr, Bool, false, Option, none, some, arith, Bool-cases,
}
use byte_waterlevel.Prelude.Int.{ℤ}
use byte_waterlevel.Prelude.Words.{to_i8}
use byte_waterlevel.Json.{JsonLib}
use byte_waterlevel.Device.State.{Device}
use byte_waterlevel.Device.Relays.{set_relais_duration}
use byte_waterlevel.Device.Relays.Pins.{PinsAgree, IsChannel, set_relais-PinsAgree}
use byte_waterlevel.World.{World, send}
use byte_waterlevel.Web.Relays.{need_auth-device, check_request-device}
use byte_waterlevel.Web.{
  Ambient, Request, switch_relais, duration_of, relais_call, save_call, update_call,
  maintenance_call, handle_api_call, need_auth, check_request, api,
}

module _ {F : Type 0} where
  set_relais_duration-PinsAgree :
      (now : ℕ) (c s : ℤ) (d : Device F) → PinsAgree d → PinsAgree (set_relais_duration now c s d)
  unfolding set_relais_duration
  set_relais_duration-PinsAgree now c s d p = ground arith

  switch_relais-PinsAgree :
      (env : Ambient F) (c : ℤ) (state : Bool) (duration : Option ℤ) (d : Device F)
      → IsChannel (to_i8 c)
      → PinsAgree d
      → PinsAgree (switch_relais env c state duration d)
  unfolding switch_relais
  switch_relais-PinsAgree env c state none d h p =
      set_relais-PinsAgree env.stray (to_i8 c) state d h p
  switch_relais-PinsAgree env c state (some s) d h p =
      set_relais_duration-PinsAgree env.now c s _
        (set_relais-PinsAgree env.stray (to_i8 c) state d h p)

module _ {F : Type 0} (J : JsonLib F) where
  -- A request of another type than "relais", or for a channel that is 1 or 2 modulo 256.
  abbrev pub IsHarmless : J.Json → Type 0
  IsHarmless json =
      ((J.as_string (J.member json "type") == "relais") ≡ false)
      ⊎ IsChannel (to_i8 (J.as_int (J.member json "channel")))

  pub maintenance_call-device :
      (env : Ambient F) (json : J.Json) (w : World F J.Json)
      → (maintenance_call J env json w).device ≡ w.device
  unfolding maintenance_call save_call update_call send
  maintenance_call-device env json w = ground arith

  handle_api_call-device :
      (env : Ambient F) (json : J.Json) (w : World F J.Json)
      → (J.as_string (J.member json "type") == "relais") ≡ false
      → (handle_api_call J env json w).device ≡ w.device
  unfolding handle_api_call send
  handle_api_call-device env json w other = ground (arith, maintenance_call-device env json w)

  relais_call-PinsAgree :
      (env : Ambient F) (json : J.Json) (w : World F J.Json)
      → IsChannel (to_i8 (J.as_int (J.member json "channel")))
      → PinsAgree w.device
      → PinsAgree (relais_call J env json w).device
  unfolding relais_call send
  relais_call-PinsAgree env json w h p =
      let switched =
        switch_relais-PinsAgree env (J.as_int (J.member json "channel"))
          (J.as_bool (J.member json "state")) (duration_of J json) w.device h p in
      ground arith

  handle_api_call-PinsAgree :
      (env : Ambient F) (json : J.Json) (w : World F J.Json)
      → IsHarmless json
      → PinsAgree w.device
      → PinsAgree (handle_api_call J env json w).device
  unfolding handle_api_call
  handle_api_call-PinsAgree env json w h p =
      elim (Bool-cases (J.as_string (J.member json "type") == "relais")) [
        | inl e ↦ elim h [
          | inl other ↦ cc
          | inr channel ↦ rw e (relais_call-PinsAgree env json w channel p)
        ]
        | inr e ↦ subst PinsAgree (sym (handle_api_call-device env json w e)) p
      ]

  -- A request keeps the relays' variables and the LED's equal to their pins, unless it is of the type
  -- "relais" and its channel is neither 1 nor 2 modulo 256.
  pub api-PinsAgree :
      (env : Ambient F) (request : Request J.Json) (w : World F J.Json)
      → IsHarmless request.body
      → PinsAgree w.device
      → PinsAgree (api J env request w).device
  unfolding api
  api-PinsAgree env request w h p =
      let w1 = (need_auth J request w).1 in
      let w2 = (check_request J request.body w1).1 in
      let p1 = subst PinsAgree (sym (need_auth-device J request w)) p in
      let p2 = subst PinsAgree (sym (check_request-device J request.body w1)) p1 in
      ground (arith, p1, p2, handle_api_call-PinsAgree env request.body w2 h p2)

  -- A request of another type than "relais" leaves the device alone.
  pub api-device_other :
      (env : Ambient F) (request : Request J.Json) (w : World F J.Json)
      → (J.as_string (J.member request.body "type") == "relais") ≡ false
      → (api J env request w).device ≡ w.device
  unfolding api
  api-device_other env request w other =
      let w1 = (need_auth J request w).1 in
      let w2 = (check_request J request.body w1).1 in
      ground (
        arith,
        need_auth-device J request w,
        check_request-device J request.body w1,
        handle_api_call-device env request.body w2 other,
      )

  maintenance_call-auto :
      (env : Ambient F) (json : J.Json) (w : World F J.Json)
      → ((maintenance_call J env json w).auto ≡ w.auto)
        × ((maintenance_call J env json w).mqtt ≡ w.mqtt)
        × ((maintenance_call J env json w).wifi ≡ w.wifi)
  unfolding maintenance_call save_call update_call send
  maintenance_call-auto env json w = ground arith

  -- No request touches the variables of the automation and of the MQTT and Wi-Fi handlers.
  pub api-auto :
      (env : Ambient F) (request : Request J.Json) (w : World F J.Json)
      → ((api J env request w).auto ≡ w.auto)
        × ((api J env request w).mqtt ≡ w.mqtt)
        × ((api J env request w).wifi ≡ w.wifi)
  unfolding api handle_api_call need_auth check_request relais_call send
  api-auto env request w = ground (arith, maintenance_call-auto env request.body w)
