-- ===== src/Web/Relays.antt =====
-- src/WebHandler.cpp: what the API does to the relays.
use byte_waterlevel.Prelude.{ap, ◌≡◌, ◌≢◌, Bool, true, Option, none, some, ◌∙◌, arith}
use byte_waterlevel.Prelude.Int.{ℤ, pos, negsuc}
use byte_waterlevel.Prelude.Words.{to_u8}
use byte_waterlevel.Json.{JsonLib}
use byte_waterlevel.Device.State.{Device, no_timer}
use byte_waterlevel.Device.Relays.{set_relais, set_relais_duration}
use byte_waterlevel.Device.Relays.Pins.{IsChannel}
use byte_waterlevel.Device.Relays.Timers.{switch_on_for}
use byte_waterlevel.World.{World, send}
use byte_waterlevel.Web.Dispatch.{api-admitted}
use byte_waterlevel.Web.{
  Ambient, Request, switch_relais, duration_of, relais_call, handle_api_call, need_auth,
  check_request, api,
}

module _ {F : Type 0} where
  switch_relais_alias :
      (env : Ambient F) (c s : ℤ) (d : Device F)
      → c ≢ pos 1
      → to_u8 c ≡ 1
      → let d' = switch_relais env c true (some s) d in (d'.relay1 ≡ true) × (d'.ch1 ≡ no_timer)
  unfolding switch_relais set_relais set_relais_duration
  switch_relais_alias env (pos n) s d other alias = ground arith
  switch_relais_alias env (negsuc n) s d other alias = ground arith

  switch_relais_stray :
      (env : Ambient F) (c : ℤ) (state : Bool) (duration : Option ℤ) (d : Device F)
      → to_u8 c ≢ 1
      → to_u8 c ≢ 2
      → let d' = switch_relais env c state duration d in
        (d'.pins env.stray ≡ state) × (d'.relay1 ≡ d.relay1) × (d'.relay2 ≡ d.relay2)
  unfolding switch_relais set_relais set_relais_duration
  switch_relais_stray env (pos n) state none d n1 n2 = ground arith
  switch_relais_stray env (pos n) state (some s) d n1 n2 = ground arith
  switch_relais_stray env (negsuc n) state none d n1 n2 = ground arith
  switch_relais_stray env (negsuc n) state (some s) d n1 n2 = ground arith

module _ {F : Type 0} (J : JsonLib F) where
  -- An admitted request of the type "relais", with its parameters.
  pub record IsRelaisCall (request : Request J.Json) (w : World F J.Json) (channel : ℤ)
      (state : Bool) (duration : Option ℤ) : Type 0 where
    pub admitted : (need_auth J request w).0 ≡ true
    pub type_is_string : J.is_string (J.member request.body "type") ≡ true
    pub type_is : J.as_string (J.member request.body "type") ≡ "relais"
    pub channel_is_int : J.is_int (J.member request.body "channel") ≡ true
    pub channel_is : J.as_int (J.member request.body "channel") ≡ channel
    pub state_is_bool : J.is_bool (J.member request.body "state") ≡ true
    pub state_is : J.as_bool (J.member request.body "state") ≡ state
    pub duration_is : duration_of J request.body ≡ duration

  pub need_auth-device :
      (request : Request J.Json) (w : World F J.Json) → (need_auth J request w).1.device ≡ w.device
  unfolding need_auth send
  need_auth-device request w = ground arith

  pub check_request-device :
      (json : J.Json) (w : World F J.Json) → (check_request J json w).1.device ≡ w.device
  unfolding check_request send
  check_request-device json w = ground arith

  relais_call-device :
      (env : Ambient F) (json : J.Json) (w : World F J.Json)
      → J.is_int (J.member json "channel") ≡ true
      → J.is_bool (J.member json "state") ≡ true
      → (relais_call J env json w).device
        ≡ switch_relais env
            (J.as_int (J.member json "channel"))
            (J.as_bool (J.member json "state"))
            (duration_of J json)
            w.device
  unfolding relais_call send
  relais_call-device env json w i b = rw (i, b)

  api-device :
      (env : Ambient F) (request : Request J.Json) (w : World F J.Json) (c : ℤ) (state : Bool)
      (duration : Option ℤ)
      → IsRelaisCall request w c state duration
      → (api J env request w).device ≡ switch_relais env c state duration w.device
  unfolding handle_api_call
  api-device env request w c state duration call =
      ap (λ v. v.device) (api-admitted J env request w call.admitted call.type_is_string)
      ∙ rw call.type_is (
          relais_call-device env request.body w call.channel_is_int call.state_is_bool
          ∙ rw (call.channel_is, call.state_is, call.duration_is))

  -- An admitted request of the type "relais" that switches channel 1 or 2 on with a duration of
  -- `s` seconds has on the device the effect of `setRelais` and then `setRelaisDuration` at the
  -- time of the call.
  pub api_timed :
      (env : Ambient F) (request : Request J.Json) (w : World F J.Json) (c s : ℤ)
      → IsChannel c
      → IsRelaisCall request w c true (some s)
      → (api J env request w).device ≡ switch_on_for env.stray env.now c s w.device
  unfolding switch_relais switch_on_for set_relais
  api_timed env request w c s ch call = api-device env request w c true (some s) call ∙ ground arith

  -- An admitted request of the type "relais" that switches a channel on which is not 1 but 1
  -- modulo 256 switches relay 1 on, and its duration is lost: no timer is set.
  api_alias :
      (env : Ambient F) (request : Request J.Json) (w : World F J.Json) (c s : ℤ)
      → c ≢ pos 1
      → to_u8 c ≡ 1
      → IsRelaisCall request w c true (some s)
      → let d = (api J env request w).device in (d.relay1 ≡ true) × (d.ch1 ≡ no_timer)
  api_alias env request w c s other alias call =
      rw (api-device env request w c true (some s) call)
        (switch_relais_alias env c s w.device other alias)

  -- An admitted request of the type "relais" for a channel that is neither 1 nor 2 modulo 256
  -- writes its state to the pin that an unset variable happens to hold, and leaves the states of
  -- both relays.
  api_stray :
      (env : Ambient F) (request : Request J.Json) (w : World F J.Json) (c : ℤ) (state : Bool)
      (duration : Option ℤ)
      → to_u8 c ≢ 1
      → to_u8 c ≢ 2
      → IsRelaisCall request w c state duration
      → let d = (api J env request w).device in
        (d.pins env.stray ≡ state) × (d.relay1 ≡ w.device.relay1) × (d.relay2 ≡ w.device.relay2)
  api_stray env request w c state duration n1 n2 call =
      rw (api-device env request w c state duration call)
        (switch_relais_stray env c state duration w.device n1 n2)
