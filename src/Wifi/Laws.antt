-- ===== src/Wifi/Laws.antt =====
-- src/WiFiHandler.cpp: the access point over the passes of the loop.
use byte_waterlevel.Prelude.{
  ℕ, ◌<◌, ◌≡◌, refl, Bool, true, false, not, ◌&&◌, List, [], ◌∷◌, ◌++◌, arith, ◌∙◌,
}
use byte_waterlevel.Prelude.Words.{sub32}
use byte_waterlevel.Json.{JsonLib}
use byte_waterlevel.Wifi.{
  Call, reconnect, soft_ap, soft_ap_disconnect, set_mode, sta, Wifi, add_calls, stop_ap, start_ap,
  try_reconnect, start_ap_on_timeout, begin_station, set_auto_reconnect, power_on, setup,
  check_connection, loop,
}

-- Whether the access point is up behind the calls, from whether it was up before them.
pub ap_active : Bool → List Call → Bool
ap_active up [] = up
ap_active up (soft_ap _ _ ∷ rest) = ap_active true rest
ap_active up (soft_ap_disconnect _ ∷ rest) = ap_active false rest
ap_active up (_ ∷ rest) = ap_active up rest

-- The access point is started only while it is down, and stopped only while it is up.
pub bracketed : Bool → List Call → Bool
bracketed up [] = true
bracketed up (soft_ap _ _ ∷ rest) = not up && bracketed true rest
bracketed up (soft_ap_disconnect _ ∷ rest) = up && bracketed false rest
bracketed up (_ ∷ rest) = bracketed up rest

-- The flag tells whether the access point is up, and the calls so far are in order.
pub record IsBracketed (w : Wifi) : Type 0 where
  pub flag_true : ap_active false w.calls ≡ w.ap_started
  pub in_order : bracketed false w.calls ≡ true

ap_active-append :
    (xs ys : List Call) (up : Bool) → ap_active up (xs ++ ys) ≡ ap_active (ap_active up xs) ys
unfolding ap_active
ap_active-append [] ys up = refl
ap_active-append (soft_ap _ _ ∷ xs) ys up = ap_active-append xs ys true
ap_active-append (soft_ap_disconnect _ ∷ xs) ys up = ap_active-append xs ys false
ap_active-append (_ ∷ xs) ys up = ap_active-append xs ys up

bracketed-append :
    (xs ys : List Call) (up : Bool)
    → bracketed up (xs ++ ys) ≡ (bracketed up xs && bracketed (ap_active up xs) ys)
unfolding bracketed ap_active
bracketed-append [] ys up = refl
bracketed-append (soft_ap _ _ ∷ xs) ys up = ground (arith, bracketed-append xs ys true)
bracketed-append (soft_ap_disconnect _ ∷ xs) ys up = ground (arith, bracketed-append xs ys false)
bracketed-append (_ ∷ xs) ys up = bracketed-append xs ys up

-- New calls that are in order from the flag on.
extend-IsBracketed :
    (w v : Wifi) (new : List Call)
    → v.calls ≡ w.calls ++ new
    → ap_active w.ap_started new ≡ v.ap_started
    → bracketed w.ap_started new ≡ true
    → IsBracketed w
    → IsBracketed v
extend-IsBracketed w v new c after fine b = ground (
  arith,
  ap_active-append w.calls new false,
  bracketed-append w.calls new false,
  b.flag_true,
  b.in_order,
)

try_reconnect-IsBracketed : (now : ℕ) (w : Wifi) → IsBracketed w → IsBracketed (try_reconnect now w)
unfolding try_reconnect ap_active bracketed
try_reconnect-IsBracketed now w b =
    let again = reconnect ∷ [] in
    ground (arith, b, ap_active-append w.calls again false, bracketed-append w.calls again false)

pub power_on-IsBracketed : IsBracketed power_on
unfolding ap_active bracketed
power_on-IsBracketed = record { flag_true = refl; in_order = refl }

stop_ap-IsBracketed : (w : Wifi) → IsBracketed w → IsBracketed (stop_ap w)
unfolding stop_ap ap_active bracketed
stop_ap-IsBracketed w b =
    let stop = soft_ap_disconnect true ∷ [] in
    ground (arith, b, ap_active-append w.calls stop false, bracketed-append w.calls stop false)

module _ {F : Type 0} (J : JsonLib F) where
  start_ap-IsBracketed :
      (config : J.Json) (combine : Bool) (w : Wifi)
      → w.ap_started ≡ false
      → IsBracketed w
      → IsBracketed (start_ap J config combine w)
  unfolding start_ap ap_active bracketed
  start_ap-IsBracketed config combine w down b =
      extend-IsBracketed w (start_ap J config combine w) _ refl refl (rw down) b

  start_ap_on_timeout-IsBracketed :
      (now : ℕ) (config : J.Json) (w : Wifi)
      → IsBracketed w
      → IsBracketed (start_ap_on_timeout J now config w)
  unfolding start_ap_on_timeout
  start_ap_on_timeout-IsBracketed now config w b =
      ground (arith, b, start_ap-IsBracketed config true w)

  begin_station-IsBracketed :
      (now : ℕ) (config : J.Json) (w : Wifi)
      → w.ap_started ≡ false
      → IsBracketed w
      → IsBracketed (begin_station J now config w)
  unfolding begin_station ap_active bracketed
  begin_station-IsBracketed now config w down b =
      extend-IsBracketed w (begin_station J now config w) _ refl down refl b

  -- The start, from a device whose access point is down.
  pub setup-IsBracketed :
      (now : ℕ) (joined : Bool) (config : J.Json) (w : Wifi)
      → w.ap_started ≡ false
      → IsBracketed w
      → IsBracketed (setup J now joined config w)
  unfolding setup ap_active bracketed
  setup-IsBracketed now joined config w down b =
      let ready = add_calls (set_auto_reconnect true ∷ []) w in
      let ready_ok : IsBracketed ready = extend-IsBracketed w ready _ refl refl refl b in
      let begun = begin_station J now config ready in
      let begun_ok : IsBracketed begun = begin_station-IsBracketed now config ready down ready_ok in
      ground (
        arith,
        ready_ok,
        begun_ok,
        start_ap-IsBracketed config false ready down ready_ok,
        start_ap-IsBracketed config false begun (unfold begin_station in refl) begun_ok,
      )

  -- The access point is not started twice, nor stopped while it is down, and the flag `apStarted` tells
  -- whether it is up: every pass of the loop keeps this.
  pub loop-IsBracketed :
      (now : ℕ) (connected : Bool) (config : J.Json) (w : Wifi)
      → IsBracketed w
      → IsBracketed (loop J now connected config w)
  unfolding loop check_connection ap_active bracketed
  loop-IsBracketed now connected config w b =
      let tried = try_reconnect now w in
      ground (
        arith,
        b,
        extend-IsBracketed (stop_ap w) (add_calls (set_mode sta ∷ []) (stop_ap w))
            (set_mode sta ∷ []) refl refl refl (stop_ap-IsBracketed w b),
        start_ap_on_timeout-IsBracketed now config tried (try_reconnect-IsBracketed now w b),
      )

  -- A pass with a connection leaves the access point down.
  loop_connected :
      (now : ℕ) (config : J.Json) (w : Wifi)
      → IsBracketed w
      → let w' = loop J now true config w in
        (w'.ap_started ≡ false) × (ap_active false w'.calls ≡ false)
  unfolding ap_active
  loop_connected now config w b =
      let down : (loop J now true config w).ap_started ≡ false =
        unfold loop check_connection stop_ap in ground arith in
      (down, (loop-IsBracketed now true config w b).flag_true ∙ down)

  -- Passes with a connection, at the given times.
  connected_passes : List ℕ → J.Json → Wifi → Wifi
  connected_passes [] config w = w
  connected_passes (t ∷ ts) config w = connected_passes ts config (loop J t true config w)

  connected_passes-start :
      (ts : List ℕ) (config : J.Json) (w : Wifi)
      → (connected_passes ts config w).connection_start ≡ w.connection_start
  unfolding connected_passes loop check_connection stop_ap
  connected_passes-start [] config w = refl
  connected_passes-start (t ∷ ts) config w =
      connected_passes-start ts config (loop J t true config w) ∙ ground arith

  -- From 30 seconds after the start of the connection on, the first pass without a connection starts
  -- the access point, however recently the connection was up.
  loop_lost :
      (ts : List ℕ) (now : ℕ) (config : J.Json) (w : Wifi)
      → 30_000 < sub32 now w.connection_start
      → (loop J now false config (connected_passes ts config w)).ap_started ≡ true
  unfolding loop check_connection start_ap_on_timeout start_ap try_reconnect
  loop_lost ts now config w late = ground (arith, connected_passes-start ts config w)
