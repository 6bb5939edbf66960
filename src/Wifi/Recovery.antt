-- ===== src/Wifi/Recovery.antt =====
-- src/WiFiHandler.cpp: the modes of the radio over the passes of the loop, and the way back to the
-- station.
use byte_waterlevel.Prelude.{
  ℕ, suc, ◌≡◌, refl, Bool, true, false, ◌&&◌, List, [], ◌∷◌, ◌++◌, arith, if◌then◌else◌, ap as cong,
}
use byte_waterlevel.Json.{JsonLib}
use byte_waterlevel.Wifi.{
  WifiMode, sta, ap, ap_sta, Call, set_mode, reconnect, Wifi, add_calls, set_auto_reconnect,
  start_ap, try_reconnect, start_ap_on_timeout, begin_station, setup, check_connection, loop,
  is_wifi_client_usable,
}

-- The mode behind the calls, from the mode before them.
pub mode_of : WifiMode → List Call → WifiMode
mode_of m [] = m
mode_of m (set_mode n ∷ rest) = mode_of n rest
mode_of m (_ ∷ rest) = mode_of m rest

-- Whether the station is on in a mode.
abbrev pub has_station : WifiMode → Bool
has_station sta = true
has_station ap = false
has_station ap_sta = true

mode_of-append :
    (xs ys : List Call) (m : WifiMode) → mode_of m (xs ++ ys) ≡ mode_of (mode_of m xs) ys
unfolding mode_of
mode_of-append [] ys m = refl
mode_of-append (set_mode n ∷ xs) ys m = mode_of-append xs ys n
mode_of-append (_ ∷ xs) ys m = mode_of-append xs ys m

-- The mode of the radio, which is off before the first call that sets one.
abbrev pub mode : Wifi → WifiMode
mode w = mode_of ap w.calls

-- How often the calls try to reconnect.
unfoldable pub attempts : List Call → ℕ
attempts [] = 0
attempts (reconnect ∷ rest) = suc (attempts rest)
attempts (_ ∷ rest) = attempts rest

module _ {F : Type 0} (J : JsonLib F) where
  -- Passes of the loop, each at its time, with or without a connection and with the configuration of
  -- that time.
  pub data Passes : Wifi → Wifi → Type 0 where
    done : {w : Wifi} → Passes w w
    pass :
        {w v : Wifi} (now : ℕ) (connected : Bool) (config : J.Json)
        → Passes (loop J now connected config w) v
        → Passes w v

  -- The library reports a connection only while the station is on.
  abbrev IsReal : {w v : Wifi} → Passes w v → Type 0
  IsReal done = Unit
  IsReal (pass {w = w} now connected config rest) =
      (connected ≡ true → has_station (mode w) ≡ true) × IsReal rest

  -- The access point alone is up.
  record IsStranded (w : Wifi) : Type 0 where
    serving : w.ap_started ≡ true
    alone : mode w ≡ ap

  loop-IsStranded :
      (now : ℕ) (connected : Bool) (config : J.Json) (w : Wifi)
      → (connected ≡ true → has_station (mode w) ≡ true)
      → IsStranded w
      → IsStranded (loop J now connected config w)
  unfolding loop check_connection start_ap_on_timeout try_reconnect mode_of
  loop-IsStranded now connected config w real s =
      ground (arith, real, s, mode_of-append w.calls (reconnect ∷ []) ap)

  Passes-IsStranded : {w v : Wifi} → (ps : Passes w v) → IsReal ps → IsStranded w → IsStranded v
  Passes-IsStranded done real s = s
  Passes-IsStranded (pass {w = w} now connected config rest) (real, later) s =
      Passes-IsStranded rest later (loop-IsStranded now connected config w real s)

  start_ap-IsStranded : (config : J.Json) (w : Wifi) → IsStranded (start_ap J config false w)
  unfolding start_ap mode_of
  start_ap-IsStranded config w = record { serving = refl; alone = mode_of-append w.calls _ ap }

  setup-IsStranded :
      (now : ℕ) (joined : Bool) (config : J.Json) (w : Wifi)
      → (is_wifi_client_usable J config && joined) ≡ false
      → IsStranded (setup J now joined config w)
  unfolding setup
  setup-IsStranded now joined config w failed =
      let ready = add_calls (set_auto_reconnect true ∷ []) w in
      ground (
        arith,
        failed,
        start_ap-IsStranded config ready,
        start_ap-IsStranded config (begin_station J now config ready),
      )

  -- If the station does not join at the start, or has no usable credentials, the radio stays in the
  -- mode of the access point alone: behind any passes of the loop, a connection being reported only
  -- while the station is on, the access point is up and the station off.
  pub Passes-setup_stranded :
      {v : Wifi} (now : ℕ) (joined : Bool) (config : J.Json) (w : Wifi)
      → (is_wifi_client_usable J config && joined) ≡ false
      → (ps : Passes (setup J now joined config w) v) → IsReal ps
      → (v.ap_started ≡ true) × (has_station (mode v) ≡ false)
  Passes-setup_stranded now joined config w failed ps real =
      let s = Passes-IsStranded ps real (setup-IsStranded now joined config w failed) in
      (s.serving, cong has_station s.alone)

  -- The station is on, and the access point too where the flag says so.
  record IsReachable (w : Wifi) : Type 0 where
    by_flag : mode w ≡ (if w.ap_started then ap_sta else sta)
