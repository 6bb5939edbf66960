-- ===== src/Firmware/Denied.antt =====
-- src/main.cpp with src/WebHandler.cpp: a firmware with an administrator, and strangers.
use byte_waterlevel.Prelude.{◌≡◌, refl, ◌∙◌, ap, true, false, List, [], ◌∷◌, All, arith}
use byte_waterlevel.Floats.{Floats}
use byte_waterlevel.Json.{JsonLib}
use byte_waterlevel.Web.{Ambient, Request, api, root, not_found}
use byte_waterlevel.Web.Access.{denied, root-send}
use byte_waterlevel.World.{send}
use byte_waterlevel.Firmware.{
  Pass, Firmware, loop, Event, pass, request, adc_task, mqtt_up, visit, visit_other, Turn,
  take_turn, turn, step, run,
}

module _ (R : Floats) (J : JsonLib R.Float) where
  open J use {Json, member, as_bool}

  -- The firmware without the answers that the web server has sent.
  pub unanswered : Firmware R J → Firmware R J
  unanswered w = record w { responses = [] }

  -- The events that are no requests.
  unfoldable pub unasked : List (Event R J) → List (Event R J)
  unasked [] = []
  unasked (request env r ∷ es) = unasked es
  unasked (visit r ∷ es) = unasked es
  unasked (visit_other ∷ es) = unasked es
  unasked (e ∷ es) = e ∷ unasked es

  -- A request does not carry the administrator's user and password.
  abbrev IsStranger : (config : Json) → Event R J → Type 0
  IsStranger config (request env r) =
      let admin = member config "admin" in
      r.authenticate (member admin "user") (member admin "password") ≡ false
  IsStranger config (pass _) = Unit
  IsStranger config (turn _) = Unit
  IsStranger config (adc_task _) = Unit
  IsStranger config mqtt_up = Unit
  IsStranger config (visit _) = Unit
  IsStranger config visit_other = Unit

  -- An event that is no request does the same whatever was answered before, and keeps the files.
  pass-unanswered :
      (p : Pass R.Float) (w : Firmware R J)
      → (unanswered (loop R J p w) ≡ loop R J p (unanswered w)) × ((loop R J p w).files ≡ w.files)
  unfolding unanswered loop
  pass-unanswered p w = (refl, refl)

  turn-unanswered :
      (t : Turn R.Float) (w : Firmware R J)
      → (unanswered (take_turn R J t w) ≡ take_turn R J t (unanswered w))
        × ((take_turn R J t w).files ≡ w.files)
  unfolding unanswered take_turn
  turn-unanswered t w = ground arith

  mqtt_up-unanswered :
      (w : Firmware R J)
      → let v = step R J mqtt_up w in
        (unanswered v ≡ step R J mqtt_up (unanswered w)) × (v.files ≡ w.files)
  unfolding unanswered step
  mqtt_up-unanswered w = ground arith

  -- A request of a stranger is answered, and does nothing else.
  api-unanswered :
      (env : Ambient R.Float) (r : Request Json) (w : Firmware R J)
      → as_bool (member (member w.files.config "admin") "state") ≡ true
      → IsStranger w.files.config (request env r)
      → (unanswered (api J env r w) ≡ unanswered w) × ((api J env r w).files ≡ w.files)
  unfolding unanswered send
  api-unanswered env r w guarded stranger = rw (denied J env r w guarded stranger).0 (refl, refl)

  visit-unanswered :
      (r : Request Json) (w : Firmware R J)
      → (unanswered (root J r w) ≡ unanswered w) × ((root J r w).files ≡ w.files)
  unfolding unanswered send
  visit-unanswered r w = rw (root-send J r w) (refl, refl)

  -- With an administrator set, requests without the right user and password, for the API, the page or
  -- any other path, have no effect but their answers: behind any run the firmware is, apart from the
  -- answers that were sent, as it is behind the same run without the requests.
  pub run-unasked :
      (config : Json) (es : List (Event R J)) (w : Firmware R J)
      → w.files.config ≡ config
      → as_bool (member (member config "admin") "state") ≡ true
      → All (IsStranger config) es
      → unanswered (run R J es w) ≡ run R J (unasked es) (unanswered w)
  unfolding run step unasked unanswered not_found send
  run-unasked config [] w kept guarded ss = refl
  run-unasked config (pass p ∷ es) w kept guarded (s, ss) =
      let same = pass-unanswered p w in
      run-unasked config es (loop R J p w) (ap (λ f. f.config) same.1 ∙ kept) guarded ss
      ∙ ap (run R J (unasked es)) same.0
  run-unasked config (turn t ∷ es) w kept guarded (s, ss) =
      let same = turn-unanswered t w in
      run-unasked config es (take_turn R J t w) (ap (λ f. f.config) same.1 ∙ kept) guarded ss
      ∙ ap (run R J (unasked es)) same.0
  run-unasked config (request env r ∷ es) w kept guarded (s, ss) =
      let same = api-unanswered env r w (rw kept guarded) (rw kept s) in
      run-unasked config es (api J env r w) (ap (λ f. f.config) same.1 ∙ kept) guarded ss
      ∙ ap (run R J (unasked es)) same.0
  run-unasked config (adc_task reads ∷ es) w kept guarded (s, ss) =
      run-unasked config es (step R J (adc_task reads) w) kept guarded ss
  run-unasked config (mqtt_up ∷ es) w kept guarded (s, ss) =
      let same = mqtt_up-unanswered w in
      run-unasked config es (step R J mqtt_up w) (ap (λ f. f.config) same.1 ∙ kept) guarded ss
      ∙ ap (run R J (unasked es)) same.0
  run-unasked config (visit r ∷ es) w kept guarded (s, ss) =
      let same = visit-unanswered r w in
      run-unasked config es (root J r w) (ap (λ f. f.config) same.1 ∙ kept) guarded ss
      ∙ ap (run R J (unasked es)) same.0
  run-unasked config (visit_other ∷ es) w kept guarded (s, ss) =
      run-unasked config es (not_found w) kept guarded ss
