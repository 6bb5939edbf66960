-- ===== src/Web/Answers.antt =====
-- src/WebHandler.cpp: how often a request is answered.
use text.Mathlib.Text.{◌==◌}
use byte_waterlevel.Prelude.{
  ℕ, ◌+◌, ◌≡◌, Bool, true, false, not, ◌&&◌, List, [], ◌∷◌, ◌++◌, length, arith, if◌then◌else◌,
}
use byte_waterlevel.Json.{JsonLib}
use byte_waterlevel.World.{World, Response, send}
use byte_waterlevel.Web.{
  Ambient, Request, relais_call, save_call, update_call, maintenance_call, handle_api_call,
  need_auth, check_request, api,
}

length-snoc : (rs : List Response) (r : Response) → length (rs ++ (r ∷ [])) ≡ length rs + 1
length-snoc [] r = omega arith
length-snoc (x ∷ rs) r = omega (arith, length-snoc rs r)

module _ {F Json : Type 0} where
  -- The number of answers so far.
  abbrev pub sent : World F Json → ℕ
  sent w = length w.responses

  sent-send : (r : Response) (w : World F Json) → sent (send r w) ≡ sent w + 1
  unfolding send
  sent-send r w = length-snoc w.responses r

  sent-if :
      (test : Bool) (v w : World F Json) (n : ℕ)
      → sent v ≡ n
      → sent w ≡ n
      → sent (if test then v else w) ≡ n
  sent-if true v w n p q = p
  sent-if false v w n p q = q

module _ {F : Type 0} (J : JsonLib F) where
  -- A call of the type "relais" whose channel or state has the wrong type.
  unfoldable pub is_malformed_relais : J.Json → Bool
  is_malformed_relais json =
      (J.as_string (J.member json "type") == "relais")
      && not (J.is_int (J.member json "channel") && J.is_bool (J.member json "state"))

  sent-relais_call :
      (env : Ambient F) (json : J.Json) (w : World F J.Json)
      → sent (relais_call J env json w) ≡ (
          if J.is_int (J.member json "channel") && J.is_bool (J.member json "state")
          then sent w + 1
          else sent w)
  unfolding relais_call
  sent-relais_call env json w = grind (arith, sent-send)

  sent-save_call : (json : J.Json) (w : World F J.Json) → sent (save_call J json w) ≡ sent w + 1
  unfolding save_call
  sent-save_call json w = grind (arith, sent-send)

  sent-update_call :
      (env : Ambient F) (w : World F J.Json) → sent (update_call J env w) ≡ sent w + 1
  unfolding update_call
  sent-update_call env w = grind (arith, sent-send)

  sent-maintenance_call :
      (env : Ambient F) (json : J.Json) (w : World F J.Json)
      → sent (maintenance_call J env json w) ≡ sent w + 1
  unfolding maintenance_call
  sent-maintenance_call env json w =
      grind (arith, sent-send, sent-save_call json w, sent-update_call env w)

  sent-handle_api_call :
      (env : Ambient F) (json : J.Json) (w : World F J.Json)
      → sent (handle_api_call J env json w)
        ≡ (if is_malformed_relais json then sent w else sent w + 1)
  unfolding handle_api_call is_malformed_relais
  sent-handle_api_call env json w =
      grind (arith, sent-send, sent-relais_call env json w, sent-maintenance_call env json w)

  sent-need_auth :
      (request : Request J.Json) (w : World F J.Json)
      → (sent (need_auth J request w).1 + (if (need_auth J request w).0 then 1 else 0) ≡ sent w + 1)
  unfolding need_auth
  sent-need_auth request w = grind (arith, sent-send)

  check_request_lem :
      (json : J.Json) (w : World F J.Json)
      → ((check_request J json w).0 ≡ J.is_string (J.member json "type"))
        × (sent (check_request J json w).1
            ≡ (if J.is_string (J.member json "type") then sent w else sent w + 1))
  unfolding check_request
  check_request_lem json w = grind (arith, sent-send)

  -- Every request to the API is answered exactly once, the challenge and the errors included, but for
  -- one kind: an admitted call of the type "relais" whose channel is no int or whose state is no bool
  -- is never answered.
  pub sent-api :
      (env : Ambient F) (request : Request J.Json) (w : World F J.Json)
      → sent (api J env request w) ≡ (
          if (need_auth J request w).0
            && J.is_string (J.member request.body "type")
            && is_malformed_relais request.body
          then sent w
          else sent w + 1)
  unfolding api
  sent-api env request w = grind (
    arith,
    sent-need_auth request w,
    check_request_lem request.body (need_auth J request w).1,
    sent-handle_api_call,
  )
