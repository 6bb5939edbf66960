-- ===== src/Web/Dispatch.antt =====
-- src/WebHandler.cpp: the way of an admitted request to its handler.
use byte_waterlevel.Prelude.{◌≡◌, true, false, Bool-cases, inl, inr, ◌&&◌, not}
use byte_waterlevel.Json.{JsonLib}
use byte_waterlevel.Files.{get_config}
use byte_waterlevel.World.{World}
use byte_waterlevel.Web.{Ambient, Request, need_auth, check_request, handle_api_call, api}

module _ {F : Type 0} (J : JsonLib F) where
  need_auth-true :
      (request : Request J.Json) (w : World F J.Json)
      → (need_auth J request w).0 ≡ true
      → need_auth J request w ≡ (true, w)
  unfolding need_auth
  need_auth-true request w ok =
      let admin = J.member (get_config w.files) "admin" in
      let test =
        J.as_bool (J.member admin "state")
        && not (request.authenticate (J.member admin "user") (J.member admin "password")) in
      elim (Bool-cases test) [ inl e ↦ let bad : false ≡ true = rw e at ok in cc | inr e ↦ rw e ]

  check_request-true :
      (json : J.Json) (w : World F J.Json)
      → J.is_string (J.member json "type") ≡ true
      → check_request J json w ≡ (true, w)
  unfolding check_request
  check_request-true json w e = rw e

  -- A request that is admitted and has a type goes to `handleAPICall`, in the same world.
  pub api-admitted :
      (env : Ambient F) (request : Request J.Json) (w : World F J.Json)
      → (need_auth J request w).0 ≡ true
      → J.is_string (J.member request.body "type") ≡ true
      → api J env request w ≡ handle_api_call J env request.body w
  unfolding api
  api-admitted env request w ok typed =
      rw (need_auth-true request w ok, check_request-true request.body w typed)
