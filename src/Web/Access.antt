-- ===== src/Web/Access.antt =====
-- src/WebHandler.cpp: what a request without the administrator's credentials can do.
use byte_waterlevel.Prelude.{◌≡◌, true, false, arith, if◌then◌else◌}
use byte_waterlevel.Json.{JsonLib}
use byte_waterlevel.Files.{exists, get_config}
use byte_waterlevel.World.{World, Response, answer, challenge, page, send}
use byte_waterlevel.Web.{Ambient, Request, need_auth, api, root}

module _ {F : Type 0} (J : JsonLib F) where
  -- The administrator of the configuration in memory.
  abbrev admin_of : World F J.Json → J.Json
  admin_of w = J.member (get_config w.files) "admin"

  -- If the administrator is enabled and the request does not carry the credentials, the API and the
  -- page send the challenge and change nothing else.
  pub denied :
      (env : Ambient F) (request : Request J.Json) (w : World F J.Json)
      → J.as_bool (J.member (admin_of w) "state") ≡ true
      → request.authenticate (J.member (admin_of w) "user") (J.member (admin_of w) "password")
        ≡ false
      → (api J env request w ≡ send challenge w) × (root J request w ≡ send challenge w)
  unfolding api root need_auth
  denied env request w on wrong = (rw (on, wrong), rw (on, wrong))

  abbrev root_answer : Request J.Json → World F J.Json → Response
  root_answer request w =
      if (need_auth J request w).0
      then (if exists "/index.html" w.files
          then page
          else answer 500 "text/plain" "Invalid LittleFS")
      else challenge

  -- The page is answered once, and nothing else happens.
  pub root-send :
      (request : Request J.Json) (w : World F J.Json)
      → root J request w ≡ send (root_answer request w) w
  unfolding root need_auth
  root-send request w = ground arith
