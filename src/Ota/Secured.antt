-- ===== src/Ota/Secured.antt =====
-- src/OTAHandler.cpp: the local update server and its password.
use byte_waterlevel.Prelude.{
  ◌≡◌, refl, Bool, true, false, ◌&&◌, List, [], ◌∷◌, ◌++◌, arith, Bool-cases, inl, inr,
}
use byte_waterlevel.Json.{JsonLib}
use byte_waterlevel.Ota.{Call, set_password, begin, handle, pull_handle, Ota, power_on, setup, loop}

-- The server begins only behind a `setPassword`, and is polled only once it has begun.
pub secured : (password begun : Bool) → List Call → Bool
secured password begun [] = true
secured password begun (set_password _ ∷ rest) = secured true begun rest
secured password begun (begin ∷ rest) = password && secured password true rest
secured password begun (handle ∷ rest) = begun && secured password begun rest
secured password begun (_ ∷ rest) = secured password begun rest

-- Whether the calls set a password, and whether they begin the server.
has_password : Bool → List Call → Bool
has_password b [] = b
has_password b (set_password _ ∷ rest) = has_password true rest
has_password b (_ ∷ rest) = has_password b rest

has_begun : Bool → List Call → Bool
has_begun b [] = b
has_begun b (begin ∷ rest) = has_begun true rest
has_begun b (_ ∷ rest) = has_begun b rest

secured-append :
    (xs ys : List Call) (p b : Bool)
    → secured p b (xs ++ ys) ≡ (secured p b xs && secured (has_password p xs) (has_begun b xs) ys)
unfolding secured has_password has_begun
secured-append [] ys p b = refl
secured-append (set_password _ ∷ xs) ys p b = secured-append xs ys true b
secured-append (begin ∷ xs) ys p b = ground (arith, secured-append xs ys p true)
secured-append (handle ∷ xs) ys p b = ground (arith, secured-append xs ys p b)
secured-append (_ ∷ xs) ys p b = secured-append xs ys p b

has_begun-append :
    (xs ys : List Call) (b : Bool) → has_begun b (xs ++ ys) ≡ has_begun (has_begun b xs) ys
unfolding has_begun
has_begun-append [] ys b = refl
has_begun-append (begin ∷ xs) ys b = has_begun-append xs ys true
has_begun-append (_ ∷ xs) ys b = has_begun-append xs ys b

-- The calls so far are secured, and the flag tells whether the server has begun.
record IsSecured (o : Ota) : Type 0 where
  in_order : secured false false o.calls ≡ true
  flag_true : has_begun false o.calls ≡ o.ota_enabled

-- The passes of the loop, each with whether Wi-Fi is connected.
pub passes : List Bool → Ota → Ota
passes [] o = o
passes (c ∷ cs) o = passes cs (loop c o)

loop-IsSecured : (c : Bool) (o : Ota) → IsSecured o → IsSecured (loop c o)
unfolding loop secured has_begun
loop-IsSecured c o s =
    let one = handle ∷ [] in
    let two = pull_handle ∷ [] in
    ground (
      arith,
      s,
      secured-append o.calls one false false,
      has_begun-append o.calls one false,
      secured-append (o.calls ++ one) two false false,
      has_begun-append (o.calls ++ one) two false,
      secured-append o.calls two false false,
      has_begun-append o.calls two false,
    )

passes-IsSecured : (cs : List Bool) (o : Ota) → IsSecured o → IsSecured (passes cs o)
unfolding passes
passes-IsSecured [] o s = s
passes-IsSecured (c ∷ cs) o s = passes-IsSecured cs (loop c o) (loop-IsSecured c o s)

module _ {F : Type 0} (J : JsonLib F) where
  setup-IsSecured :
      (config : J.Json)
      → J.as_bool (J.member (J.member config "admin") "state") ≡ true
      → IsSecured (setup J config power_on)
  unfolding setup secured has_begun
  setup-IsSecured config admin = elim (Bool-cases (J.as_bool (J.member config "ota"))) [
    | inl e ↦ record { in_order = rw (e, admin) refl; flag_true = rw (e, admin) refl }
    | inr e ↦ record { in_order = rw e refl; flag_true = rw e refl }
  ]

  -- With an administrator enabled, the local update server never begins without a password set before,
  -- and no pass of the loop polls it before it has begun, whatever the connection of Wi-Fi.
  pub secured-passes-setup :
      (config : J.Json) (cs : List Bool)
      → J.as_bool (J.member (J.member config "admin") "state") ≡ true
      → secured false false (passes cs (setup J config power_on)).calls ≡ true
  secured-passes-setup config cs admin =
      (passes-IsSecured cs (setup J config power_on) (setup-IsSecured config admin)).in_order
