-- ===== src/Files/Merge.antt =====
-- src/FileHandler.cpp: what one round of the loop of `mergeJsonObjects` leaves in its target.
pub mod Loop
pub mod Fuel
pub mod Paths
use Prim.Native.String.{String}
use text.Mathlib.Text.{◌==◌}
use text.Mathlib.TextEquality.{eq_iff}
use byte_waterlevel.Prelude.{
  ℕ, zero, suc, ◌+◌, ◌<◌, ◌≤◌, ◌≡◌, refl, ap, sym, ◌∙◌, ◌⊎◌, inl, inr, Bool, true, false, List, [],
  ◌∷◌, All, arith, Bool-cases, ◌||◌, if◌then◌else◌,
}
use byte_waterlevel.Json.{JsonLib, IsDocument, HasDepth, has, Distinct}
use byte_waterlevel.Files.{ensure_object, merge_member, merge_members, merge_json_objects}

module _ {F : Type 0} (J : JsonLib F) where
  open J use {Json, member, set_member, contains_key, is_object, keys}

  -- A member that is an object in the source is one in the target too.
  abbrev pub IsReady : (source target : Json) → String → Type 0
  IsReady source target k =
      (is_object (member source k) ≡ false) ⊎ (is_object (member target k) ≡ true)

  -- What a merge should leave at a key of the source: the merged objects, the target's own value, or
  -- the source's value where the target has none.
  abbrev pub merged_value : (Json → Json → Json) → (source target : Json) → String → Json
  merged_value recur source target k =
      if is_object (member source k)
      then recur (member target k) (member source k)
      else if contains_key target k
      then member target k
      else member source k

  module _ (laws : IsDocument J) (recur : Json → Json → Json) (source : Json) where
    open laws use {member-set_member, contains_key-set_member, is_object-set_member}
    open laws use {is_object-empty_object, contains_key-empty_object}

    pub member-merge_member :
        (k i : String) (target : Json)
        → is_object target ≡ true
        → IsReady source target k
        → member (merge_member J recur source k target) i
          ≡ (if k == i then merged_value recur source target k else member target i)
    unfolding merge_member ensure_object
    member-merge_member k i target o r =
        let merged = recur (member target k) (member source k) in
        ground (
          arith,
          eq_iff k i,
          member-set_member target k i merged o,
          member-set_member target k i (member source k) o,
        )

    pub contains_key-merge_member :
        (k i : String) (target : Json)
        → is_object target ≡ true
        → IsReady source target k
        → (k == i) ≡ false
        → contains_key (merge_member J recur source k target) i ≡ contains_key target i
    unfolding merge_member ensure_object
    contains_key-merge_member k i target o r other =
        let merged = recur (member target k) (member source k) in
        ground (
          arith,
          contains_key-set_member target k i merged o,
          contains_key-set_member target k i (member source k) o,
        )

    is_object-ensure_object :
        (k : String) (target : Json)
        → is_object target ≡ true
        → is_object (ensure_object J k target) ≡ true
    unfolding ensure_object
    is_object-ensure_object k target o =
        let cleared = set_member J.empty_object k J.empty_object in
        let made = is_object-set_member J.empty_object k J.empty_object is_object-empty_object in
        ground (arith, o, is_object-set_member cleared k (member cleared k) made)

    pub is_object-merge_member :
        (k : String) (target : Json)
        → is_object target ≡ true
        → is_object (merge_member J recur source k target) ≡ true
    unfolding merge_member
    is_object-merge_member k target o =
        let ready = ensure_object J k target in
        ground (
          arith,
          o,
          is_object-set_member ready k (recur (member ready k) (member source k))
              (is_object-ensure_object k target o),
          is_object-set_member target k (member source k) o,
        )

    cleared-ensure_object :
        (k i : String) (target : Json)
        → is_object (member target k) ≡ false
        → (k == i) ≡ false
        → contains_key (ensure_object J k target) i ≡ false
    unfolding ensure_object
    cleared-ensure_object k i target missing other =
        let cleared = set_member J.empty_object k J.empty_object in
        let made = is_object-set_member J.empty_object k J.empty_object is_object-empty_object in
        ground (
          arith,
          contains_key-set_member cleared k i (member cleared k) made,
          contains_key-set_member J.empty_object k i J.empty_object is_object-empty_object,
          contains_key-empty_object i,
        )

    absent-ensure_object :
        (k i : String) (target : Json)
        → (k == i) ≡ false
        → contains_key target i ≡ false
        → contains_key (ensure_object J k target) i ≡ false
    absent-ensure_object k i target other gone = elim (Bool-cases (is_object (member target k))) [
      | inl e ↦ unfold ensure_object in rw (e, ensure_object) gone
      | inr e ↦ cleared-ensure_object k i target e other
    ]

    -- A member that the target lacks, and that is not this key, is still missing behind the round.
    pub absent-merge_member :
        (k i : String) (target : Json)
        → is_object target ≡ true
        → (k == i) ≡ false
        → contains_key target i ≡ false
        → contains_key (merge_member J recur source k target) i ≡ false
    unfolding merge_member
    absent-merge_member k i target o other gone =
        let ready = ensure_object J k target in
        ground (
          arith,
          absent-ensure_object k i target other gone,
          contains_key-set_member ready k i (recur (member ready k) (member source k))
              (is_object-ensure_object k target o),
          contains_key-set_member target k i (member source k) o,
        )

    -- A round that finds no object where the source has one loses every other member of the target.
    pub cleared-merge_member :
        (k i : String) (target : Json)
        → is_object target ≡ true
        → is_object (member source k) ≡ true
        → is_object (member target k) ≡ false
        → (k == i) ≡ false
        → contains_key (merge_member J recur source k target) i ≡ false
    unfolding merge_member
    cleared-merge_member k i target o section missing other =
        let ready = ensure_object J k target in
        ground (
          arith,
          cleared-ensure_object k i target missing other,
          contains_key-set_member ready k i (recur (member ready k) (member source k))
              (is_object-ensure_object k target o),
        )
