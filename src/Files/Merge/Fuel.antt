-- ===== src/Files/Merge/Fuel.antt =====
-- src/FileHandler.cpp: the depth of the recursion of `mergeJsonObjects`.
use Prim.Native.String.{String}
use byte_waterlevel.Prelude.{
  ℕ, zero, suc, ◌+◌, ◌<◌, ◌≡◌, refl, ap, ◌∙◌, inl, inr, true, List, [], ◌∷◌, arith, Bool-cases,
}
use byte_waterlevel.Json.{JsonLib, HasDepth}
use byte_waterlevel.Files.{ensure_object, merge_member, merge_members, merge_json_objects}
use native.Mathlib.Nat.{suc-add}

module _ {F : Type 0} (J : JsonLib F) where
  open J use {Json, member, set_member, contains_key, is_object, keys}

  merge_members_congr :
      (f g : Json → Json → Json) (source : Json)
      → ((t : Json) (k : String)
          → is_object (member source k) ≡ true
          → f t (member source k) ≡ g t (member source k))
      → (ks : List String) (target : Json)
      → merge_members J f source ks target ≡ merge_members J g source ks target
  unfolding merge_members merge_member
  merge_members_congr f g source h [] target = refl
  merge_members_congr f g source h (k ∷ ks) target =
      let step : merge_member J f source k target ≡ merge_member J g source k target =
        elim (Bool-cases (is_object (member source k))) [
          | inl e ↦ rw (e, h (member (ensure_object J k target) k) k e)
          | inr e ↦ rw e
        ] in
      merge_members_congr f g source h ks (merge_member J f source k target)
      ∙ ap (merge_members J g source ks) step

  module _ (nesting : HasDepth J) where
    open nesting use {depth, depth-member-lt}

    -- Fuel above the depth of the source is enough for `mergeJsonObjects`: more of it changes
    -- nothing.
    pub merge_json_objects_fuel :
        (fuel more : ℕ) (target source : Json)
        → depth source < fuel
        → merge_json_objects J (fuel + more) target source ≡ merge_json_objects J fuel target source
    unfolding merge_json_objects
    merge_json_objects_fuel zero more target source h = absurd (omega arith)
    merge_json_objects_fuel (suc fuel) more target source h = elim (Bool-cases (is_object source)) [
      | inl e ↦
          rw (suc-add, e)
            (merge_members_congr _ _ source
              (λ t k o.
                merge_json_objects_fuel fuel more t (member source k)
                  (omega (arith, depth-member-lt source k o)))
              (keys source) target)
      | inr e ↦ rw (suc-add, e)
    ]
