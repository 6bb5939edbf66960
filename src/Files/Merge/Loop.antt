-- ===== src/Files/Merge/Loop.antt =====
-- src/FileHandler.cpp: what `mergeJsonObjects` leaves in its target.
use Prim.Native.String.{String}
use text.Mathlib.Text.{◌==◌}
use text.Mathlib.TextEquality.{eq_iff}
use byte_waterlevel.Prelude.{
  ℕ, suc, ◌≡◌, refl, ◌⊎◌, inl, inr, true, false, List, [], ◌∷◌, All, arith, Bool-cases,
  if◌then◌else◌,
}
use byte_waterlevel.Json.{JsonLib, IsDocument, has, Distinct}
use byte_waterlevel.Files.{merge_member, merge_members, merge_json_objects}
use byte_waterlevel.Files.Merge.{
  IsReady, merged_value, member-merge_member, contains_key-merge_member, is_object-merge_member,
  absent-merge_member, cleared-merge_member,
}

module _ {F : Type 0} (J : JsonLib F) where
  open J use {Json, member, set_member, contains_key, is_object, keys}

  module _ (laws : IsDocument J) (recur : Json → Json → Json) (source : Json) where
    IsReady-or_not :
        (target : Json) (k : String)
        → IsReady J source target k
          ⊎ ((is_object (member source k) ≡ true) × (is_object (member target k) ≡ false))
    IsReady-or_not target k = elim (Bool-cases (is_object (member source k))) [
      | inl s ↦ elim (Bool-cases (is_object (member target k))) [
        | inl t ↦ inl (inr t)
        | inr t ↦ inr (s, t)
      ]
      | inr s ↦ inl (inl s)
    ]

    IsReady-merge_member :
        (k : String) (ks : List String) (target : Json)
        → is_object target ≡ true
        → has ks k ≡ false
        → IsReady J source target k
        → All (IsReady J source target) ks
        → All (IsReady J source (merge_member J recur source k target)) ks
    IsReady-merge_member k [] target o fresh r rs = tt
    IsReady-merge_member k (j ∷ ks) target o fresh r (q, qs) =
        let step = member-merge_member J laws recur source k j target o r in
        (
          ground (arith, eq_iff k j, eq_iff j k, step, q),
          IsReady-merge_member k ks target o (ground arith) r qs,
        )

    -- The loop, from a target that is ready for every key that is left.
    member-merge_members :
        (ks : List String) (target : Json) (i : String)
        → Distinct ks
        → is_object target ≡ true
        → All (IsReady J source target) ks
        → member (merge_members J recur source ks target) i
          ≡ (if has ks i then merged_value J recur source target i else member target i)
    unfolding merge_members
    member-merge_members [] target i d o r = refl
    member-merge_members (k ∷ ks) target i (fresh, d) o (r, rs) =
        let target' = merge_member J recur source k target in
        ground (
          arith,
          eq_iff k i,
          member-merge_member J laws recur source k i target o r,
          contains_key-merge_member J laws recur source k i target o r,
          member-merge_members ks target' i d
              (is_object-merge_member J laws recur source k target o)
              (IsReady-merge_member k ks target o fresh r rs),
        )

    absent-merge_members :
        (ks : List String) (target : Json) (i : String)
        → is_object target ≡ true
        → has ks i ≡ false
        → contains_key target i ≡ false
        → contains_key (merge_members J recur source ks target) i ≡ false
    unfolding merge_members
    absent-merge_members [] target i o out gone = gone
    absent-merge_members (k ∷ ks) target i o out gone =
        absent-merge_members ks (merge_member J recur source k target) i
          (is_object-merge_member J laws recur source k target o) (ground arith)
          (absent-merge_member J laws recur source k i target o (ground arith) gone)

    -- The loop, if the source has an object where the target has none.
    cleared-merge_members :
        (ks : List String) (target : Json) (k i : String)
        → Distinct ks
        → is_object target ≡ true
        → has ks k ≡ true
        → is_object (member source k) ≡ true
        → is_object (member target k) ≡ false
        → has ks i ≡ false
        → contains_key (merge_members J recur source ks target) i ≡ false
    unfolding merge_members
    cleared-merge_members [] target k i d o here section missing out = cc
    cleared-merge_members (j ∷ ks) target k i (fresh, d) o here section missing out =
        elim (IsReady-or_not target j) [
          | inl r ↦ elim (Bool-cases (j == k)) [
            | inl same ↦ let e : j ≡ k = (eq_iff j k).0 same in lost (rw e section) (rw e missing)
            | inr other ↦
                cleared-merge_members ks target' k i d
                  (is_object-merge_member J laws recur source j target o) (ground arith) section
                  (ground (arith, member-merge_member J laws recur source j k target o r))
                  (ground arith)
          ]
          | inr (s, m) ↦ lost s m
        ]
      where
        target' : Json
        target' = merge_member J recur source j target

        lost :
            is_object (member source j) ≡ true
            → is_object (member target j) ≡ false
            → contains_key (merge_members J recur source ks target') i ≡ false
        lost s m =
            absent-merge_members ks target' i
              (is_object-merge_member J laws recur source j target o) (ground arith)
              (cleared-merge_member J laws recur source j i target o s m (ground arith))

  module _ (laws : IsDocument J) where
    -- If the source and the target are objects and the target has an object for each object of
    -- the source, `mergeJsonObjects` leaves at each key of the source the merged objects, the
    -- target's own value, or the source's where the target has none, and keeps the target's
    -- other members.
    pub member-merge_json_objects :
        (fuel : ℕ) (target source : Json) (i : String)
        → is_object source ≡ true
        → is_object target ≡ true
        → All (IsReady J source target) (keys source)
        → member (merge_json_objects J (suc fuel) target source) i ≡ (
            if has (keys source) i
            then merged_value J (merge_json_objects J fuel) source target i
            else member target i)
    unfolding merge_json_objects
    member-merge_json_objects fuel target source i s o r = rw s (
        member-merge_members laws (merge_json_objects J fuel) source (keys source) target i
          (laws.keys_distinct source) o r)

    -- If the source has an object at a key where the target has none, `mergeJsonObjects` loses
    -- every member of the target that is not a key of the source.
    merge_json_objects_loses :
        (fuel : ℕ) (target source : Json) (k i : String)
        → is_object source ≡ true
        → is_object target ≡ true
        → has (keys source) k ≡ true
        → is_object (member source k) ≡ true
        → is_object (member target k) ≡ false
        → has (keys source) i ≡ false
        → contains_key (merge_json_objects J (suc fuel) target source) i ≡ false
    unfolding merge_json_objects
    merge_json_objects_loses fuel target source k i s o here section missing out = rw s (
        cleared-merge_members laws (merge_json_objects J fuel) source (keys source) target k i
          (laws.keys_distinct source) o here section missing out)
