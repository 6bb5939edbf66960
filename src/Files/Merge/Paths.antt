-- ===== src/Files/Merge/Paths.antt =====
-- src/FileHandler.cpp: what `mergeJsonObjects` leaves at a path of keys.
use Prim.Native.String.{String}
use text.Mathlib.Text.{◌==◌}
use text.Mathlib.TextEquality.{eq_iff}
use byte_waterlevel.Prelude.{
  subst, ℕ, zero, suc, ◌<◌, ◌≡◌, refl, ◌∙◌, ap, ◌⊎◌, inl, inr, true, false, List, [], ◌∷◌, All,
  arith, Bool-cases, length,
}
use byte_waterlevel.Json.{JsonLib, IsDocument, has}
use byte_waterlevel.Files.{merge_json_objects}
use byte_waterlevel.Files.Merge.{IsReady}
use byte_waterlevel.Files.Merge.Loop.{member-merge_json_objects}

module _ {F : Type 0} (J : JsonLib F) where
  open J use {Json, member, contains_key, is_object, keys}

  -- The value at a path.
  abbrev pub at : List String → Json → Json
  at [] j = j
  at (k ∷ ks) j = at ks (member j k)

  -- On each level along the path, the target has an object for each object of the source.
  abbrev IsReadyAlong : String → List String → (target source : Json) → Type 0
  IsReadyAlong k [] target source = All (IsReady J source target) (keys source)
  IsReadyAlong k (i ∷ ks) target source =
      All (IsReady J source target) (keys source)
      × IsReadyAlong i ks (member target k) (member source k)

  -- The document has a value of its own at the path, which is no object.
  abbrev Owns : String → List String → Json → Type 0
  Owns k [] j = (is_object j ≡ true) × (contains_key j k ≡ true) × (is_object (member j k) ≡ false)
  Owns k (i ∷ ks) j = (is_object j ≡ true) × (contains_key j k ≡ true) × Owns i ks (member j k)

  -- The source has a value at the path, which is no object, and the target lacks only the last key.
  abbrev Lacks : String → List String → (target source : Json) → Type 0
  Lacks k [] t s =
      (is_object s ≡ true)
      × (is_object t ≡ true)
      × (has (keys s) k ≡ true)
      × (is_object (member s k) ≡ false)
      × (contains_key t k ≡ false)
  Lacks k (i ∷ ks) t s =
      (is_object s ≡ true)
      × (is_object t ≡ true)
      × (has (keys s) k ≡ true)
      × (is_object (member s k) ≡ true)
      × Lacks i ks (member t k) (member s k)

  module _ (laws : IsDocument J) where
    -- What a merge leaves of a key of the target.
    member_kept :
        (fuel : ℕ) (target source : Json) (k : String)
        → is_object source ≡ true
        → is_object target ≡ true
        → contains_key target k ≡ true
        → All (IsReady J source target) (keys source)
        → (member (merge_json_objects J (suc fuel) target source) k ≡ member target k)
          ⊎ ((is_object (member source k) ≡ true)
              × (has (keys source) k ≡ true)
              × (member (merge_json_objects J (suc fuel) target source) k
                  ≡ merge_json_objects J fuel (member target k) (member source k)))
    member_kept fuel target source k s t here ready =
        let law = member-merge_json_objects J laws fuel target source k s t ready in
        elim (Bool-cases (has (keys source) k)) [
          | inr out ↦ inl (law ∙ rw out)
          | inl in_source ↦ elim (Bool-cases (is_object (member source k))) [
            | inr plain ↦ inl (law ∙ rw (in_source, plain, here))
            | inl nested ↦ inr (nested, in_source, law ∙ rw (in_source, nested))
          ]
        ]

    -- An object of the source meets an object.
    ready_at :
        (ks : List String) (k : String) (target source : Json)
        → has ks k ≡ true
        → is_object (member source k) ≡ true
        → All (IsReady J source target) ks
        → is_object (member target k) ≡ true
    ready_at [] k target source here nested h = cc
    ready_at (i ∷ ks) k target source here nested (h, hs) = elim (Bool-cases (i == k)) [
      | inl e ↦ let h' = subst (IsReady J source target) ((eq_iff i k).0 e) h in ground (arith, h')
      | inr e ↦ ready_at ks k target source (rw e at here) nested hs
    ]

    -- Where on each level along the path the target has an object for each object of the source, a
    -- value of the target that is no object is never overwritten by `mergeJsonObjects`.
    pub at-merge_kept :
        (ks : List String) (k : String) (fuel : ℕ) (target source : Json)
        → IsReadyAlong k ks target source
        → Owns k ks target
        → at (k ∷ ks) (merge_json_objects J fuel target source) ≡ at (k ∷ ks) target
    at-merge_kept ks k zero target source c o = unfold merge_json_objects in refl
    at-merge_kept [] k (suc fuel) target source c (t, here, plain) =
        elim (Bool-cases (is_object source)) [
          | inr e ↦ unfold merge_json_objects in rw e
          | inl e ↦ elim (member_kept fuel target source k e t here c) [
            | inl same ↦ same
            | inr (nested, in_source, _) ↦
                let object = ready_at (keys source) k target source in_source nested c in cc
          ]
        ]
    at-merge_kept (i ∷ ks) k (suc fuel) target source (ready, c) (t, here, rest) =
        elim (Bool-cases (is_object source)) [
          | inr e ↦ unfold merge_json_objects in rw e
          | inl e ↦ elim (member_kept fuel target source k e t here ready) [
            | inl same ↦ ap (at (i ∷ ks)) same
            | inr (_, _, down) ↦
                ap (at (i ∷ ks)) down
                ∙ at-merge_kept ks i fuel (member target k) (member source k) c rest
          ]
        ]

    -- Where on each level along the path the target has an object for each object of the source, a
    -- value of the source that is no object fills the gap of a target that lacks only its key, if the
    -- recursion goes deep enough.
    pub at-merge_filled :
        (ks : List String) (k : String) (fuel : ℕ) (target source : Json)
        → length ks < fuel
        → IsReadyAlong k ks target source
        → Lacks k ks target source
        → at (k ∷ ks) (merge_json_objects J fuel target source) ≡ at (k ∷ ks) source
    at-merge_filled ks k zero target source deep c l = absurd (omega arith)
    at-merge_filled [] k (suc fuel) target source deep c (s, t, here, plain, gap) =
        member-merge_json_objects J laws fuel target source k s t c ∙ rw (here, plain, gap)
    at-merge_filled (i ∷ ks) k (suc fuel) target source deep (ready, c) (s, t, here, nested, rest) =
        ap (at (i ∷ ks))
          (member-merge_json_objects J laws fuel target source k s t ready ∙ rw (here, nested))
        ∙ at-merge_filled ks i fuel (member target k) (member source k) (omega arith) c rest
