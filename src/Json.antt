-- ===== src/Json.antt =====
-- What the firmware calls of the JSON library (ArduinoJson): a parameter of the development, with the
-- documented behaviour that some theorems rely on.
pub mod Tree
pub mod Plain
use Prim.Native.String.{String, ◌++◌ as ◌<>◌}
use text.Mathlib.Text.{◌==◌}
use byte_waterlevel.Prelude.{
  ℕ, ◌≡◌, ◌<◌, ◌⊎◌, Bool, true, false, List, [], ◌∷◌, ◌||◌, if◌then◌else◌,
}
use byte_waterlevel.Prelude.Int.{ℤ, pos}

-- A `String` of length 0.
abbrev pub is_empty : String → Bool
is_empty String.[] = true
is_empty (String.◌∷◌ _ _) = false

-- `member` is `operator[]`, `set_member` an assignment to a member, `set_element` one to an element.
-- `parse` is `deserializeJson`: the document, and whether there was an error.
pub record JsonLib (F : Type 0) : Type 1 where
  pub Json : Type 0
  pub new_document : Json
  pub empty_object : Json
  pub member : Json → String → Json
  pub set_member : Json → String → Json → Json
  pub set_element : Json → ℕ → Json → Json
  pub contains_key : Json → String → Bool
  pub keys : Json → List String
  pub is_null : Json → Bool
  pub is_object : Json → Bool
  pub is_int : Json → Bool
  pub is_bool : Json → Bool
  pub is_string : Json → Bool
  pub as_bool : Json → Bool
  pub as_int : Json → ℤ
  pub as_u8 : Json → ℕ
  pub as_float : Json → F
  pub as_string : Json → String
  pub of_bool : Bool → Json
  pub of_int : ℤ → Json
  pub of_float : F → Json
  pub of_string : String → Json
  pub parse : String → Json × Bool
  pub serialize : Json → String
  pub serialize_pretty : Json → String

-- Whether a key is in a list, and lists without a repetition.
abbrev pub has : List String → String → Bool
has [] i = false
has (k ∷ ks) i = k == i || has ks i

abbrev pub Distinct : List String → Type 0
Distinct [] = Unit
Distinct (k ∷ ks) = (has ks k ≡ false) × Distinct ks

-- Assignments to members, and the keys of objects.
pub record IsDocument {F : Type 0} (J : JsonLib F) : Type 0 where
  pub member-set_member :
      (j : J.Json) (k i : String) (v : J.Json)
      → J.is_object j ≡ true
      → J.member (J.set_member j k v) i ≡ (if k == i then v else J.member j i)
  pub contains_key-set_member :
      (j : J.Json) (k i : String) (v : J.Json)
      → J.is_object j ≡ true
      → J.contains_key (J.set_member j k v) i ≡ (if k == i then true else J.contains_key j i)
  pub is_object-set_member :
      (j : J.Json) (k : String) (v : J.Json)
      → J.is_object j ≡ true
      → J.is_object (J.set_member j k v) ≡ true
  pub is_object-empty_object : J.is_object J.empty_object ≡ true
  pub contains_key-empty_object : (k : String) → J.contains_key J.empty_object k ≡ false
  pub keys_distinct : (j : J.Json) → Distinct (J.keys j)

-- A new document becomes an object by the first assignment to a member, which is the only one it has.
pub record IsFresh {F : Type 0} (J : JsonLib F) : Type 0 where
  pub member-set_member-new_document :
      (k i : String) (v : J.Json)
      → J.member (J.set_member J.new_document k v) i
        ≡ (if k == i then v else J.member J.new_document i)
  pub is_object-set_member-new_document :
      (k : String) (v : J.Json) → J.is_object (J.set_member J.new_document k v) ≡ true

-- Arrays. An assignment to an element of what is null makes it an array; a missing member is null.
pub record HasElements {F : Type 0} (J : JsonLib F) : Type 0 where
  pub element : J.Json → ℕ → J.Json
  pub is_array : J.Json → Bool
  pub element-set_element :
      (j : J.Json) (k : ℕ) (v : J.Json)
      → (is_array j ≡ true) ⊎ (J.is_null j ≡ true)
      → element (J.set_element j k v) k ≡ v
  pub element-set_element_other :
      (j : J.Json) (k i : ℕ) (v : J.Json)
      → ¬ (k ≡ i)
      → (is_array j ≡ true) ⊎ (J.is_null j ≡ true)
      → element (J.set_element j k v) i ≡ element j i
  pub is_array-set_element :
      (j : J.Json) (k : ℕ) (v : J.Json)
      → (is_array j ≡ true) ⊎ (J.is_null j ≡ true)
      → is_array (J.set_element j k v) ≡ true
  pub is_null-member-new_document : (k : String) → J.is_null (J.member J.new_document k) ≡ true

-- An empty text or line is no document: the error leaves a new one, whose members are all null.
-- What is null has no members, is no object and converts to false and to 0.
pub record IsBlank {F : Type 0} (J : JsonLib F) : Type 0 where
  pub parse_empty : J.parse "" ≡ (J.new_document, true)
  pub parse_line_end : J.parse "\r\n" ≡ (J.new_document, true)
  pub is_null-new_document : J.is_null J.new_document ≡ true
  pub is_null-member :
      (j : J.Json) (k : String) → J.is_null j ≡ true → J.is_null (J.member j k) ≡ true
  pub as_bool-null : (j : J.Json) → J.is_null j ≡ true → J.as_bool j ≡ false
  pub as_int-null : (j : J.Json) → J.is_null j ≡ true → J.as_int j ≡ pos 0

-- A document is nested to a finite depth.
pub record HasDepth {F : Type 0} (J : JsonLib F) : Type 0 where
  pub depth : J.Json → ℕ
  pub depth-member-lt :
      (j : J.Json) (k : String) → J.is_object (J.member j k) ≡ true → depth (J.member j k) < depth j

-- The text that is written for a document is read back, also with the line end of `println` behind
-- it. A number that is rounded when it is written, for one, is not.
abbrev pub ReadsBack : {F : Type 0} (J : JsonLib F) → J.Json → Type 0
ReadsBack J j = J.parse (J.serialize j <> "\r\n") ≡ (j, false)

-- Indented text, which is written without a line end, is read back.
pub record IsPretty {F : Type 0} (J : JsonLib F) : Type 0 where
  pub parse-serialize_pretty : (j : J.Json) → J.parse (J.serialize_pretty j) ≡ (j, false)
