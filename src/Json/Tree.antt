-- ===== src/Json/Tree.antt =====
-- A JSON library that meets the laws of documents: trees over the numbers of `Floats.Milli`. It does
-- not read text: `parse` always gives the document that the library was built with.
pub mod Elements
use Prim.Native.Nat.{max}
use Prim.Native.String.{String}
use text.Mathlib.Text.{◌==◌}
use text.Mathlib.TextEquality.{eq_iff}
use byte_waterlevel.Prelude.{
  ℕ, zero, suc, ◌≤◌, ◌<◌, ◌≡◌, refl, Bool, true, false, some, List, [], ◌∷◌, arith, Bool-cases, inl,
  inr, if◌then◌else◌,
}
use byte_waterlevel.Prelude.Int.{ℤ, pos}
use byte_waterlevel.Prelude.Words.{to_u8}
use byte_waterlevel.Floats.Milli.{Milli}
use byte_waterlevel.Json.{JsonLib, IsDocument, IsFresh, HasDepth, has, Distinct}

mutual
  pub data Value : Type 0 where
    null : Value
    bool : Bool → Value
    int : ℤ → Value
    float : Milli → Value
    str : String → Value
    array : Items → Value
    object : Fields → Value

  pub data Items : Type 0 where
    nil : Items
    cons : Value → Items → Items

  pub data Fields : Type 0 where
    end : Fields
    field : String → Value → Fields → Fields

abbrev find : String → Fields → Value
find k end = null
find k (field j v fs) = if j == k then v else find k fs

abbrev put : String → Value → Fields → Fields
put k v end = field k v end
put k v (field j w fs) = if j == k then field k v fs else field j w (put k v fs)

abbrev holds : String → Fields → Bool
holds k end = false
holds k (field j v fs) = if j == k then true else holds k fs

abbrev names : Fields → List String
names end = []
names (field k v fs) = if has (names fs) k then names fs else k ∷ names fs

-- The elements before a new one are null if they are missing.
abbrev pub put_at : ℕ → Value → Items → Items
put_at zero v nil = cons v nil
put_at zero v (cons w ws) = cons v ws
put_at (suc i) v nil = cons null (put_at i v nil)
put_at (suc i) v (cons w ws) = cons w (put_at i v ws)

abbrev member_of : Value → String → Value
member_of (object fs) k = find k fs
member_of _ k = null

abbrev set_member_of : Value → String → Value → Value
set_member_of (object fs) k v = object (put k v fs)
set_member_of _ k v = object (field k v end)

abbrev pub set_element_of : Value → ℕ → Value → Value
set_element_of (array xs) i v = array (put_at i v xs)
set_element_of _ i v = array (put_at i v nil)

abbrev is_null_value : Value → Bool
is_null_value null = true
is_null_value _ = false

abbrev keys_of : Value → List String
keys_of (object fs) = names fs
keys_of _ = []

abbrev is_object_value : Value → Bool
is_object_value (object _) = true
is_object_value _ = false

abbrev contains_of : Value → String → Bool
contains_of (object fs) k = holds k fs
contains_of _ k = false

abbrev int_of : Value → ℤ
int_of (int i) = i
int_of _ = pos 0

abbrev pub tree : Value → JsonLib Milli
tree stored = record {
  Json = Value;
  new_document = null;
  empty_object = object end;
  member = member_of;
  set_member = set_member_of;
  set_element = set_element_of;
  contains_key = contains_of;
  keys = keys_of;
  is_null = is_null_value;
  is_object = is_object_value;
  is_int = elim [ int _ ↦ true | _ ↦ false ];
  is_bool = elim [ bool _ ↦ true | _ ↦ false ];
  is_string = elim [ str _ ↦ true | _ ↦ false ];
  as_bool = elim [ bool b ↦ b | _ ↦ false ];
  as_int = int_of;
  as_u8 = λ v. to_u8 (int_of v);
  as_float = elim [ float x ↦ x | _ ↦ some 0 ];
  as_string = elim [ str s ↦ s | _ ↦ "" ];
  of_bool = bool;
  of_int = int;
  of_float = float;
  of_string = str;
  parse = λ _. (stored, false);
  serialize = λ _. "";
  serialize_pretty = λ _. "";
}

find-put :
    (k i : String) (v : Value) (fs : Fields)
    → find i (put k v fs) ≡ (if k == i then v else find i fs)
find-put k i v end = refl
find-put k i v (field j w fs) =
    ground (arith, eq_iff j k, eq_iff j i, eq_iff k i, find-put k i v fs)

holds-put :
    (k i : String) (v : Value) (fs : Fields)
    → holds i (put k v fs) ≡ (if k == i then true else holds i fs)
holds-put k i v end = refl
holds-put k i v (field j w fs) =
    ground (arith, eq_iff j k, eq_iff j i, eq_iff k i, holds-put k i v fs)

Distinct-add :
    (k : String) (ks : List String) → Distinct ks → Distinct (if has ks k then ks else k ∷ ks)
Distinct-add k ks d = elim (Bool-cases (has ks k)) [ inl e ↦ rw e d | inr e ↦ rw e (e, d) ]

names-Distinct : (fs : Fields) → Distinct (names fs)
names-Distinct end = tt
names-Distinct (field k v fs) = Distinct-add k (names fs) (names-Distinct fs)

set_member_of_lem :
    (j : Value) (k i : String) (v : Value)
    → is_object_value j ≡ true
    → (member_of (set_member_of j k v) i ≡ (if k == i then v else member_of j i))
      × (contains_of (set_member_of j k v) i ≡ (if k == i then true else contains_of j i))
      × (is_object_value (set_member_of j k v) ≡ true)
set_member_of_lem (object fs) k i v o = (find-put k i v fs, holds-put k i v fs, refl)
set_member_of_lem null k i v o = cc
set_member_of_lem (bool _) k i v o = cc
set_member_of_lem (int _) k i v o = cc
set_member_of_lem (float _) k i v o = cc
set_member_of_lem (str _) k i v o = cc
set_member_of_lem (array _) k i v o = cc

keys_of-Distinct : (j : Value) → Distinct (keys_of j)
keys_of-Distinct (object fs) = names-Distinct fs
keys_of-Distinct _ = tt

pub tree-IsDocument : (stored : Value) → IsDocument (tree stored)
tree-IsDocument stored = record {
  member-set_member = λ j k i v o. (set_member_of_lem j k i v o).0;
  contains_key-set_member = λ j k i v o. (set_member_of_lem j k i v o).1;
  is_object-set_member = λ j k v o. (set_member_of_lem j k "" v o).2;
  is_object-empty_object = refl;
  contains_key-empty_object = λ k. refl;
  keys_distinct = keys_of-Distinct;
}

unfoldable mutual
  pub depth_of : Value → ℕ
  depth_of (object fs) = suc (depth_fields fs)
  depth_of null = 0
  depth_of (bool _) = 0
  depth_of (int _) = 0
  depth_of (float _) = 0
  depth_of (str _) = 0
  depth_of (array _) = 0

  pub depth_fields : Fields → ℕ
  depth_fields end = 0
  depth_fields (field k v fs) = max (depth_of v) (depth_fields fs)

depth-find : (k : String) (fs : Fields) → depth_of (find k fs) ≤ depth_fields fs
unfolding depth_of
depth-find k end = omega arith
depth-find k (field j v fs) = ground (arith, depth-find k fs)

pub depth-member_of :
    (j : Value) (k : String)
    → is_object_value (member_of j k) ≡ true
    → depth_of (member_of j k) < depth_of j
unfolding depth_of
depth-member_of (object fs) k o = omega (arith, depth-find k fs)
depth-member_of null k o = cc
depth-member_of (bool _) k o = cc
depth-member_of (int _) k o = cc
depth-member_of (float _) k o = cc
depth-member_of (str _) k o = cc
depth-member_of (array _) k o = cc

abbrev pub tree-HasDepth : (stored : Value) → HasDepth (tree stored)
tree-HasDepth stored = record { depth = depth_of; depth-member-lt = depth-member_of }

pub tree-IsFresh : (stored : Value) → IsFresh (tree stored)
tree-IsFresh stored = record {
  member-set_member-new_document = λ k i v. refl;
  is_object-set_member-new_document = λ k v. refl;
}
