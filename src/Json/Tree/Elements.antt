-- ===== src/Json/Tree/Elements.antt =====
-- The elements of arrays in the documents of Json.Tree.
use byte_waterlevel.Prelude.{ℕ, zero, suc, ◌≡◌, refl, ap, ◌∙◌, Bool, true, false}
use byte_waterlevel.Json.{HasElements}
use byte_waterlevel.Json.Tree.{
  Value, null, bool, int, float, str, array, object, Items, nil, cons, put_at, set_element_of, tree,
}

abbrev item_at : ℕ → Items → Value
item_at i nil = null
item_at zero (cons w ws) = w
item_at (suc i) (cons w ws) = item_at i ws

abbrev element_of : Value → ℕ → Value
element_of (array xs) i = item_at i xs
element_of _ i = null

abbrev is_array_value : Value → Bool
is_array_value (array _) = true
is_array_value _ = false

item_at-put_at : (i : ℕ) (v : Value) (xs : Items) → item_at i (put_at i v xs) ≡ v
item_at-put_at zero v nil = refl
item_at-put_at zero v (cons w ws) = refl
item_at-put_at (suc i) v nil = item_at-put_at i v nil
item_at-put_at (suc i) v (cons w ws) = item_at-put_at i v ws

item_at-put_at_other :
    (k i : ℕ) (v : Value) (xs : Items) → ¬ (k ≡ i) → item_at i (put_at k v xs) ≡ item_at i xs
item_at-put_at_other zero zero v xs other = absurd (other refl)
item_at-put_at_other zero (suc i) v nil other = refl
item_at-put_at_other zero (suc i) v (cons w ws) other = refl
item_at-put_at_other (suc k) zero v nil other = refl
item_at-put_at_other (suc k) zero v (cons w ws) other = refl
item_at-put_at_other (suc k) (suc i) v nil other =
    item_at-put_at_other k i v nil (λ e. other (ap suc e))
item_at-put_at_other (suc k) (suc i) v (cons w ws) other =
    item_at-put_at_other k i v ws (λ e. other (ap suc e))

-- Only an array has elements.
abbrev items_of : Value → Items
items_of (array xs) = xs
items_of _ = nil

set_element_of-items_of :
    (j : Value) (k : ℕ) (v : Value) → set_element_of j k v ≡ array (put_at k v (items_of j))
set_element_of-items_of (array xs) k v = refl
set_element_of-items_of null k v = refl
set_element_of-items_of (bool _) k v = refl
set_element_of-items_of (int _) k v = refl
set_element_of-items_of (float _) k v = refl
set_element_of-items_of (str _) k v = refl
set_element_of-items_of (object _) k v = refl

element_of-items_of : (j : Value) (i : ℕ) → item_at i (items_of j) ≡ element_of j i
element_of-items_of (array xs) i = refl
element_of-items_of null i = refl
element_of-items_of (bool _) i = refl
element_of-items_of (int _) i = refl
element_of-items_of (float _) i = refl
element_of-items_of (str _) i = refl
element_of-items_of (object _) i = refl

pub tree-HasElements : (stored : Value) → HasElements (tree stored)
tree-HasElements stored = record {
  element = element_of;
  is_array = is_array_value;
  element-set_element =
      λ j k v _. rw (set_element_of-items_of j k v) (item_at-put_at k v (items_of j));
  element-set_element_other = λ j k i v other _.
      rw (set_element_of-items_of j k v)
        (item_at-put_at_other k i v (items_of j) other ∙ element_of-items_of j i);
  is_array-set_element = λ j k v _. rw (set_element_of-items_of j k v) refl;
  is_null-member-new_document = λ k. refl;
}
