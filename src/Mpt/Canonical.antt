-- ===== src/Mpt/Canonical.antt =====
-- The canonical form of a document (`sortKeysRecursive`, apps/api/src/http-mpt.adapter.ts).
mod Reordering
pub use Reordering.*
use mark_solutions.Base.{
  ◌≡◌, refl, sym, ◌∙◌, ap, ap₂, inl, inr, Bool, true, false, Option, none, some, [], ◌∷◌, arith,
  if◌then◌else◌, Bool-cases, if_has, Text, text_eq, text_eq_sound, text_ltb,
}
use mark_solutions.Mpt.Values.{
  Json, null, bool, number, string, array, object, Items, no_items, item, Fields, no_fields, field,
  insert_field, sort_keys_recursive, sort_items, sort_fields, get_in,
}

text_ltb-asym : (s t : Text) → text_ltb s t ≡ true → text_ltb t s ≡ false
text_ltb-asym s [] h = cc
text_ltb-asym [] (b ∷ t) h = refl
text_ltb-asym (a ∷ s) (b ∷ t) h = ground (arith, text_ltb-asym s t)

text_ltb_irrefl : (s : Text) → text_ltb s s ≡ false
text_ltb_irrefl [] = refl
text_ltb_irrefl (a ∷ s) = ground (arith, text_ltb_irrefl s)

-- No field comes before a key.
AtLeast : Text → Fields → Type 0
AtLeast k no_fields = Unit
AtLeast k (field j v fs) = text_ltb j k ≡ false

mutual
  pub IsSorted : Json → Type 0
  IsSorted null = Unit
  IsSorted (bool b) = Unit
  IsSorted (number n) = Unit
  IsSorted (string s) = Unit
  IsSorted (array xs) = AreSorted xs
  IsSorted (object fs) = InOrder fs

  pub AreSorted : Items → Type 0
  AreSorted no_items = Unit
  AreSorted (item x xs) = IsSorted x × AreSorted xs

  -- The keys stand in order, and every value is sorted.
  pub InOrder : Fields → Type 0
  InOrder no_fields = Unit
  InOrder (field k v fs) = AtLeast k fs × IsSorted v × InOrder fs

insert_field-AtLeast :
    (j k : Text) (v : Json) (fs : Fields)
    → text_ltb k j ≡ false
    → AtLeast j fs
    → AtLeast j (insert_field k v fs)
unfolding AtLeast
insert_field-AtLeast j k v no_fields h rest = h
insert_field-AtLeast j k v (field i w fs) h rest =
    if_has (AtLeast j) (text_ltb i k) _ _ (λ before. rest) (λ after. h)

insert_field-InOrder :
    (k : Text) (v : Json) (fs : Fields) → IsSorted v → InOrder fs → InOrder (insert_field k v fs)
unfolding AtLeast IsSorted
insert_field-InOrder k v no_fields h rest = (tt, h, tt)
insert_field-InOrder k v (field j w fs) h rest =
    if_has InOrder (text_ltb j k) _ _
      (λ before. (
        insert_field-AtLeast j k v fs (text_ltb-asym j k before) rest.0,
        rest.1,
        insert_field-InOrder k v fs h rest.2,
      ))
      (λ after. (after, h, rest))

mutual
  unfolding sort_keys_recursive IsSorted

  IsSorted-value : (d : Json) → IsSorted (sort_keys_recursive d)
  IsSorted-value null = tt
  IsSorted-value (bool b) = tt
  IsSorted-value (number n) = tt
  IsSorted-value (string s) = tt
  IsSorted-value (array xs) = AreSorted-items xs
  IsSorted-value (object fs) = InOrder-fields fs

  AreSorted-items : (xs : Items) → AreSorted (sort_items xs)
  AreSorted-items no_items = tt
  AreSorted-items (item x xs) = (IsSorted-value x, AreSorted-items xs)

  InOrder-fields : (fs : Fields) → InOrder (sort_fields fs)
  InOrder-fields no_fields = tt
  InOrder-fields (field k v fs) =
      insert_field-InOrder k (sort_keys_recursive v) (sort_fields fs) (IsSorted-value v)
        (InOrder-fields fs)

insert_field-first :
    (k : Text) (v : Json) (fs : Fields) → AtLeast k fs → insert_field k v fs ≡ field k v fs
unfolding AtLeast
insert_field-first k v no_fields h = refl
insert_field-first k v (field j w fs) h = rw h refl

mutual
  unfolding sort_keys_recursive IsSorted

  fixed-value : (d : Json) → IsSorted d → sort_keys_recursive d ≡ d
  fixed-value null h = refl
  fixed-value (bool b) h = refl
  fixed-value (number n) h = refl
  fixed-value (string s) h = refl
  fixed-value (array xs) h = ap array (fixed-items xs h)
  fixed-value (object fs) h = ap object (fixed-fields fs h)

  fixed-items : (xs : Items) → AreSorted xs → sort_items xs ≡ xs
  fixed-items no_items h = refl
  fixed-items (item x xs) h = ap₂ item (fixed-value x h.0) (fixed-items xs h.1)

  fixed-fields : (fs : Fields) → InOrder fs → sort_fields fs ≡ fs
  fixed-fields no_fields h = refl
  fixed-fields (field k v fs) h =
      rw (fixed-value v h.1, fixed-fields fs h.2) (insert_field-first k v fs h.0)

-- The canonical form of a document has the keys of its objects in order, at every level, and differs
-- from the document in the order of the fields only: the scalars, the elements of arrays and their
-- order, and the fields with their values are the same. What is in canonical form already is not
-- changed. The keys are names, as all of the adapter's are: JavaScript puts keys that are whole numbers
-- before the others.
pub sort_keys_recursive-IsSorted :
    (d : Json)
    → IsSorted (sort_keys_recursive d)
      × Rearranged d (sort_keys_recursive d)
      × (sort_keys_recursive (sort_keys_recursive d) ≡ sort_keys_recursive d)
sort_keys_recursive-IsSorted d = (
  IsSorted-value d,
  Rearranged-sort_keys_recursive d,
  fixed-value (sort_keys_recursive d) (IsSorted-value d),
)
