-- ===== src/Mpt/Canonical/Reordering.antt =====
-- Documents that differ only in the order of the fields of their objects
-- (`sortKeysRecursive`, apps/api/src/http-mpt.adapter.ts).
use mark_solutions.Base.{◌≡◌, refl, if_has, Text, text_ltb}
use mark_solutions.Mpt.Values.{
  Json, null, bool, number, string, array, object, Items, no_items, item, Fields, no_fields, field,
  insert_field, sort_keys_recursive, sort_items, sort_fields,
}

-- The second object is the first with one field more, at any place.
pub data WithField (k : Text) (v : Json) : Fields → Fields → Type 0 where
  here : {fs : Fields} → WithField k v fs (field k v fs)
  later :
      {j : Text} {w : Json} {fs gs : Fields}
      → WithField k v fs gs
      → WithField k v (field j w fs) (field j w gs)

mutual
  -- The same scalars, the same elements of arrays in the same order, and the same fields of objects in
  -- any order, at every level.
  pub Rearranged : Json → Json → Type 0
  Rearranged null d = d ≡ null
  Rearranged (bool b) d = d ≡ bool b
  Rearranged (number n) d = d ≡ number n
  Rearranged (string s) d = d ≡ string s
  Rearranged (array xs) d = (ys : Items) × (d ≡ array ys) × RearrangedItems xs ys
  Rearranged (object fs) d = (gs : Fields) × (d ≡ object gs) × RearrangedFields fs gs

  pub RearrangedItems : Items → Items → Type 0
  RearrangedItems no_items ys = ys ≡ no_items
  RearrangedItems (item x xs) ys =
      (y : Json) × (zs : Items) × (ys ≡ item y zs) × Rearranged x y × RearrangedItems xs zs

  pub RearrangedFields : Fields → Fields → Type 0
  RearrangedFields no_fields gs = gs ≡ no_fields
  RearrangedFields (field k v fs) gs =
      (w : Json) × (hs : Fields) × WithField k w hs gs × Rearranged v w × RearrangedFields fs hs

WithField-insert_field :
    (k : Text) (v : Json) (fs : Fields) → WithField k v fs (insert_field k v fs)
WithField-insert_field k v no_fields = here
WithField-insert_field k v (field j w fs) =
    if_has (WithField k v (field j w fs)) (text_ltb j k) _ _
      (λ before. later (WithField-insert_field k v fs)) (λ after. here)

mutual
  unfolding sort_keys_recursive Rearranged

  pub Rearranged-sort_keys_recursive : (d : Json) → Rearranged d (sort_keys_recursive d)
  Rearranged-sort_keys_recursive null = refl
  Rearranged-sort_keys_recursive (bool b) = refl
  Rearranged-sort_keys_recursive (number n) = refl
  Rearranged-sort_keys_recursive (string s) = refl
  Rearranged-sort_keys_recursive (array xs) = (sort_items xs, refl, RearrangedItems-sort_items xs)
  Rearranged-sort_keys_recursive (object fs) =
      (sort_fields fs, refl, RearrangedFields-sort_fields fs)

  RearrangedItems-sort_items : (xs : Items) → RearrangedItems xs (sort_items xs)
  RearrangedItems-sort_items no_items = refl
  RearrangedItems-sort_items (item x xs) = (
    sort_keys_recursive x,
    sort_items xs,
    refl,
    Rearranged-sort_keys_recursive x,
    RearrangedItems-sort_items xs,
  )

  RearrangedFields-sort_fields : (fs : Fields) → RearrangedFields fs (sort_fields fs)
  RearrangedFields-sort_fields no_fields = refl
  RearrangedFields-sort_fields (field k v fs) = (
    sort_keys_recursive v,
    sort_fields fs,
    WithField-insert_field k (sort_keys_recursive v) (sort_fields fs),
    Rearranged-sort_keys_recursive v,
    RearrangedFields-sort_fields fs,
  )
