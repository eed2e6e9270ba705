-- ===== src/Mpt/Values.antt =====
-- The JSON values that go to and come from the marking system, and their canonical form
-- (apps/api/src/http-mpt.adapter.ts). An object is its fields in the order of insertion; its keys are
-- names, since JavaScript lists keys that are whole numbers before the others, whenever they came.
use mark_solutions.Base.{
  Bool, true, false, Option, none, some, List, [], ◌∷◌, if◌then◌else◌, Text, text_eq, text_ltb,
}
use mark_solutions.Base.Int.{ℤ}

mutual
  pub data Json : Type 0 where
    null : Json
    bool : Bool → Json
    number : ℤ → Json
    string : Text → Json
    array : Items → Json
    object : Fields → Json

  pub data Items : Type 0 where
    no_items : Items
    item : Json → Items → Items

  pub data Fields : Type 0 where
    no_fields : Fields
    field : Text → Json → Fields → Fields

-- Sets a field in an object that is ordered by its keys, at its place.
abbrev pub insert_field : Text → Json → Fields → Fields
insert_field k v no_fields = field k v no_fields
insert_field k v (field j w fs) =
    let rest = insert_field k v fs in
    if text_ltb j k then field j w rest else field k v (field j w fs)

-- `sortKeysRecursive`: the elements of an array keep their places.
unfoldable mutual
  pub sort_keys_recursive : Json → Json
  sort_keys_recursive null = null
  sort_keys_recursive (bool b) = bool b
  sort_keys_recursive (number n) = number n
  sort_keys_recursive (string s) = string s
  sort_keys_recursive (array xs) = array (sort_items xs)
  sort_keys_recursive (object fs) = object (sort_fields fs)

  pub sort_items : Items → Items
  sort_items no_items = no_items
  sort_items (item x xs) = item (sort_keys_recursive x) (sort_items xs)

  pub sort_fields : Fields → Fields
  sort_fields no_fields = no_fields
  sort_fields (field k v fs) = insert_field k (sort_keys_recursive v) (sort_fields fs)

-- `d.key` on an object; a value of another kind has no such property.
abbrev pub get_in : Text → Fields → Option Json
get_in k no_fields = none
get_in k (field j v fs) = let rest = get_in k fs in if text_eq j k then some v else rest

abbrev pub get_field : Text → Json → Option Json
get_field k (object fs) = get_in k fs
get_field k _ = none

-- A value that is a text.
abbrev pub as_text : Option Json → Option Text
as_text (some (string s)) = some s
as_text _ = none

abbrev pub text_field : Text → Json → Option Text
text_field k d = as_text (get_field k d)

-- Reading a property of `null` throws.
abbrev pub is_null : Json → Bool
is_null null = true
is_null _ = false

-- `Array.isArray(d) ? d.filter((c) => typeof c === "string") : []`
abbrev pub texts_of : Items → List Text
texts_of no_items = []
texts_of (item (string s) xs) = s ∷ texts_of xs
texts_of (item _ xs) = texts_of xs

abbrev pub array_of : Option Json → Items
array_of (some (array xs)) = xs
array_of _ = no_items

abbrev pub items : List Text → Items
items [] = no_items
items (s ∷ ss) = item (string s) (items ss)
