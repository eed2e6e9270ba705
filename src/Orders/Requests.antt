-- ===== src/Orders/Requests.antt =====
-- The body of `POST /orders` and its checks (`OrderService.create` up to the look-up of the card, and
-- apps/api/src/order/gtin14.ts and release-method.ts).
use mark_solutions.Base.{
  ℕ, Bool, false, ◌&&◌, ◌||◌, not, Option, none, some, List, [], ◌∷◌, ltb, ◌==◌, if◌then◌else◌,
  length, all, any, Text, text_eq, is_empty, is_digit, trim,
}
use mark_solutions.Base.Int.{ℤ, pos, leb_ℤ}

-- `CreateOrderDto`; an absent field is `none`. The counts are whole numbers.
pub record CreateOrder : Type 0 where
  pub card_id : ℕ
  pub gtin : Text
  pub places : ℕ
  pub units_per_place : ℕ
  pub quantity : Option ℕ
  pub cis_type : Option Text
  pub serial_number_type : Option Text
  pub business_place_id : Option ℤ
  pub product_group : Option Text
  pub release_method_type : Option Text

-- `UNIT`, `OPERATOR`, `autofluids`
abbrev pub unit : Text
unit = 85 ∷ 78 ∷ 73 ∷ 84 ∷ []

abbrev pub operator : Text
operator = 79 ∷ 80 ∷ 69 ∷ 82 ∷ 65 ∷ 84 ∷ 79 ∷ 82 ∷ []

abbrev pub stage_oils_product_group : Text
stage_oils_product_group = 97 ∷ 117 ∷ 116 ∷ 111 ∷ 102 ∷ 108 ∷ 117 ∷ 105 ∷ 100 ∷ 115 ∷ []

-- `PRIMARY`, `REMAINS`, `COMISSION`, `REMARK`
abbrev pub primary : Text
primary = 80 ∷ 82 ∷ 73 ∷ 77 ∷ 65 ∷ 82 ∷ 89 ∷ []

abbrev pub release_method_types : List Text
release_method_types =
    primary
    ∷ (82 ∷ 69 ∷ 77 ∷ 65 ∷ 73 ∷ 78 ∷ 83 ∷ [])
    ∷ (67 ∷ 79 ∷ 77 ∷ 73 ∷ 83 ∷ 83 ∷ 73 ∷ 79 ∷ 78 ∷ [])
    ∷ (82 ∷ 69 ∷ 77 ∷ 65 ∷ 82 ∷ 75 ∷ [])
    ∷ []

-- `/^\d{14}$/.test(gtin.trim())`
abbrev pub is_gtin14 : Text → Bool
is_gtin14 gtin = (length (trim gtin) == 14) && all is_digit (trim gtin)

abbrev pub require_gtin14 : Text → Option Text
require_gtin14 gtin = let v = trim gtin in if is_gtin14 v then some v else none

abbrev pub resolve_order_product_group : Option Text → Text
resolve_order_product_group none = stage_oils_product_group
resolve_order_product_group (some explicit) =
    let v = trim explicit in if is_empty v then stage_oils_product_group else v

abbrev pub is_release_method_type : Text → Bool
is_release_method_type value = any (text_eq value) release_method_types

unfoldable pub resolve_release_method_type : Option Text → Option Text
resolve_release_method_type none = some primary
resolve_release_method_type (some explicit) =
    let v = trim explicit in
    if is_empty v then some primary else if is_release_method_type v then some v else none

-- A contract field that is given, not empty, and other than the only value that is served.
abbrev pub is_other : Option Text → Text → Bool
is_other none only = false
is_other (some s) only = not (is_empty s) && not (text_eq s only)

abbrev pub is_no_place : Option ℤ → Bool
is_no_place none = false
is_no_place (some id) = leb_ℤ id (pos 0)

-- The parts of a body that has passed the checks before the card is looked up.
pub record Checked : Type 0 where
  pub gtin : Text
  pub product_group : Text
  pub release_method_type : Text

abbrev pub is_malformed : CreateOrder → Bool
is_malformed body =
    is_other body.cis_type unit
    || (is_other body.serial_number_type operator
        || (ltb body.places 1
            || (ltb body.units_per_place 1 || is_no_place body.business_place_id)))

-- `none` is the 400.
unfoldable pub check_body : CreateOrder → Option Checked
unfolding resolve_release_method_type
check_body body = if is_malformed body then none else elim (require_gtin14 body.gtin) [
  | none ↦ none
  | some gtin ↦ elim (resolve_release_method_type body.release_method_type) [
    | none ↦ none
    | some method ↦ some (record {
      gtin = gtin;
      product_group = resolve_order_product_group body.product_group;
      release_method_type = method;
    })
  ]
]
