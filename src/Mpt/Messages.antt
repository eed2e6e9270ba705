-- ===== src/Mpt/Messages.antt =====
-- What the adapter sends (apps/api/src/http-mpt.adapter.ts): the inputs of its methods, the bodies and
-- the requests made from them.
use mark_solutions.Base.{
  ℕ, Bool, true, false, Option, none, some, List, [], ◌∷◌, leb, if◌then◌else◌, Text, text,
}
use mark_solutions.Base.Int.{ℤ, pos, negsuc}
use mark_solutions.Mpt.Values.{
  Json, null, bool, number, string, array, object, no_items, item, Fields, no_fields, field, items,
}
use mark_solutions.Mpt.{
  Config, Request, get, post, json, no_body, invalid, Outcome, returned, thrown, filled,
}

-- A text that is present and not empty.
abbrev pub non_empty : Option Text → Option Text
non_empty t = if filled t then t else none

abbrev pub or_else : Option Text → Text → Text
or_else none d = d
or_else (some t) d = t

-- `toInt32` on an integer
abbrev pub to_int32 : ℤ → Outcome ℕ
to_int32 (negsuc n) = thrown invalid
to_int32 (pos n) = if leb n 2147483647 then returned n else thrown invalid

-- The fields that `JSON.stringify` writes: those that are not undefined.
abbrev pub field_if : Text → Option Json → Fields → Fields
field_if k none fs = fs
field_if k (some v) fs = field k v fs

abbrev pub or_null : Option Text → Json
or_null none = null
or_null (some t) = string t

pub record MptOrderInput : Type 0 where
  pub order_id : Text
  pub gtin : Text
  pub quantity : ℕ
  pub is_paid : Bool
  pub product_group : Option Text
  pub business_place_id : Option ℤ
  pub release_method_type : Option Text

abbrev pub product_of : MptOrderInput → Json
product_of o = object (
    field (text "gtin") (string o.gtin) (
      field (text "quantity") (number (pos o.quantity)) (
        field (text "serialNumberType") (string (text "OPERATOR"))
          (field (text "cisType") (string (text "UNIT")) no_fields))))

-- The body of an order.
unfoldable pub order_body : Config → MptOrderInput → Option ℕ → Json
order_body c o place = object (
    field (text "productGroup") (string (or_else o.product_group c.product_group)) (
      field (text "products") (array (item (product_of o) no_items)) (
        field (text "releaseMethodType") (string (or_else o.release_method_type (text "PRIMARY"))) (
          field (text "isPaid") (bool o.is_paid) (
            field_if (text "businessPlaceId")
              (elim place [ none ↦ none | some n ↦ some (number (pos n)) ]) no_fields)))))

-- The place of business of the order, or of the configuration.
abbrev pub place_of : Config → Option ℤ → Outcome (Option ℕ)
place_of c none = returned c.business_place_id
place_of c (some i) = elim (to_int32 i) [ returned n ↦ returned (some n) | thrown e ↦ thrown e ]

abbrev pub order_request : Config → MptOrderInput → Option ℕ → Request
order_request c o place = record {
  path = text "/api/orders";
  method = post;
  body = json (order_body c o place);
  headers = (text "Idempotency-Key", o.order_id) ∷ [];
  operation_id = o.order_id;
  mutating = true;
}

abbrev pub get_request : Text → Text → Request
get_request path operation_id = record {
  path = path;
  method = get;
  body = no_body;
  headers = [];
  operation_id = operation_id;
  mutating = false;
}

abbrev pub post_request : Text → Json → Text → Request
post_request path body operation_id = record {
  path = path;
  method = post;
  body = json body;
  headers = [];
  operation_id = operation_id;
  mutating = true;
}

pub record UtilisationInput : Type 0 where
  pub sntins : List Text
  pub business_place_id : ℤ
  pub release_type : Text
  pub expiration_date : Text
  pub production_date : Text
  pub manufacturer_country : Text

abbrev pub utilisation_body : UtilisationInput → ℕ → Json
utilisation_body u place = object (
    field (text "sntins") (array (items u.sntins)) (
      field (text "businessPlaceId") (number (pos place)) (
        field (text "releaseType") (string u.release_type) (
          field (text "expirationDate") (string u.expiration_date) (
            field (text "productionDate") (string u.production_date)
              (field (text "manufacturerCountry") (string u.manufacturer_country) no_fields))))))

pub record ImportInput : Type 0 where
  pub codes : List Text
  pub customs_date : Text
  pub customs_number : Text
  pub authority_code : Option Text

abbrev pub import_document : ImportInput → Json
import_document i = object (
    field (text "codes") (array (items i.codes)) (
      field (text "customsDeclaration")
        (object (
          field (text "date") (string i.customs_date) (
            field (text "number") (string i.customs_number)
              (field (text "authorityCode") (or_null i.authority_code) no_fields))))
        no_fields))

pub record WithdrawalInput : Type 0 where
  pub codes : List Text
  pub withdrawal_type : Text
  pub withdrawal_reason : Text
  pub children_write_off : Bool

abbrev pub withdrawal_document : WithdrawalInput → Json
withdrawal_document w = object (
    field (text "codes") (array (items w.codes)) (
      field (text "withdrawalType") (string w.withdrawal_type) (
        field (text "withdrawalReason") (string w.withdrawal_reason)
          (field (text "childrenWriteOff") (bool w.children_write_off) no_fields))))
