-- ===== src/Mpt/Answers.antt =====
-- What the adapter reads of an answer (apps/api/src/http-mpt.adapter.ts), in the words of the marking
-- system.
use mark_solutions.Base.{
  ℕ, Bool, false, Option, none, some, List, [], ◌∷◌, if◌then◌else◌, is_some, find, Text, text,
  text_eq,
}
use mark_solutions.Mpt.Values.{
  Json, Items, no_items, item, get_field, text_field, is_null, texts_of, array_of,
}
use mark_solutions.Mpt.{Line, raw, Outcome, returned, thrown, Reply}
use mark_solutions.Mpt.Messages.{non_empty, or_else}

pub record MptOrderResult : Type 0 where
  pub status : Text
  pub order_id : Option Text

pub record MptOrderView : Type 0 where
  pub status : Text
  pub quantity : ℕ
  pub is_found : Bool

pub record MptCodes : Type 0 where
  pub codes : List Text
  pub pack_id : Option Text

-- What a report or a document is answered.
pub record Submitted : Type 0 where
  pub id : Text
  pub status : Text
  pub reject_reason : Option Text

pub record Decided : Type 0 where
  pub status : Text
  pub reject_reason : Option Text

-- Reads the data of an answer; a property of `null` throws.
abbrev pub reading : {A : Type 0} → (Json → A) → Reply → Line → Outcome A × Line
reading f r l = if is_null r.data_of then (thrown raw, l) else (returned (f r.data_of), l)

abbrev pub read_order : Json → MptOrderResult
read_order d = record {
  status = or_else (text_field (text "status") d) (text "CREATED");
  order_id = non_empty (text_field (text "orderId") d);
}

abbrev pub rows_of : Items → List Json
rows_of no_items = []
rows_of (item d ds) = d ∷ rows_of ds

-- The only row of a list that has one.
abbrev pub single : List Json → Option Json
single (d ∷ []) = some d
single _ = none

abbrev pub is_order : Text → Json → Bool
is_order id d = elim (text_field (text "orderId") d) [ none ↦ false | some t ↦ text_eq t id ]

-- The row with the number of the order, or the only one.
abbrev pub match_of : Text → List Json → Option Json
match_of id rows = elim (find (is_order id) rows) [ some d ↦ some d | none ↦ single rows ]

unfoldable pub read_order_view : Text → Json → MptOrderView
read_order_view id d =
    let row = match_of id (rows_of (array_of (get_field (text "orderInfos") d))) in
    record {
      status =
          or_else (elim row [ none ↦ none | some r ↦ text_field (text "orderStatus") r ])
            (text "CREATED");
      quantity = 0;
      is_found = is_some row;
    }

abbrev pub read_codes : Json → MptCodes
read_codes d = record {
  codes = texts_of (array_of (get_field (text "codes") d));
  pack_id = non_empty (text_field (text "packId") d);
}

-- The answer to a report or a document, with the name of its number.
abbrev pub read_submitted : Text → Json → Submitted
read_submitted id d =
    if elim (text_field (text "status") d) [ none ↦ false | some t ↦ text_eq t (text "ERROR") ]
    then (record {
      id = or_else (text_field id d) [];
      status = text "ERROR";
      reject_reason = text_field (text "rejectReason") d;
    })
    else (record {
      id = or_else (text_field id d) [];
      status = text "IN_PROCESS";
      reject_reason = none;
    })

abbrev pub read_decided : Option Text → Json → Decided
read_decided status d = record {
  status = or_else status (text "IN_PROCESS");
  reject_reason = text_field (text "rejectReason") d;
}

abbrev pub report_status : Json → Option Text
report_status d = elim (text_field (text "reportStatus") d) [
  | some s ↦ some s
  | none ↦ text_field (text "status") d
]
