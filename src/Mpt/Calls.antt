-- ===== src/Mpt/Calls.antt =====
-- The methods of the adapter (apps/api/src/http-mpt.adapter.ts): the request that each sends and what
-- it reads of the answer. The coding of a text in an address, and the string of a document in base64,
-- are arguments.
use mark_solutions.Base.{ℕ, Option, none, some, [], ◌++◌, Text, text}
use mark_solutions.Codes.Sscc.{decimal}
use mark_solutions.Mpt.Values.{
  Json, string, object, no_fields, field, sort_keys_recursive, text_field,
}
use mark_solutions.Mpt.{
  Config, Response, Request, Line, Outcome, returned, thrown, and_then, request,
}
use mark_solutions.Mpt.Messages.{
  non_empty, to_int32, MptOrderInput, place_of, order_request, get_request, post_request,
  UtilisationInput, utilisation_body, ImportInput, import_document, WithdrawalInput,
  withdrawal_document,
}
use mark_solutions.Mpt.Answers.{
  MptOrderResult, MptOrderView, MptCodes, Submitted, Decided, reading, read_order, read_order_view,
  read_codes, read_submitted, read_decided, report_status,
}

module _ (c : Config) (replies : ℕ → Option Response) (encode_uri_component : Text → Text)
    (base64_json : Json → Text) where
  abbrev pub read : {A : Type 0} → Request → (Json → A) → Line → Outcome A × Line
  read q f l = and_then (request c replies q l) (reading f)

  -- With a place of business as a number, where it is one.
  abbrev pub placed :
      {A B : Type 0} → Outcome A → (A → Line → Outcome B × Line) → Line → Outcome B × Line
  placed (thrown e) f l = (thrown e, l)
  placed (returned place) f l = f place l

  unfoldable pub create_order : MptOrderInput → Line → Outcome MptOrderResult × Line
  create_order o =
      placed (place_of c o.business_place_id) (λ place. read (order_request c o place) read_order)

  unfoldable pub get_order : Text → Line → Outcome MptOrderView × Line
  unfolding read_order_view
  get_order id =
      read (get_request (text "/api/orders?orderId=" ++ encode_uri_component id) id)
        (read_order_view id)

  unfoldable pub get_codes : Text → Text → ℕ → Option Text → Line → Outcome MptCodes × Line
  unfolding decimal
  get_codes order_id gtin quantity last_pack_id =
      let pack : Text = elim (non_empty last_pack_id) [
        | none ↦ []
        | some p ↦ text "&lastPackId=" ++ encode_uri_component p
      ] in
      let path =
        text "/api/codes?orderId="
        ++ encode_uri_component order_id
        ++ text "&gtin="
        ++ encode_uri_component gtin
        ++ text "&quantity="
        ++ decimal quantity
        ++ pack in
      read (get_request path order_id) read_codes

  -- `operation_id` stands for the time in `util-…`.
  unfoldable pub submit_utilisation : UtilisationInput → Text → Line → Outcome Submitted × Line
  submit_utilisation u operation_id = placed (to_int32 u.business_place_id) (λ place.
      read (post_request (text "/api/utilisation") (utilisation_body u place) operation_id)
        (read_submitted (text "reportId")))

  unfoldable pub get_utilisation : Text → Line → Outcome Decided × Line
  get_utilisation id =
      read (get_request (text "/api/utilisation/" ++ encode_uri_component id) id)
        (λ d. read_decided (report_status d) d)

  -- `{ documentBody }`
  abbrev pub document : Json → Json
  document d =
      object (field (text "documentBody") (string (base64_json (sort_keys_recursive d))) no_fields)

  unfoldable pub submit_import : ImportInput → Line → Outcome Submitted × Line
  submit_import i =
      read
        (post_request (text "/public/api/v1/doc/import") (document (import_document i))
          i.customs_number)
        (read_submitted (text "documentId"))

  unfoldable pub submit_withdrawal : WithdrawalInput → Text → Line → Outcome Submitted × Line
  submit_withdrawal w operation_id =
      read
        (post_request (text "/public/api/v1/doc/withdrawal") (document (withdrawal_document w))
          operation_id)
        (read_submitted (text "documentId"))

  unfoldable pub get_document : Text → Line → Outcome Decided × Line
  get_document id =
      read (get_request (text "/public/api/v1/doc/storage/docs/" ++ encode_uri_component id) id)
        (λ d. read_decided (text_field (text "status") d) d)
