-- ===== src/Mpt/Failing.antt =====
-- What a permanent failure of a submission means (apps/api/src/http-mpt.adapter.ts): the marking
-- system has taken nothing.
use mark_solutions.Base.{
  ℕ, ◌+◌, ◌≤◌, ◌≡◌, refl, Bool, true, false, ◌||◌, not, Option, arith, if_has, Text, text,
}
use mark_solutions.Mpt.Values.{Json, is_null}
use mark_solutions.Mpt.{
  Config, Response, Request, Line, MptError, permanent, unknown_result, network, temporary, invalid,
  raw, broken_off, out_of_rounds, Outcome, returned, thrown, Reply, and_then, request,
}
use mark_solutions.Mpt.Tally.{accepted, doubtful, one_if, is_returned, is_unknown, is_cut}
use mark_solutions.Mpt.Reporting.{request-Told}
use mark_solutions.Mpt.Messages.{
  MptOrderInput, order_request, place_of, UtilisationInput, ImportInput, WithdrawalInput, to_int32,
  post_request, utilisation_body,
}
use mark_solutions.Mpt.Answers.{reading, read_order, read_submitted}
use mark_solutions.Mpt.Calls.{
  read, placed, create_order, submit_utilisation, submit_import, submit_withdrawal,
}

abbrev pub is_permanent : {A : Type 0} → Outcome A → Bool
is_permanent (thrown (permanent s p)) = true
is_permanent _ = false

-- An end against what happened between two states: with a result, a request was accepted; and one at
-- most was accepted or left in doubt, none where the failure is permanent.
abbrev pub Honest : {A : Type 0} → Line → Outcome A × Line → Type 0
Honest l (out, l') =
    (accepted l.log + one_if (is_returned out) ≤ accepted l'.log)
    × (accepted l'.log + doubtful l'.log
        ≤ accepted l.log + doubtful l.log + one_if (not (is_permanent out)))

-- A failure of the request itself.
thrown_Honest :
    (A : Type 0) (e : MptError) (l l' : Line)
    → accepted l.log + 0 ≤ accepted l'.log
    → accepted l'.log + doubtful l'.log
      ≤ accepted l.log
        + doubtful l.log
        + one_if (is_unknown {A = Reply} (thrown e) || is_cut {A = Reply} (thrown e))
    → Honest {A = A} l (thrown e, l')
thrown_Honest A (permanent s p) l l' a d = (omega (arith, a), omega (arith, a, d))
thrown_Honest A (unknown_result p) l l' a d = (omega (arith, a), omega (arith, a, d))
thrown_Honest A (network p) l l' a d = (omega (arith, a), omega (arith, a, d))
thrown_Honest A (temporary s p) l l' a d = (omega (arith, a), omega (arith, a, d))
thrown_Honest A invalid l l' a d = (omega (arith, a), omega (arith, a, d))
thrown_Honest A raw l l' a d = (omega (arith, a), omega (arith, a, d))
thrown_Honest A broken_off l l' a d = (omega (arith, a), omega (arith, a, d))
thrown_Honest A out_of_rounds l l' a d = (omega (arith, a), omega (arith, a, d))

reading-Honest :
    {A : Type 0} (f : Json → A) (l : Line) (r : Outcome Reply × Line)
    → accepted l.log + one_if (is_returned r.0) ≤ accepted r.1.log
    → accepted r.1.log + doubtful r.1.log
      ≤ accepted l.log + doubtful l.log + one_if (is_returned r.0 || (is_unknown r.0 || is_cut r.0))
    → Honest l (and_then r (reading f))
reading-Honest {A = A} f l (returned r, l') a d =
    if_has (λ (x : Outcome A × Line). Honest l x) (is_null r.data_of) _ _
      (λ empty. (omega (arith, a), omega (arith, a, d)))
      λ full. (omega (arith, a), omega (arith, a, d))
reading-Honest {A = A} f l (thrown e, l') a d = thrown_Honest A e l l' a d

module _ (c : Config) (replies : ℕ → Option Response) (encode_uri_component : Text → Text)
    (base64_json : Json → Text) where
  read-Honest :
      {A : Type 0} (q : Request) (f : Json → A) (l : Line)
      → q.mutating ≡ true
      → Honest l (read c replies encode_uri_component base64_json q f l)
  read-Honest q f l m =
      let told = request-Told c replies q l m in
      reading-Honest f l (request c replies q l) told.0 told.3

  placed-Honest :
      {A B : Type 0} (p : Outcome A) (f : A → Line → Outcome B × Line) (l : Line)
      → ((a : A) → Honest l (f a l))
      → Honest l (placed c replies encode_uri_component base64_json p f l)
  placed-Honest (returned a) f l honest = honest a
  placed-Honest (thrown e) f l honest = (omega arith, omega arith)

pub create_order-Honest :
    (c : Config) (replies : ℕ → Option Response) (encode_uri_component : Text → Text)
    (base64_json : Json → Text) (o : MptOrderInput) (l : Line)
    → Honest l (create_order c replies encode_uri_component base64_json o l)
unfolding create_order
create_order-Honest c replies encode base64 o l =
    placed-Honest c replies encode base64 (place_of c o.business_place_id) _ l
      λ place. read-Honest c replies encode base64 (order_request c o place) read_order l refl

-- The four submissions (an order, a report, an import and a withdrawal), whatever the network answers:
-- one that returns was accepted; at most one request of it was accepted or left in doubt; and none
-- where the failure is permanent, so what the poller then gives up was not carried out.
pub submissions-Honest :
    (c : Config) (replies : ℕ → Option Response) (encode_uri_component : Text → Text)
    (base64_json : Json → Text) (o : MptOrderInput) (u : UtilisationInput) (i : ImportInput)
    (w : WithdrawalInput) (operation_id : Text) (l : Line)
    → Honest l (create_order c replies encode_uri_component base64_json o l)
      × Honest l (submit_utilisation c replies encode_uri_component base64_json u operation_id l)
      × Honest l (submit_import c replies encode_uri_component base64_json i l)
      × Honest l (submit_withdrawal c replies encode_uri_component base64_json w operation_id l)
unfolding submit_utilisation submit_import submit_withdrawal
submissions-Honest c replies encode base64 o u i w operation_id l = (
  create_order-Honest c replies encode base64 o l,
  placed-Honest c replies encode base64 (to_int32 u.business_place_id) _ l λ place.
      read-Honest c replies encode base64
        (post_request (text "/api/utilisation") (utilisation_body u place) operation_id)
        (read_submitted (text "reportId")) l refl,
  read-Honest c replies encode base64 _ (read_submitted (text "documentId")) l refl,
  read-Honest c replies encode base64 _ (read_submitted (text "documentId")) l refl,
)
