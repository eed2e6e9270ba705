-- ===== src/Emission/Posting.antt =====
-- The poller with the adapter to the marking system (`sendToMpt` of apps/api/src/outbox-poller.ts,
-- `createOrder` of apps/api/src/http-mpt.adapter.ts).
use mark_solutions.Base.{
  ℕ, ◌+◌, ◌≤◌, ◌≡◌, refl, ◌∙◌, inl, inr, Bool, true, false, not, Option, none, some, List,
  if◌then◌else◌, Bool-cases, find, find_sound, find-append, find-update_where, update_where, Text,
  is_empty,
}
use mark_solutions.Store.{OutboxStatus, processed, Order, Outbox, Db}
use mark_solutions.Orders.{has_order_id, is_pending, insert_outbox}
use mark_solutions.Emission.{
  Reply, refused, unknown, confirmed, has_row_id, set_row_status, mark_unknown, was_cancelled,
  count_attempt, quantity_sent, order_to_send, order_of_row, after_reply, post_order, send_row,
  send_to_mpt,
}
use mark_solutions.Mpt.{
  Config, Response, Line, permanent, unknown_result, network, temporary, invalid, raw, broken_off,
  out_of_rounds, Outcome, returned, thrown,
}
use mark_solutions.Mpt.Values.{Json}
use mark_solutions.Mpt.Messages.{MptOrderInput}
use mark_solutions.Mpt.Answers.{MptOrderResult}
use mark_solutions.Mpt.Calls.{create_order}
use mark_solutions.Mpt.Tally.{accepted, doubtful, one_if}
use mark_solutions.Mpt.Failing.{is_permanent, create_order-Honest}

-- The order as it is posted; `name` prints an identifier.
abbrev pub input_of : (ℕ → Text) → Order → ℕ → MptOrderInput
input_of name o quantity = record {
  order_id = name o.id;
  gtin = o.gtin;
  quantity = quantity;
  is_paid = o.is_paid;
  product_group = if is_empty o.product_group then none else some o.product_group;
  business_place_id = o.business_place_id;
  release_method_type = if is_empty o.release_method_type then none else some o.release_method_type;
}

-- What `createOrder` gives to the poller: it asks an exception for `permanent` only.
abbrev pub reply_of : (Text → ℕ) → Outcome MptOrderResult → Reply
reply_of number (returned r) =
    confirmed (elim r.order_id [ none ↦ none | some t ↦ some (number t) ])
reply_of number (thrown (permanent s p)) = refused
reply_of number (thrown _) = unknown

abbrev pub is_failed : OutboxStatus → Bool
is_failed OutboxStatus.failed = true
is_failed _ = false

abbrev is_refused : Reply → Bool
is_refused refused = true
is_refused _ = false

-- The row of a message, and whether it has failed.
abbrev pub HasRow : ℕ → Bool → Db → Type 0
HasRow id failed db =
    (row : Outbox) × (find (has_row_id id) db.outbox ≡ some row) × (is_failed row.status ≡ failed)

row-updated :
    (id : ℕ) (f : Outbox → Outbox) (rows : List Outbox) (row : Outbox)
    → ((x : Outbox) → has_row_id id (f x) ≡ has_row_id id x)
    → find (has_row_id id) rows ≡ some row
    → find (has_row_id id) (update_where (has_row_id id) f rows) ≡ some (f row)
row-updated id f rows row keep found =
    find-update_where (has_row_id id) (has_row_id id) f rows keep
    ∙ rw (found, find_sound (has_row_id id) rows found) refl

after_reply-HasRow :
    (now id : ℕ) (o : Order) (reply : Reply) (db : Db) (row : Outbox)
    → find (has_row_id id) db.outbox ≡ some row
    → HasRow id (is_refused reply) (after_reply now id o reply db).1
unfolding after_reply insert_outbox
after_reply-HasRow now id o refused db row found = (
  set_row_status OutboxStatus.failed row,
  find-append (has_row_id id) _ _
      ∙ rw (row-updated id (set_row_status OutboxStatus.failed) db.outbox row (λ x. refl) found)
          refl,
  refl,
)
after_reply-HasRow now id o unknown db row found =
    (mark_unknown row, row-updated id mark_unknown db.outbox row (λ x. refl) found, refl)
after_reply-HasRow now id o (confirmed external) db row found =
    let kept = row-updated id (set_row_status processed) db.outbox row (λ x. refl) found in
    elim (Bool-cases (was_cancelled (find (has_order_id o.id) db.orders))) [
      | inl gone ↦ rw gone (set_row_status processed row, kept, refl)
      | inr live ↦ rw live (set_row_status processed row, kept, refl)
    ]

is_refused-reply_of :
    (number : Text → ℕ) (out : Outcome MptOrderResult)
    → is_refused (reply_of number out) ≡ is_permanent out
is_refused-reply_of number (returned r) = refl
is_refused-reply_of number (thrown (permanent s p)) = refl
is_refused-reply_of number (thrown (unknown_result p)) = refl
is_refused-reply_of number (thrown (network p)) = refl
is_refused-reply_of number (thrown (temporary s p)) = refl
is_refused-reply_of number (thrown invalid) = refl
is_refused-reply_of number (thrown raw) = refl
is_refused-reply_of number (thrown broken_off) = refl
is_refused-reply_of number (thrown out_of_rounds) = refl

-- The tables once the attempt is counted, which is written before the order is posted.
abbrev pub counted : ℕ → Db → Db
counted id db = record db { outbox = update_where (has_row_id id) count_attempt db.outbox }

-- The adapter as the poller calls it: `meanwhile` is what other processes commit before its answer,
-- which may depend on all that the marking system was asked.
abbrev pub posting :
    Config
    → (ℕ → Option Response)
    → (Text → Text)
    → (Json → Text)
    → (Text → ℕ)
    → (ℕ → Text)
    → (Line → Db → Db)
    → Line
    → Order
    → ℕ
    → Db
    → Reply × Db
posting c replies encode_uri_component base64_json number name meanwhile l o quantity db =
    let (out, l') =
      create_order c replies encode_uri_component base64_json (input_of name o quantity) l in
    (reply_of number out, meanwhile l' db)

send_row-once :
    (now id : ℕ) (post : Order → ℕ → Db → Reply × Db) (row : Outbox) (o : Order) (db : Db)
    → order_to_send (order_of_row row db) ≡ some o
    → send_row now post id row db ≡ (
        let (reply, db') = post o (quantity_sent row) (counted id db) in
        after_reply now id o reply db')
unfolding send_row post_order
send_row-once now id post row o db live = rw live refl

-- With the adapter as the marking system, a pending message of an order that is not cancelled is posted
-- exactly once, with the order's data and the quantity of the message: whatever other processes commit
-- meanwhile, in dependence on all that the marking system was asked, is committed once, between the
-- count of the attempt and the writing of the outcome. If they leave the message alone, it fails exactly
-- when the adapter's failure is permanent. Then the number of requests that were accepted or left in
-- doubt has not grown by the posting, and otherwise it has grown by one at most.
pub send_to_mpt-create_order :
    (c : Config) (replies : ℕ → Option Response) (encode_uri_component : Text → Text)
    (base64_json : Json → Text) (number : Text → ℕ) (name : ℕ → Text) (meanwhile : Line → Db → Db)
    (now id : ℕ) (l : Line) (row : Outbox) (o : Order) (db : Db)
    → find (has_row_id id) db.outbox ≡ some row
    → is_pending row.status ≡ true
    → order_to_send (order_of_row row db) ≡ some o
    → ((l' : Line)
        → find (has_row_id id) (meanwhile l' (counted id db)).outbox ≡ some (count_attempt row))
    → let (out, l') =
        create_order c replies encode_uri_component base64_json
          (input_of name o (quantity_sent row))
          l in
      let sent =
        send_to_mpt now
          (posting c replies encode_uri_component base64_json number name meanwhile l)
          id
          db in
      (sent ≡ after_reply now id o (reply_of number out) (meanwhile l' (counted id db)))
      × HasRow id (is_permanent out) sent.1
      × (accepted l'.log + doubtful l'.log
          ≤ accepted l.log + doubtful l.log + one_if (not (is_permanent out)))
unfolding send_to_mpt
send_to_mpt-create_order c replies encode base64 number name meanwhile now id l row o db found waits
      live kept =
    let r = create_order c replies encode base64 (input_of name o (quantity_sent row)) l in
    let once =
      send_row-once now id (posting c replies encode base64 number name meanwhile l) row o db
        live in
    (
      rw (found, waits, once) refl,
      rw (found, waits, once, ← is_refused-reply_of number r.0)
          (after_reply-HasRow now id o (reply_of number r.0) (meanwhile r.1 (counted id db))
            (count_attempt row) (kept r.1)),
      (create_order-Honest c replies encode base64 (input_of name o (quantity_sent row)) l).1,
    )
