-- ===== src/Emission.antt =====
-- What the outbox poller does with orders (apps/api/src/outbox-poller.ts): an order is sent to the
-- marking system, its status is fetched until it is final, and the codes that come are put into the
-- vault.
mod Messages
pub mod Sending
pub mod Following
pub mod Posting
pub mod Completing
use mark_solutions.Base.{
  ℕ, zero, suc, ◌+◌, ◌-◌, ◌*◌, ◌/◌, ◌≤◌, Bool, true, false, ◌&&◌, ◌||◌, not, Option, none, some,
  List, [], ◌∷◌, ◌++◌, map, foldl, leb, ltb, ◌==◌, holds, is_some, if◌then◌else◌, take, drop,
  filter, any, find, update_where, Text, length,
}
use mark_solutions.Store.{
  OrderStatus, Order, OrderLine, Aggregate, mpt_order_timeout, OutboxStatus, pending, processed,
  Outbox, CodeStatus, CodeVault, MptOrder, UtilisationAlert, alert, expire, Db, Error, bad_request,
  not_found, transient, Action, pure, throw, gets, or_throw, ◌>>=◌, ◌>>◌, throw_if, modify, swallow,
}
use mark_solutions.Billing.{quiet, release_on}
use mark_solutions.Catalog.Km.{Adr006Km, parse_adr006_km}
use mark_solutions.Vault.{ingest}
use mark_solutions.Orders.{
  has_order_id, set_status, update_status, line_of, is_send, is_pending, is_pending_send,
  insert_outbox,
}
unfoldable pub use Messages.*

-- `fetched.codes.map(parseAdr006Km)`; `none` is the error that one of them throws
abbrev pub parse_all : List Text → Option (List Adr006Km)
parse_all [] = some []
parse_all (raw ∷ rest) = elim (parse_adr006_km raw) [
  | none ↦ none
  | some code ↦ elim (parse_all rest) [ none ↦ none | some codes ↦ some (code ∷ codes) ]
]

abbrev pub expected_quantity : ℕ → Db → ℕ
expected_quantity order_id db = foldl (λ n l. n + l.quantity) 0 (filter (line_of order_id) db.lines)

abbrev pub status_eq : OrderStatus → OrderStatus → Bool
status_eq OrderStatus.partially_completed OrderStatus.partially_completed = true
status_eq OrderStatus.completed OrderStatus.completed = true
status_eq OrderStatus.rejected OrderStatus.rejected = true
status_eq OrderStatus.failed OrderStatus.failed = true
status_eq _ _ = false

-- The marking system, as it answers: `mpt.getOrder` and `mpt.getCodes` may throw (`none`).
pub record Mpt : Type 0 where
  pub get_order : ℕ → Option MptView
  pub get_codes : ℕ → ℕ → Option (List Text)

unfoldable pub take_codes : ℕ → Order → List Adr006Km → ℕ → Action Unit
unfolding insert_outbox
take_codes now o codes expected =
    if ltb (length codes) expected
    then (if status_eq o.status OrderStatus.partially_completed then pure tt else (do
      update_status now o.id OrderStatus.partially_completed
      insert_outbox (task_row o.id o.tenant_id)
      ingest o.id codes))
    else (if status_eq o.status OrderStatus.completed
        then pure tt
        else (do update_status now o.id OrderStatus.completed; ingest o.id codes))

-- The order has come to nothing: what was reserved for it is released, if that goes.
unfoldable pub give_up : ℕ → Order → OrderStatus → Action Unit
unfolding insert_outbox
give_up now o status = if status_eq o.status status then pure tt else (do
  swallow (release_on quiet o.tenant_id o.id)
  update_status now o.id status
  insert_outbox (task_row o.id o.tenant_id))

-- Old, and proved absent: it was asked for under the identifier that the marking system gave.
abbrev pub is_absent : ℕ → ℕ → Order → MptView → Bool
is_absent now timeout o view =
    ltb timeout (now - o.updated_at) && (not view.found && is_some o.external_order_id)

abbrev pub mpt_id : Order → ℕ
mpt_id o = elim o.external_order_id [ some id ↦ id | none ↦ o.id ]

module _ (now timeout : ℕ) (mpt : Mpt) where
  unfoldable pub follow : Order → MptView → MptStatus → Action Unit
  follow o view ready = do
    expected ← gets (expected_quantity o.id)
    raw ← or_throw (mpt.get_codes (mpt_id o) expected) transient
    codes ← or_throw (parse_all raw) bad_request
    take_codes now o codes expected
  follow o view rejected = give_up now o OrderStatus.rejected
  follow o view in_progress =
      if is_absent now timeout o view then give_up now o OrderStatus.failed else pure tt

  unfoldable pub reconcile_order : ℕ → Action Unit
  reconcile_order order_id = do
    row ← gets (λ db. find (has_order_id order_id) db.orders)
    elim row [
      | none ↦ pure tt
      | some o ↦ or_throw (mpt.get_order (mpt_id o)) transient >>= λ view. follow o view view.status
    ]

abbrev pub is_open_status : OrderStatus → Bool
is_open_status OrderStatus.sent = true
is_open_status OrderStatus.processing = true
is_open_status OrderStatus.partially_completed = true
is_open_status _ = false

abbrev pub is_open : Order → Bool
is_open o = is_open_status o.status

-- `pollMptOrders`: at most twenty new messages, then at most fifty open orders; an error in one does
-- not stop the others.
abbrev pub send_each : ℕ → (Order → ℕ → Db → Reply × Db) → List Outbox → Action Unit
send_each now post [] = pure tt
send_each now post (row ∷ rows) = swallow (send_to_mpt now post row.id) >> send_each now post rows

abbrev pub reconcile_each : ℕ → ℕ → Mpt → List Order → Action Unit
reconcile_each now timeout mpt [] = pure tt
reconcile_each now timeout mpt (o ∷ rest) =
    swallow (reconcile_order now timeout mpt o.id) >> reconcile_each now timeout mpt rest

unfoldable pub poll_mpt_orders : ℕ → ℕ → (Order → ℕ → Db → Reply × Db) → Mpt → Action Unit
poll_mpt_orders now timeout post mpt = do
  sends ← gets (λ db. take 20 (filter is_pending_send db.outbox))
  send_each now post sends
  open_orders ← gets (λ db. take 50 (filter is_open db.orders))
  reconcile_each now timeout mpt open_orders
