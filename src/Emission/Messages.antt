-- ===== src/Emission/Messages.antt =====
-- The sending of orders (`sendToMpt` of apps/api/src/outbox-poller.ts).
use mark_solutions.Base.{
  ℕ, suc, Bool, true, false, not, Option, none, some, ◌==◌, if◌then◌else◌, filter, find,
  update_where,
}
use mark_solutions.Store.{
  OrderStatus, Order, mpt_order_timeout, OutboxStatus, processed, Outbox, Db, Action, pure, gets,
  ◌>>=◌, ◌>>◌, modify,
}
use mark_solutions.Orders.{has_order_id, is_pending, insert_outbox}

-- How `mpt.createOrder` ends: accepted, with the order's identifier there where it tells one; refused
-- for good; or in a time-out or another failure after which nobody knows.
pub data Reply : Type 0 where
  confirmed : Option ℕ → Reply
  refused unknown : Reply

-- What `mpt.getOrder` tells.
pub data MptStatus : Type 0 where
  ready rejected in_progress : MptStatus

pub record MptView : Type 0 where
  pub status : MptStatus
  pub found : Bool

abbrev pub has_row_id : ℕ → Outbox → Bool
has_row_id id row = row.id == id

abbrev pub set_row_status : OutboxStatus → Outbox → Outbox
set_row_status status row = record row { status = status }

abbrev pub update_row : ℕ → (Outbox → Outbox) → Action Unit
update_row id f = modify (λ db. record db { outbox = update_where (has_row_id id) f db.outbox })

-- A task of the operator: a message that was never sent.
abbrev pub task_row : ℕ → ℕ → Outbox
task_row order_id tenant = record {
  id = 0;
  aggregate = mpt_order_timeout;
  status = OutboxStatus.failed;
  order_id = some order_id;
  tenant_id = tenant;
  quantity = none;
  attempt = 0;
  unknown_result = false;
  job = none;
}

abbrev pub is_cancelled : OrderStatus → Bool
is_cancelled OrderStatus.cancelled = true
is_cancelled _ = false

-- The order has gone out, under the identifier that the marking system gave it.
abbrev pub mark_sent : ℕ → Option ℕ → Order → Order
mark_sent now none o = record o { status = OrderStatus.sent; updated_at = now }
mark_sent now (some external) o = record o {
  status = OrderStatus.sent;
  updated_at = now;
  external_order_id = some external;
}

abbrev pub update_order : ℕ → (Order → Order) → Action Unit
update_order id f = modify (λ db. record db { orders = update_where (has_order_id id) f db.orders })

abbrev pub mark_unknown : Outbox → Outbox
mark_unknown row = record row { status = processed; unknown_result = true }

-- `fresh?.status === "CANCELLED"`
abbrev pub was_cancelled : Option Order → Bool
was_cancelled none = false
was_cancelled (some o) = is_cancelled o.status

-- What follows the reply.
unfoldable pub after_reply : ℕ → ℕ → Order → Reply → Action Unit
unfolding insert_outbox
after_reply now row_id order refused = do
  update_row row_id (set_row_status OutboxStatus.failed)
  insert_outbox (task_row order.id order.tenant_id)
after_reply now row_id order unknown = do
  update_row row_id mark_unknown
  update_order order.id (mark_sent now none)
after_reply now row_id order (confirmed external) = do
  fresh ← gets (λ db. find (has_order_id order.id) db.orders)
  if was_cancelled fresh
      then (do
        modify (λ db. record db {
          mpt_orders = filter (λ m. not (m.external_id == order.id)) db.mpt_orders;
        })
        update_row row_id (set_row_status processed))
      else (do
        update_order order.id (mark_sent now external)
        update_row row_id (set_row_status processed))

abbrev pub count_attempt : Outbox → Outbox
count_attempt row = record row { attempt = suc row.attempt }

abbrev pub quantity_sent : Outbox → ℕ
quantity_sent row = elim row.quantity [ some q ↦ q | none ↦ 0 ]

-- The message's order, if it is to be sent.
abbrev pub order_to_send : Option Order → Option Order
order_to_send none = none
order_to_send (some o) = if is_cancelled o.status then none else some o

abbrev pub order_of_row : Outbox → Db → Option Order
order_of_row row db = elim row.order_id [ none ↦ none | some id ↦ find (has_order_id id) db.orders ]

-- A row that is absent or no longer pending is left alone.
abbrev pub pending_row : Option Outbox → Option Outbox
pending_row none = none
pending_row (some row) = if is_pending row.status then some row else none

-- `post` is `mpt.createOrder`, with what other processes commit while it runs.
module _ (now : ℕ) (post : Order → ℕ → Db → Reply × Db) where
  unfoldable pub post_order : ℕ → Order → ℕ → Action Unit
  post_order row_id o quantity db =
      let (reply, db') = post o quantity db in after_reply now row_id o reply db'

  unfoldable pub send_row : ℕ → Outbox → Action Unit
  send_row row_id row = do
    update_row row_id count_attempt
    order ← gets (λ db. order_to_send (order_of_row row db))
    elim order [
      | none ↦ update_row row_id (set_row_status processed)
      | some o ↦ post_order row_id o (quantity_sent row)
    ]

  unfoldable pub send_to_mpt : ℕ → Action Unit
  send_to_mpt row_id = do
    row ← gets (λ db. pending_row (find (has_row_id row_id) db.outbox))
    elim row [ none ↦ pure tt | some row ↦ send_row row_id row ]
