-- ===== src/Orders.antt =====
-- `OrderService` (apps/api/src/order.service.ts): an order with its reservation, its line and the
-- message to the marking system in one transaction, and its cancellation.
mod Rows
pub mod Requests
pub mod Placing
pub mod Reserved
pub mod Repeating
pub mod Cancelling
pub mod Listing
use mark_solutions.Base.{
  ℕ, zero, suc, ◌+◌, ◌*◌, Bool, true, false, ◌&&◌, ◌||◌, not, Option, none, some, List, [], ◌∷◌,
  ◌++◌, map, foldl, leb, ltb, ◌==◌, holds, is_some, if◌then◌else◌, take, filter, any, find,
  update_where, Text, text_eq,
}
use mark_solutions.Base.Int.{ℤ, pos}
use mark_solutions.Store.{
  OrderStatus, draft, validating, funds_reserved, queued, cancelled, Order, OrderLine, ProductCard,
  Tariff, Aggregate, send_order_to_mpt, OutboxStatus, pending, processed, Outbox, Db, Error,
  bad_request, insufficient_funds, not_found, conflict, p2002, Action, pure, throw, gets, or_throw,
  ◌>>=◌, ◌>>◌, throw_if, modify, catch, transaction,
}
use mark_solutions.Billing.{Rivals, reserve_on, release_on}
use Requests.{CreateOrder, Checked, check_body}
unfoldable pub use Rows.*

-- What an order is made from, once it was checked and priced.
pub record Draft : Type 0 where
  pub tenant : ℕ
  pub key : ℕ
  pub card : ProductCard
  pub checked : Checked
  pub business_place_id : Option ℤ
  pub places : ℕ
  pub units_per_place : ℕ
  pub quantity : ℕ
  pub tariff : Tariff

abbrev pub total_price : Draft → ℕ
total_price d = d.quantity * d.tariff.price_per_code_kzt

abbrev pub order_of : ℕ → Draft → Order
order_of now d = record {
  id = 0;
  number = 0;
  tenant_id = d.tenant;
  status = draft;
  idempotency_key = d.key;
  card_id = d.card.id;
  gtin = d.checked.gtin;
  is_paid = true;
  business_place_id = d.business_place_id;
  product_group = d.checked.product_group;
  release_method_type = d.checked.release_method_type;
  external_order_id = none;
  updated_at = now;
}

abbrev pub order_line : ℕ → Draft → OrderLine
order_line order_id d = record {
  tenant_id = d.tenant;
  order_id = order_id;
  card_id = d.card.id;
  gtin = d.checked.gtin;
  places = d.places;
  units_per_place = d.units_per_place;
  quantity = d.quantity;
  total_price = total_price d;
  tariff_id = d.tariff.id;
  price_per_code_kzt = d.tariff.price_per_code_kzt;
}

-- The order as its last update answers it.
abbrev pub queued_view : Order → Draft → OrderView
queued_view o d = record {
  id = o.id;
  number = o.number;
  status = queued;
  is_paid = o.is_paid;
  release_method_type = o.release_method_type;
  lines = (d.quantity, total_price d) ∷ [];
}

module _ (r : Rivals) (now : ℕ) where
  -- The body of the transaction.
  unfoldable pub place : Draft → Action OrderView
  unfolding insert_outbox
  place d = do
    created ← insert_order (order_of now d)
    update_status now created.id validating
    reserve_on r d.tenant created.id (pos (total_price d))
    update_status now created.id funds_reserved
    modify (λ db. record db { lines = db.lines ++ (order_line created.id d ∷ []) })
    update_status now created.id queued
    insert_outbox (send_message created.id d.tenant d.quantity)
    pure (queued_view created d)

  -- The handler of the transaction: a concurrent repeat has taken the key.
  unfoldable pub placed_before : ℕ → Error → Action OrderView
  placed_before key p2002 = do
    existing ← gets (λ db. find (has_key key) db.orders)
    elim existing [ none ↦ throw p2002 | some o ↦ gets (view_of o) ]
  placed_before key e = throw e

  -- The order under the key, or a new one. The look-up is by the key alone.
  unfoldable pub find_or_place : Draft → Action OrderView
  find_or_place d = do
    existing ← gets (λ db. find (has_key d.key) db.orders)
    elim existing [
      | some o ↦ gets (view_of o)
      | none ↦ catch (transaction (place d)) (placed_before d.key)
    ]

  abbrev pub quantity_of : CreateOrder → ℕ
  quantity_of body = elim body.quantity [ some q ↦ q | none ↦ body.places * body.units_per_place ]

  -- The empty `Idempotency-Key` is `none`.
  unfoldable pub create : ℕ → Option ℕ → CreateOrder → Action OrderView
  create tenant none body = throw bad_request
  create tenant (some key) body = do
    checked ← or_throw (check_body body) bad_request
    row ← gets (λ db.
        find
          (λ c. (c.id == body.card_id) && ((c.tenant_id == tenant) && text_eq c.gtin checked.gtin))
          db.cards)
    card ← or_throw row not_found
    let quantity = quantity_of body
    throw_if (ltb quantity 1 || ltb (body.places * body.units_per_place) quantity) bad_request
    tariff ← active_tariff now card.product_group
    find_or_place (record {
      tenant = tenant;
      key = key;
      card = card;
      checked = checked;
      business_place_id = body.business_place_id;
      places = body.places;
      units_per_place = body.units_per_place;
      quantity = quantity;
      tariff = tariff;
    })

-- `getOwnedOrder`: a foreign order is as absent.
unfoldable pub get_owned_order : ℕ → ℕ → Action Order
get_owned_order tenant id = do
  row ← gets (λ db. find (has_order_id id) db.orders)
  order ← or_throw row not_found
  throw_if (not (order.tenant_id == tenant)) not_found
  pure order

-- `QUEUEABLE`
abbrev pub is_queueable : OrderStatus → Bool
is_queueable draft = true
is_queueable validating = true
is_queueable funds_reserved = true
is_queueable queued = true
is_queueable _ = false

abbrev pub is_send : Aggregate → Bool
is_send send_order_to_mpt = true
is_send _ = false

abbrev pub is_pending : OutboxStatus → Bool
is_pending pending = true
is_pending _ = false

abbrev pub is_pending_send : Outbox → Bool
is_pending_send row = is_send row.aggregate && is_pending row.status

-- The first fifty pending messages, and of those the ones of the order.
abbrev pub neutralised : ℕ → List Outbox → List Outbox
neutralised order_id rows =
    filter (λ row. holds row.order_id order_id) (take 50 (filter is_pending_send rows))

abbrev set_processed : Outbox → Outbox
set_processed row = record row { status = processed }

abbrev pub neutralise : List Outbox → List Outbox → List Outbox
neutralise [] rows = rows
neutralise (mine ∷ rest) rows =
    neutralise rest (update_where (λ row. row.id == mine.id) set_processed rows)

module _ (r : Rivals) (now : ℕ) where
  unfoldable pub cancel : ℕ → ℕ → Action (ℕ × OrderStatus)
  cancel tenant order_id = do
    order ← get_owned_order tenant order_id
    throw_if (not (is_queueable order.status)) conflict
    release_on r tenant order_id
    update_status now order_id cancelled
    mine ← gets (λ db. neutralised order_id db.outbox)
    modify (λ db. record db { outbox = neutralise mine db.outbox })
    pure (order_id, cancelled)

unfoldable pub get : ℕ → ℕ → Action OrderView
get tenant order_id = do order ← get_owned_order tenant order_id; gets (view_of order)
