-- ===== src/Orders/Rows.antt =====
-- The rows that an order leaves (apps/api/src/order.service.ts): the order, its status, its messages, and
-- the tariff that prices it.
use mark_solutions.Base.{
  ℕ, suc, Bool, false, ◌&&◌, not, Option, none, some, List, [], ◌∷◌, ◌++◌, map, leb, ltb, ◌==◌,
  holds, is_some, if◌then◌else◌, filter, any, update_where, Text,
}
use mark_solutions.Store.{
  OrderStatus, Order, OrderLine, Tariff, send_order_to_mpt, pending, Outbox, Db, conflict, p2002,
  Action, pure, gets, or_throw, ◌>>=◌, ◌>>◌, throw_if, modify,
}

-- `findFirst({ where: { validFrom <= now <= validTo, productGroup }, orderBy: { validFrom: "desc" } })`
abbrev pub is_valid_at : ℕ → Tariff → Bool
is_valid_at now t = leb t.valid_from now && leb now t.valid_to

abbrev pub later_tariff : Option Tariff → Tariff → Option Tariff
later_tariff none t = some t
later_tariff (some best) t = if ltb best.valid_from t.valid_from then some t else some best

pub latest : (Tariff → Bool) → Option Tariff → List Tariff → Option Tariff
latest p best [] = best
latest p best (t ∷ rows) = latest p (if p t then later_tariff best t else best) rows

abbrev pub for_group : ℕ → Option ℕ → Tariff → Bool
for_group now none t = is_valid_at now t && not (is_some t.product_group)
for_group now (some group) t = is_valid_at now t && holds t.product_group group

-- `BillingService.activeTariff`: the tariff of the product group, or else the general one.
unfoldable pub active_tariff : ℕ → Option ℕ → Action Tariff
unfolding latest
active_tariff now group = do
  own ←
      gets (λ db. elim group [
        | none ↦ none
        | some g ↦ latest (for_group now (some g)) none db.tariffs
      ])
  general ← gets (λ db. latest (for_group now none) none db.tariffs)
  or_throw (elim own [ some t ↦ some t | none ↦ general ]) conflict

abbrev pub has_order_id : ℕ → Order → Bool
has_order_id id o = o.id == id

abbrev pub has_key : ℕ → Order → Bool
has_key key o = o.idempotency_key == key

abbrev pub line_of : ℕ → OrderLine → Bool
line_of order_id l = l.order_id == order_id

-- What the client is told of an order.
pub record OrderView : Type 0 where
  pub id : ℕ
  pub number : ℕ
  pub status : OrderStatus
  pub is_paid : Bool
  pub release_method_type : Text
  pub lines : List (ℕ × ℕ)

abbrev pub view_line : OrderLine → ℕ × ℕ
view_line l = (l.quantity, l.total_price)

abbrev pub view_of : Order → Db → OrderView
view_of o db = record {
  id = o.id;
  number = o.number;
  status = o.status;
  is_paid = o.is_paid;
  release_method_type = o.release_method_type;
  lines = map view_line (filter (line_of o.id) db.lines);
}

-- `order.create`: the identifier and the number are the next of their sequences.
unfoldable pub insert_order : Order → Action Order
insert_order new db =
    let order = record new { id = db.next_id; number = db.next_number } in
    (do
      throw_if (any (has_key new.idempotency_key) db.orders) p2002
      modify (λ d. record d {
        next_id = suc d.next_id;
        next_number = suc d.next_number;
        orders = d.orders ++ (order ∷ []);
      })
      pure order)
      db

abbrev pub set_status : ℕ → OrderStatus → Order → Order
set_status now status o = record o { status = status; updated_at = now }

-- `order.update({ where: { id }, data: { status } })`
abbrev pub update_status : ℕ → ℕ → OrderStatus → Action Unit
update_status now id status =
    modify (λ db. record db {
      orders = update_where (has_order_id id) (set_status now status) db.orders;
    })

abbrev pub send_message : ℕ → ℕ → ℕ → Outbox
send_message order_id tenant quantity = record {
  id = 0;
  aggregate = send_order_to_mpt;
  status = pending;
  order_id = some order_id;
  tenant_id = tenant;
  quantity = some quantity;
  attempt = 0;
  unknown_result = false;
  job = none;
}

unfoldable pub insert_outbox : Outbox → Action Unit
insert_outbox row = modify (λ db. record db {
  next_id = suc db.next_id;
  outbox = db.outbox ++ (record row { id = db.next_id } ∷ []);
})
