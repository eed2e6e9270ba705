-- ===== src/Tests/Following.antt =====
-- The theorems on what becomes of an order at work.
use mark_solutions.Base.{ℕ, ◌≡◌, refl, true, false, Option, none, some, [], ◌∷◌, Text}
use mark_solutions.Store.{
  send_order_to_mpt, OutboxStatus, Outbox, OrderStatus, Order, OrderLine, CodeVault, CodeStatus, Db,
  ok,
}
use mark_solutions.Catalog.Km.{
  Adr006Km, base, parse_adr006_km, normalize, split_gs, read_parts, parse_head,
}
use mark_solutions.Emission.{
  Reply, confirmed, unknown, MptStatus, in_progress, Mpt, send_to_mpt, parse_all, reconcile_order,
}
use mark_solutions.Emission.Sending.{send_to_mpt-send_to_mpt}
use mark_solutions.Emission.Following.{reconcile_order-SameMoney}
use mark_solutions.Tests.Data.{shop}

abbrev pub order : OrderStatus → Option ℕ → Order
order status external = record {
  id = 5;
  number = 1;
  tenant_id = 7;
  status = status;
  idempotency_key = 77;
  card_id = 3;
  gtin = [];
  is_paid = true;
  business_place_id = none;
  product_group = [];
  release_method_type = [];
  external_order_id = external;
  updated_at = 1000;
}

abbrev pub line : OrderLine
line = record {
  tenant_id = 7;
  order_id = 5;
  card_id = 3;
  gtin = [];
  places = 1;
  units_per_place = 1;
  quantity = 1;
  total_price = 30;
  tariff_id = 4;
  price_per_code_kzt = 30;
}

abbrev pub message : Outbox
message = record {
  id = 6;
  aggregate = send_order_to_mpt;
  status = OutboxStatus.pending;
  order_id = some 5;
  tenant_id = 7;
  quantity = some 1;
  attempt = 0;
  unknown_result = false;
  job = none;
}

abbrev pub with_order : OrderStatus → Db
with_order status = record shop {
  orders = order status (some 900) ∷ [];
  lines = line ∷ [];
  outbox = message ∷ [];
}

abbrev lost : Order → ℕ → Db → Reply × Db
lost o quantity db = (unknown, db)

send_to_mpt-send_to_mpt_example :
    let db' = (send_to_mpt 2000 lost 6 (with_order OrderStatus.queued)).1 in
    send_to_mpt 3000 (λ o quantity db. (confirmed (some 900), db)) 6 db' ≡ (ok tt, db')
send_to_mpt-send_to_mpt_example =
    send_to_mpt-send_to_mpt 2000 lost 6 (with_order OrderStatus.queued) 3000
      (λ o quantity db. (confirmed (some 900), db))

-- `01` and fourteen digits, `21` and a serial
abbrev pub raw : Text
raw =
    48 ∷ 49 ∷ 48 ∷ 52 ∷ 54 ∷ 48 ∷ 49 ∷ 50 ∷ 51 ∷ 52 ∷ 53 ∷ 54 ∷ 55 ∷ 56 ∷ 57 ∷ 51 ∷ 50 ∷ 49 ∷ 65
    ∷ 98 ∷ []

abbrev pub code : Adr006Km
code = record {
  gtin = 48 ∷ 52 ∷ 54 ∷ 48 ∷ 49 ∷ 50 ∷ 51 ∷ 52 ∷ 53 ∷ 54 ∷ 55 ∷ 56 ∷ 57 ∷ 51 ∷ [];
  serial = 65 ∷ 98 ∷ [];
  ai91 = none;
  ai92 = none;
  form = base;
}

pub parsed : parse_all (raw ∷ []) ≡ some (code ∷ [])
unfolding parse_adr006_km normalize split_gs read_parts parse_head
parsed = refl

abbrev pub answering : MptStatus → Mpt
answering status = record {
  get_order = λ id. some (record { status = status; found = false });
  get_codes = λ id quantity. some (raw ∷ []);
}

reconcile_order-SameMoney_example :
    let db' =
      (reconcile_order 500000 1000000 (answering in_progress) 5 (with_order OrderStatus.sent)).1 in
    (db'.ledger ≡ shop.ledger) × (db'.accounts ≡ shop.accounts)
reconcile_order-SameMoney_example =
    reconcile_order-SameMoney 500000 1000000 (answering in_progress) (with_order OrderStatus.sent) 5
      (order OrderStatus.sent (some 900)) (record { status = in_progress; found = false }) refl refl
      refl

abbrev pub stored : CodeStatus → CodeVault
stored status = record {
  id = 50;
  order_id = 5;
  tenant_id = 7;
  card_id = 3;
  gtin = [];
  mask = [];
  secret = record { serial = 65 ∷ 97 ∷ []; ai91 = none; ai92 = none };
  label_key = none;
  status = status;
}

-- The order with a code of a first delivery.
abbrev partly : Db
partly = record (with_order OrderStatus.partially_completed) {
  vault = stored CodeStatus.active ∷ [];
}
