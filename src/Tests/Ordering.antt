-- ===== src/Tests/Ordering.antt =====
-- The theorems on orders at work.
use mark_solutions.Base.{◌≡◌, refl, ◌⊎◌, none, some, [], ◌∷◌, ◌++◌, arith, find}
use mark_solutions.Base.Int.{pos, ◌+ℤ◌, ◌-ℤ◌, ◌≤ℤ◌}
use mark_solutions.Store.{
  OrderStatus.cancelled, ProductCard, CardStatus, Tariff, Db, insufficient_funds, ok, err, ◌>>=◌,
}
use mark_solutions.Billing.Ledger.{active_reserve, balance_of, violates_unique, create_entry}
use mark_solutions.Billing.{
  quiet, get_balance, reserve_on, release_on, apply_on, get_account, attempts, turn, turn_at,
  existing_entry, post_if_current, post,
}
use mark_solutions.Orders.Requests.{stage_oils_product_group, primary}
use mark_solutions.Orders.{
  has_order_id, Draft, order_line, send_message, queued_view, set_status, find_or_place, cancel,
  get_owned_order, place, insert_order, insert_outbox,
}
use mark_solutions.Orders.Placing.{new_order, queued_order, find_or_place_exact}
use mark_solutions.Orders.Cancelling.{cancel-find_or_place}
use mark_solutions.Tests.Data.{account_7, shop, shop-Sound}

abbrev pub card : ProductCard
card = record {
  id = 3;
  tenant_id = 7;
  gtin = [];
  product_group = none;
  status = CardStatus.registered;
  ntin = none;
  attributes = [];
  audit = [];
  field_reasons = [];
  rejected_attributes = none;
}

abbrev pub tariff : Tariff
tariff = record {
  id = 4;
  valid_from = 0;
  valid_to = 100;
  price_per_code_kzt = 3;
  product_group = none;
}

abbrev pub ten_cans : Draft
ten_cans = record {
  tenant = 7;
  key = 77;
  card = card;
  checked = record {
    gtin = [];
    product_group = stage_oils_product_group;
    release_method_type = primary;
  };
  business_place_id = none;
  places = 2;
  units_per_place = 5;
  quantity = 10;
  tariff = tariff;
}

thirty_available : pos 30 ≤ℤ (get_balance 7 shop).available
unfolding get_balance balance_of active_reserve ◌+ℤ◌ ◌-ℤ◌
thirty_available = omega arith

find_or_place_exact_example :
    let (r, db') = find_or_place quiet 5 ten_cans shop in
    ((pos 30 ≤ℤ (get_balance 7 shop).available)
      × (r ≡ ok (queued_view (new_order 5 ten_cans shop) ten_cans))
      × (find (has_order_id 10) db'.orders
          ≡ some (queued_order 5 ten_cans shop account_7 shop-Sound refl refl refl (omega arith)))
      × (db'.lines ≡ [] ++ (order_line 10 ten_cans ∷ []))
      × (db'.outbox ≡ [] ++ (record (send_message 10 7 10) { id = 12 } ∷ []))
      × (get_balance 7 db' ≡ record {
        balance = (get_balance 7 shop).balance;
        reserved = (get_balance 7 shop).reserved +ℤ pos 30;
        available = (get_balance 7 shop).available -ℤ pos 30;
      }))
    ⊎ (¬ (pos 30 ≤ℤ (get_balance 7 shop).available)
        × (r ≡ err (insufficient_funds (get_balance 7 shop).balance (get_balance 7 shop).reserved))
        × (db' ≡ shop))
find_or_place_exact_example =
    find_or_place_exact 5 ten_cans shop account_7 shop-Sound refl refl refl (omega arith) refl

cancel-find_or_place_example :
    let (r, db') = (find_or_place quiet 5 ten_cans >>= λ v. cancel quiet 8 7 v.id) shop in
    (r ≡ ok (10, cancelled))
    × (get_balance 7 db' ≡ get_balance 7 shop)
    × (find (has_order_id 10) db'.orders
        ≡ some (
            set_status 8 cancelled
              (queued_order 5 ten_cans shop account_7 shop-Sound refl refl refl (omega arith))))
cancel-find_or_place_example =
    cancel-find_or_place 5 ten_cans shop account_7 shop-Sound refl refl refl (omega arith) 8 refl
      refl thirty_available

-- The shop with the order placed.
abbrev ordered : Db
ordered = (find_or_place quiet 5 ten_cans shop).1

ordered-cancel : (cancel quiet 8 7 10 ordered).0 ≡ ok (10, cancelled)
unfolding find_or_place place insert_order insert_outbox reserve_on release_on cancel
    get_owned_order apply_on get_account attempts turn turn_at existing_entry post_if_current post
    create_entry violates_unique balance_of active_reserve ◌+ℤ◌ ◌-ℤ◌
ordered-cancel = refl
