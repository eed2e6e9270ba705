-- ===== src/Tests/Completing.antt =====
-- The theorem on an order from its placing to its codes at work.
use mark_solutions.Base.{
  ◌≡◌, refl, true, update_where, false, some, [], ◌∷◌, arith, find, filter, length,
}
use mark_solutions.Base.Int.{pos, ◌+ℤ◌, ◌-ℤ◌, ◌≤ℤ◌}
use mark_solutions.Store.{OrderStatus, in_process, success, ok}
use mark_solutions.Billing.Ledger.{active_reserve, balance_of}
use mark_solutions.Billing.{quiet, get_balance}
use mark_solutions.Orders.{has_order_id, Draft, set_status, find_or_place}
use mark_solutions.Orders.Placing.{queued_order}
use mark_solutions.Vault.{code_of_order}
use mark_solutions.Emission.{confirmed, ready, mark_sent, send_to_mpt, reconcile_order}
use mark_solutions.Emission.Completing.{find_or_place-reconcile_order}
use mark_solutions.Utilisation.{
  Report, has_report_id, report_row, settled_report, set_utilised, submit, reconcile,
}
use mark_solutions.Utilisation.Submitting.{serials}
use mark_solutions.Running.Lifecycle.{find_or_place-reconcile}
use mark_solutions.Tests.Data.{account_7, shop, shop-Sound}
use mark_solutions.Tests.Ordering.{ten_cans}
use mark_solutions.Tests.Following.{raw, code, parsed, answering}

abbrev one_can : Draft
one_can = record ten_cans { places = 1; units_per_place = 1; quantity = 1 }

three_available : pos 3 ≤ℤ (get_balance 7 shop).available
unfolding get_balance balance_of active_reserve ◌+ℤ◌ ◌-ℤ◌
three_available = omega arith

find_or_place-reconcile_order_example :
    let db₁ = (find_or_place quiet 5 one_can shop).1 in
    let db₂ = (send_to_mpt 800 (λ o quantity db. (confirmed (some 900), db)) 12 db₁).1 in
    let (r, db₃) = reconcile_order 2000 60000 (answering ready) 10 db₂ in
    (r ≡ ok tt)
    × (find (has_order_id 10) db₃.orders
        ≡ some (
            set_status 2000 OrderStatus.completed (
              mark_sent 800
                (some 900)
                (queued_order 5 one_can shop account_7 shop-Sound refl refl refl (omega arith)))))
    × (length (filter (code_of_order 10) db₃.vault) ≡ 1)
    × (get_balance 7 db₃ ≡ record {
      balance = (get_balance 7 shop).balance;
      reserved = (get_balance 7 shop).reserved +ℤ pos 3;
      available = (get_balance 7 shop).available -ℤ pos 3;
    })
find_or_place-reconcile_order_example =
    find_or_place-reconcile_order 5 one_can shop account_7 shop-Sound refl refl refl (omega arith)
      refl refl refl three_available 800 2000 60000 (some 900)
      (λ o quantity db. (confirmed (some 900), db)) (answering ready)
      (record { status = ready; found = false }) (raw ∷ []) (code ∷ []) (λ db. refl) refl refl refl
      parsed (omega arith) refl

abbrev can_report : Report
can_report = record {
  order_id = 10;
  has_release_type = true;
  has_expiration_date = true;
  has_production_date = true;
  has_manufacturer_country = true;
}

three_left : pos 3 ≤ℤ (get_balance 7 shop).available -ℤ pos 3
unfolding get_balance balance_of active_reserve ◌+ℤ◌ ◌-ℤ◌
three_left = omega arith

find_or_place-reconcile_example :
    let db₁ = (find_or_place quiet 5 one_can shop).1 in
    let db₂ = (send_to_mpt 800 (λ o quantity db. (confirmed (some 900), db)) 12 db₁).1 in
    let db₃ = (reconcile_order 2000 60000 (answering ready) 10 db₂).1 in
    let (taken, db₄) = submit (λ sntins. some (600, in_process)) 7 (some 78) can_report db₃ in
    let (r, db₅) = reconcile (λ id. some success) db₃.next_id db₄ in
    (taken ≡ ok (600, in_process))
    × (r ≡ ok tt)
    × (get_balance 7 db₅ ≡ record {
      balance = (get_balance 7 shop).balance -ℤ pos 3;
      reserved = (get_balance 7 shop).reserved;
      available = (get_balance 7 shop).available -ℤ pos 3;
    })
    × (find (has_report_id db₃.next_id) db₅.reports
        ≡ some (
            settled_report (record (report_row 7 10 78 (serials (code ∷ [])) (600, in_process)) {
              id = db₃.next_id;
            })))
    × (db₅.vault ≡ update_where (code_of_order 10) set_utilised db₃.vault)
find_or_place-reconcile_example =
    find_or_place-reconcile 5 one_can shop account_7 shop-Sound refl refl refl (omega arith) refl
      refl refl refl refl three_left 800 2000 60000 (some 900) (answering ready)
      (record { status = ready; found = false }) (raw ∷ []) code [] refl refl refl parsed
      (omega arith) refl (λ o quantity db. (confirmed (some 900), db))
      (λ sntins. some (600, in_process)) (λ id. some success) 78 600 can_report (λ db. refl) refl
      refl refl refl refl refl
