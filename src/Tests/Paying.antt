-- ===== src/Tests/Paying.antt =====
-- The theorems on money and invoices at work.
use mark_solutions.Base.{
  ℕ, suc, ◌⊎◌, true, false, any, ◌+◌, ◌*◌, ◌≤◌, ◌<◌, ◌≡◌, refl, none, some, [], ◌∷◌, arith, All,
  find, length, Text,
}
use mark_solutions.Base.Int.{pos, negsuc}
use mark_solutions.Store.{Tariff, Invoice, paid, issued, Db, p2002, ok, err}
use mark_solutions.Orders.{active_tariff}
use mark_solutions.Billing.Ledger.{is_payment}
use mark_solutions.Billing.Invariant.{Sound}
use mark_solutions.Billing.Topup.{topped_up}
use mark_solutions.Billing.{quiet, get_balance}
use mark_solutions.Invoices.Money.{
  split_vat, format_tenge, read_tenge, split_vat_bounds, read_tenge-format_tenge,
}
use mark_solutions.Invoices.{
  has_number, last_number, invoice_number, has_invoice_id, mark_paid, create, confirm,
  kaspi_webhook,
}
use mark_solutions.Invoices.Issuing.{
  NumbersDiffer, IsIssued, issued_invoice, create_contended, create-NumbersDiffer, create_exact,
}
use mark_solutions.Invoices.Paying.{paid_db, confirm_exact}
use mark_solutions.Tests.Data.{account_7, payment, shop, shop-Sound}

abbrev invoice : Invoice
invoice = record {
  id = 5;
  tenant_id = 7;
  number = 1;
  quantity = 10;
  unit_price = 116;
  sum_without_vat = 1000;
  vat = 160;
  sum_with_vat = 1160;
  vat_rate_pct = pos 16;
  status = issued;
  payment_ref = none;
}

abbrev tariff : Tariff
tariff = record {
  id = 4;
  valid_from = 0;
  valid_to = 100;
  price_per_code_kzt = 116;
  product_group = some 2;
}

abbrev billed : Db
billed = record shop { invoices = invoice ∷ []; tariffs = tariff ∷ [] }

billed-Sound : Sound billed
billed-Sound = record {
  keyed = shop-Sound.keyed;
  cached = shop-Sound.cached;
  positive = shop-Sound.positive;
  solvent = shop-Sound.solvent;
}

abbrev key : Text → ℕ
key t = 100 + length t

split_vat_bounds_example :
    let (rest, vat) = split_vat 1165 (pos 16) in
    (rest + vat ≡ 1165) × (vat * 100 ≤ rest * 16) × (rest * 16 < vat * 100 + (100 + 16))
split_vat_bounds_example = split_vat_bounds 1165 16

read_tenge-format_tenge_example : read_tenge (format_tenge (negsuc 8000004)) ≡ negsuc 8000004
read_tenge-format_tenge_example = read_tenge-format_tenge (negsuc 8000004)

-- Another process issues an invoice at each attempt.
abbrev rivals : ℕ → Db → Db
rivals i db = (create (λ k d. d) 5 (pos 16) 8 (some 2) 3 db).1

rivals-NumbersDiffer :
    (i : ℕ) (db : Db) → NumbersDiffer db.invoices → NumbersDiffer (rivals i db).invoices
rivals-NumbersDiffer i db u =
    create-NumbersDiffer (λ k d. d) (λ k d h. h) 5 (pos 16) 8 (some 2) 3 db u

tariff_in_force : active_tariff 5 (some 2) billed ≡ (ok tariff, billed)
unfolding active_tariff
tariff_in_force = refl

create_contended_example :
    let db₁ = rivals 0 billed in
    let db₂ = rivals 1 db₁ in
    let first = suc (last_number billed.invoices) in
    let second = suc (last_number db₁.invoices) in
    let m = create rivals 5 (pos 16) 7 (some 2) 10 billed in
    NumbersDiffer m.1.invoices
    × (((any (has_number first) db₁.invoices ≡ false) × IsIssued 7 10 (pos 16) 116 first db₁ m)
        ⊎ ((any (has_number first) db₁.invoices ≡ true)
            × (any (has_number second) db₂.invoices ≡ false)
            × IsIssued 7 10 (pos 16) 116 second db₂ m)
        ⊎ ((any (has_number first) db₁.invoices ≡ true)
            × (any (has_number second) db₂.invoices ≡ true)
            × (m ≡ (err p2002, db₂))))
create_contended_example =
    create_contended rivals 5 (pos 16) 7 2 10 billed tariff rivals-NumbersDiffer (refl, tt)
      (omega arith) tariff_in_force

create_exact_example :
    let i = issued_invoice 7 10 (pos 16) 116 billed in
    (create (λ k d. d) 5 (pos 16) 7 (some 2) 10 billed
      ≡ (ok i, record billed { next_id = 11; invoices = invoice ∷ i ∷ [] }))
    × (i.sum_with_vat ≡ 116 * 10)
    × (i.sum_without_vat + i.vat ≡ i.sum_with_vat)
    × All (λ j. j.number < i.number) billed.invoices
create_exact_example = create_exact 5 (pos 16) 7 2 10 billed tariff (omega arith) tariff_in_force

new_payment : find (is_payment (key (invoice_number 1))) billed.ledger ≡ none
unfolding invoice_number
new_payment = refl

abbrev settled : Db
settled =
    paid_db key 5 900 billed invoice account_7 billed-Sound refl refl refl (omega arith) new_payment

confirm_exact_example :
    (confirm quiet key 7 5 (some 900) billed ≡ (ok (mark_paid 900 invoice), settled))
    × (kaspi_webhook quiet key 5 (some 900) billed ≡ (ok paid, settled))
    × (find (has_invoice_id 5) settled.invoices ≡ some (mark_paid 900 invoice))
    × (get_balance 7 settled ≡ topped_up (get_balance 7 billed) (pos 1160))
    × Sound settled
    × (confirm quiet key 7 5 (some 901) settled ≡ (ok (mark_paid 900 invoice), settled))
    × (kaspi_webhook quiet key 5 (some 901) settled ≡ (ok paid, settled))
confirm_exact_example =
    confirm_exact key 5 900 billed invoice account_7 billed-Sound refl refl refl (omega arith)
      new_payment 901

-- The payment is posted, and the invoice is not updated.
abbrev crashed : Db
crashed = record billed {
  ledger = record (payment 3 7 1 1160) { ref_1c = some (key (invoice_number 1)) } ∷ [];
}

posted_before :
    find (is_payment (key (invoice_number 1))) crashed.ledger
    ≡ some (record (payment 3 7 1 1160) { ref_1c = some (key (invoice_number 1)) })
unfolding invoice_number
posted_before = refl
