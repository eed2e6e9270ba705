-- ===== src/Invoices.antt =====
-- `InvoiceService` (apps/api/src/invoice.service.ts): an invoice is issued with the next number and its
-- tax, and a payment of it tops the account up once.
pub mod Money
pub mod Issuing
pub mod Paying
use mark_solutions.Base.{
  ℕ, zero, suc, ◌+◌, ◌*◌, Bool, true, false, ◌&&◌, Option, none, some, List, [], ◌∷◌, ◌++◌, ltb,
  ◌==◌, if◌then◌else◌, any, find, update_where, Text, text,
}
use mark_solutions.Base.Int.{ℤ, pos}
use mark_solutions.Store.{
  InvoiceStatus, issued, paid, Invoice, LedgerEntry, Tariff, Db, Error, bad_request, not_found,
  conflict, p2002, Action, pure, throw, gets, or_throw, throw_if, modify, catch, ◌>>=◌, ◌>>◌,
}
use mark_solutions.Orders.{active_tariff}
use mark_solutions.Billing.{Rivals, topup_on}
use mark_solutions.Codes.Sscc.{decimal, pad_start}
use Money.{split_vat}

-- `invoiceNumber`
unfoldable pub invoice_number : ℕ → Text
unfolding decimal
invoice_number n = text "MF-2026-" ++ pad_start 4 (decimal n)

abbrev pub has_invoice_id : ℕ → Invoice → Bool
has_invoice_id id i = i.id == id

abbrev pub has_number : ℕ → Invoice → Bool
has_number n i = i.number == n

-- The greatest number, 0 where there is none.
abbrev pub last_number : List Invoice → ℕ
last_number [] = 0
last_number (i ∷ rows) = let rest = last_number rows in if ltb rest i.number then i.number else rest

abbrev pub invoice_of : ℕ → ℕ → ℤ → ℕ → ℕ → Invoice
invoice_of tenant quantity rate unit_price number =
    let total = unit_price * quantity in
    let (rest, vat) = split_vat total rate in
    record {
      id = 0;
      tenant_id = tenant;
      number = number;
      quantity = quantity;
      unit_price = unit_price;
      sum_without_vat = rest;
      vat = vat;
      sum_with_vat = total;
      vat_rate_pct = rate;
      status = issued;
      payment_ref = none;
    }

-- `invoice.create`: the number is unique.
unfoldable pub insert_invoice : Invoice → Action Invoice
insert_invoice new db =
    let invoice = record new { id = db.next_id } in
    (do
      throw_if (any (has_number new.number) db.invoices) p2002
      modify (λ d. record d { next_id = suc d.next_id; invoices = d.invoices ++ (invoice ∷ []) })
      pure invoice)
      db

-- `rivals` is what other processes commit between the look-up of the last number and the insertion, in
-- each attempt.
module _ (rivals : ℕ → Db → Db) where
  unfoldable pub attempt : ℕ → ℕ → ℤ → ℕ → ℕ → Action Invoice
  attempt i tenant rate quantity unit_price = do
    last ← gets (λ db. last_number db.invoices)
    modify (rivals i)
    insert_invoice (invoice_of tenant quantity rate unit_price (suc last))

  -- A number that another process has taken meanwhile is tried again, once.
  unfoldable pub retry_number : ℕ → ℤ → ℕ → ℕ → Error → Action Invoice
  retry_number tenant rate quantity unit_price p2002 = attempt 1 tenant rate quantity unit_price
  retry_number tenant rate quantity unit_price e = throw e

  unfoldable pub numbered : ℕ → ℤ → ℕ → ℕ → Action Invoice
  unfolding retry_number
  numbered tenant rate quantity unit_price =
      catch (attempt 0 tenant rate quantity unit_price)
        (retry_number tenant rate quantity unit_price)

  -- `create`; a product group that is empty is `none`.
  unfoldable pub create : ℕ → ℤ → ℕ → Option ℕ → ℕ → Action Invoice
  create now rate tenant none quantity = throw bad_request
  create now rate tenant (some group) quantity = do
    throw_if (ltb quantity 1) bad_request
    tariff ← active_tariff now (some group)
    numbered tenant rate quantity tariff.price_per_code_kzt

abbrev pub owned_invoice : ℕ → ℕ → Invoice → Bool
owned_invoice tenant id i = (i.id == id) && (i.tenant_id == tenant)

abbrev pub mark_paid : ℕ → Invoice → Invoice
mark_paid payment_ref i = record i { status = paid; payment_ref = some payment_ref }

abbrev pub is_paid : InvoiceStatus → Bool
is_paid paid = true
is_paid _ = false

-- `invoice.update`, which answers the row that it wrote.
abbrev pub pay_invoice : Invoice → ℕ → Action Invoice
pay_invoice i payment_ref = do
  modify (λ db. record db {
    invoices = update_where (has_invoice_id i.id) (mark_paid payment_ref) db.invoices;
  })
  pure (mark_paid payment_ref i)

-- `key` is the payment's key in the ledger for the number of an invoice. A payment reference that is
-- empty is `none`.
module _ (r : Rivals) (key : Text → ℕ) where
  abbrev pub pay_for : Invoice → Action (LedgerEntry × Bool)
  pay_for i = topup_on r i.tenant_id (some (key (invoice_number i.number))) (pos i.sum_with_vat)

  unfoldable pub confirm : ℕ → ℕ → Option ℕ → Action Invoice
  confirm tenant id none = throw bad_request
  confirm tenant id (some payment_ref) = do
    row ← gets (λ db. find (owned_invoice tenant id) db.invoices)
    i ← or_throw row not_found
    if is_paid i.status
        then pure i
        else pay_for i >>= λ posted. if posted.1 then pure i else pay_invoice i payment_ref

  unfoldable pub kaspi_webhook : ℕ → Option ℕ → Action InvoiceStatus
  kaspi_webhook id none = throw bad_request
  kaspi_webhook id (some payment_ref) = do
    row ← gets (λ db. find (has_invoice_id id) db.invoices)
    i ← or_throw row not_found
    if is_paid i.status then pure paid else (do pay_for i; pay_invoice i payment_ref; pure paid)
