-- ===== src/Running/Paying.antt =====
-- What issuing and paying an invoice does to the ledger (apps/api/src/invoice.service.ts).
use mark_solutions.Base.{ℕ, refl, inl, inr, Bool-cases, any, Option, none, some, Text}
use mark_solutions.Base.Int.{ℤ}
use mark_solutions.Store.{Invoice, Db, Error, p2002, modify}
use mark_solutions.Store.Keeping.{Keeps, keeping, seq-Keeps, pure-Keeps, throw-Keeps, catch-Keeps}
use mark_solutions.Billing.Growth.{Books, same_Books, modify-Books, topup_on-Books}
use mark_solutions.Billing.{quiet}
use mark_solutions.Running.Placing.{active_tariff-Keeps}
use mark_solutions.Invoices.{
  insert_invoice, has_number, attempt, retry_number, numbered, create, pay_invoice, confirm,
  kaspi_webhook,
}

insert_invoice-Keeps : (new : Invoice) → Keeps Books (insert_invoice new)
unfolding insert_invoice
insert_invoice-Keeps new = record {
  after = λ db s. elim (Bool-cases (any (has_number new.number) db.invoices)) [
    | inl taken ↦ rw taken s
    | inr free ↦ rw free (same_Books db refl refl s)
  ];
}

-- `rivals` is what other processes commit, which is to keep the ledger sound too.
module _ (rivals : ℕ → Db → Db) (others : (i : ℕ) (db : Db) → Books db → Books (rivals i db)) where
  rivals-Keeps : (i : ℕ) → Keeps Books (modify (rivals i))
  rivals-Keeps i = record { after = others i }

  attempt-Keeps :
      (i tenant : ℕ) (rate : ℤ) (quantity unit_price : ℕ)
      → Keeps Books (attempt rivals i tenant rate quantity unit_price)
  unfolding attempt
  attempt-Keeps i tenant rate quantity unit_price =
      search (keeping, rivals-Keeps, insert_invoice-Keeps)

  retry_number-Keeps :
      (tenant : ℕ) (rate : ℤ) (quantity unit_price : ℕ) (e : Error)
      → Keeps Books (retry_number rivals tenant rate quantity unit_price e)
  unfolding retry_number
  retry_number-Keeps tenant rate quantity unit_price p2002 =
      attempt-Keeps 1 tenant rate quantity unit_price
  retry_number-Keeps tenant rate quantity unit_price _ = throw-Keeps Books

  numbered-Keeps :
      (tenant : ℕ) (rate : ℤ) (quantity unit_price : ℕ)
      → Keeps Books (numbered rivals tenant rate quantity unit_price)
  unfolding numbered
  numbered-Keeps tenant rate quantity unit_price =
      catch-Keeps Books (attempt-Keeps 0 tenant rate quantity unit_price)
        (retry_number-Keeps tenant rate quantity unit_price)

  pub create-Keeps :
      (now : ℕ) (rate : ℤ) (tenant : ℕ) (group : Option ℕ) (quantity : ℕ)
      → Keeps Books (create rivals now rate tenant group quantity)
  unfolding create
  create-Keeps now rate tenant none quantity = throw-Keeps Books
  create-Keeps now rate tenant (some group) quantity =
      search (keeping, active_tariff-Keeps, numbered-Keeps)

pay_invoice-Keeps : (i : Invoice) (ref : ℕ) → Keeps Books (pay_invoice i ref)
pay_invoice-Keeps i ref =
    seq-Keeps Books (modify-Books (λ db. refl) (λ db. refl)) (pure-Keeps Books)

module _ (key : Text → ℕ) where
  pub confirm-Keeps :
      (tenant id : ℕ) (ref : Option ℕ) → Keeps Books (confirm quiet key tenant id ref)
  unfolding confirm
  confirm-Keeps tenant id none = throw-Keeps Books
  confirm-Keeps tenant id (some ref) = search (keeping, topup_on-Books, pay_invoice-Keeps) depth 8

  pub kaspi_webhook-Keeps : (id : ℕ) (ref : Option ℕ) → Keeps Books (kaspi_webhook quiet key id ref)
  unfolding kaspi_webhook
  kaspi_webhook-Keeps id none = throw-Keeps Books
  kaspi_webhook-Keeps id (some ref) = search (keeping, topup_on-Books, pay_invoice-Keeps) depth 8
