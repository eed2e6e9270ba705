-- ===== src/Invoices/Paying.antt =====
-- An invoice is paid once, whichever way the payment comes.
use mathlib.Core.Path.{subst}
use mathlib.Core.Option.{some-injective}
use mark_solutions.Base.{
  if◌then◌else◌, ℕ, ◌≡◌, refl, ◌∙◌, ap, sym, inl, inr, true, false, none, some, List, [], ◌∷◌, ◌==◌,
  ==_refl, Bool-cases, find, find-update_where, update_where, Text,
}
use mark_solutions.Base.Int.{pos, ◌≤ℤ◌}
use mark_solutions.Store.{Account, LedgerEntry, paid, Invoice, Db, ok, then_gives, pure, ◌>>◌}
use mark_solutions.Billing.Ledger.{is_payment}
use mark_solutions.Billing.Invariant.{account_of, Sound}
use mark_solutions.Billing.Topup.{topped_up, after, topup_on_posts, topup_on_exact}
use mark_solutions.Billing.Effects.{test_of_positive}
use mark_solutions.Billing.{quiet, topup_on, get_balance}
use mark_solutions.Invoices.{
  invoice_number, has_invoice_id, owned_invoice, mark_paid, is_paid, pay_invoice, confirm,
  kaspi_webhook,
}

find-owned_invoice :
    (tenant id : ℕ) (rows : List Invoice) (i : Invoice)
    → find (has_invoice_id id) rows ≡ some i
    → i.tenant_id ≡ tenant
    → find (owned_invoice tenant id) rows ≡ some i
find-owned_invoice tenant id [] i h own = cc
find-owned_invoice tenant id (x ∷ rows) i h own = elim (Bool-cases (has_invoice_id id x)) [
  | inl hit ↦
      let e : some x ≡ some i = rw hit at h in
      let own_x : (x.tenant_id == tenant) ≡ true =
        rw (some-injective _ _ e, own) (==_refl tenant) in
      rw (hit, own_x) e
  | inr miss ↦ rw miss (find-owned_invoice tenant id rows i (rw miss at h) own)
]

module _ (key : Text → ℕ) (id payment_ref : ℕ) (db : Db) (i : Invoice) (a : Account) (s : Sound db)
    (found : find (has_invoice_id id) db.invoices ≡ some i) (unpaid : is_paid i.status ≡ false)
    (mine : account_of i.tenant_id db ≡ some a) (positive : pos 1 ≤ℤ pos i.sum_with_vat)
    (new : find (is_payment (key (invoice_number i.number))) db.ledger ≡ none) where
  abbrev pub reference : ℕ
  reference = key (invoice_number i.number)

  abbrev pub paid_db : Db
  paid_db = record (after i.tenant_id reference (pos i.sum_with_vat) db a s mine positive new) {
    invoices = update_where (has_invoice_id i.id) (mark_paid payment_ref) db.invoices;
  }

  owned : find (owned_invoice i.tenant_id id) db.invoices ≡ some i
  owned = find-owned_invoice i.tenant_id id db.invoices i found refl

  confirm_pays :
      confirm quiet key i.tenant_id id (some payment_ref) db
      ≡ (ok (mark_paid payment_ref i), paid_db)
  unfolding confirm
  confirm_pays =
      rw (owned, unpaid)
        (ap (λ m. then_gives m (λ posted. if posted.1 then pure i else pay_invoice i payment_ref))
          (topup_on_posts i.tenant_id reference (pos i.sum_with_vat) db a s mine positive new))

  webhook_pays : kaspi_webhook quiet key id (some payment_ref) db ≡ (ok paid, paid_db)
  unfolding kaspi_webhook
  webhook_pays =
      rw (found, unpaid)
        (ap (λ m. then_gives m (λ posted. pay_invoice i payment_ref >> pure paid))
          (topup_on_posts i.tenant_id reference (pos i.sum_with_vat) db a s mine positive new))

  found_paid : find (has_invoice_id id) paid_db.invoices ≡ some (mark_paid payment_ref i)
  found_paid =
      find-update_where (has_invoice_id id) (has_invoice_id i.id) (mark_paid payment_ref)
        db.invoices (λ x. refl)
      ∙ rw (found, ==_refl i.id) refl

  confirm_repeats :
      (again : ℕ)
      → confirm quiet key i.tenant_id id (some again) paid_db
        ≡ (ok (mark_paid payment_ref i), paid_db)
  unfolding confirm
  confirm_repeats again =
      rw
        (find-owned_invoice i.tenant_id id paid_db.invoices (mark_paid payment_ref i) found_paid
          refl)
        refl

  webhook_repeats :
      (again : ℕ) → kaspi_webhook quiet key id (some again) paid_db ≡ (ok paid, paid_db)
  unfolding kaspi_webhook
  webhook_repeats again = rw found_paid refl

  paid_balance :
      get_balance i.tenant_id paid_db ≡ topped_up (get_balance i.tenant_id db) (pos i.sum_with_vat)
  unfolding get_balance
  paid_balance =
      ap (λ m. get_balance i.tenant_id m.1)
        (sym (topup_on_posts i.tenant_id reference (pos i.sum_with_vat) db a s mine positive new))
      ∙ (topup_on_exact i.tenant_id reference (pos i.sum_with_vat) db a s mine positive new
          i.tenant_id (pos i.sum_with_vat) positive).1

  paid_sound : Sound paid_db
  paid_sound =
      let t =
        subst (λ m. Sound m.1)
          (topup_on_posts i.tenant_id reference (pos i.sum_with_vat) db a s mine positive new)
          ((topup_on_exact i.tenant_id reference (pos i.sum_with_vat) db a s mine positive new
            i.tenant_id (pos i.sum_with_vat) positive).2) in
      record { keyed = t.keyed; cached = t.cached; positive = t.positive; solvent = t.solvent }

  -- The payment of an unpaid invoice whose number has no payment in the ledger yet, confirmed by hand or
  -- by the bank's webhook, has the same effect: the invoice is paid, and the balance and what is
  -- available grow by its sum with the tax, in a ledger that stays sound. After that, a confirmation
  -- and a webhook with whatever reference answer that it is paid and write nothing.
  pub confirm_exact :
      (again : ℕ)
      → (confirm quiet key i.tenant_id id (some payment_ref) db
          ≡ (ok (mark_paid payment_ref i), paid_db))
        × (kaspi_webhook quiet key id (some payment_ref) db ≡ (ok paid, paid_db))
        × (find (has_invoice_id id) paid_db.invoices ≡ some (mark_paid payment_ref i))
        × (get_balance i.tenant_id paid_db
            ≡ topped_up (get_balance i.tenant_id db) (pos i.sum_with_vat))
        × Sound paid_db
        × (confirm quiet key i.tenant_id id (some again) paid_db
            ≡ (ok (mark_paid payment_ref i), paid_db))
        × (kaspi_webhook quiet key id (some again) paid_db ≡ (ok paid, paid_db))
  confirm_exact again = (
    confirm_pays,
    webhook_pays,
    found_paid,
    paid_balance,
    paid_sound,
    confirm_repeats again,
    webhook_repeats again,
  )

-- An unpaid invoice whose number is in the ledger already, as after a crash between the posting and the
-- update of the invoice, stays unpaid for good: a confirmation writes nothing and answers it as it was.
pub confirm_stuck :
    (key : Text → ℕ) (id payment_ref : ℕ) (db : Db) (i : Invoice) (e : LedgerEntry)
    → find (has_invoice_id id) db.invoices ≡ some i
    → is_paid i.status ≡ false
    → pos 1 ≤ℤ pos i.sum_with_vat
    → find (is_payment (key (invoice_number i.number))) db.ledger ≡ some e
    → confirm quiet key i.tenant_id id (some payment_ref) db ≡ (ok i, db)
unfolding confirm topup_on
confirm_stuck key id payment_ref db i e found unpaid positive known =
    let own = find-owned_invoice i.tenant_id id db.invoices i found refl in
    rw (own, unpaid, test_of_positive (pos i.sum_with_vat) positive, known) refl
