-- ===== src/Invoices/Issuing.antt =====
-- Numbers and sums of the invoices that are issued.
use mark_solutions.Base.{
  ℕ, suc, ◌+◌, ◌*◌, ◌≤◌, ◌<◌, ◌≡◌, refl, ◌∙◌, ◌⊎◌, inl, inr, true, false, Option, none, some, List,
  [], ◌∷◌, ◌++◌, arith, ltb, ◌==◌, Bool-cases, any, any-append, All,
}
use mark_solutions.Base.Int.{ℤ, pos, negsuc, leb_ℤ}
use mark_solutions.Store.{
  Tariff, Invoice, Db, conflict, p2002, or_throw, Result, ok, err, then_gives, caught,
}
use mark_solutions.Orders.{active_tariff}
use mark_solutions.Invoices.Money.{split_vat, split_vat_bounds}
use mark_solutions.Invoices.{
  has_number, last_number, invoice_of, insert_invoice, attempt, retry_number, numbered, create,
}

-- No two invoices share a number.
abbrev pub NumbersDiffer : List Invoice → Type 0
NumbersDiffer [] = Unit
NumbersDiffer (i ∷ rows) = (any (has_number i.number) rows ≡ false) × NumbersDiffer rows

number_sym : (a b : ℕ) → (a == b) ≡ false → (b == a) ≡ false
number_sym a b h = ground arith

NumbersDiffer-append :
    (rows : List Invoice) (new : Invoice)
    → NumbersDiffer rows
    → any (has_number new.number) rows ≡ false
    → NumbersDiffer (rows ++ (new ∷ []))
NumbersDiffer-append [] new u free = (refl, tt)
NumbersDiffer-append (i ∷ rows) new u free = (
  any-append (has_number i.number) rows (new ∷ []) ∙ rw u.0 (ground (arith, free)),
  NumbersDiffer-append rows new u.1 (ground (arith, free)),
)

any-last_number :
    (n : ℕ) (rows : List Invoice) → last_number rows < n → any (has_number n) rows ≡ false
any-last_number n [] h = refl
any-last_number n (i ∷ rows) h = ground (arith, any-last_number n rows)

insert_invoice-NumbersDiffer :
    (new : Invoice) (db : Db)
    → NumbersDiffer db.invoices
    → NumbersDiffer (insert_invoice new db).1.invoices
unfolding insert_invoice
insert_invoice-NumbersDiffer new db u =
    elim (Bool-cases (any (has_number new.number) db.invoices)) [
      | inl taken ↦ rw taken u
      | inr free ↦
          rw free (NumbersDiffer-append db.invoices (record new { id = db.next_id }) u free)
    ]

or_throw-reads : (o : Option Tariff) (db : Db) → (or_throw o conflict db).1 ≡ db
or_throw-reads none db = refl
or_throw-reads (some t) db = refl

active_tariff-reads : (now : ℕ) (group : Option ℕ) (db : Db) → (active_tariff now group db).1 ≡ db
unfolding active_tariff
active_tariff-reads now group db = or_throw-reads _ db

module _ (rivals : ℕ → Db → Db)
    (fair : (i : ℕ) (db : Db)
      → NumbersDiffer db.invoices
      → NumbersDiffer (rivals i db).invoices) where
  attempt-NumbersDiffer :
      (i tenant : ℕ) (rate : ℤ) (quantity price : ℕ) (db : Db)
      → NumbersDiffer db.invoices
      → NumbersDiffer (attempt rivals i tenant rate quantity price db).1.invoices
  unfolding attempt
  attempt-NumbersDiffer i tenant rate quantity price db u =
      insert_invoice-NumbersDiffer
        (invoice_of tenant quantity rate price (suc (last_number db.invoices))) (rivals i db)
        (fair i db u)

  caught-NumbersDiffer :
      (tenant : ℕ) (rate : ℤ) (quantity price : ℕ) (m : Result Invoice × Db)
      → NumbersDiffer m.1.invoices
      → NumbersDiffer (caught m (retry_number rivals tenant rate quantity price)).1.invoices
  unfolding retry_number
  caught-NumbersDiffer tenant rate quantity price (ok i, db) u = u
  caught-NumbersDiffer tenant rate quantity price (err p2002, db) u =
      attempt-NumbersDiffer 1 tenant rate quantity price db u
  caught-NumbersDiffer tenant rate quantity price (err e, db) u = u

  numbered-NumbersDiffer :
      (tenant : ℕ) (rate : ℤ) (quantity price : ℕ) (db : Db)
      → NumbersDiffer db.invoices
      → NumbersDiffer (numbered rivals tenant rate quantity price db).1.invoices
  unfolding numbered
  numbered-NumbersDiffer tenant rate quantity price db u =
      caught-NumbersDiffer tenant rate quantity price
        (attempt rivals 0 tenant rate quantity price db)
        (attempt-NumbersDiffer 0 tenant rate quantity price db u)

  priced-NumbersDiffer :
      (tenant : ℕ) (rate : ℤ) (quantity : ℕ) (m : Result Tariff × Db)
      → NumbersDiffer m.1.invoices
      → NumbersDiffer
          (then_gives m (λ t. numbered rivals tenant rate quantity t.price_per_code_kzt)).1.invoices
  priced-NumbersDiffer tenant rate quantity (ok t, db) u =
      numbered-NumbersDiffer tenant rate quantity t.price_per_code_kzt db u
  priced-NumbersDiffer tenant rate quantity (err e, db) u = u

  pub create-NumbersDiffer :
      (now : ℕ) (rate : ℤ) (tenant : ℕ) (group : Option ℕ) (quantity : ℕ) (db : Db)
      → NumbersDiffer db.invoices
      → NumbersDiffer (create rivals now rate tenant group quantity db).1.invoices
  unfolding create
  create-NumbersDiffer now rate tenant none quantity db u = u
  create-NumbersDiffer now rate tenant (some group) quantity db u =
      elim (Bool-cases (ltb quantity 1)) [
        | inl few ↦ rw few u
        | inr enough ↦ rw enough (
            priced-NumbersDiffer tenant rate quantity (active_tariff now (some group) db)
              (rw (active_tariff-reads now (some group) db) u))
      ]

-- The end of a call that has inserted an invoice under a number into the tables that it then met.
abbrev pub IsIssued : ℕ → ℕ → ℤ → ℕ → ℕ → Db → Result Invoice × Db → Type 0
IsIssued tenant quantity rate price number db m =
    let i : Invoice = record (invoice_of tenant quantity rate price number) { id = db.next_id } in
    m ≡ (ok i, record db { next_id = suc db.next_id; invoices = db.invoices ++ (i ∷ []) })

-- Where a tariff is in force, an order of at least one code gets an invoice under the number that
-- follows the last one, unless another process has taken it between the look-up and the insertion; then
-- under the number that follows the last one at a second look-up, and only if that is taken in the same
-- way the call throws, and has written nothing. In each case the numbers of the invoices stay
-- different, as long as the other processes keep them so.
pub create_contended :
    (rivals : ℕ → Db → Db) (now : ℕ) (rate : ℤ) (tenant group quantity : ℕ) (db : Db) (t : Tariff)
    → ((i : ℕ) (db : Db) → NumbersDiffer db.invoices → NumbersDiffer (rivals i db).invoices)
    → NumbersDiffer db.invoices
    → 1 ≤ quantity
    → active_tariff now (some group) db ≡ (ok t, db)
    → let db₁ = rivals 0 db in
      let db₂ = rivals 1 db₁ in
      let first = suc (last_number db.invoices) in
      let second = suc (last_number db₁.invoices) in
      let m = create rivals now rate tenant (some group) quantity db in
      NumbersDiffer m.1.invoices
      × (((any (has_number first) db₁.invoices ≡ false)
            × IsIssued tenant quantity rate t.price_per_code_kzt first db₁ m)
          ⊎ ((any (has_number first) db₁.invoices ≡ true)
              × (any (has_number second) db₂.invoices ≡ false)
              × IsIssued tenant quantity rate t.price_per_code_kzt second db₂ m)
          ⊎ ((any (has_number first) db₁.invoices ≡ true)
              × (any (has_number second) db₂.invoices ≡ true)
              × (m ≡ (err p2002, db₂))))
unfolding create numbered attempt insert_invoice retry_number
create_contended rivals now rate tenant group quantity db t fair differ enough found =
    let db₁ = rivals 0 db in
    let db₂ = rivals 1 db₁ in
    let many : ltb quantity 1 ≡ false = ground arith in
    (
      create-NumbersDiffer rivals fair now rate tenant (some group) quantity db differ,
      elim (Bool-cases (any (has_number (suc (last_number db.invoices))) db₁.invoices)) [
        | inr free ↦ inl (free, rw (many, found, free) refl)
        | inl taken ↦
            elim (Bool-cases (any (has_number (suc (last_number db₁.invoices))) db₂.invoices)) [
              | inr free ↦ inr (inl (taken, free, rw (many, found, taken, free) refl))
              | inl again ↦ inr (inr (taken, again, rw (many, found, taken, again) refl))
            ]
      ],
    )

-- The invoice that is issued.
abbrev pub issued_invoice : ℕ → ℕ → ℤ → ℕ → Db → Invoice
issued_invoice tenant quantity rate price db =
    record (invoice_of tenant quantity rate price (suc (last_number db.invoices))) {
      id = db.next_id;
    }

rate_is_negative : (r : ℕ) → leb_ℤ (negsuc r) (pos 0) ≡ true
rate_is_negative r = ground arith

split_vat-adds :
    (total : ℕ) (rate : ℤ) → (split_vat total rate).0 + (split_vat total rate).1 ≡ total
unfolding split_vat
split_vat-adds total (pos r) = (split_vat_bounds total r).0
split_vat-adds total (negsuc r) = rw (rate_is_negative r) (omega arith)

last_number-ge : (rows : List Invoice) → All (λ i. i.number < suc (last_number rows)) rows
last_number-ge rows = below rows (last_number rows) (omega arith)
  where
    below : (rows : List Invoice) (n : ℕ) → last_number rows ≤ n → All (λ i. i.number < suc n) rows
    below [] n h = tt
    below (i ∷ rows) n h = (ground arith, below rows n (ground arith))

-- Where no other process comes between and a tariff is in force, an order of at least one code gets an
-- invoice: its number is greater than those before it, the price times the quantity is the sum with the
-- tax, which the sum without it and the tax make up, and nothing but this invoice is written.
pub create_exact :
    (now : ℕ) (rate : ℤ) (tenant group quantity : ℕ) (db : Db) (t : Tariff)
    → 1 ≤ quantity
    → active_tariff now (some group) db ≡ (ok t, db)
    → let i = issued_invoice tenant quantity rate t.price_per_code_kzt db in
      (create (λ k d. d) now rate tenant (some group) quantity db
        ≡ (ok i, record db { next_id = suc db.next_id; invoices = db.invoices ++ (i ∷ []) }))
      × (i.sum_with_vat ≡ t.price_per_code_kzt * quantity)
      × (i.sum_without_vat + i.vat ≡ i.sum_with_vat)
      × All (λ j. j.number < i.number) db.invoices
unfolding create numbered attempt insert_invoice
create_exact now rate tenant group quantity db t enough found =
    let free = any-last_number (suc (last_number db.invoices)) db.invoices (omega arith) in
    let many : ltb quantity 1 ≡ false = ground arith in
    (
      rw (many, found, free) refl,
      refl,
      split_vat-adds (t.price_per_code_kzt * quantity) rate,
      last_number-ge db.invoices,
    )
