-- ===== src/Billing/Growth.antt =====
-- How the journal grows: each operation of the service adds one posting that clashes with none, or
-- adds nothing.
mod OnePosting
use mark_solutions.Base.{
  ℕ, ◌≡◌, refl, inl, inr, ◌⊎◌, false, Option, none, some, [], ◌∷◌, ◌++◌, Bool-cases, Option-cases,
  find, All, any,
}
use mark_solutions.Base.Int.{ℤ, pos, neg}
use mark_solutions.Store.{
  Account, LedgerKind, topup, reserve, release, settle, LedgerEntry, Db, Result, ok, err,
  then_gives, modify,
}
use mark_solutions.Store.Keeping.{Keeps, Commits, IfOk, modify-Keeps, throw-Keeps}
use mark_solutions.Billing.Ledger.{active_reserve, violates_unique, is_identity, is_payment}
use mark_solutions.Billing.Invariant.{account_of, Sound}
use mark_solutions.Billing.Quiet.{
  apply_on_repeats, apply_on-refuses, apply_on_posts, apply_on_clashes, apply_on_lost,
}
use mark_solutions.Billing.Effects.{repeated_none, order_opts}
use mark_solutions.Billing.Contention.{positive_of_test}
use mark_solutions.Billing.{
  quiet, Opts, Posting, existing_entry, refuses, entry_of, apply_on, take_entry, is_not_positive,
  covers, topup_on, release_on, reserve_on, settle_on,
}
use mark_solutions.Billing.Keeping.{
  same_books, release_on-Keeps, reserve_on-Commits, settle_on-Commits,
}
use mark_solutions.Billing.Topup.{topup_on-Keeps, topup_on_posts, new_payment-free, payment_opts}
use mark_solutions.Billing.Books.{Single, HasReserve, IsBacked, Single-append, IsBacked-append}
pub use OnePosting.*

taken : (m : Result Posting × Db) → (then_gives m take_entry).1 ≡ m.1
taken (ok p, db) = refl
taken (err e, db) = refl

-- A release is backed by the reserve whose amount it takes.
released-Books : (t o : ℕ) (db : Db) → Books db → Books (release_on quiet t o db).1
unfolding release_on
released-Books t o db b = elim (Option-cases (find (is_identity t reserve o) db.ledger)) [
  | inl absent ↦ rw absent b
  | inr (held, found) ↦
      let opts = order_opts o (pos 0) none in
      let s = rw (release_on, found, taken) at ((release_on-Keeps t o).after db b.sound) in
      rw (found, taken)
        (Books-Grows t release held.amount opts db _ (held, found, refl) b s
          (apply_on-Grows t release held.amount opts refl db b.sound))
]

pub release_on-Books : (t o : ℕ) → Keeps Books (release_on quiet t o)
release_on-Books t o = record { after = released-Books t o }

IfOk-Grows :
    {A : Type 0} (t : ℕ) (kind : LedgerKind) (amount : ℤ) (opts : Opts) (db : Db)
    (r : Result A × Db)
    → HasReserve db.ledger t amount kind opts.ref_order_id
    → Books db
    → IfOk Sound r
    → Grows t kind amount opts db r.1
    → IfOk Books r
IfOk-Grows t kind amount opts db (ok x, db') backed b s g =
    Books-Grows t kind amount opts db db' backed b s g
IfOk-Grows t kind amount opts db (err e, db') backed b s g = tt

module _ (t o : ℕ) (amount : ℤ) (db : Db) (b : Books db) where
  reserve_on-Grows :
      Grows t reserve amount
        (order_opts o (pos 0) (some (covers amount)))
        db
        (reserve_on quiet t o amount db).1
  unfolding reserve_on
  reserve_on-Grows = elim (Bool-cases (is_not_positive amount)) [
    | inl bad ↦ rw bad (inl refl)
    | inr good ↦ rw (good, taken) (apply_on-Grows t reserve amount _ refl db b.sound)
  ]

  settle_on-Grows :
      Grows t settle amount
        (order_opts o (neg amount) (some (covers amount)))
        db
        (settle_on quiet t o amount db).1
  unfolding settle_on
  settle_on-Grows = elim (Bool-cases (is_not_positive amount)) [
    | inl bad ↦ rw bad (inl refl)
    | inr good ↦ rw (good, taken) (apply_on-Grows t settle amount _ refl db b.sound)
  ]

pub reserve_on-Books : (t o : ℕ) (amount : ℤ) → Commits Books (reserve_on quiet t o amount)
reserve_on-Books t o amount = record {
  returned = λ db b.
      IfOk-Grows t reserve amount (order_opts o (pos 0) (some (covers amount))) db
        (reserve_on quiet t o amount db) tt b ((reserve_on-Commits t o amount).returned db b.sound)
        (reserve_on-Grows t o amount db b);
}

pub settle_on-Books : (t o : ℕ) (amount : ℤ) → Commits Books (settle_on quiet t o amount)
settle_on-Books t o amount = record {
  returned = λ db b.
      IfOk-Grows t settle amount (order_opts o (neg amount) (some (covers amount))) db
        (settle_on quiet t o amount db) tt b ((settle_on-Commits t o amount).returned db b.sound)
        (settle_on-Grows t o amount db b);
}

-- A payment is posted where none with its reference is there.
module _ (t ref_1c : ℕ) (amount : ℤ) (db : Db) (b : Books db) where
  new_payment-Grows :
      is_not_positive amount ≡ false
      → find (is_payment ref_1c) db.ledger ≡ none
      → Grows t topup amount
          (payment_opts ref_1c amount)
          db
          (topup_on quiet t (some ref_1c) amount db).1
  unfolding topup_on
  new_payment-Grows good new = elim (Option-cases (account_of t db)) [
    | inl absent ↦
        let opts = payment_opts ref_1c amount in
        rw (good, new, apply_on_lost t topup amount opts db absent) (inl refl)
    | inr (a, mine) ↦
        let positive = positive_of_test amount good in
        rw (topup_on_posts t ref_1c amount db a b.sound mine positive new)
          (inr (a.id, new_payment-free t a.id ref_1c amount db.ledger new, refl))
  ]

  paid-Grows :
      Grows t topup amount
        (payment_opts ref_1c amount)
        db
        (topup_on quiet t (some ref_1c) amount db).1
  unfolding topup_on
  paid-Grows = elim (Bool-cases (is_not_positive amount)) [
    | inl bad ↦ rw bad (inl refl)
    | inr good ↦ elim (Option-cases (find (is_payment ref_1c) db.ledger)) [
      | inr (e, known) ↦ rw (good, known) (inl refl)
      | inl new ↦ new_payment-Grows good new
    ]
  ]

pub topup_on-Books :
    (t : ℕ) (ref_1c : Option ℕ) (amount : ℤ) → Keeps Books (topup_on quiet t ref_1c amount)
unfolding topup_on
topup_on-Books t none amount = throw-Keeps Books
topup_on-Books t (some ref_1c) amount = record {
  after = λ db b.
      unfold topup_on in
      Books-Grows t topup amount (payment_opts ref_1c amount) db _ tt b
        ((topup_on-Keeps t (some ref_1c) amount).after db b.sound)
        (paid-Grows t ref_1c amount db b);
}

-- A database with the same postings and the same accounts.
pub same_Books :
    {db' : Db} (db : Db)
    → db'.ledger ≡ db.ledger
    → db'.accounts ≡ db.accounts
    → Books db
    → Books db'
same_Books db same_ledger same_accounts b = record {
  sound = same_books db same_ledger same_accounts b.sound;
  single = rw same_ledger b.single;
  backed = rw same_ledger b.backed;
}

pub modify-Books :
    {f : Db → Db}
    → ((db : Db) → (f db).ledger ≡ db.ledger)
    → ((db : Db) → (f db).accounts ≡ db.accounts)
    → Keeps Books (modify f)
modify-Books same_ledger same_accounts =
    modify-Keeps Books (λ db. same_Books db (same_ledger db) (same_accounts db))
