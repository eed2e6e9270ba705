-- ===== src/Billing/Topup.antt =====
-- A payment that is posted, and its repeat.
use mark_solutions.Base.{
  ℕ, ◌≡◌, refl, ◌∙◌, ap, inl, inr, true, false, Option, Option-cases, none, some, List, [], ◌∷◌,
  arith, ==_refl, Bool-cases, find, find-append, any,
}
use mark_solutions.Base.Int.{ℤ, pos, ◌+ℤ◌, ◌≤ℤ◌, int_laws}
use mark_solutions.Store.{Account, topup, LedgerEntry, Db, ok, then_gives, pure}
use mark_solutions.Billing.Ledger.{violates_unique, is_payment}
use mark_solutions.Billing.Invariant.{account_of, Sound, posted, posted-Sound}
use mark_solutions.Store.Keeping.{Keeps, throw-Keeps}
use mark_solutions.Billing.Contention.{positive_of_test}
use mark_solutions.Billing.Quiet.{apply_on_posts, apply_on_lost}
use mark_solutions.Billing.Effects.{test_of_positive}
use mark_solutions.Billing.Cycle.{get_balance-own, moved_view, views_eq}
use mark_solutions.Billing.{
  quiet, Opts, existing_entry, entry_of, is_not_positive, topup_on, BalanceView, get_balance,
}

abbrev pub payment_opts : ℕ → ℤ → Opts
payment_opts ref_1c amount = record {
  ref_order_id = none;
  ref_1c = some ref_1c;
  delta = amount;
  check_available = none;
}

-- The view of a tenant whose balance has grown.
abbrev pub topped_up : BalanceView → ℤ → BalanceView
topped_up v amount = record {
  balance = v.balance +ℤ amount;
  reserved = v.reserved;
  available = v.available +ℤ amount;
}

moved-topped_up :
    (t : ℕ) (amount : ℤ) (db : Db)
    → moved_view (get_balance t db) topup amount ≡ topped_up (get_balance t db) amount
unfolding get_balance
moved-topped_up t amount db = views_eq _ _ (omega int_laws) (omega int_laws) (omega int_laws)

pub new_payment-free :
    (t account_id ref_1c : ℕ) (amount : ℤ) (rows : List LedgerEntry)
    → find (is_payment ref_1c) rows ≡ none
    → any (violates_unique (entry_of account_id t topup amount (payment_opts ref_1c amount))) rows
      ≡ false
unfolding violates_unique
new_payment-free t account_id ref_1c amount [] h = refl
new_payment-free t account_id ref_1c amount (e ∷ rows) h = elim (Bool-cases (is_payment ref_1c e)) [
  | inl hit ↦ cc (rw hit at h)
  | inr miss ↦
      let ih = new_payment-free t account_id ref_1c amount rows (rw miss at h) in
      rw ih (ground (arith, miss))
]

module _ (t ref_1c : ℕ) (amount : ℤ) (db : Db) (a : Account) (s : Sound db)
    (mine : account_of t db ≡ some a) (positive : pos 1 ≤ℤ amount)
    (new : find (is_payment ref_1c) db.ledger ≡ none) where
  abbrev pub after : Db
  after = posted a t topup amount (payment_opts ref_1c amount) db

  abbrev pub paid_entry : LedgerEntry
  paid_entry = record (entry_of a.id t topup amount (payment_opts ref_1c amount)) {
    id = db.next_id;
  }

  unseen : existing_entry t topup (payment_opts ref_1c amount) db.ledger ≡ none
  unfolding existing_entry
  unseen = rw (existing_entry, new) refl

  pub topup_on_posts : topup_on quiet t (some ref_1c) amount db ≡ (ok (paid_entry, false), after)
  unfolding topup_on
  topup_on_posts =
      rw (test_of_positive amount positive, new)
        (ap (λ m. then_gives m (λ p. pure (p.entry, false)))
          (apply_on_posts t topup amount (payment_opts ref_1c amount) db a s.keyed mine unseen refl
            (new_payment-free t a.id ref_1c amount db.ledger new)))

  pub known : find (is_payment ref_1c) after.ledger ≡ some paid_entry
  known = find-append (is_payment ref_1c) db.ledger paid_entry ∙ rw (new, ==_refl ref_1c) refl

  repeated :
      (t' : ℕ) (again : ℤ)
      → pos 1 ≤ℤ again
      → topup_on quiet t' (some ref_1c) again after ≡ (ok (paid_entry, true), after)
  unfolding topup_on
  repeated t' again more = rw (test_of_positive again more, known) refl

  -- A new payment makes the balance and what is available greater by its amount, leaves the reserve, and
  -- keeps the ledger sound. The same payment sent again, with whatever positive amount and for whatever
  -- tenant, is answered with the first entry and writes nothing.
  pub topup_on_exact :
      (t' : ℕ) (again : ℤ)
      → pos 1 ≤ℤ again
      → let (r, db') = topup_on quiet t (some ref_1c) amount db in
        (r ≡ ok (paid_entry, false))
        × (get_balance t db' ≡ topped_up (get_balance t db) amount)
        × Sound db'
        × (topup_on quiet t' (some ref_1c) again db' ≡ (ok (paid_entry, true), db'))
  topup_on_exact t' again more = rw topup_on_posts (
    refl,
    get_balance-own a t topup amount (payment_opts ref_1c amount) db ∙ moved-topped_up t amount db,
    posted-Sound t topup amount (payment_opts ref_1c amount) db a s mine
        (record { moves = refl; positive = positive; affords = omega (int_laws, s.solvent t) }),
    repeated t' again more,
  )

-- A payment keeps the ledger sound, whatever its reference and its amount are.
module _ (t ref_1c : ℕ) (amount : ℤ) (db : Db) (s : Sound db) where
  new_payment-Sound :
      is_not_positive amount ≡ false
      → find (is_payment ref_1c) db.ledger ≡ none
      → Sound (topup_on quiet t (some ref_1c) amount db).1
  unfolding topup_on
  new_payment-Sound good new = elim (Option-cases (account_of t db)) [
    | inl absent ↦
        let opts = payment_opts ref_1c amount in
        rw (good, new, apply_on_lost t topup amount opts db absent) s
    | inr (a, mine) ↦
        let positive = positive_of_test amount good in
        rw (topup_on_posts t ref_1c amount db a s mine positive new) (
          posted-Sound t topup amount (payment_opts ref_1c amount) db a s mine
            (record { moves = refl; positive = positive; affords = omega (int_laws, s.solvent t) }))
  ]

  paid-Sound : Sound (topup_on quiet t (some ref_1c) amount db).1
  unfolding topup_on
  paid-Sound = elim (Bool-cases (is_not_positive amount)) [
    | inl bad ↦ rw bad s
    | inr good ↦ elim (Option-cases (find (is_payment ref_1c) db.ledger)) [
      | inr (e, known) ↦ rw (good, known) s
      | inl new ↦ new_payment-Sound good new
    ]
  ]

pub topup_on-Keeps :
    (t : ℕ) (ref_1c : Option ℕ) (amount : ℤ) → Keeps Sound (topup_on quiet t ref_1c amount)
unfolding topup_on
topup_on-Keeps t none amount = throw-Keeps Sound
topup_on-Keeps t (some ref_1c) amount = record {
  after = λ db s. unfold topup_on in paid-Sound t ref_1c amount db s;
}
