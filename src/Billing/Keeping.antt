-- ===== src/Billing/Keeping.antt =====
-- What keeps the ledger sound: a release, even where its index is violated outside a transaction, and a
-- reservation or a settlement that returns.
use mark_solutions.Base.{
  ℕ, ◌≡◌, refl, ◌∙◌, inl, inr, false, none, some, [], arith, Bool-cases, Option-cases, find, edit,
  find-All, any,
}
use mark_solutions.Base.Int.{ℤ, pos, ◌+ℤ◌, +ℤ_zero, ◌≤ℤ◌}
use mark_solutions.Store.{Account, LedgerKind, reserve, release, Db, Result, ok, err, then_gives}
use mark_solutions.Store.Keeping.{Keeps, Commits, IfOk}
use mark_solutions.Billing.Ledger.{active_reserve, balance_of, violates_unique, is_identity}
use mark_solutions.Billing.Sums.{cash_of}
use mark_solutions.Billing.Invariant.{
  account_of, account_of-swap, swap-Keyed, find-has_id, Sound, posted-Sound,
}
use mark_solutions.Billing.Quiet.{
  apply_on_repeats, apply_on-refuses, apply_on_posts, apply_on_clashes, apply_on_lost,
}
use mark_solutions.Billing.Effects.{repeated_none}
use mark_solutions.Billing.Contention.{
  EndsSound, IsGuarded, affords, settle_on-EndsSound, reserve_on-EndsSound, Obeys,
}
use mark_solutions.Billing.{
  quiet, Opts, Posting, existing_entry, refuses, entry_of, set_balance, swapped, has_version,
  apply_on, take_entry, release_on, reserve_on, settle_on,
}
use mark_solutions.Billing.Guarantee.{rivals_of-Obeys}

-- A database with the same postings and the same accounts.
pub same_books :
    {db' : Db} (db : Db)
    → db'.ledger ≡ db.ledger
    → db'.accounts ≡ db.accounts
    → Sound db
    → Sound db'
same_books db same_ledger same_accounts s = record {
  keyed = rw same_accounts s.keyed;
  cached = λ t a. rw (same_accounts, same_ledger) (s.cached t a);
  positive = rw same_ledger s.positive;
  solvent = λ t. rw same_ledger (s.solvent t);
}

-- A compare-and-swap that moves no money raises the version alone.
module _ (a : Account) (opts : Opts) (db : Db) (still : opts.delta ≡ pos 0) (t : ℕ)
    (mine : account_of t db ≡ some a) (s : Sound db) where
  swapped-balance :
      (t' : ℕ) (x : Account)
      → account_of t' db ≡ some x
      → (edit (has_version a.id a.version) (set_balance (a.balance +ℤ opts.delta)) x).balance
        ≡ x.balance
  swapped-balance t' x his = elim (Bool-cases (has_version a.id a.version x)) [
    | inr miss ↦ rw miss refl
    | inl hit ↦
        let by_id = find-has_id t db.accounts s.keyed mine in
        let by_his_id = find-has_id t' db.accounts s.keyed his in
        let same : a.balance ≡ x.balance = ground (arith, by_id, by_his_id) in
        rw (hit, still) (+ℤ_zero a.balance ∙ same)
  ]

  swapped-cached :
      (t' : ℕ) (a' : Account)
      → account_of t' (swapped a opts db) ≡ some a'
      → a'.balance ≡ balance_of t' db.ledger
  swapped-cached t' a' his' =
      let moved = account_of-swap t' a (a.balance +ℤ opts.delta) db.accounts in
      elim (Option-cases (account_of t' db)) [
        | inl absent ↦ ground (arith, moved)
        | inr (x, his) ↦ ground (arith, moved, his, swapped-balance t' x his, s.cached t' x his)
      ]

  swapped-Sound : Sound (swapped a opts db)
  swapped-Sound = record {
    keyed = swap-Keyed a (a.balance +ℤ opts.delta) db.accounts s.keyed;
    cached = swapped-cached;
    positive = s.positive;
    solvent = s.solvent;
  }

-- A posting that moves no money keeps the ledger sound, whether it returns or throws.
module _ (t : ℕ) (kind : LedgerKind) (amount : ℤ) (opts : Opts)
    (moves : opts.delta ≡ cash_of kind amount) (positive : pos 1 ≤ℤ amount)
    (guarded : IsGuarded kind amount opts) (unpaid : opts.ref_1c ≡ none)
    (still : opts.delta ≡ pos 0) (db : Db) (s : Sound db) where
  new_posting-Sound :
      (a : Account)
      → account_of t db ≡ some a
      → existing_entry t kind opts db.ledger ≡ none
      → refuses opts.check_available a.balance (active_reserve t db.ledger) ≡ false
      → Sound (apply_on quiet t kind amount opts db).1
  new_posting-Sound a mine new passed =
      elim (Bool-cases (any (violates_unique (entry_of a.id t kind amount opts)) db.ledger)) [
        | inl clash ↦
            rw
              (apply_on_clashes t kind amount opts db a s.keyed mine new unpaid
                (repeated_none t kind opts db.ledger unpaid new) passed clash)
              (swapped-Sound a opts db still t mine s)
        | inr free ↦ rw (apply_on_posts t kind amount opts db a s.keyed mine new passed free) (
            posted-Sound t kind amount opts db a s mine
              (affords t kind amount opts moves positive guarded db a s mine passed))
      ]

  apply_on-Sound : Sound (apply_on quiet t kind amount opts db).1
  apply_on-Sound = elim (Option-cases (account_of t db)) [
    | inl absent ↦ rw (apply_on_lost t kind amount opts db absent) s
    | inr (a, mine) ↦ elim (Option-cases (existing_entry t kind opts db.ledger)) [
      | inr (e, old) ↦ rw (apply_on_repeats t kind amount opts db a s.keyed mine e old) s
      | inl new ↦
          elim (Bool-cases (refuses opts.check_available a.balance (active_reserve t db.ledger))) [
            | inl short ↦ rw (apply_on-refuses t kind amount opts db a s.keyed mine new short) s
            | inr passed ↦ new_posting-Sound a mine new passed
          ]
    ]
  ]

taken-Sound : (m : Result Posting × Db) → Sound m.1 → Sound (then_gives m take_entry).1
taken-Sound (ok p, db) s = s
taken-Sound (err e, db) s = s

-- A release keeps the ledger sound where no transaction undoes its error.
release_on-Sound : (t o : ℕ) (db : Db) → Sound db → Sound (release_on quiet t o db).1
unfolding release_on
release_on-Sound t o db s = elim (Option-cases (find (is_identity t reserve o) db.ledger)) [
  | inl absent ↦ rw absent s
  | inr (e, held) ↦
      let some_amount =
        find-All (λ x. pos 1 ≤ℤ x.amount) (is_identity t reserve o) db.ledger held s.positive in
      rw held
        (taken-Sound _ (apply_on-Sound t release e.amount _ refl some_amount tt refl refl db s))
]

pub release_on-Keeps : (t o : ℕ) → Keeps Sound (release_on quiet t o)
release_on-Keeps t o = record { after = release_on-Sound t o }

EndsSound-IfOk : {A : Type 0} (r : Result A × Db) → EndsSound r → IfOk Sound r
EndsSound-IfOk (ok a, db) s = s
EndsSound-IfOk (err e, db) s = tt

quiet-Obeys : (t : ℕ) → Obeys t quiet
quiet-Obeys t = rivals_of-Obeys t (λ i. []) (λ i. [])

-- A settlement keeps it sound where it returns.
pub settle_on-Commits : (t o : ℕ) (amount : ℤ) → Commits Sound (settle_on quiet t o amount)
settle_on-Commits t o amount = record {
  returned = λ db s.
      EndsSound-IfOk (settle_on quiet t o amount db)
        (settle_on-EndsSound t quiet (quiet-Obeys t) db s o amount);
}

-- A reservation keeps it sound where it returns.
pub reserve_on-Commits : (t o : ℕ) (amount : ℤ) → Commits Sound (reserve_on quiet t o amount)
reserve_on-Commits t o amount = record {
  returned = λ db s.
      EndsSound-IfOk (reserve_on quiet t o amount db)
        (reserve_on-EndsSound t quiet (quiet-Obeys t) db s o amount);
}
