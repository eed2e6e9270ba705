-- ===== src/Billing/Growth/OnePosting.antt =====
-- How one posting of `applyOn` changes the journal.
use mark_solutions.Base.{
  ℕ, ◌≡◌, refl, inl, inr, ◌⊎◌, false, none, some, [], ◌∷◌, ◌++◌, Bool-cases, Option-cases, All, any,
}
use mark_solutions.Base.Int.{ℤ}
use mark_solutions.Store.{Account, LedgerKind, LedgerEntry, Db}
use mark_solutions.Billing.Ledger.{active_reserve, violates_unique}
use mark_solutions.Billing.Invariant.{account_of, Sound}
use mark_solutions.Billing.Quiet.{
  apply_on_repeats, apply_on-refuses, apply_on_posts, apply_on_clashes, apply_on_lost,
}
use mark_solutions.Billing.Effects.{repeated_none}
use mark_solutions.Billing.{quiet, Opts, existing_entry, refuses, entry_of, apply_on}
use mark_solutions.Billing.Books.{Single, HasReserve, IsBacked, Single-append, IsBacked-append}

pub record Books (db : Db) : Type 0 where
  pub sound : Sound db
  pub single : Single db.ledger
  pub backed : All (IsBacked db.ledger) db.ledger

abbrev pub Grows : ℕ → LedgerKind → ℤ → Opts → Db → Db → Type 0
Grows t kind amount opts db db' =
    (db'.ledger ≡ db.ledger)
    ⊎ ((a : ℕ) × (any (violates_unique (entry_of a t kind amount opts)) db.ledger ≡ false)
        × (db'.ledger
            ≡ db.ledger ++ (record (entry_of a t kind amount opts) { id = db.next_id } ∷ [])))

pub Books-Grows :
    (t : ℕ) (kind : LedgerKind) (amount : ℤ) (opts : Opts) (db db' : Db)
    → HasReserve db.ledger t amount kind opts.ref_order_id
    → Books db
    → Sound db'
    → Grows t kind amount opts db db'
    → Books db'
unfolding violates_unique
Books-Grows t kind amount opts db db' backed b s (inl same) = record {
  sound = s;
  single = rw same b.single;
  backed = rw same b.backed;
}
Books-Grows t kind amount opts db db' backed b s (inr (a, free, grown)) =
    let e : LedgerEntry = record (entry_of a t kind amount opts) { id = db.next_id } in
    record {
      sound = s;
      single = rw grown (Single-append db.ledger e b.single free);
      backed = rw grown (IsBacked-append db.ledger e b.backed backed);
    }

module _ (t : ℕ) (kind : LedgerKind) (amount : ℤ) (opts : Opts) (unpaid : opts.ref_1c ≡ none)
    (db : Db) (s : Sound db) where
  pub new_posting-Grows :
      (a : Account)
      → account_of t db ≡ some a
      → existing_entry t kind opts db.ledger ≡ none
      → refuses opts.check_available a.balance (active_reserve t db.ledger) ≡ false
      → Grows t kind amount opts db (apply_on quiet t kind amount opts db).1
  new_posting-Grows a mine new passed =
      elim (Bool-cases (any (violates_unique (entry_of a.id t kind amount opts)) db.ledger)) [
        | inl clash ↦
            rw
              (apply_on_clashes t kind amount opts db a s.keyed mine new unpaid
                (repeated_none t kind opts db.ledger unpaid new) passed clash)
              (inl refl)
        | inr free ↦
            rw (apply_on_posts t kind amount opts db a s.keyed mine new passed free)
              (inr (a.id, free, refl))
      ]

  pub apply_on-Grows : Grows t kind amount opts db (apply_on quiet t kind amount opts db).1
  apply_on-Grows = elim (Option-cases (account_of t db)) [
    | inl absent ↦ rw (apply_on_lost t kind amount opts db absent) (inl refl)
    | inr (a, mine) ↦ elim (Option-cases (existing_entry t kind opts db.ledger)) [
      | inr (e, old) ↦ rw (apply_on_repeats t kind amount opts db a s.keyed mine e old) (inl refl)
      | inl new ↦
          elim (Bool-cases (refuses opts.check_available a.balance (active_reserve t db.ledger))) [
            | inl short ↦
                rw (apply_on-refuses t kind amount opts db a s.keyed mine new short) (inl refl)
            | inr passed ↦ new_posting-Grows a mine new passed
          ]
    ]
  ]
