-- ===== src/Billing/Contention/OneTurn/Conditions.antt =====
-- What a call relies on, what it ends in, and what one posting writes.
use mark_solutions.Base.{ℕ, suc, ◌≡◌, ap, ◌≤◌, true, false, some, [], ◌∷◌, ◌++◌, arith, find, any}
use mark_solutions.Base.Int.{ℤ, ◌+ℤ◌, ◌-ℤ◌, ◌≤ℤ◌, le_of_leb_ℤ}
use mark_solutions.Store.{
  Account, LedgerKind, topup, reserve, release, settle, LedgerEntry, Db, p2002, Result, ok, err,
  then_gives,
}
use mark_solutions.Billing.Ledger.{active_reserve, violates_unique, create_entry, is_identity}
use mark_solutions.Billing.Invariant.{account_of, Sound, find-has_id, find-has_version, posted}
use mark_solutions.Billing.{
  Rivals, Opts, done, has_version, swap, entry_of, return_entry, refuses, covers, post,
}

-- What a commit of another process may do, seen by a tenant: the result is sound, the account stays, its version does
-- not fall, and where the version is the same, so are the account, the reserve and the entries of
-- each order.
pub record Rely (t : ℕ) (db db' : Db) : Type 0 where
  pub sound : Sound db'
  pub row :
      (a : Account)
      → account_of t db ≡ some a
      → (b : Account) × (account_of t db' ≡ some b)
        × (b.id ≡ a.id)
        × (a.version ≤ b.version)
        × (b.version ≡ a.version
            → (b ≡ a)
              × (active_reserve t db'.ledger ≡ active_reserve t db.ledger)
              × ((kind : LedgerKind) (order_id : ℕ)
                  → find (is_identity t kind order_id) db'.ledger
                    ≡ find (is_identity t kind order_id) db.ledger))

pub record Obeys (t : ℕ) (r : Rivals) : Type 0 where
  pub between_reads : (i : ℕ) (db : Db) → Sound db → Rely t db (r.between_reads i db)
  pub before_update : (i : ℕ) (db : Db) → Sound db → Rely t db (r.before_update i db)

-- A call ends in a sound database. A violated unique index is left out: it undoes the transaction.
abbrev pub EndsSound {ℓ} : {A : Type ℓ} → Result A × Db → Type 0
EndsSound (ok a, db) = Sound db
EndsSound (err p2002, db) = Unit
EndsSound (err e, db) = Sound db

-- A test of the funds that is made whenever a posting takes from what is available.
abbrev pub IsGuarded : LedgerKind → ℤ → Opts → Type 0
IsGuarded topup amount opts = Unit
IsGuarded reserve amount opts = opts.check_available ≡ some (covers amount)
IsGuarded release amount opts = Unit
IsGuarded settle amount opts = opts.check_available ≡ some (covers amount)

pub create_entry-clash :
    (new : LedgerEntry) (db : Db)
    → any (violates_unique new) db.ledger ≡ true
    → create_entry new db ≡ (err p2002, db)
unfolding create_entry
create_entry-clash new db h = rw h

pub create_entry-free :
    (new : LedgerEntry) (db : Db)
    → any (violates_unique new) db.ledger ≡ false
    → let entry = record new { id = db.next_id } in
      create_entry new db
      ≡ (ok entry, record db { next_id = suc db.next_id; ledger = db.ledger ++ (entry ∷ []) })
unfolding create_entry
create_entry-free new db h = rw h

pub post-clash :
    (a : Account) (t : ℕ) (kind : LedgerKind) (amount : ℤ) (opts : Opts) (db : Db)
    → any (violates_unique (entry_of a.id t kind amount opts)) db.ledger ≡ true
    → post a t kind amount opts db
      ≡ (err p2002, record db { accounts = swap a (a.balance +ℤ opts.delta) db.accounts })
unfolding post
post-clash a t kind amount opts db h =
    ap (λ m. then_gives m (return_entry (a.balance +ℤ opts.delta)))
      (create_entry-clash (entry_of a.id t kind amount opts)
        (record db { accounts = swap a (a.balance +ℤ opts.delta) db.accounts }) h)

pub post-free :
    (a : Account) (t : ℕ) (kind : LedgerKind) (amount : ℤ) (opts : Opts) (db : Db)
    → any (violates_unique (entry_of a.id t kind amount opts)) db.ledger ≡ false
    → post a t kind amount opts db ≡ (
      ok (
          done (record {
            entry = record (entry_of a.id t kind amount opts) { id = db.next_id };
            balance = a.balance +ℤ opts.delta;
          })),
      posted a t kind amount opts db,
    )
unfolding post
post-free a t kind amount opts db h =
    ap (λ m. then_gives m (return_entry (a.balance +ℤ opts.delta)))
      (create_entry-free (entry_of a.id t kind amount opts)
        (record db { accounts = swap a (a.balance +ℤ opts.delta) db.accounts }) h)

-- The account that the last test of the version has found is the one that was read first, and the
-- reserve is the one that was summed.
pub still_current :
    (t : ℕ) (db db₁ db₂ : Db) (a : Account)
    → Sound db
    → Rely t db db₁
    → Rely t db₁ db₂
    → account_of t db ≡ some a
    → any (has_version a.id a.version) db₂.accounts ≡ true
    → (account_of t db₂ ≡ some a)
      × (active_reserve t db₂.ledger ≡ active_reserve t db₁.ledger)
      × ((kind : LedgerKind) (order_id : ℕ)
          → find (is_identity t kind order_id) db₂.ledger
            ≡ find (is_identity t kind order_id) db₁.ledger)
still_current t db db₁ db₂ a s r₁ r₂ mine hit =
    let s₂ = r₂.sound in
    let (b, mine₁, id₁, v₁, same₁) = r₁.row a mine in
    let (c, mine₂, id₂, v₂, same₂) = r₂.row b mine₁ in
    let (x, found, v) = find-has_version a.id a.version db₂.accounts s₂.keyed hit in
    let at_c = find-has_id t db₂.accounts s₂.keyed mine₂ in
    let e : c.version ≡ a.version = ground (arith, at_c, found, id₁, id₂, v) in
    let (b-a, _, _) = same₁ (omega arith) in
    let (c-b, kept, entries) = same₂ (omega arith) in
    (ground (arith, mine₂, c-b, b-a), kept, entries)

-- What the test of the funds has shown where it passed.
pub covered :
    (amount balance reserved : ℤ) (opts : Opts)
    → opts.check_available ≡ some (covers amount)
    → refuses opts.check_available balance reserved ≡ false
    → amount ≤ℤ balance -ℤ reserved
covered amount balance reserved opts g passed =
    le_of_leb_ℤ amount (balance -ℤ reserved) (ground (arith, rw g at passed))
