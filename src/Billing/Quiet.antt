-- ===== src/Billing/Quiet.antt =====
-- `applyOn` with no other process at work: what it does on each of its paths.
use mark_solutions.Base.{
  ℕ, ◌≡◌, ◌∙◌, ap, inl, inr, true, false, none, some, List, ◌∷◌, [], arith, ==_refl, Bool-cases,
  find, any,
}
use mark_solutions.Base.Int.{ℤ, ◌+ℤ◌}
use mark_solutions.Store.{
  Account, Action, pure, LedgerKind, LedgerEntry, Db, insufficient_funds, not_found, p2002, ok, err,
  then_gives, caught,
}
use mark_solutions.Billing.Ledger.{active_reserve, balance_of, violates_unique, is_identity}
use mark_solutions.Billing.Invariant.{Keyed, account_of, find-has_id, posted}
use mark_solutions.Billing.Contention.{post-clash, post-free, recover_lem}
use mark_solutions.Billing.{
  quiet, Opts, Posting, Turn, done, retry, has_id, has_version, existing_entry, find_opt, refuses,
  entry_of, swap, post, get_account, post_if_current, turn_at, turn, attempts, apply_on, recover,
}

-- A row under an identifier has its own version.
any-has_version :
    (rows : List Account) {a : Account}
    → find (has_id a.id) rows ≡ some a
    → any (has_version a.id a.version) rows ≡ true
any-has_version [] h = cc
any-has_version (x ∷ rows) {a = a} h = elim (Bool-cases (has_id a.id x)) [
  | inl hit ↦ ground (arith, ==_refl a.id, ==_refl a.version)
  | inr miss ↦ ground (arith, any-has_version rows {a = a})
]

-- A tenant with no account is not served.
pub apply_on_lost :
    (t : ℕ) (kind : LedgerKind) (amount : ℤ) (opts : Opts) (db : Db)
    → account_of t db ≡ none
    → apply_on quiet t kind amount opts db ≡ (err not_found, db)
unfolding apply_on get_account
apply_on_lost t kind amount opts db absent = rw absent

module _ (t : ℕ) (kind : LedgerKind) (amount : ℤ) (opts : Opts) (db : Db) (a : Account)
    (keyed : Keyed db.accounts) (mine : account_of t db ≡ some a) where
  post_if_current_hit : post_if_current a t kind amount opts 0 db ≡ post a t kind amount opts db
  unfolding post_if_current
  post_if_current_hit = rw (any-has_version db.accounts (find-has_id t db.accounts keyed mine))

  abbrev pub posting : Posting
  posting = record {
    entry = record (entry_of a.id t kind amount opts) { id = db.next_id };
    balance = a.balance +ℤ opts.delta;
  }

  -- What the loop does with the outcome of its first turn.
  abbrev next : Turn → Action Posting
  next (done p) = pure p
  next retry = attempts quiet 2 1 a.id t kind amount opts

  -- An entry that is there already is returned, and nothing is written.
  pub apply_on_repeats :
      (e : LedgerEntry)
      → existing_entry t kind opts db.ledger ≡ some e
      → apply_on quiet t kind amount opts db
        ≡ (ok (record { entry = e; balance = balance_of t db.ledger }), db)
  unfolding apply_on get_account attempts turn turn_at
  apply_on_repeats e old = rw mine (rw (find-has_id t db.accounts keyed mine) (rw old))

  module _ (new : existing_entry t kind opts db.ledger ≡ none) where
    pub apply_on-refuses :
        refuses opts.check_available a.balance (active_reserve t db.ledger) ≡ true
        → apply_on quiet t kind amount opts db
          ≡ (err (insufficient_funds a.balance (active_reserve t db.ledger)), db)
    unfolding apply_on get_account attempts turn turn_at recover
    apply_on-refuses short = rw mine (rw (find-has_id t db.accounts keyed mine) (rw new (rw short)))

    turn_at_posts :
        refuses opts.check_available a.balance (active_reserve t db.ledger) ≡ false
        → any (violates_unique (entry_of a.id t kind amount opts)) db.ledger ≡ false
        → turn_at quiet a t kind amount opts 0 db
          ≡ (ok (done posting), posted a t kind amount opts db)
    unfolding turn_at
    turn_at_posts passed free =
        rw new (rw passed (post_if_current_hit ∙ post-free a t kind amount opts db free))

    turn_at_clashes :
        refuses opts.check_available a.balance (active_reserve t db.ledger) ≡ false
        → any (violates_unique (entry_of a.id t kind amount opts)) db.ledger ≡ true
        → turn_at quiet a t kind amount opts 0 db
          ≡ (err p2002, record db { accounts = swap a (a.balance +ℤ opts.delta) db.accounts })
    unfolding turn_at
    turn_at_clashes passed clash =
        rw new (rw passed (post_if_current_hit ∙ post-clash a t kind amount opts db clash))

    pub apply_on_posts :
        refuses opts.check_available a.balance (active_reserve t db.ledger) ≡ false
        → any (violates_unique (entry_of a.id t kind amount opts)) db.ledger ≡ false
        → apply_on quiet t kind amount opts db ≡ (ok posting, posted a t kind amount opts db)
    unfolding apply_on get_account attempts turn
    apply_on_posts passed free = rw mine (
        rw (find-has_id t db.accounts keyed mine)
          (ap (λ m. then_gives (caught m (recover t kind opts)) next) (turn_at_posts passed free)))

    -- The compare-and-swap goes through, and a violated index is thrown after it.
    pub apply_on_clashes :
        opts.ref_1c ≡ none
        → find_opt (is_identity t kind) opts.ref_order_id db.ledger ≡ none
        → refuses opts.check_available a.balance (active_reserve t db.ledger) ≡ false
        → any (violates_unique (entry_of a.id t kind amount opts)) db.ledger ≡ true
        → apply_on quiet t kind amount opts db
          ≡ (err p2002, record db { accounts = swap a (a.balance +ℤ opts.delta) db.accounts })
    unfolding apply_on get_account attempts turn
    apply_on_clashes unpaid fresh passed clash = rw mine (
        rw (find-has_id t db.accounts keyed mine) (
          ap (λ m. then_gives (caught m (recover t kind opts)) next) (turn_at_clashes passed clash)
          ∙ ap (λ m. then_gives m next) (recover_lem t kind opts _ unpaid fresh)))
