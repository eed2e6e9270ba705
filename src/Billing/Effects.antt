-- ===== src/Billing/Effects.antt =====
-- What each method of the ledger does to a tenant's balance and reserve, when no other process is at
-- work.
mod Unposted
use mark_solutions.Base.{
  ℕ, ◌≡◌, refl, ap, Bool, true, false, ◌&&◌, Option, none, some, List, arith, holds, find, any,
  any_weaken, find-any,
}
use mark_solutions.Base.Int.{ℤ, pos, ◌-ℤ◌, ◌≤ℤ◌, neg}
use mark_solutions.Store.{
  Account, LedgerKind, topup, reserve, release, settle, LedgerEntry, Db, insufficient_funds, ok,
  err, then_gives,
}
use mark_solutions.Billing.Ledger.{kind_eq, active_reserve, violates_unique, is_identity}
use mark_solutions.Billing.Invariant.{Keyed, account_of, Sound, posted}
use mark_solutions.Billing.Quiet.{apply_on_repeats, apply_on-refuses, apply_on_posts}
use mark_solutions.Billing.{
  quiet, Opts, existing_entry, find_opt, refuses, entry_of, is_not_positive, covers, reserve_on,
  release_on, settle_on, take_entry,
}
pub use Unposted.*

module _ (t o : ℕ) (amount : ℤ) (db : Db) (a : Account) (s : Sound db)
    (mine : account_of t db ≡ some a) (positive : pos 1 ≤ℤ amount) where
  pub reserve_on_posts :
      IsUnposted reserve o db.ledger
      → amount ≤ℤ a.balance -ℤ active_reserve t db.ledger
      → reserve_on quiet t o amount db ≡ (
        ok (record (entry_of a.id t reserve amount (order_opts o (pos 0) (some (covers amount)))) {
          id = db.next_id;
        }),
        posted a t reserve amount (order_opts o (pos 0) (some (covers amount))) db,
      )
  unfolding reserve_on
  reserve_on_posts new covered =
      let opts = order_opts o (pos 0) (some (covers amount)) in
      rw (test_of_positive amount positive) (
        ap (λ m. then_gives m take_entry)
          (apply_on_posts t reserve amount opts db a s.keyed mine
            (unposted-new t o reserve opts db.ledger refl refl new)
            (passes_of_covered amount a.balance (active_reserve t db.ledger) covered)
            (unposted-free t a.id o reserve amount opts db.ledger refl refl new)))

  pub reserve_on_refuses :
      IsUnposted reserve o db.ledger
      → ¬ (amount ≤ℤ a.balance -ℤ active_reserve t db.ledger)
      → reserve_on quiet t o amount db
        ≡ (err (insufficient_funds a.balance (active_reserve t db.ledger)), db)
  unfolding reserve_on
  reserve_on_refuses new short =
      let opts = order_opts o (pos 0) (some (covers amount)) in
      rw (test_of_positive amount positive) (
        ap (λ m. then_gives m take_entry)
          (apply_on-refuses t reserve amount opts db a s.keyed mine
            (unposted-new t o reserve opts db.ledger refl refl new)
            (short_of_uncovered amount a.balance (active_reserve t db.ledger) short)))

  pub settle_on_posts :
      IsUnposted settle o db.ledger
      → amount ≤ℤ a.balance -ℤ active_reserve t db.ledger
      → settle_on quiet t o amount db ≡ (
        ok
            (record (entry_of a.id t settle amount
              (order_opts o (neg amount) (some (covers amount)))) { id = db.next_id }),
        posted a t settle amount (order_opts o (neg amount) (some (covers amount))) db,
      )
  unfolding settle_on
  settle_on_posts new covered =
      let opts = order_opts o (neg amount) (some (covers amount)) in
      rw (test_of_positive amount positive) (
        ap (λ m. then_gives m take_entry)
          (apply_on_posts t settle amount opts db a s.keyed mine
            (unposted-new t o settle opts db.ledger refl refl new)
            (passes_of_covered amount a.balance (active_reserve t db.ledger) covered)
            (unposted-free t a.id o settle amount opts db.ledger refl refl new)))

  pub settle_on_refuses :
      IsUnposted settle o db.ledger
      → ¬ (amount ≤ℤ a.balance -ℤ active_reserve t db.ledger)
      → settle_on quiet t o amount db
        ≡ (err (insufficient_funds a.balance (active_reserve t db.ledger)), db)
  unfolding settle_on
  settle_on_refuses new short =
      let opts = order_opts o (neg amount) (some (covers amount)) in
      rw (test_of_positive amount positive) (
        ap (λ m. then_gives m take_entry)
          (apply_on-refuses t settle amount opts db a s.keyed mine
            (unposted-new t o settle opts db.ledger refl refl new)
            (short_of_uncovered amount a.balance (active_reserve t db.ledger) short)))

pub release_on_posts :
    (t o : ℕ) (db : Db) (a : Account) (held : LedgerEntry)
    → Sound db
    → account_of t db ≡ some a
    → find (is_identity t reserve o) db.ledger ≡ some held
    → IsUnposted release o db.ledger
    → release_on quiet t o db ≡ (
      ok (record (entry_of a.id t release held.amount (order_opts o (pos 0) none)) {
        id = db.next_id;
      }),
      posted a t release held.amount (order_opts o (pos 0) none) db,
    )
unfolding release_on
release_on_posts t o db a held s mine old new =
    let opts = order_opts o (pos 0) none in
    rw old (
      ap (λ m. then_gives m take_entry)
        (apply_on_posts t release held.amount opts db a s.keyed mine
          (unposted-new t o release opts db.ledger refl refl new) refl
          (unposted-free t a.id o release held.amount opts db.ledger refl refl new)))

module _ (t o : ℕ) (db : Db) (a : Account) (e : LedgerEntry) (keyed : Keyed db.accounts)
    (mine : account_of t db ≡ some a) where
  repeated :
      (kind : LedgerKind) (delta : ℤ) (check : Option (ℤ → ℤ → Bool))
      → kind_eq kind topup ≡ false
      → find (is_identity t kind o) db.ledger ≡ some e
      → existing_entry t kind (order_opts o delta check) db.ledger ≡ some e
  unfolding existing_entry
  repeated kind delta check other old = ground (arith, other, old)

  pub reserve_on_repeats :
      (amount : ℤ)
      → pos 1 ≤ℤ amount
      → find (is_identity t reserve o) db.ledger ≡ some e
      → reserve_on quiet t o amount db ≡ (ok e, db)
  unfolding reserve_on
  reserve_on_repeats amount positive old =
      let opts = order_opts o (pos 0) (some (covers amount)) in
      rw (test_of_positive amount positive) (
        ap (λ m. then_gives m take_entry)
          (apply_on_repeats t reserve amount opts db a keyed mine e
            (repeated reserve (pos 0) (some (covers amount)) refl old)))

  pub settle_on_repeats :
      (amount : ℤ)
      → pos 1 ≤ℤ amount
      → find (is_identity t settle o) db.ledger ≡ some e
      → settle_on quiet t o amount db ≡ (ok e, db)
  unfolding settle_on
  settle_on_repeats amount positive old =
      let opts = order_opts o (neg amount) (some (covers amount)) in
      rw (test_of_positive amount positive) (
        ap (λ m. then_gives m take_entry)
          (apply_on_repeats t settle amount opts db a keyed mine e
            (repeated settle (neg amount) (some (covers amount)) refl old)))

  pub release_on_repeats :
      (held : LedgerEntry)
      → find (is_identity t reserve o) db.ledger ≡ some held
      → find (is_identity t release o) db.ledger ≡ some e
      → release_on quiet t o db ≡ (ok e, db)
  unfolding release_on
  release_on_repeats held there old =
      let opts = order_opts o (pos 0) none in
      rw there (
        ap (λ m. then_gives m take_entry)
          (apply_on_repeats t release held.amount opts db a keyed mine e
            (repeated release (pos 0) none refl old)))
