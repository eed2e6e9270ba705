-- ===== src/Billing.antt =====
-- `BillingService` (apps/api/src/billing.service.ts): the double-entry ledger of a tenant, with the
-- balance of the account as a cache that is moved by compare-and-swap on the account's version.
mod Postings
pub mod Ledger
pub mod Sums
pub mod Invariant
pub mod Contention
pub mod Quiet
pub mod Effects
pub mod Cycle
pub mod Journal
pub mod Foreign
pub mod Guarantee
pub mod Keeping
pub mod Books
pub mod Growth
pub mod Topup
use mark_solutions.Base.{
  ℕ, zero, suc, ◌+◌, Bool, true, false, ◌&&◌, not, Option, none, some, List, [], ◌∷◌, ◌==◌, ltb,
  leb, is_some, if◌then◌else◌, find, update_where, any, filter, reverse,
}
use mark_solutions.Base.Int.{ℤ, pos, ◌+ℤ◌, ◌-ℤ◌, neg, leb_ℤ}
use mark_solutions.Store.{
  Account, LedgerKind, topup, reserve, release, settle, LedgerEntry, Tariff, Db, Error, bad_request,
  insufficient_funds, not_found, conflict, unavailable, p2002, Action, pure, throw, gets, or_throw,
  ◌>>=◌, ◌>>◌, throw_if, modify, catch,
}
use Ledger.{kind_eq, active_reserve, balance_of, is_identity, is_payment, create_entry}
unfoldable pub use Postings.*

module _ (r : Rivals) where
  -- The loop's body after the account was read.
  unfoldable pub turn_at : Account → ℕ → LedgerKind → ℤ → Opts → ℕ → Action Turn
  turn_at current tenant kind amount opts i = do
    existing ← gets (λ db. existing_entry tenant kind opts db.ledger)
    elim existing [
      | some e ↦ answer tenant e
      | none ↦ do
        reserved ← gets (λ db. active_reserve tenant db.ledger)
        throw_if (refuses opts.check_available current.balance reserved)
            (insufficient_funds current.balance reserved)
        modify (r.before_update i)
        post_if_current current tenant kind amount opts i
    ]

  -- The body of the loop.
  unfoldable pub turn : ℕ → ℕ → LedgerKind → ℤ → Opts → ℕ → Action Turn
  turn account_id tenant kind amount opts i = do
    row ← gets (λ db. find (has_id account_id) db.accounts)
    current ← or_throw row not_found
    modify (r.between_reads i)
    turn_at current tenant kind amount opts i

  -- The `for` loop, on the attempts that are left and the number of this one.
  unfoldable pub attempts : ℕ → ℕ → ℕ → ℕ → LedgerKind → ℤ → Opts → Action Posting
  attempts zero i account_id tenant kind amount opts = throw unavailable
  attempts (suc left) i account_id tenant kind amount opts =
      catch (turn account_id tenant kind amount opts i) (recover tenant kind opts) >>= elim [
        | done p ↦ pure p
        | retry ↦ attempts left (suc i) account_id tenant kind amount opts
      ]

  unfoldable pub apply_on : ℕ → LedgerKind → ℤ → Opts → Action Posting
  apply_on tenant kind amount opts = do
    account ← get_account tenant
    attempts 3 0 account.id tenant kind amount opts

abbrev take_entry : Posting → Action LedgerEntry
take_entry p = pure p.entry

-- `amount <= 0`
abbrev is_not_positive : ℤ → Bool
is_not_positive amount = leb_ℤ amount (pos 0)

abbrev pub covers : ℤ → ℤ → ℤ → Bool
covers amount balance reserved = leb_ℤ amount (balance -ℤ reserved)

module _ (r : Rivals) where
  -- The empty `ref1c` is `none`. The flag tells whether the payment was known before.
  unfoldable pub topup_on : ℕ → Option ℕ → ℤ → Action (LedgerEntry × Bool)
  topup_on tenant none amount = throw bad_request
  topup_on tenant (some ref_1c) amount = do
    throw_if (is_not_positive amount) bad_request
    existing ← gets (λ db. find (is_payment ref_1c) db.ledger)
    elim existing [
      | some e ↦ pure (e, true)
      | none ↦ do
        p ← apply_on r tenant topup amount (record {
          ref_order_id = none;
          ref_1c = some ref_1c;
          delta = amount;
          check_available = none;
        })
        pure (p.entry, false)
    ]

  unfoldable pub reserve_on : ℕ → ℕ → ℤ → Action LedgerEntry
  reserve_on tenant order_id amount = do
    throw_if (is_not_positive amount) bad_request
    p ← apply_on r tenant reserve amount (record {
      ref_order_id = some order_id;
      ref_1c = none;
      delta = pos 0;
      check_available = some (covers amount);
    })
    take_entry p

  unfoldable pub release_on : ℕ → ℕ → Action LedgerEntry
  release_on tenant order_id = do
    row ← gets (λ db. find (is_identity tenant reserve order_id) db.ledger)
    held ← or_throw row not_found
    p ← apply_on r tenant release held.amount (record {
      ref_order_id = some order_id;
      ref_1c = none;
      delta = pos 0;
      check_available = none;
    })
    take_entry p

  unfoldable pub settle_on : ℕ → ℕ → ℤ → Action LedgerEntry
  settle_on tenant order_id amount = do
    throw_if (is_not_positive amount) bad_request
    p ← apply_on r tenant settle amount (record {
      ref_order_id = some order_id;
      ref_1c = none;
      delta = neg amount;
      check_available = some (covers amount);
    })
    take_entry p

pub record BalanceView : Type 0 where
  pub balance : ℤ
  pub reserved : ℤ
  pub available : ℤ

unfoldable pub get_balance : ℕ → Db → BalanceView
get_balance tenant db =
    let reserved = active_reserve tenant db.ledger in
    let balance = balance_of tenant db.ledger in
    record { balance = balance; reserved = reserved; available = balance -ℤ reserved }

-- The running balance after a posting.
abbrev pub move : LedgerEntry → ℤ → ℤ
move e running =
    if kind_eq e.kind topup
    then running +ℤ e.amount
    else if kind_eq e.kind settle
    then running -ℤ e.amount
    else running

unfoldable pub running_balances : ℤ → List LedgerEntry → List (LedgerEntry × ℤ)
running_balances running [] = []
running_balances running (e ∷ rows) =
    let moved = move e running in (e, moved) ∷ running_balances moved rows

-- `ledger`: the tenant's journal, newest first, each posting with the balance after it.
unfoldable pub ledger : ℕ → Db → List (LedgerEntry × ℤ)
ledger tenant db =
    reverse (running_balances (pos 0) (filter (λ e. e.tenant_id == tenant) db.ledger))
