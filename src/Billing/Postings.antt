-- ===== src/Billing/Postings.antt =====
-- One posting of `applyOn` (apps/api/src/billing.service.ts): what it looks for, tests and writes.
use mark_solutions.Base.{
  ℕ, suc, Bool, false, ◌&&◌, not, Option, none, some, List, ◌==◌, ltb, if◌then◌else◌, find,
  update_where, any,
}
use mark_solutions.Base.Int.{ℤ, ◌+ℤ◌}
use mark_solutions.Store.{
  Account, LedgerKind, topup, LedgerEntry, Db, Error, not_found, conflict, p2002, Action, pure,
  throw, gets, or_throw, ◌>>=◌, ◌>>◌, modify,
}
use mark_solutions.Billing.Ledger.{kind_eq, balance_of, is_identity, is_payment, create_entry}

-- What other processes commit while one call of `applyOn` runs: between the read of the account and
-- the reads of the ledger, and between those and the update, in each attempt.
pub record Rivals : Type 0 where
  pub between_reads : ℕ → Db → Db
  pub before_update : ℕ → Db → Db

abbrev pub quiet : Rivals
quiet = record { between_reads = λ i db. db; before_update = λ i db. db }

pub record Opts : Type 0 where
  pub ref_order_id : Option ℕ
  pub ref_1c : Option ℕ
  pub delta : ℤ
  pub check_available : Option (ℤ → ℤ → Bool)

pub record Posting : Type 0 where
  pub entry : LedgerEntry
  pub balance : ℤ

-- What one turn of the retry loop comes to: `return`, or `continue`.
pub data Turn : Type 0 where
  done : Posting → Turn
  retry : Turn

abbrev pub owned_by : ℕ → Account → Bool
owned_by tenant a = a.tenant_id == tenant

abbrev pub has_id : ℕ → Account → Bool
has_id id a = a.id == id

abbrev pub has_version : ℕ → ℕ → Account → Bool
has_version id version a = (a.id == id) && (a.version == version)

unfoldable pub get_account : ℕ → Action Account
get_account tenant = do
  account ← gets (λ db. find (owned_by tenant) db.accounts)
  or_throw account not_found

abbrev pub find_opt : (ℕ → LedgerEntry → Bool) → Option ℕ → List LedgerEntry → Option LedgerEntry
find_opt p none rows = none
find_opt p (some k) rows = find (p k) rows

-- The posting that an earlier call has made: of the same payment, or of the same kind for the order.
unfoldable pub existing_entry : ℕ → LedgerKind → Opts → List LedgerEntry → Option LedgerEntry
existing_entry tenant kind opts rows =
    let by_order = find_opt (is_identity tenant kind) opts.ref_order_id rows in
    let by_payment = find_opt is_payment opts.ref_1c rows in
    elim (if kind_eq kind topup then by_payment else none) [ some e ↦ some e | none ↦ by_order ]

abbrev pub refuses : Option (ℤ → ℤ → Bool) → ℤ → ℤ → Bool
refuses none balance reserved = false
refuses (some check) balance reserved = not (check balance reserved)

abbrev pub set_balance : ℤ → Account → Account
set_balance next a = record a { balance = next; version = suc a.version }

abbrev pub answer : ℕ → LedgerEntry → Action Turn
answer tenant e = gets (λ db. done (record { entry = e; balance = balance_of tenant db.ledger }))

abbrev pub entry_of : ℕ → ℕ → LedgerKind → ℤ → Opts → LedgerEntry
entry_of account_id tenant kind amount opts = record {
  id = 0;
  tenant_id = tenant;
  account_id = account_id;
  kind = kind;
  amount = amount;
  ref_order_id = opts.ref_order_id;
  ref_1c = opts.ref_1c;
}

-- The accounts after the compare-and-swap.
abbrev pub swap : Account → ℤ → List Account → List Account
swap current next = update_where (has_version current.id current.version) (set_balance next)

abbrev pub swapped : Account → Opts → Db → Db
swapped a opts db = record db { accounts = swap a (a.balance +ℤ opts.delta) db.accounts }

abbrev pub return_entry : ℤ → LedgerEntry → Action Turn
return_entry next entry = pure (done (record { entry = entry; balance = next }))

-- The compare-and-swap of the account and the entry that goes with it.
unfoldable pub post : Account → ℕ → LedgerKind → ℤ → Opts → Action Turn
post current tenant kind amount opts = do
  let next = current.balance +ℤ opts.delta
  modify (λ db. record db { accounts = swap current next db.accounts })
  entry ← create_entry (entry_of current.id tenant kind amount opts)
  return_entry next entry

-- The update of no row is a conflict of versions: try again, at most three times in all.
unfoldable pub post_if_current : Account → ℕ → LedgerKind → ℤ → Opts → ℕ → Action Turn
post_if_current current tenant kind amount opts i = do
  hit ← gets (λ db. any (has_version current.id current.version) db.accounts)
  if hit
      then post current tenant kind amount opts
      else if ltb i 2
      then pure retry
      else throw conflict

-- The handler of the loop's body: a unique index was violated by a concurrent repeat.
unfoldable pub recover : ℕ → LedgerKind → Opts → Error → Action Turn
recover tenant kind opts p2002 = do
  by_payment ← gets (λ db. find_opt is_payment opts.ref_1c db.ledger)
  by_order ← gets (λ db. find_opt (is_identity tenant kind) opts.ref_order_id db.ledger)
  elim by_payment [
    | some e ↦ answer tenant e
    | none ↦ elim by_order [ some e ↦ answer tenant e | none ↦ throw p2002 ]
  ]
recover tenant kind opts e = throw e
