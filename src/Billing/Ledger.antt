-- ===== src/Billing/Ledger.antt =====
-- The journal of postings (apps/api/src/billing.service.ts): the two sums over a tenant's entries,
-- and the writing of an entry under the unique indexes of `LedgerEntry`.
use mark_solutions.Base.{
  ℕ, suc, Bool, true, false, ◌&&◌, ◌||◌, Option, none, some, List, [], ◌∷◌, ◌++◌, foldl, ◌==◌,
  holds, if◌then◌else◌, filter, any,
}
use mark_solutions.Base.Int.{ℤ, pos, ◌+ℤ◌, ◌-ℤ◌}
use mark_solutions.Store.{
  LedgerKind, topup, reserve, release, settle, LedgerEntry, Action, pure, p2002, modify, ◌>>◌,
  throw_if,
}

abbrev pub kind_eq : LedgerKind → LedgerKind → Bool
kind_eq topup topup = true
kind_eq reserve reserve = true
kind_eq release release = true
kind_eq settle settle = true
kind_eq _ _ = false

-- `kind: { in: ["RESERVE", "RELEASE"] }`
abbrev pub is_hold : LedgerKind → Bool
is_hold reserve = true
is_hold release = true
is_hold _ = false

-- `kind: { in: ["TOPUP", "SETTLE"] }`
abbrev pub is_cash : LedgerKind → Bool
is_cash topup = true
is_cash settle = true
is_cash _ = false

abbrev pub reserve_step : ℤ → LedgerEntry → ℤ
reserve_step acc e = if kind_eq e.kind reserve then acc +ℤ e.amount else acc -ℤ e.amount

unfoldable pub active_reserve : ℕ → List LedgerEntry → ℤ
active_reserve tenant rows =
    foldl reserve_step (pos 0) (filter (λ e. (e.tenant_id == tenant) && is_hold e.kind) rows)

abbrev pub balance_step : ℤ → LedgerEntry → ℤ
balance_step acc e = if kind_eq e.kind topup then acc +ℤ e.amount else acc -ℤ e.amount

unfoldable pub balance_of : ℕ → List LedgerEntry → ℤ
balance_of tenant rows =
    foldl balance_step (pos 0) (filter (λ e. (e.tenant_id == tenant) && is_cash e.kind) rows)

-- `where: { tenantId, kind, refOrderId }`
abbrev pub is_identity : ℕ → LedgerKind → ℕ → LedgerEntry → Bool
is_identity tenant kind order_id e =
    (e.tenant_id == tenant) && (kind_eq e.kind kind && holds e.ref_order_id order_id)

-- `where: { ref1c }`
abbrev pub is_payment : ℕ → LedgerEntry → Bool
is_payment ref_1c e = holds e.ref_1c ref_1c

-- Two nullable columns clash in a unique index: nulls never do.
abbrev pub clashes : Option ℕ → Option ℕ → Bool
clashes none b = false
clashes (some a) b = holds b a

-- `@@unique([ref1c])` and `@@unique([refOrderId, kind])`
unfoldable pub violates_unique : LedgerEntry → LedgerEntry → Bool
violates_unique new e =
    clashes e.ref_1c new.ref_1c
    || (clashes e.ref_order_id new.ref_order_id && kind_eq e.kind new.kind)

-- `ledgerEntry.create`, which gives the entry a fresh identifier.
unfoldable pub create_entry : LedgerEntry → Action LedgerEntry
create_entry new db =
    let entry = record new { id = db.next_id } in
    (do
      throw_if (any (violates_unique new) db.ledger) p2002
      modify (λ d. record d { next_id = suc d.next_id; ledger = d.ledger ++ (entry ∷ []) })
      pure entry)
      db
