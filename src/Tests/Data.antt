-- ===== src/Tests/Data.antt =====
-- A database with two tenants that have paid, and its soundness.
use mark_solutions.Base.{ℕ, ◌+◌, ◌≡◌, refl, inl, inr, none, some, [], ◌∷◌, arith, ◌==◌, Bool-cases}
use mark_solutions.Base.Int.{pos, ◌+ℤ◌, ◌≤ℤ◌}
use mark_solutions.Store.{Account, topup, LedgerEntry, Db}
use mark_solutions.Billing.Ledger.{active_reserve, balance_of}
use mark_solutions.Billing.Invariant.{account_of, Sound}

abbrev pub account_7 : Account
account_7 = record { id = 1; tenant_id = 7; balance = pos 100; version = 0 }

abbrev pub account_8 : Account
account_8 = record { id = 2; tenant_id = 8; balance = pos 50; version = 3 }

abbrev pub payment : ℕ → ℕ → ℕ → ℕ → LedgerEntry
payment id tenant account_id amount = record {
  id = id;
  tenant_id = tenant;
  account_id = account_id;
  kind = topup;
  amount = pos amount;
  ref_order_id = none;
  ref_1c = some (40 + id);
}

abbrev pub shop : Db
shop = record {
  next_id = 10;
  next_number = 1;
  accounts = account_7 ∷ account_8 ∷ [];
  ledger = payment 1 7 1 100 ∷ payment 2 8 2 50 ∷ [];
  tariffs = [];
  cards = [];
  orders = [];
  lines = [];
  outbox = [];
  vault = [];
  exports = [];
  mpt_orders = [];
  events = [];
  counters = [];
  reports = [];
  alerts = [];
  imports = [];
  withdrawals = [];
  units = [];
  members = [];
  gtin_cache = [];
  invoices = [];
}

shop-cached :
    (t : ℕ) (a : Account) → account_of t shop ≡ some a → a.balance ≡ balance_of t shop.ledger
unfolding balance_of ◌+ℤ◌
shop-cached t a h = elim (Bool-cases (7 == t)) [
  | inl seven ↦ ground arith
  | inr other ↦ elim (Bool-cases (8 == t)) [ inl eight ↦ ground arith | inr neither ↦ ground arith ]
]

shop-solvent : (t : ℕ) → active_reserve t shop.ledger ≤ℤ balance_of t shop.ledger
unfolding balance_of active_reserve ◌+ℤ◌
shop-solvent t = ground arith

pub shop-Sound : Sound shop
shop-Sound = record {
  keyed = (refl, (refl, tt));
  cached = shop-cached;
  positive = (omega arith, (omega arith, tt));
  solvent = shop-solvent;
}
