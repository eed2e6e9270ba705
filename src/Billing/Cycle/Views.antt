-- ===== src/Billing/Cycle/Views.antt =====
-- What a posting does to the views of its tenant's balance.
use mark_solutions.Base.{ℕ, ◌≡◌, refl, ◌∙◌, inl, inr, ◌==◌, ==_refl, if◌then◌else◌, Bool-cases}
use mark_solutions.Base.Int.{ℤ, ◌+ℤ◌, ◌-ℤ◌, int_laws}
use mark_solutions.Store.{Account, LedgerKind, reserve, release, settle, Db, Result, ok, err}
use mark_solutions.Billing.Sums.{balance_of-append, active_reserve-append, cash_of, hold_of}
use mark_solutions.Billing.Invariant.{posted}
use mark_solutions.Billing.{Opts, BalanceView, get_balance}

abbrev pub IsOk {ℓ} : {A : Type ℓ} → Result A → Type 0
IsOk (ok a) = Unit
IsOk (err e) = ⊥

-- The view of a tenant after a posting of its own.
abbrev pub moved_view : BalanceView → LedgerKind → ℤ → BalanceView
moved_view v kind amount = record {
  balance = v.balance +ℤ cash_of kind amount;
  reserved = v.reserved +ℤ hold_of kind amount;
  available = (v.balance +ℤ cash_of kind amount) -ℤ (v.reserved +ℤ hold_of kind amount);
}

pub get_balance-posted :
    (a : Account) (t t' : ℕ) (kind : LedgerKind) (amount : ℤ) (opts : Opts) (db : Db)
    → get_balance t' (posted a t kind amount opts db)
      ≡ (if t == t' then moved_view (get_balance t' db) kind amount else get_balance t' db)
unfolding get_balance
get_balance-posted a t t' kind amount opts db =
    rw (balance_of-append, active_reserve-append)
      (elim (Bool-cases (t == t')) [ inl h ↦ rw h | inr h ↦ rw h ])

pub views_eq :
    (v w : BalanceView)
    → v.balance ≡ w.balance
    → v.reserved ≡ w.reserved
    → v.available ≡ w.available
    → v ≡ w
views_eq v w p q r = λ i. record { balance = p i; reserved = q i; available = r i }

pub get_balance-own :
    (a : Account) (t : ℕ) (kind : LedgerKind) (amount : ℤ) (opts : Opts) (db : Db)
    → get_balance t (posted a t kind amount opts db) ≡ moved_view (get_balance t db) kind amount
get_balance-own a t kind amount opts db =
    get_balance-posted a t t kind amount opts db ∙ rw (==_refl t)

pub reserve_view :
    (t : ℕ) (amount : ℤ) (db : Db)
    → moved_view (get_balance t db) reserve amount ≡ record {
      balance = (get_balance t db).balance;
      reserved = (get_balance t db).reserved +ℤ amount;
      available = (get_balance t db).available -ℤ amount;
    }
unfolding get_balance
reserve_view t amount db = views_eq _ _ (omega int_laws) refl (omega int_laws)

pub settle_view :
    (t : ℕ) (amount : ℤ) (db : Db)
    → moved_view (get_balance t db) settle amount ≡ record {
      balance = (get_balance t db).balance -ℤ amount;
      reserved = (get_balance t db).reserved;
      available = (get_balance t db).available -ℤ amount;
    }
unfolding get_balance
settle_view t amount db = views_eq _ _ (omega int_laws) (omega int_laws) (omega int_laws)

-- A release after a reservation of the same amount.
pub released_view :
    (t : ℕ) (amount : ℤ) (db : Db)
    → moved_view (moved_view (get_balance t db) reserve amount) release amount ≡ get_balance t db
unfolding get_balance
released_view t amount db = views_eq _ _ (omega int_laws) (omega int_laws) (omega int_laws)
