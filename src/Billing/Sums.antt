-- ===== src/Billing/Sums.antt =====
-- How the two sums over the journal move when an entry is added.
use mathlib.Core.List.{foldl-append}
use mark_solutions.Base.{
  ℕ, ◌≡◌, refl, inl, inr, Bool, ◌&&◌, List, [], ◌∷◌, ◌++◌, foldl, ◌==◌, if◌then◌else◌, Bool-cases,
  filter, filter-append,
}
use mark_solutions.Base.Int.{ℤ, pos, ◌+ℤ◌, ◌-ℤ◌, neg, int_laws}
use mark_solutions.Store.{LedgerKind, topup, reserve, release, settle, LedgerEntry}
use mark_solutions.Billing.Ledger.{
  kind_eq, is_hold, is_cash, reserve_step, balance_step, active_reserve, balance_of,
}

-- A sum over the entries that pass a test, when one more entry is written.
foldl-filter-append :
    (step : ℤ → LedgerEntry → ℤ) (p : LedgerEntry → Bool) (rows : List LedgerEntry)
    (e : LedgerEntry)
    → foldl step (pos 0) (filter p (rows ++ (e ∷ []))) ≡ (
        if p e
        then step (foldl step (pos 0) (filter p rows)) e
        else foldl step (pos 0) (filter p rows))
foldl-filter-append step p rows e = rw filter-append (elim (Bool-cases (p e)) [
  | inl h ↦ rw h (foldl-append step (pos 0) (filter p rows) (e ∷ []))
  | inr h ↦ rw h (foldl-append step (pos 0) (filter p rows) [])
])

-- What a posting adds to the balance, and to the reserve.
abbrev pub cash_of : LedgerKind → ℤ → ℤ
cash_of topup amount = amount
cash_of settle amount = neg amount
cash_of _ amount = pos 0

abbrev pub hold_of : LedgerKind → ℤ → ℤ
hold_of reserve amount = amount
hold_of release amount = neg amount
hold_of _ amount = pos 0

balance_step-cash_of :
    (acc : ℤ) (e : LedgerEntry)
    → (if is_cash e.kind then balance_step acc e else acc) ≡ acc +ℤ cash_of e.kind e.amount
balance_step-cash_of acc e = by_kind e.kind e.amount
  where
    by_kind :
        (k : LedgerKind) (a : ℤ)
        → (if is_cash k then (if kind_eq k topup then acc +ℤ a else acc -ℤ a) else acc)
          ≡ acc +ℤ cash_of k a
    by_kind topup a = refl
    by_kind reserve a = omega int_laws
    by_kind release a = omega int_laws
    by_kind settle a = omega int_laws

reserve_step-hold_of :
    (acc : ℤ) (e : LedgerEntry)
    → (if is_hold e.kind then reserve_step acc e else acc) ≡ acc +ℤ hold_of e.kind e.amount
reserve_step-hold_of acc e = by_kind e.kind e.amount
  where
    by_kind :
        (k : LedgerKind) (a : ℤ)
        → (if is_hold k then (if kind_eq k reserve then acc +ℤ a else acc -ℤ a) else acc)
          ≡ acc +ℤ hold_of k a
    by_kind topup a = omega int_laws
    by_kind reserve a = refl
    by_kind release a = omega int_laws
    by_kind settle a = omega int_laws

pub balance_of-append :
    (t : ℕ) (rows : List LedgerEntry) (e : LedgerEntry)
    → balance_of t (rows ++ (e ∷ [])) ≡ (
        if e.tenant_id == t
        then balance_of t rows +ℤ cash_of e.kind e.amount
        else balance_of t rows)
unfolding balance_of
balance_of-append t rows e =
    rw (foldl-filter-append balance_step (λ x. (x.tenant_id == t) && is_cash x.kind) rows e)
      (elim (Bool-cases (e.tenant_id == t)) [
        | inl h ↦ rw h (balance_step-cash_of _ e)
        | inr h ↦ rw h
      ])

pub active_reserve-append :
    (t : ℕ) (rows : List LedgerEntry) (e : LedgerEntry)
    → active_reserve t (rows ++ (e ∷ [])) ≡ (
        if e.tenant_id == t
        then active_reserve t rows +ℤ hold_of e.kind e.amount
        else active_reserve t rows)
unfolding active_reserve
active_reserve-append t rows e =
    rw (foldl-filter-append reserve_step (λ x. (x.tenant_id == t) && is_hold x.kind) rows e)
      (elim (Bool-cases (e.tenant_id == t)) [
        | inl h ↦ rw h (reserve_step-hold_of _ e)
        | inr h ↦ rw h
      ])
