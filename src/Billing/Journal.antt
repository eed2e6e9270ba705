-- ===== src/Billing/Journal.antt =====
-- The journal that the client sees: one line for each posting, newest first, with the balance after it.
use mathlib.Core.List.{foldl-append, reverse-append, append-nil}
use mark_solutions.Base.{
  ℕ, ◌≡◌, refl, sym, ◌∙◌, ap, inl, inr, Bool, true, false, ◌&&◌, List, [], ◌∷◌, ◌++◌, foldl,
  reverse, ◌==◌, if◌then◌else◌, Bool-cases, filter, filter-append,
}
use mark_solutions.Base.Int.{ℤ, pos, ◌+ℤ◌, ◌-ℤ◌}
use mark_solutions.Store.{LedgerKind, topup, reserve, release, settle, LedgerEntry, Db}
use mark_solutions.Billing.Ledger.{kind_eq, is_cash, balance_step, balance_of}
use mark_solutions.Billing.{move, running_balances, ledger}

abbrev moved : ℤ → LedgerEntry → ℤ
moved running e = move e running

running_balances-append :
    (running : ℤ) (rows : List LedgerEntry) (e : LedgerEntry)
    → running_balances running (rows ++ (e ∷ []))
      ≡ running_balances running rows ++ ((e, move e (foldl moved running rows)) ∷ [])
unfolding running_balances
running_balances-append running [] e = refl
running_balances-append running (x ∷ rows) e = rw (running_balances-append (move x running) rows e)

-- Postings of a reserve leave the running balance where it is.
move_skips :
    (running : ℤ) (e : LedgerEntry)
    → moved running e ≡ (if is_cash e.kind then balance_step running e else running)
move_skips running e = by_kind e.kind e.amount
  where
    by_kind :
        (k : LedgerKind) (a : ℤ)
        → (if kind_eq k topup
            then running +ℤ a
            else if kind_eq k settle
            then running -ℤ a
            else running)
          ≡ (if is_cash k
              then (if kind_eq k topup then running +ℤ a else running -ℤ a)
              else running)
    by_kind topup a = refl
    by_kind reserve a = refl
    by_kind release a = refl
    by_kind settle a = refl

foldl-moved :
    (t : ℕ) (running : ℤ) (rows : List LedgerEntry)
    → foldl moved running (filter (λ e. e.tenant_id == t) rows)
      ≡ foldl balance_step running (filter (λ e. (e.tenant_id == t) && is_cash e.kind) rows)
foldl-moved t running [] = refl
foldl-moved t running (e ∷ rows) = elim (Bool-cases (e.tenant_id == t)) [
  | inr other ↦ rw other (foldl-moved t running rows)
  | inl own ↦ rw own (elim (Bool-cases (is_cash e.kind)) [
    | inl cash ↦ rw cash (
        ap (λ x. foldl moved x (filter (λ e. e.tenant_id == t) rows))
          (move_skips running e ∙ rw cash)
        ∙ foldl-moved t (balance_step running e) rows)
    | inr hold ↦ rw hold (
        ap (λ x. foldl moved x (filter (λ e. e.tenant_id == t) rows))
          (move_skips running e ∙ rw hold)
        ∙ foldl-moved t running rows)
  ])
]

filter-snoc_true :
    (p : LedgerEntry → Bool) (rows : List LedgerEntry) (e : LedgerEntry)
    → p e ≡ true
    → filter p (rows ++ (e ∷ [])) ≡ filter p rows ++ (e ∷ [])
filter-snoc_true p rows e h = filter-append p rows (e ∷ []) ∙ rw h

filter-snoc_false :
    (p : LedgerEntry → Bool) (rows : List LedgerEntry) (e : LedgerEntry)
    → p e ≡ false
    → filter p (rows ++ (e ∷ [])) ≡ filter p rows
filter-snoc_false p rows e h = filter-append p rows (e ∷ []) ∙ rw h (append-nil (filter p rows))

module _ (t : ℕ) (rows : List LedgerEntry) (e : LedgerEntry) (own : (e.tenant_id == t) ≡ true) where
  abbrev mine : LedgerEntry → Bool
  mine x = x.tenant_id == t

  balance_after : move e (foldl moved (pos 0) (filter mine rows)) ≡ balance_of t (rows ++ (e ∷ []))
  unfolding balance_of
  balance_after =
      sym (foldl-append moved (pos 0) (filter mine rows) (e ∷ []))
      ∙ ap (foldl moved (pos 0)) (sym (filter-snoc_true mine rows e own))
      ∙ foldl-moved t (pos 0) (rows ++ (e ∷ []))

  lines_after :
      reverse (running_balances (pos 0) (filter mine (rows ++ (e ∷ []))))
      ≡ (e, balance_of t (rows ++ (e ∷ []))) ∷ reverse (running_balances (pos 0) (filter mine rows))
  lines_after =
      ap (λ r. reverse (running_balances (pos 0) r)) (filter-snoc_true mine rows e own)
      ∙ ap reverse (running_balances-append (pos 0) (filter mine rows) e)
      ∙ reverse-append (running_balances (pos 0) (filter mine rows)) _
      ∙ ap (λ b. (e, b) ∷ reverse (running_balances (pos 0) (filter mine rows))) balance_after

-- A new posting of the tenant stands first, with the tenant's whole balance beside it, over the
-- journal as it was; a posting of another tenant does not show.
pub ledger-append :
    (t : ℕ) (db : Db) (e : LedgerEntry)
    → ledger t (record db { ledger = db.ledger ++ (e ∷ []) }) ≡ (
        if e.tenant_id == t
        then (e, balance_of t (db.ledger ++ (e ∷ []))) ∷ ledger t db
        else ledger t db)
unfolding ledger
ledger-append t db e = elim (Bool-cases (e.tenant_id == t)) [
  | inl own ↦ rw own (lines_after t db.ledger e own)
  | inr other ↦ rw other (
      ap (λ r. reverse (running_balances (pos 0) r))
        (filter-snoc_false (λ x. x.tenant_id == t) db.ledger e other))
]
