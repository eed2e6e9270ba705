-- ===== src/Billing/Books.antt =====
-- The books as a whole: besides a sound ledger, nothing is posted twice, and whatever is released was
-- reserved.

use mark_solutions.Base.{
  ℕ, ◌≡◌, refl, ◌∙◌, false, Option, none, some, List, [], ◌∷◌, ◌++◌, arith, find, find-append, All,
  All-append, any,
}
use mark_solutions.Base.Int.{ℤ}
use mark_solutions.Store.{LedgerKind, topup, reserve, release, settle, LedgerEntry}
use mark_solutions.Billing.Ledger.{violates_unique, is_identity}

-- No two postings are of the same payment, or of the same kind for one order.
abbrev pub Single : List LedgerEntry → Type 0
Single [] = Unit
Single (e ∷ rows) = All (λ later. violates_unique later e ≡ false) rows × Single rows

-- What is released for an order was reserved for it, by the same tenant.
abbrev pub HasReserve : List LedgerEntry → ℕ → ℤ → LedgerKind → Option ℕ → Type 0
HasReserve rows t amount release none = ⊥
HasReserve rows t amount release (some o) =
    (r : LedgerEntry) × (find (is_identity t reserve o) rows ≡ some r) × (r.amount ≡ amount)
HasReserve rows t amount topup o = Unit
HasReserve rows t amount reserve o = Unit
HasReserve rows t amount settle o = Unit

abbrev pub IsBacked : List LedgerEntry → LedgerEntry → Type 0
IsBacked rows e = HasReserve rows e.tenant_id e.amount e.kind e.ref_order_id

pub Single-append :
    (rows : List LedgerEntry) (new : LedgerEntry)
    → Single rows
    → any (violates_unique new) rows ≡ false
    → Single (rows ++ (new ∷ []))
Single-append [] new s free = (tt, tt)
Single-append (e ∷ rows) new (later, s) free = (
  All-append (λ x. violates_unique x e ≡ false) rows (new ∷ []) later (ground arith, tt),
  Single-append rows new s (ground arith),
)

-- A further posting leaves what backs a release.
HasReserve-append :
    (rows : List LedgerEntry) (new : LedgerEntry) (t : ℕ) (amount : ℤ) (kind : LedgerKind)
    (o : Option ℕ)
    → HasReserve rows t amount kind o
    → HasReserve (rows ++ (new ∷ [])) t amount kind o
HasReserve-append rows new t amount release none h = h
HasReserve-append rows new t amount release (some o) (r, found, same) =
    (r, find-append (is_identity t reserve o) rows new ∙ rw found refl, same)
HasReserve-append rows new t amount topup o h = tt
HasReserve-append rows new t amount reserve o h = tt
HasReserve-append rows new t amount settle o h = tt

All-IsBacked :
    (rows some_rows : List LedgerEntry) (new : LedgerEntry)
    → All (IsBacked rows) some_rows
    → All (IsBacked (rows ++ (new ∷ []))) some_rows
All-IsBacked rows [] new h = tt
All-IsBacked rows (e ∷ rest) new (h, hs) = (
  HasReserve-append rows new e.tenant_id e.amount e.kind e.ref_order_id h,
  All-IsBacked rows rest new hs,
)

pub IsBacked-append :
    (rows : List LedgerEntry) (new : LedgerEntry)
    → All (IsBacked rows) rows
    → IsBacked rows new
    → All (IsBacked (rows ++ (new ∷ []))) (rows ++ (new ∷ []))
IsBacked-append rows new h backed =
    All-append (IsBacked (rows ++ (new ∷ []))) rows (new ∷ []) (All-IsBacked rows rows new h)
      (HasReserve-append rows new new.tenant_id new.amount new.kind new.ref_order_id backed, tt)
