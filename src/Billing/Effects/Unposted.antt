-- ===== src/Billing/Effects/Unposted.antt =====
-- An order that has no posting of a kind yet.
use mark_solutions.Base.{
  ℕ, ◌≡◌, Bool, true, false, ◌&&◌, Option, none, some, List, arith, holds, find, any, any_weaken,
  find-any,
}
use mark_solutions.Base.Int.{ℤ, pos, ◌-ℤ◌, ◌≤ℤ◌}
use mark_solutions.Store.{LedgerKind, LedgerEntry}
use mark_solutions.Billing.Ledger.{kind_eq, violates_unique, is_identity}
use mark_solutions.Billing.{
  Opts, existing_entry, find_opt, refuses, entry_of, is_not_positive, covers,
}

-- The order has no posting of this kind, of any tenant.
abbrev pub IsUnposted : LedgerKind → ℕ → List LedgerEntry → Type 0
IsUnposted kind o rows = any (λ e. holds e.ref_order_id o && kind_eq e.kind kind) rows ≡ false

pub unposted-free :
    (t account_id o : ℕ) (kind : LedgerKind) (amount : ℤ) (opts : Opts) (rows : List LedgerEntry)
    → opts.ref_order_id ≡ some o
    → opts.ref_1c ≡ none
    → IsUnposted kind o rows
    → any (violates_unique (entry_of account_id t kind amount opts)) rows ≡ false
unfolding violates_unique
unposted-free t account_id o kind amount opts rows ref unpaid h =
    any_weaken _ (violates_unique (entry_of account_id t kind amount opts)) rows
      (λ e clash. ground (arith, ref, unpaid, clash)) h

pub unposted-none :
    (t o : ℕ) (kind : LedgerKind) (rows : List LedgerEntry)
    → IsUnposted kind o rows
    → find (is_identity t kind o) rows ≡ none
unposted-none t o kind rows h =
    find-any _ rows (any_weaken _ (is_identity t kind o) rows (λ e k. ground (arith, k)) h)

pub unposted-new :
    (t o : ℕ) (kind : LedgerKind) (opts : Opts) (rows : List LedgerEntry)
    → opts.ref_order_id ≡ some o
    → opts.ref_1c ≡ none
    → IsUnposted kind o rows
    → existing_entry t kind opts rows ≡ none
unfolding existing_entry
unposted-new t o kind opts rows ref unpaid h =
    ground (arith, ref, unpaid, unposted-none t o kind rows h)

-- Where nothing is there to repeat, the order has no posting of the kind.
pub repeated_none :
    (t : ℕ) (kind : LedgerKind) (opts : Opts) (rows : List LedgerEntry)
    → opts.ref_1c ≡ none
    → existing_entry t kind opts rows ≡ none
    → find_opt (is_identity t kind) opts.ref_order_id rows ≡ none
unfolding existing_entry
repeated_none t kind opts rows unpaid h = ground (arith, rw unpaid at h)

pub unrepeated :
    (t : ℕ) (kind : LedgerKind) (opts : Opts) (rows : List LedgerEntry)
    → opts.ref_1c ≡ none
    → find_opt (is_identity t kind) opts.ref_order_id rows ≡ none
    → existing_entry t kind opts rows ≡ none
unfolding existing_entry
unrepeated t kind opts rows unpaid h = ground (arith, unpaid, h)

-- What the methods for reserving and for settling post.
abbrev pub order_opts : ℕ → ℤ → Option (ℤ → ℤ → Bool) → Opts
order_opts o delta check = record {
  ref_order_id = some o;
  ref_1c = none;
  delta = delta;
  check_available = check;
}

pub passes_of_covered :
    (amount balance reserved : ℤ)
    → amount ≤ℤ balance -ℤ reserved
    → refuses (some (covers amount)) balance reserved ≡ false
passes_of_covered amount balance reserved h = ground (arith, h)

pub short_of_uncovered :
    (amount balance reserved : ℤ)
    → ¬ (amount ≤ℤ balance -ℤ reserved)
    → refuses (some (covers amount)) balance reserved ≡ true
short_of_uncovered amount balance reserved h = ground (arith, h)

pub test_of_positive : (amount : ℤ) → pos 1 ≤ℤ amount → is_not_positive amount ≡ false
test_of_positive amount h = ground (arith, h)
