-- ===== src/Billing/Guarantee.antt =====
-- What one call of the service does to the others: run in a transaction of its own, it keeps what
-- the calls that run beside it rely on.
mod Relying
use mark_solutions.Base.{
  ℕ, ◌≤◌, ◌≡◌, refl, ◌∙◌, inl, inr, false, none, some, List, [], ◌∷◌, arith, ◌==◌, ==_refl,
  Bool-cases, Option-cases, find, edit, find-All, find-append, any,
}
use mark_solutions.Base.Int.{ℤ, pos, ◌+ℤ◌, ◌≤ℤ◌}
use mark_solutions.Store.{
  Account, LedgerKind, reserve, release, settle, LedgerEntry, Db, Result, ok, err, then_gives,
  committed, transaction,
}
use mark_solutions.Billing.Ledger.{active_reserve, violates_unique, is_identity}
use mark_solutions.Billing.Sums.{cash_of, active_reserve-append}
use mark_solutions.Billing.Invariant.{
  account_of, account_of-swap, Sound, posted, IsPostable, posted-Sound,
}
use mark_solutions.Billing.Quiet.{
  apply_on_repeats, apply_on-refuses, apply_on_posts, apply_on_clashes, apply_on_lost,
}
use mark_solutions.Billing.Effects.{repeated_none}
use mark_solutions.Billing.Contention.{
  Rely, Obeys, EndsSound, IsGuarded, affords, positive_of_test, reserve_on-EndsSound,
  settle_on-EndsSound, release_on-EndsSound,
}
use mark_solutions.Billing.{
  Rivals, quiet, Opts, Posting, existing_entry, refuses, entry_of, set_balance, has_version,
  apply_on, is_not_positive, take_entry, reserve_on, release_on, settle_on,
}
pub use Relying.*

-- The calls of the service about an order's money.
pub data Call : Type 0 where
  reserving settling : ℕ → ℕ → ℤ → Call
  releasing : ℕ → ℕ → Call

-- What a call leaves that runs in a transaction of its own, as the placing of an order, the settlement
-- of a report and the ticks of the poller do. `POST /billing/reserve`, `/settle` and `/release` and the
-- cancellation of an order (apps/api/src/billing.controller.ts, order.service.ts) run without one: their
-- compare-and-swap is committed before the entry is there, and they are no calls in this sense.
abbrev pub run_call : Call → Db → Db
run_call (reserving t o amount) db = (transaction (reserve_on quiet t o amount) db).1
run_call (settling t o amount) db = (transaction (settle_on quiet t o amount) db).1
run_call (releasing t o) db = (transaction (release_on quiet t o) db).1

abbrev pub run_calls : List Call → Db → Db
run_calls [] db = db
run_calls (c ∷ calls) db = run_calls calls (run_call c db)

-- The calls of other processes that commit between the steps of each attempt.
abbrev pub rivals_of : (ℕ → List Call) → (ℕ → List Call) → Rivals
rivals_of first second = record {
  between_reads = λ i. run_calls (first i);
  before_update = λ i. run_calls (second i);
}

module _ (t' t : ℕ) (db : Db) (s : Sound db) where
  reserve_on-Rely : (o : ℕ) (amount : ℤ) → Rely t db (left_by (reserve_on quiet t' o amount db) db)
  unfolding reserve_on
  reserve_on-Rely o amount = elim (Bool-cases (is_not_positive amount)) [
    | inl bad ↦ rw bad (Rely-refl t db s)
    | inr good ↦
        rw (good, taken)
          (apply_on-Rely reserve amount _ refl (positive_of_test amount good) refl refl t' t db s)
  ]

  settle_on-Rely : (o : ℕ) (amount : ℤ) → Rely t db (left_by (settle_on quiet t' o amount db) db)
  unfolding settle_on
  settle_on-Rely o amount = elim (Bool-cases (is_not_positive amount)) [
    | inl bad ↦ rw bad (Rely-refl t db s)
    | inr good ↦
        rw (good, taken)
          (apply_on-Rely settle amount _ refl (positive_of_test amount good) refl refl t' t db s)
  ]

  release_on-Rely : (o : ℕ) → Rely t db (left_by (release_on quiet t' o db) db)
  unfolding release_on
  release_on-Rely o = elim (Option-cases (find (is_identity t' reserve o) db.ledger)) [
    | inl absent ↦ rw absent (Rely-refl t db s)
    | inr (e, held) ↦
        let some_amount =
          find-All (λ x. pos 1 ≤ℤ x.amount) (is_identity t' reserve o) db.ledger held s.positive in
        rw (held, taken) (apply_on-Rely release e.amount _ refl some_amount tt refl t' t db s)
  ]

call-Rely : (t : ℕ) (c : Call) (db : Db) → Sound db → Rely t db (run_call c db)
call-Rely t (reserving t' o amount) db s = reserve_on-Rely t' t db s o amount
call-Rely t (settling t' o amount) db s = settle_on-Rely t' t db s o amount
call-Rely t (releasing t' o) db s = release_on-Rely t' t db s o

calls-Rely : (t : ℕ) (calls : List Call) (db : Db) → Sound db → Rely t db (run_calls calls db)
calls-Rely t [] db s = Rely-refl t db s
calls-Rely t (c ∷ calls) db s =
    let first = call-Rely t c db s in
    Rely-trans t db (run_call c db) (run_calls calls (run_call c db)) first
      (calls-Rely t calls (run_call c db) first.sound)

pub rivals_of-Obeys : (t : ℕ) (first second : ℕ → List Call) → Obeys t (rivals_of first second)
rivals_of-Obeys t first second = record {
  between_reads = λ i db s. calls-Rely t (first i) db s;
  before_update = λ i db s. calls-Rely t (second i) db s;
}

-- From a sound ledger any sequence of reservations, settlements and releases, of any tenants, each
-- in a transaction of its own, ends in a sound ledger: every balance is the sum of its journal, and
-- no tenant has more reserved than it holds.
pub run_calls-Sound : (calls : List Call) (db : Db) → Sound db → Sound (run_calls calls db)
run_calls-Sound calls db s = (calls-Rely 0 calls db s).sound

-- A reservation, a settlement or a release that runs in a transaction ends in a sound ledger even where
-- others, of any tenants, each in a transaction of its own, commit between its reads and before its
-- compare-and-swap, in each of its attempts. Where the unique index is violated, nothing is stated: the
-- transaction is then undone. Calls outside a transaction are not covered, on either side.
pub call_among_calls-EndsSound :
    (t o : ℕ) (amount : ℤ) (first second : ℕ → List Call) (db : Db)
    → Sound db
    → EndsSound (reserve_on (rivals_of first second) t o amount db)
      × EndsSound (settle_on (rivals_of first second) t o amount db)
      × EndsSound (release_on (rivals_of first second) t o db)
call_among_calls-EndsSound t o amount first second db s =
    let r = rivals_of first second in
    let obeys = rivals_of-Obeys t first second in
    (
      reserve_on-EndsSound t r obeys db s o amount,
      settle_on-EndsSound t r obeys db s o amount,
      release_on-EndsSound t r obeys db s o,
    )
