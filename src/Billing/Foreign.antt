-- ===== src/Billing/Foreign.antt =====
-- Tenants beside one another: a method of one leaves the sums of the others alone, and what the
-- unique index over all tenants does to a settlement that runs outside a transaction.
use mark_solutions.Base.{
  ℕ, ◌≡◌, refl, ◌∙◌, ap, ◌≢◌, inl, inr, true, false, none, some, arith, ◌==◌, ==_refl, Bool-cases,
  Option-cases, find, any,
}
use mark_solutions.Base.Int.{ℤ, pos, pos_part, neg_part, ◌+ℤ◌, ◌-ℤ◌, ◌≤ℤ◌, neg, int_laws}
use mark_solutions.Store.{
  Account, LedgerKind, reserve, release, settle, Db, p2002, Result, ok, err, then_gives,
}
use mark_solutions.Billing.Ledger.{active_reserve, balance_of, violates_unique, is_identity}
use mark_solutions.Billing.Invariant.{Keyed, account_of, account_of-swap, Sound}
use mark_solutions.Billing.Quiet.{
  apply_on_repeats, apply_on-refuses, apply_on_posts, apply_on_clashes, apply_on_lost,
}
use mark_solutions.Billing.Effects.{
  order_opts, test_of_positive, passes_of_covered, repeated_none, unrepeated,
}
use mark_solutions.Billing.Cycle.{get_balance-posted}
use mark_solutions.Billing.{
  quiet, Opts, Posting, existing_entry, refuses, entry_of, swapped, set_balance, apply_on,
  is_not_positive, covers, take_entry, reserve_on, release_on, settle_on, get_balance,
}

-- Another tenant's view of the ledger.
module _ (t t' : ℕ) (other : t' ≢ t) (db : Db) (keyed : Keyed db.accounts) where
  abbrev OthersKept : {A : Type 0} → Result A × Db → Type 0
  OthersKept m = get_balance t' m.1 ≡ get_balance t' db

  differs : (t == t') ≡ false
  differs = ground (arith, other)

  clash_keeps : (a : Account) (opts : Opts) → get_balance t' (swapped a opts db) ≡ get_balance t' db
  unfolding get_balance
  clash_keeps a opts = refl

  module _ (kind : LedgerKind) (amount : ℤ) (opts : Opts) (unpaid : opts.ref_1c ≡ none) where
    new_posting-others :
        (a : Account)
        → account_of t db ≡ some a
        → existing_entry t kind opts db.ledger ≡ none
        → refuses opts.check_available a.balance (active_reserve t db.ledger) ≡ false
        → OthersKept (apply_on quiet t kind amount opts db)
    new_posting-others a mine new passed =
        elim (Bool-cases (any (violates_unique (entry_of a.id t kind amount opts)) db.ledger)) [
          | inl clash ↦
              rw
                (apply_on_clashes t kind amount opts db a keyed mine new unpaid
                  (repeated_none t kind opts db.ledger unpaid new) passed clash)
                (clash_keeps a opts)
          | inr free ↦
              rw (apply_on_posts t kind amount opts db a keyed mine new passed free)
                (get_balance-posted a t t' kind amount opts db ∙ rw differs)
        ]

    apply_on-others : OthersKept (apply_on quiet t kind amount opts db)
    apply_on-others = elim (Option-cases (account_of t db)) [
      | inl absent ↦ rw (apply_on_lost t kind amount opts db absent)
      | inr (a, mine) ↦ elim (Option-cases (existing_entry t kind opts db.ledger)) [
        | inr (e, old) ↦ rw (apply_on_repeats t kind amount opts db a keyed mine e old)
        | inl new ↦
            elim (Bool-cases
              (refuses opts.check_available a.balance (active_reserve t db.ledger))) [
                | inl short ↦ rw (apply_on-refuses t kind amount opts db a keyed mine new short)
                | inr passed ↦ new_posting-others a mine new passed
              ]
      ]
    ]

  taken : (m : Result Posting × Db) → OthersKept m → OthersKept (then_gives m take_entry)
  taken (ok p, db') h = h
  taken (err e, db') h = h

  reserve_on-others : (o : ℕ) (amount : ℤ) → OthersKept (reserve_on quiet t o amount db)
  unfolding reserve_on
  reserve_on-others o amount = elim (Bool-cases (is_not_positive amount)) [
    | inl bad ↦ rw bad
    | inr good ↦ rw good (taken _ (apply_on-others reserve amount _ refl))
  ]

  settle_on-others : (o : ℕ) (amount : ℤ) → OthersKept (settle_on quiet t o amount db)
  unfolding settle_on
  settle_on-others o amount = elim (Bool-cases (is_not_positive amount)) [
    | inl bad ↦ rw bad
    | inr good ↦ rw good (taken _ (apply_on-others settle amount _ refl))
  ]

  release_on-others : (o : ℕ) → OthersKept (release_on quiet t o db)
  unfolding release_on
  release_on-others o = elim (Option-cases (find (is_identity t reserve o) db.ledger)) [
    | inl absent ↦ rw absent
    | inr (e, held) ↦ rw held (taken _ (apply_on-others release e.amount _ refl))
  ]

  -- Whatever a reservation, a settlement or a release of one tenant comes to, success or error, the
  -- balance, the reserve and what is available of every other tenant stay as they were.
  pub order_methods-others :
      (o : ℕ) (amount : ℤ)
      → (get_balance t' (reserve_on quiet t o amount db).1 ≡ get_balance t' db)
        × (get_balance t' (settle_on quiet t o amount db).1 ≡ get_balance t' db)
        × (get_balance t' (release_on quiet t o db).1 ≡ get_balance t' db)
  order_methods-others o amount =
      (reserve_on-others o amount, settle_on-others o amount, release_on-others o)

module _ (t o : ℕ) (amount : ℤ) (db : Db) (a : Account) (s : Sound db)
    (mine : account_of t db ≡ some a) (positive : pos 1 ≤ℤ amount)
    (covered : amount ≤ℤ a.balance -ℤ active_reserve t db.ledger)
    (own : find (is_identity t settle o) db.ledger ≡ none) where
  abbrev opts : Opts
  opts = order_opts o (neg amount) (some (covers amount))

  -- A settlement for an order that has a settlement of another tenant fails on the unique index
  -- after the account was moved: outside a transaction the balance has lost the amount, the journal
  -- has no entry for it, and the cached balance is no longer the sum of the journal.
  pub settle_foreign_order :
      any (violates_unique (entry_of a.id t settle amount opts)) db.ledger ≡ true
      → let (r, db') = settle_on quiet t o amount db in
        (r ≡ err p2002)
        × (db'.ledger ≡ db.ledger)
        × (account_of t db' ≡ some (set_balance (a.balance +ℤ neg amount) a))
        × ¬ Sound db'
  unfolding settle_on
  settle_foreign_order clash = rw (test_of_positive amount positive) (
      rw
        (apply_on_clashes t settle amount opts db a s.keyed mine
          (unrepeated t settle opts db.ledger refl own) refl own
          (passes_of_covered amount a.balance (active_reserve t db.ledger) covered) clash)
        (refl, refl, moved, λ s'. broken (s'.cached t _ moved)))
    where
      moved : account_of t (swapped a opts db) ≡ some (set_balance (a.balance +ℤ neg amount) a)
      moved =
          account_of-swap t a (a.balance +ℤ neg amount) db.accounts
          ∙ rw mine (rw (==_refl a.id, ==_refl a.version))

      broken : ¬ (a.balance +ℤ neg amount ≡ balance_of t db.ledger)
      broken e = omega (
        int_laws,
        ap pos_part e,
        ap neg_part e,
        ap pos_part (s.cached t a mine),
        ap neg_part (s.cached t a mine),
      )
