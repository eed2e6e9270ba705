-- ===== src/Billing/Contention.antt =====
-- `applyOn` while other processes commit: whatever they do, as long as each of them keeps the
-- invariant and raises the version of an account that it touches, so does the call.
mod OneTurn
pub use OneTurn.{Rely, Obeys, EndsSound, IsGuarded, affords, post-clash, post-free}
use mark_solutions.Base.{
  ℕ, zero, suc, ◌≡◌, refl, ◌∙◌, inl, inr, Bool, true, false, Option, none, some, List, arith,
  Option-cases, Bool-cases, find, find-All,
}
use mark_solutions.Base.Int.{ℤ, pos, neg, ◌≤ℤ◌, leb_ℤ, int_laws, lt_of_leb_ℤ}
use mark_solutions.Store.{
  Account, LedgerKind, topup, reserve, release, settle, LedgerEntry, Db, Error, p2002, Result, ok,
  err, Action, then_gives, caught, pure,
}
use mark_solutions.Billing.Ledger.{is_identity}
use mark_solutions.Billing.Sums.{cash_of}
use mark_solutions.Billing.Invariant.{account_of, Sound, find-has_id}
use mark_solutions.Billing.{
  Rivals, Opts, Posting, Turn, done, retry, owned_by, has_id, find_opt, get_account, recover, turn,
  turn_at, attempts, apply_on, is_not_positive, take_entry, reserve_on, release_on, settle_on,
}
use OneTurn.{TurnEnds, turn_at-TurnEnds}

-- An amount that passes `amount <= 0` is at least one.
pub positive_of_test : (amount : ℤ) → is_not_positive amount ≡ false → pos 1 ≤ℤ amount
positive_of_test amount h = omega (arith, lt_of_leb_ℤ amount (pos 0) h)

-- With no entry to fall back on, the handler throws the violation again.
pub recover_lem :
    (t : ℕ) (kind : LedgerKind) (opts : Opts) (db : Db)
    → opts.ref_1c ≡ none
    → find_opt (is_identity t kind) opts.ref_order_id db.ledger ≡ none
    → recover t kind opts p2002 db ≡ (err p2002, db)
unfolding recover
recover_lem t kind opts db unpaid fresh = rw (unpaid, fresh)

module _ (t : ℕ) (kind : LedgerKind) (amount : ℤ) (opts : Opts)
    (moves : opts.delta ≡ cash_of kind amount) (positive : pos 1 ≤ℤ amount)
    (guarded : IsGuarded kind amount opts) (r : Rivals) (obeys : Obeys t r)
    (unpaid : opts.ref_1c ≡ none) where
  abbrev Ends : ℕ → Result Turn × Db → Type 0
  Ends = TurnEnds t kind amount opts moves positive guarded

  turn-Ends :
      (i : ℕ) (db : Db) (a : Account)
      → Sound db
      → account_of t db ≡ some a
      → Ends a.id (turn r a.id t kind amount opts i db)
  unfolding turn
  turn-Ends i db a s mine = rw (find-has_id t db.accounts s.keyed mine) (
      turn_at-TurnEnds t kind amount opts moves positive guarded r obeys unpaid i db
        (r.between_reads i db) a s (obeys.between_reads i db s) mine)

  attempts-EndsSound :
      (left i : ℕ) (db : Db) (a : Account)
      → Sound db
      → account_of t db ≡ some a
      → EndsSound (attempts r left i a.id t kind amount opts db)
  unfolding attempts recover
  attempts-EndsSound zero i db a s mine = s
  attempts-EndsSound (suc left) i db a s mine =
      go (turn r a.id t kind amount opts i db) (turn-Ends i db a s mine)
        (attempts-EndsSound left (suc i))
    where
      go :
          (m : Result Turn × Db)
          → Ends a.id m
          → ((db' : Db) (b : Account)
              → Sound db'
              → account_of t db' ≡ some b
              → EndsSound (attempts r left (suc i) b.id t kind amount opts db'))
          → EndsSound (
              then_gives (caught m (recover t kind opts)) (elim [
                | done p ↦ pure p
                | retry ↦ attempts r left (suc i) a.id t kind amount opts
              ]))
      go (ok (done p), db') h ih = h
      go (ok retry, db') (s', b, mine', same) ih = rw (← same) (ih db' b s' mine')
      go (err p2002, db') h ih = rw (recover_lem t kind opts db' unpaid h) tt
      go (err e, db') h ih = h

  pub apply_on-EndsSound : (db : Db) → Sound db → EndsSound (apply_on r t kind amount opts db)
  unfolding apply_on get_account
  apply_on-EndsSound db s = elim (Option-cases (account_of t db)) [
    | inl absent ↦ rw absent s
    | inr (a, mine) ↦ rw mine (attempts-EndsSound 3 0 db a s mine)
  ]

entry_EndsSound : (m : Result Posting × Db) → EndsSound m → EndsSound (then_gives m take_entry)
entry_EndsSound (ok p, db) h = h
entry_EndsSound (err p2002, db) h = tt
entry_EndsSound (err e, db) h = h

module _ (t : ℕ) (r : Rivals) (obeys : Obeys t r) (db : Db) (s : Sound db) where
  -- Whatever other processes commit meanwhile, a reservation leaves no tenant with more reserved
  -- than it holds, no balance that differs from the journal and no two accounts in one: it posts
  -- the reserve, returns the one that the order has, or refuses.
  pub reserve_on-EndsSound :
      (order_id : ℕ) (amount : ℤ) → EndsSound (reserve_on r t order_id amount db)
  unfolding reserve_on
  reserve_on-EndsSound order_id amount = elim (Bool-cases (is_not_positive amount)) [
    | inl bad ↦ rw bad s
    | inr good ↦ rw good (
        entry_EndsSound _ (
          apply_on-EndsSound t reserve amount _ refl (positive_of_test amount good) refl r obeys
            refl db s))
  ]

  pub settle_on-EndsSound :
      (order_id : ℕ) (amount : ℤ) → EndsSound (settle_on r t order_id amount db)
  unfolding settle_on
  settle_on-EndsSound order_id amount = elim (Bool-cases (is_not_positive amount)) [
    | inl bad ↦ rw bad s
    | inr good ↦ rw good (
        entry_EndsSound _ (
          apply_on-EndsSound t settle amount _ refl (positive_of_test amount good) refl r obeys refl
            db s))
  ]

  pub release_on-EndsSound : (order_id : ℕ) → EndsSound (release_on r t order_id db)
  unfolding release_on
  release_on-EndsSound order_id =
      elim (Option-cases (find (is_identity t reserve order_id) db.ledger)) [
        | inl absent ↦ rw absent s
        | inr (e, held) ↦
            let some_amount =
              find-All (λ x. pos 1 ≤ℤ x.amount) (is_identity t reserve order_id) db.ledger held
                s.positive in
            rw held (
              entry_EndsSound _
                (apply_on-EndsSound t release e.amount _ refl some_amount tt r obeys refl db s))
      ]
