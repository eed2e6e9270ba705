-- ===== src/Billing/Contention/OneTurn.antt =====
-- One turn of the retry loop of `applyOn` while other processes commit.
mod Conditions
use mark_solutions.Base.{
  ℕ, suc, ◌≡◌, refl, ap, ◌≤◌, inl, inr, ◌∙◌, ltb, true, false, Option, none, some, List, [], ◌∷◌,
  ◌++◌, arith, Bool-cases, Option-cases, find, any,
}
use mark_solutions.Base.Int.{ℤ, pos, ◌+ℤ◌, ◌-ℤ◌, ◌≤ℤ◌, pos_part, neg_part, int_laws, le_of_leb_ℤ}
use mark_solutions.Store.{
  Account, LedgerKind, topup, reserve, release, settle, LedgerEntry, Db, p2002, Result, ok, err,
  then_gives,
}
use mark_solutions.Billing.Ledger.{active_reserve, violates_unique, create_entry, is_identity}
use mark_solutions.Billing.Sums.{cash_of}
use mark_solutions.Billing.Invariant.{
  account_of, Sound, find-has_id, find-has_version, posted, IsPostable, posted-Sound,
}
use mark_solutions.Billing.{
  Rivals, Opts, Turn, done, retry, has_version, swap, entry_of, return_entry, existing_entry,
  find_opt, refuses, covers, post, post_if_current, turn_at,
}
pub use Conditions.*

module _ (t : ℕ) (kind : LedgerKind) (amount : ℤ) (opts : Opts)
    (moves : opts.delta ≡ cash_of kind amount) (positive : pos 1 ≤ℤ amount)
    (guarded : IsGuarded kind amount opts) where
  -- The posting is covered where the test of the funds has passed on the same balance and reserve.
  pub affords :
      (db : Db) (a : Account)
      → Sound db
      → account_of t db ≡ some a
      → refuses opts.check_available a.balance (active_reserve t db.ledger) ≡ false
      → IsPostable t kind amount opts db
  affords db a s mine passed = by_kind kind moves guarded
    where
      by_kind :
          (k : LedgerKind)
          → opts.delta ≡ cash_of k amount
          → IsGuarded k amount opts
          → IsPostable t k amount opts db
      by_kind topup m g = record {
        moves = m;
        positive = positive;
        affords = omega (int_laws, s.solvent t);
      }
      by_kind release m g = record {
        moves = m;
        positive = positive;
        affords = omega (int_laws, s.solvent t);
      }
      by_kind reserve m g = record {
        moves = m;
        positive = positive;
        affords = omega (
          int_laws,
          ap pos_part (s.cached t a mine),
          ap neg_part (s.cached t a mine),
          covered amount a.balance (active_reserve t db.ledger) opts g passed,
        );
      }
      by_kind settle m g = record {
        moves = m;
        positive = positive;
        affords = omega (
          int_laws,
          ap pos_part (s.cached t a mine),
          ap neg_part (s.cached t a mine),
          covered amount a.balance (active_reserve t db.ledger) opts g passed,
        );
      }

  -- How one turn of the loop ends: after a `continue` the account is still there, and after a
  -- violated index the order has no entry of this kind that could be returned instead.
  abbrev pub TurnEnds : ℕ → Result Turn × Db → Type 0
  TurnEnds id (ok (done p), db) = Sound db
  TurnEnds id (ok retry, db) = Sound db × (b : Account) × (account_of t db ≡ some b) × (b.id ≡ id)
  TurnEnds id (err p2002, db) = find_opt (is_identity t kind) opts.ref_order_id db.ledger ≡ none
  TurnEnds id (err e, db) = Sound db

  post-TurnEnds :
      (db : Db) (a : Account)
      → Sound db
      → account_of t db ≡ some a
      → refuses opts.check_available a.balance (active_reserve t db.ledger) ≡ false
      → find_opt (is_identity t kind) opts.ref_order_id db.ledger ≡ none
      → TurnEnds a.id (post a t kind amount opts db)
  post-TurnEnds db a s mine passed fresh =
      elim (Bool-cases (any (violates_unique (entry_of a.id t kind amount opts)) db.ledger)) [
        | inl clash ↦ rw (post-clash a t kind amount opts db clash) fresh
        | inr free ↦
            rw (post-free a t kind amount opts db free)
              (posted-Sound t kind amount opts db a s mine (affords db a s mine passed))
      ]

  same_entries :
      (order : Option ℕ) (db₁ db₂ : Db)
      → ((k : LedgerKind) (order_id : ℕ)
          → find (is_identity t k order_id) db₂.ledger ≡ find (is_identity t k order_id) db₁.ledger)
      → find_opt (is_identity t kind) order db₁.ledger ≡ none
      → find_opt (is_identity t kind) order db₂.ledger ≡ none
  same_entries none db₁ db₂ same h = refl
  same_entries (some o) db₁ db₂ same h = same kind o ∙ h

  module _ (r : Rivals) (obeys : Obeys t r) (unpaid : opts.ref_1c ≡ none) where
    no_entry :
        (rows : List LedgerEntry)
        → existing_entry t kind opts rows ≡ none
        → find_opt (is_identity t kind) opts.ref_order_id rows ≡ none
    unfolding existing_entry
    no_entry rows h = ground (arith, rw unpaid at h)

    post_if_current-TurnEnds :
        (i : ℕ) (db db₁ : Db) (a : Account)
        → Sound db
        → Rely t db db₁
        → account_of t db ≡ some a
        → refuses opts.check_available a.balance (active_reserve t db₁.ledger) ≡ false
        → existing_entry t kind opts db₁.ledger ≡ none
        → TurnEnds a.id (post_if_current a t kind amount opts i (r.before_update i db₁))
    unfolding post_if_current
    post_if_current-TurnEnds i db db₁ a s r₁ mine passed old =
        let db₂ = r.before_update i db₁ in
        let r₂ = obeys.before_update i db₁ r₁.sound in
        let s₂ = r₂.sound in
        elim (Bool-cases (any (has_version a.id a.version) db₂.accounts)) [
          | inl hit ↦
              let (mine₂, kept, entries) = still_current t db db₁ db₂ a s r₁ r₂ mine hit in
              rw hit (
                post-TurnEnds db₂ a s₂ mine₂ (rw kept passed)
                  (same_entries opts.ref_order_id db₁ db₂ entries (no_entry db₁.ledger old)))
          | inr miss ↦ rw miss (elim (Bool-cases (ltb i 2)) [
            | inl more ↦
                let (b, mine₁, id₁, _, _) = r₁.row a mine in
                let (c, mine₂, id₂, _, _) = r₂.row b mine₁ in rw more (s₂, c, mine₂, id₂ ∙ id₁)
            | inr last ↦ rw last s₂
          ])
        ]

    pub turn_at-TurnEnds :
        (i : ℕ) (db db₁ : Db) (a : Account)
        → Sound db
        → Rely t db db₁
        → account_of t db ≡ some a
        → TurnEnds a.id (turn_at r a t kind amount opts i db₁)
    unfolding turn_at
    turn_at-TurnEnds i db db₁ a s r₁ mine =
        elim (Option-cases (existing_entry t kind opts db₁.ledger)) [
          | inr (e, old) ↦ rw old r₁.sound
          | inl old ↦
              rw old
                (elim (Bool-cases
                  (refuses opts.check_available a.balance (active_reserve t db₁.ledger))) [
                    | inl short ↦ rw short r₁.sound
                    | inr passed ↦
                        rw passed (post_if_current-TurnEnds i db db₁ a s r₁ mine passed old)
                  ])
        ]
