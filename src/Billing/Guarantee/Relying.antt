-- ===== src/Billing/Guarantee/Relying.antt =====
-- What one call of the service keeps for those that run beside it.
use mark_solutions.Base.{
  ℕ, ◌≤◌, ◌≡◌, refl, ◌∙◌, inl, inr, false, none, some, arith, ◌==◌, ==_refl, Bool-cases,
  Option-cases, find, edit, find-append, any,
}
use mark_solutions.Base.Int.{ℤ, pos, ◌+ℤ◌, ◌≤ℤ◌}
use mark_solutions.Store.{
  Account, LedgerKind, LedgerEntry, Db, Result, ok, err, then_gives, committed,
}
use mark_solutions.Billing.Ledger.{active_reserve, violates_unique, is_identity}
use mark_solutions.Billing.Sums.{cash_of, active_reserve-append}
use mark_solutions.Billing.Invariant.{
  account_of, account_of-swap, Sound, posted, IsPostable, posted-Sound,
}
use mark_solutions.Billing.Quiet.{
  apply_on_repeats, apply_on-refuses, apply_on_posts, apply_on_clashes, apply_on_lost,
}
use mark_solutions.Billing.Effects.{repeated_none}
use mark_solutions.Billing.Contention.{Rely, IsGuarded, affords}
use mark_solutions.Billing.{
  quiet, Opts, Posting, existing_entry, refuses, entry_of, set_balance, has_version, apply_on,
  take_entry,
}

pub Rely-refl : (t : ℕ) (db : Db) → Sound db → Rely t db db
Rely-refl t db s = record {
  sound = s;
  row = λ a mine. (a, mine, refl, omega arith, λ e. (refl, refl, λ kind order_id. refl));
}

pub Rely-trans : (t : ℕ) (db db₁ db₂ : Db) → Rely t db db₁ → Rely t db₁ db₂ → Rely t db db₂
Rely-trans t db db₁ db₂ r₁ r₂ = record {
  sound = r₂.sound;
  row = λ a mine.
      let (b, mine₁, id₁, v₁, same₁) = r₁.row a mine in
      let (c, mine₂, id₂, v₂, same₂) = r₂.row b mine₁ in
      (
        c,
        mine₂,
        id₂ ∙ id₁,
        omega arith,
        λ e.
            let (b-a, held₁, entries₁) = same₁ (omega arith) in
            let (c-b, held₂, entries₂) = same₂ (omega arith) in
            (
              c-b ∙ b-a,
              held₂ ∙ held₁,
              λ kind order_id. entries₂ kind order_id ∙ entries₁ kind order_id,
            ),
      );
}

-- A posting raises the version of its own account, and is not seen by the other tenants.
module _ (t' : ℕ) (kind : LedgerKind) (amount : ℤ) (opts : Opts) (db : Db) (a' : Account)
    (s : Sound db) (mine' : account_of t' db ≡ some a') (p : IsPostable t' kind amount opts db)
    (t : ℕ) where
  abbrev pub after : Db
  after = posted a' t' kind amount opts db

  pub row_after :
      (a : Account)
      → account_of t db ≡ some a
      → account_of t after
        ≡ some (edit (has_version a'.id a'.version) (set_balance (a'.balance +ℤ opts.delta)) a)
  row_after a mine = account_of-swap t a' (a'.balance +ℤ opts.delta) db.accounts ∙ rw mine

  pub other_tenant :
      (a : Account)
      → account_of t db ≡ some a
      → has_version a'.id a'.version a ≡ false
      → (t' == t) ≡ false
  other_tenant a mine miss = elim (Bool-cases (t' == t)) [
    | inr differs ↦ differs
    | inl same ↦ ground (arith, mine, mine', ==_refl a'.id, ==_refl a'.version)
  ]

  abbrev pub entry_after : LedgerEntry
  entry_after = record (entry_of a'.id t' kind amount opts) { id = db.next_id }

  pub foreign_entry :
      (t' == t) ≡ false
      → (k : LedgerKind) (o : ℕ)
      → find (is_identity t k o) after.ledger ≡ find (is_identity t k o) db.ledger
  foreign_entry foreign k o =
      find-append (is_identity t k o) db.ledger entry_after
      ∙ elim (Option-cases (find (is_identity t k o) db.ledger)) [
        | inl absent ↦ rw (absent, foreign)
        | inr (e, found) ↦ rw found
      ]

  pub row-Rely :
      (a : Account)
      → account_of t db ≡ some a
      → (b : Account) × (account_of t after ≡ some b)
        × (b.id ≡ a.id)
        × (a.version ≤ b.version)
        × (b.version ≡ a.version
            → (b ≡ a)
              × (active_reserve t after.ledger ≡ active_reserve t db.ledger)
              × ((k : LedgerKind) (order_id : ℕ)
                  → find (is_identity t k order_id) after.ledger
                    ≡ find (is_identity t k order_id) db.ledger))
  row-Rely a mine = elim (Bool-cases (has_version a'.id a'.version a)) [
    | inl hit ↦ (
      set_balance (a'.balance +ℤ opts.delta) a,
      row_after a mine ∙ rw hit,
      refl,
      omega arith,
      λ e. absurd (omega (arith, e)),
    )
    | inr miss ↦
        let foreign = other_tenant a mine miss in
        (
          a,
          row_after a mine ∙ rw miss,
          refl,
          omega arith,
          λ e. (
            refl,
            active_reserve-append t db.ledger entry_after ∙ rw foreign,
            foreign_entry foreign,
          ),
        )
  ]

  pub posted-Rely : Rely t db after
  posted-Rely = record { sound = posted-Sound t' kind amount opts db a' s mine' p; row = row-Rely }

-- What a method of the service that runs alone in a transaction leaves.
abbrev pub left_by : {A : Type 0} → Result A × Db → Db → Db
left_by m db = (committed m db).1

pub taken :
    (m : Result Posting × Db) (db : Db) → left_by (then_gives m take_entry) db ≡ left_by m db
taken (ok p, db') db = refl
taken (err e, db') db = refl

module _ (kind : LedgerKind) (amount : ℤ) (opts : Opts) (moves : opts.delta ≡ cash_of kind amount)
    (positive : pos 1 ≤ℤ amount) (guarded : IsGuarded kind amount opts)
    (unpaid : opts.ref_1c ≡ none) (t' t : ℕ) (db : Db) (s : Sound db) where
  pub new_posting-Rely :
      (a : Account)
      → account_of t' db ≡ some a
      → existing_entry t' kind opts db.ledger ≡ none
      → refuses opts.check_available a.balance (active_reserve t' db.ledger) ≡ false
      → Rely t db (left_by (apply_on quiet t' kind amount opts db) db)
  new_posting-Rely a mine new passed =
      elim (Bool-cases (any (violates_unique (entry_of a.id t' kind amount opts)) db.ledger)) [
        | inl clash ↦
            rw
              (apply_on_clashes t' kind amount opts db a s.keyed mine new unpaid
                (repeated_none t' kind opts db.ledger unpaid new) passed clash)
              (Rely-refl t db s)
        | inr free ↦ rw (apply_on_posts t' kind amount opts db a s.keyed mine new passed free) (
            posted-Rely t' kind amount opts db a s mine
              (affords t' kind amount opts moves positive guarded db a s mine passed) t)
      ]

  pub apply_on-Rely : Rely t db (left_by (apply_on quiet t' kind amount opts db) db)
  apply_on-Rely = elim (Option-cases (account_of t' db)) [
    | inl absent ↦ rw (apply_on_lost t' kind amount opts db absent) (Rely-refl t db s)
    | inr (a, mine) ↦ elim (Option-cases (existing_entry t' kind opts db.ledger)) [
      | inr (e, old) ↦
          rw (apply_on_repeats t' kind amount opts db a s.keyed mine e old) (Rely-refl t db s)
      | inl new ↦
          elim (Bool-cases (refuses opts.check_available a.balance (active_reserve t' db.ledger))) [
            | inl short ↦
                rw (apply_on-refuses t' kind amount opts db a s.keyed mine new short)
                  (Rely-refl t db s)
            | inr passed ↦ new_posting-Rely a mine new passed
          ]
    ]
  ]
