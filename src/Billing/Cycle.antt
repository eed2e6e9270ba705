-- ===== src/Billing/Cycle.antt =====
-- The life of an order's money: reserved, released or settled, and what a repeat, a shortage or a
-- foreign order does to it.
mod Views
use mark_solutions.Base.{
  ℕ, ◌≡◌, refl, ◌∙◌, ap, ap₂, ◌⊎◌, inl, inr, false, none, some, ◌∷◌, [], ◌==◌, ==_refl,
  if◌then◌else◌, Bool-cases, find, any-append, find-append,
}
use mark_solutions.Base.Int.{
  ℤ, pos, ◌+ℤ◌, ◌-ℤ◌, ◌≤ℤ◌, neg, int_laws, leb_ℤ, le_of_leb_ℤ, lt_of_leb_ℤ, +ℤ_zero,
}
use mark_solutions.Store.{
  Account, LedgerKind, reserve, release, settle, LedgerEntry, Db, insufficient_funds, Result, ok,
  err, ◌>>=◌,
}
use mark_solutions.Billing.Ledger.{kind_eq, active_reserve, is_identity}
use mark_solutions.Billing.Sums.{balance_of-append, active_reserve-append, cash_of, hold_of}
use mark_solutions.Billing.Invariant.{account_of, account_of-swap, Sound, posted, posted-Sound}
use mark_solutions.Billing.Effects.{
  IsUnposted, order_opts, reserve_on_posts, reserve_on_refuses, settle_on_posts, settle_on_refuses,
  release_on_posts, reserve_on_repeats, unposted-none,
}
use mark_solutions.Billing.{
  quiet, Opts, entry_of, covers, reserve_on, release_on, settle_on, BalanceView, get_balance,
  set_balance,
}
pub use Views.*

module _ (t o : ℕ) (amount : ℤ) (db : Db) (a : Account) (s : Sound db)
    (mine : account_of t db ≡ some a) (positive : pos 1 ≤ℤ amount) where
  pub available_of_view :
      amount ≤ℤ (get_balance t db).available → amount ≤ℤ a.balance -ℤ active_reserve t db.ledger
  unfolding get_balance
  available_of_view h = rw (s.cached t a mine) h

  pub view_of_available :
      amount ≤ℤ a.balance -ℤ active_reserve t db.ledger → amount ≤ℤ (get_balance t db).available
  unfolding get_balance
  view_of_available h = rw (← s.cached t a mine) h

  pub refused_view :
      {B : Type 0}
      → ◌≡◌ {A = Result B}
          (err (insufficient_funds a.balance (active_reserve t db.ledger)))
          (err (insufficient_funds (get_balance t db).balance (get_balance t db).reserved))
  unfolding get_balance
  refused_view = rw (s.cached t a mine)

  -- From a sound ledger, for an order of a tenant with an account that has no reserve yet, an amount of
  -- at least one, and no other process between: where the amount is free, exactly it is added to the
  -- reserve and the balance stays. Where it is not, the call answers 402 with both sums and changes
  -- nothing.
  pub reserve_on_exact :
      IsUnposted reserve o db.ledger
      → let (r, db') = reserve_on quiet t o amount db in
        ((amount ≤ℤ (get_balance t db).available)
          × IsOk r
          × (get_balance t db' ≡ record {
            balance = (get_balance t db).balance;
            reserved = (get_balance t db).reserved +ℤ amount;
            available = (get_balance t db).available -ℤ amount;
          }))
        ⊎ (¬ (amount ≤ℤ (get_balance t db).available)
            × (r ≡ err (insufficient_funds (get_balance t db).balance (get_balance t db).reserved))
            × (db' ≡ db))
  reserve_on_exact new = elim (Bool-cases (leb_ℤ amount (get_balance t db).available)) [
    | inl enough ↦
        let h = le_of_leb_ℤ amount (get_balance t db).available enough in
        rw (reserve_on_posts t o amount db a s mine positive new (available_of_view h)) (
          inl (
            h,
            tt,
            get_balance-own a t reserve amount (order_opts o (pos 0) (some (covers amount))) db
                ∙ reserve_view t amount db,
          ))
    | inr short ↦
        let h = lt_of_leb_ℤ amount (get_balance t db).available short in
        rw (reserve_on_refuses t o amount db a s mine positive new (λ c. h (view_of_available c)))
          (inr (h, refused_view, refl))
  ]

  -- From a sound ledger, for an order of a tenant with an account that has no settlement yet, an amount
  -- of at least one, and no other process between: settling takes exactly the amount from the balance
  -- where it is free, and the reserve stays. Where it is not free, the call answers 402 with both sums
  -- and changes nothing.
  pub settle_on_exact :
      IsUnposted settle o db.ledger
      → let (r, db') = settle_on quiet t o amount db in
        ((amount ≤ℤ (get_balance t db).available)
          × IsOk r
          × (get_balance t db' ≡ record {
            balance = (get_balance t db).balance -ℤ amount;
            reserved = (get_balance t db).reserved;
            available = (get_balance t db).available -ℤ amount;
          }))
        ⊎ (¬ (amount ≤ℤ (get_balance t db).available)
            × (r ≡ err (insufficient_funds (get_balance t db).balance (get_balance t db).reserved))
            × (db' ≡ db))
  settle_on_exact new = elim (Bool-cases (leb_ℤ amount (get_balance t db).available)) [
    | inl enough ↦
        let h = le_of_leb_ℤ amount (get_balance t db).available enough in
        rw (settle_on_posts t o amount db a s mine positive new (available_of_view h)) (
          inl (
            h,
            tt,
            get_balance-own a t settle amount (order_opts o (neg amount) (some (covers amount))) db
                ∙ settle_view t amount db,
          ))
    | inr short ↦
        let h = lt_of_leb_ℤ amount (get_balance t db).available short in
        rw (settle_on_refuses t o amount db a s mine positive new (λ c. h (view_of_available c)))
          (inr (h, refused_view, refl))
  ]

  abbrev hold_opts : Opts
  hold_opts = order_opts o (pos 0) (some (covers amount))

  abbrev held : Db
  held = posted a t reserve amount hold_opts db

  abbrev pub held_entry : LedgerEntry
  held_entry = record (entry_of a.id t reserve amount hold_opts) { id = db.next_id }

  pub held-account : account_of t held ≡ some (set_balance (a.balance +ℤ pos 0) a)
  held-account =
      account_of-swap t a (a.balance +ℤ pos 0) db.accounts
      ∙ rw mine (rw (==_refl a.id, ==_refl a.version))

  pub held-Sound : amount ≤ℤ (get_balance t db).available → Sound held
  unfolding get_balance
  held-Sound h =
      posted-Sound t reserve amount hold_opts db a s mine
        (record { moves = refl; positive = positive; affords = omega (int_laws, h) })

  held_reserve : active_reserve t held.ledger ≡ active_reserve t db.ledger +ℤ amount
  held_reserve = active_reserve-append t db.ledger held_entry ∙ rw (==_refl t)

  held_short :
      ¬ (amount +ℤ amount ≤ℤ (get_balance t db).available)
      → ¬ (amount ≤ℤ a.balance +ℤ pos 0 -ℤ active_reserve t held.ledger)
  unfolding get_balance
  held_short short = rw (held_reserve, s.cached t a mine) (λ c. short (omega (int_laws, c)))

  held_refusal :
      ◌≡◌ {A = Result LedgerEntry × Db}
        (err (insufficient_funds (a.balance +ℤ pos 0) (active_reserve t held.ledger)), held)
        (
          err (
              insufficient_funds
                (get_balance t db).balance
                ((get_balance t db).reserved +ℤ amount)),
          held,
        )
  unfolding get_balance
  held_refusal =
      ap₂ (λ b r. (err (insufficient_funds b r), held)) (+ℤ_zero a.balance ∙ s.cached t a mine)
        held_reserve

  pub held-IsUnposted :
      (kind : LedgerKind)
      → kind_eq reserve kind ≡ false
      → IsUnposted kind o db.ledger
      → IsUnposted kind o held.ledger
  held-IsUnposted kind other new =
      any-append _ db.ledger (held_entry ∷ []) ∙ rw (new, other, ==_refl o)

  pub held-find :
      IsUnposted reserve o db.ledger → find (is_identity t reserve o) held.ledger ≡ some held_entry
  held-find new =
      find-append (is_identity t reserve o) db.ledger held_entry
      ∙ rw (unposted-none t o reserve db.ledger new, ==_refl t, ==_refl o)

  -- A reservation that is released leaves the balance, the reserve and what is available as they were.
  pub release-reserve :
      IsUnposted reserve o db.ledger
      → IsUnposted release o db.ledger
      → amount ≤ℤ (get_balance t db).available
      → let (r, db') = (reserve_on quiet t o amount >>= λ _. release_on quiet t o) db in
        IsOk r × (get_balance t db' ≡ get_balance t db)
  release-reserve new unreleased h =
      rw (reserve_on_posts t o amount db a s mine positive new (available_of_view h)) (
        rw
          (release_on_posts t o held (set_balance (a.balance +ℤ pos 0) a) held_entry (held-Sound h)
            held-account (held-find new) (held-IsUnposted release refl unreleased))
          (
            tt,
            get_balance-own (set_balance (a.balance +ℤ pos 0) a) t release amount
                  (order_opts o (pos 0) none) held
                ∙ ap (λ v. moved_view v release amount)
                    (get_balance-own a t reserve amount hold_opts db)
                ∙ released_view t amount db,
          ))

  -- A second reservation for the order, of any positive amount, returns the first one's entry and
  -- writes nothing.
  pub reserve-reserve :
      (again : ℤ)
      → pos 1 ≤ℤ again
      → IsUnposted reserve o db.ledger
      → amount ≤ℤ (get_balance t db).available
      → (reserve_on quiet t o amount >>= λ _. reserve_on quiet t o again) db
        ≡ reserve_on quiet t o amount db
  reserve-reserve again more new h =
      let first = reserve_on_posts t o amount db a s mine positive new (available_of_view h) in
      rw first (
        reserve_on_repeats t o held (set_balance (a.balance +ℤ pos 0) a) held_entry
          (held-Sound h).keyed held-account again more (held-find new))

  -- While the order's own reservation is active, settling its amount asks for the same funds once
  -- more: where less than twice the amount was available before the reservation, it answers 402 and
  -- writes nothing.
  pub settle-reserve_refused :
      IsUnposted reserve o db.ledger
      → IsUnposted settle o db.ledger
      → amount ≤ℤ (get_balance t db).available
      → ¬ (amount +ℤ amount ≤ℤ (get_balance t db).available)
      → (reserve_on quiet t o amount >>= λ _. settle_on quiet t o amount) db ≡ (
        err (insufficient_funds (get_balance t db).balance ((get_balance t db).reserved +ℤ amount)),
        (reserve_on quiet t o amount db).1,
      )
  settle-reserve_refused new unsettled h short =
      let first = reserve_on_posts t o amount db a s mine positive new (available_of_view h) in
      rw first (
        settle_on_refuses t o amount held (set_balance (a.balance +ℤ pos 0) a) (held-Sound h)
          held-account positive (held-IsUnposted settle refl unsettled) (held_short short)
        ∙ held_refusal)
