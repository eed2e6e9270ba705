-- ===== src/Tests/Money.antt =====
-- The theorems on the ledger at work.
use mark_solutions.Base.{ℕ, ◌+◌, ◌≡◌, refl, ◌⊎◌, true, none, some, List, [], ◌∷◌, arith, find, any}
use mark_solutions.Base.Int.{pos, ◌+ℤ◌, ◌-ℤ◌, ◌≤ℤ◌, neg}
use mark_solutions.Store.{settle, Db, insufficient_funds, err}
use mark_solutions.Billing.Ledger.{
  active_reserve, balance_of, violates_unique, is_identity, create_entry,
}
use mark_solutions.Billing.Effects.{order_opts}
use mark_solutions.Billing.Invariant.{account_of, Sound}
use mark_solutions.Billing.Contention.{EndsSound}
use mark_solutions.Billing.Cycle.{IsOk, reserve_on_exact, settle_on_exact}
use mark_solutions.Billing.{
  quiet, reserve_on, settle_on, release_on, get_balance, apply_on, get_account, attempts, turn,
  turn_at, existing_entry, post_if_current, post, entry_of, covers,
}
use mark_solutions.Billing.Guarantee.{
  Call, reserving, settling, releasing, run_calls, rivals_of, run_calls-Sound,
  call_among_calls-EndsSound,
}
use mark_solutions.Tests.Data.{account_7, shop, shop-Sound}

-- Two tenants compete for the accounts at every attempt.
abbrev first_calls : ℕ → List Call
first_calls i = reserving 7 (20 + i) (pos 30) ∷ reserving 8 (30 + i) (pos 20) ∷ []

abbrev second_calls : ℕ → List Call
second_calls i = releasing 7 (20 + i) ∷ settling 8 (30 + i) (pos 5) ∷ []

call_among_calls-EndsSound_example :
    EndsSound (reserve_on (rivals_of first_calls second_calls) 7 5 (pos 60) shop)
    × EndsSound (settle_on (rivals_of first_calls second_calls) 7 5 (pos 60) shop)
    × EndsSound (release_on (rivals_of first_calls second_calls) 7 5 shop)
call_among_calls-EndsSound_example =
    call_among_calls-EndsSound 7 5 (pos 60) first_calls second_calls shop shop-Sound

reserve_on_exact_example :
    let (r, db') = reserve_on quiet 7 5 (pos 60) shop in
    ((pos 60 ≤ℤ (get_balance 7 shop).available)
      × IsOk r
      × (get_balance 7 db' ≡ record {
        balance = (get_balance 7 shop).balance;
        reserved = (get_balance 7 shop).reserved +ℤ pos 60;
        available = (get_balance 7 shop).available -ℤ pos 60;
      }))
    ⊎ (¬ (pos 60 ≤ℤ (get_balance 7 shop).available)
        × (r ≡ err (insufficient_funds (get_balance 7 shop).balance (get_balance 7 shop).reserved))
        × (db' ≡ shop))
reserve_on_exact_example =
    reserve_on_exact 7 5 (pos 60) shop account_7 shop-Sound refl (omega arith) refl

settle_on_exact_example :
    let (r, db') = settle_on quiet 7 5 (pos 60) shop in
    ((pos 60 ≤ℤ (get_balance 7 shop).available)
      × IsOk r
      × (get_balance 7 db' ≡ record {
        balance = (get_balance 7 shop).balance -ℤ pos 60;
        reserved = (get_balance 7 shop).reserved;
        available = (get_balance 7 shop).available -ℤ pos 60;
      }))
    ⊎ (¬ (pos 60 ≤ℤ (get_balance 7 shop).available)
        × (r ≡ err (insufficient_funds (get_balance 7 shop).balance (get_balance 7 shop).reserved))
        × (db' ≡ shop))
settle_on_exact_example =
    settle_on_exact 7 5 (pos 60) shop account_7 shop-Sound refl (omega arith) refl

sixty_available : pos 60 ≤ℤ (get_balance 7 shop).available
unfolding get_balance balance_of active_reserve ◌+ℤ◌ ◌-ℤ◌
sixty_available = omega arith

not_twice_sixty : ¬ (pos 60 +ℤ pos 60 ≤ℤ (get_balance 7 shop).available)
unfolding get_balance balance_of active_reserve ◌+ℤ◌ ◌-ℤ◌
not_twice_sixty = λ h. omega (arith, h)

-- Tenant 8 has settled order 5.
abbrev sold : Db
sold = run_calls (settling 8 5 (pos 10) ∷ []) shop

sold-Sound : Sound sold
sold-Sound = run_calls-Sound (settling 8 5 (pos 10) ∷ []) shop shop-Sound

sold-account : account_of 7 sold ≡ some account_7
unfolding settle_on apply_on get_account attempts turn turn_at existing_entry post_if_current post
    create_entry violates_unique balance_of active_reserve ◌+ℤ◌ ◌-ℤ◌ neg
sold-account = refl

sold-covered : pos 60 ≤ℤ pos 100 -ℤ active_reserve 7 sold.ledger
unfolding settle_on apply_on get_account attempts turn turn_at existing_entry post_if_current post
    create_entry violates_unique balance_of active_reserve ◌+ℤ◌ ◌-ℤ◌ neg
sold-covered = omega arith

sold-unsettled : find (is_identity 7 settle 5) sold.ledger ≡ none
unfolding settle_on apply_on get_account attempts turn turn_at existing_entry post_if_current post
    create_entry violates_unique balance_of active_reserve ◌+ℤ◌ ◌-ℤ◌ neg
sold-unsettled = refl

sold-clash :
    any
      (violates_unique
        (entry_of 1 7 settle (pos 60) (order_opts 5 (neg (pos 60)) (some (covers (pos 60))))))
      sold.ledger
    ≡ true
unfolding settle_on apply_on get_account attempts turn turn_at existing_entry post_if_current post
    create_entry violates_unique balance_of active_reserve ◌+ℤ◌ ◌-ℤ◌ neg
sold-clash = refl
