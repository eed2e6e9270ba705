-- ===== src/Orders/Reserved.antt =====
-- The money of a tenant once its order was placed (`createOnce` of apps/api/src/order.service.ts).
use mark_solutions.Base.{
  ℕ, ◌≤◌, ◌≡◌, refl, ◌∙◌, false, none, some, [], ◌∷◌, arith, ==_refl, find, find-append, any-append,
}
use mark_solutions.Base.Int.{pos, ◌+ℤ◌, ◌≤ℤ◌, int_laws}
use mark_solutions.Store.{Account, LedgerKind, reserve, LedgerEntry, Db}
use mark_solutions.Billing.Ledger.{is_identity, kind_eq}
use mark_solutions.Billing.{get_balance, covers, entry_of, set_balance}
use mark_solutions.Billing.Keeping.{same_books}
use mark_solutions.Billing.Invariant.{account_of, account_of-swap, Sound, posted-Sound}
use mark_solutions.Billing.Effects.{IsUnposted, order_opts, unposted-none}
use mark_solutions.Orders.{has_key, Draft, total_price, insert_outbox}
use mark_solutions.Orders.Placing.{begun, begun-Sound, reserved_db, placed}

module _ (now : ℕ) (d : Draft) (db : Db) (a : Account) (s : Sound db)
    (mine : account_of d.tenant db ≡ some a) (new : find (has_key d.key) db.orders ≡ none)
    (unposted : IsUnposted reserve db.next_id db.ledger) (priced : 1 ≤ total_price d) where
  abbrev pub held_entry : LedgerEntry
  held_entry =
      record (entry_of a.id d.tenant reserve (pos (total_price d))
        (order_opts db.next_id (pos 0) (some (covers (pos (total_price d)))))) {
          id = (begun now d db).next_id;
        }

  pub placed-Sound :
      pos (total_price d) ≤ℤ (get_balance d.tenant db).available
      → Sound (placed now d db a s mine new unposted priced)
  unfolding insert_outbox get_balance
  placed-Sound enough = same_books (reserved_db now d db a s mine new unposted priced) refl refl (
      posted-Sound d.tenant reserve (pos (total_price d))
        (order_opts db.next_id (pos 0) (some (covers (pos (total_price d))))) (begun now d db) a
        (begun-Sound now d db a s mine new unposted priced) mine
        (record { moves = refl; positive = omega arith; affords = omega (int_laws, enough) }))

  pub placed-account :
      account_of d.tenant (placed now d db a s mine new unposted priced)
      ≡ some (set_balance (a.balance +ℤ pos 0) a)
  unfolding insert_outbox
  placed-account =
      account_of-swap d.tenant a (a.balance +ℤ pos 0) db.accounts
      ∙ rw mine (rw (==_refl a.id, ==_refl a.version))

  pub placed-held :
      find
        (is_identity d.tenant reserve db.next_id)
        (placed now d db a s mine new unposted priced).ledger
      ≡ some held_entry
  unfolding insert_outbox
  placed-held =
      find-append (is_identity d.tenant reserve db.next_id) db.ledger held_entry
      ∙ rw
          (
            unposted-none d.tenant db.next_id reserve db.ledger unposted,
            ==_refl d.tenant,
            ==_refl db.next_id,
          )
          refl

  pub placed-IsUnposted :
      (kind : LedgerKind)
      → kind_eq reserve kind ≡ false
      → IsUnposted kind db.next_id db.ledger
      → IsUnposted kind db.next_id (placed now d db a s mine new unposted priced).ledger
  unfolding insert_outbox
  placed-IsUnposted kind other h =
      any-append _ db.ledger (held_entry ∷ []) ∙ rw (h, ==_refl db.next_id, other) refl
