-- ===== src/Orders/Cancelling.antt =====
-- The cancellation of an order.
use mark_solutions.Base.{
  ℕ, ◌≤◌, ◌≡◌, refl, ◌∙◌, ap, inl, inr, true, none, some, arith, ◌==◌, ==_refl, ==_iff, Bool-cases,
  Option-cases, find,
}
use mark_solutions.Base.Int.{ℤ, pos, ◌+ℤ◌, ◌≤ℤ◌}
use mark_solutions.Store.{Account, reserve, release, OrderStatus, cancelled, Order, Db, ok, ◌>>=◌}
use mark_solutions.Billing.{Rivals, quiet, get_balance, covers, set_balance}
use mark_solutions.Billing.Invariant.{account_of, Sound}
use mark_solutions.Billing.Effects.{IsUnposted, order_opts, release_on_posts}
use mark_solutions.Billing.Cycle.{
  available_of_view, get_balance-own, moved_view, released_view, held-Sound, held-account,
  held-find, held-IsUnposted, held_entry,
}
use mark_solutions.Orders.{
  has_order_id, has_key, set_status, insert_outbox, Draft, total_price, placed_before,
  find_or_place, get_owned_order, is_queueable, cancel,
}
use mark_solutions.Orders.Placing.{
  begun, begun-Sound, placed, placed_order, queued_order, place_posts, status-find,
}

-- A cancellation that succeeds was of an order of the tenant, before it was sent.
pub cancel-is_queueable :
    (r : Rivals) (now tenant order_id : ℕ) (db : Db) (v : ℕ × OrderStatus)
    → (cancel r now tenant order_id db).0 ≡ ok v
    → (o : Order) × (find (has_order_id order_id) db.orders ≡ some o)
      × (o.tenant_id ≡ tenant)
      × (is_queueable o.status ≡ true)
unfolding cancel get_owned_order
cancel-is_queueable r now tenant order_id db v h =
    elim (Option-cases (find (has_order_id order_id) db.orders)) [
      | inl absent ↦ cc (rw absent at h)
      | inr (o, found) ↦ elim (Bool-cases (o.tenant_id == tenant)) [
        | inr foreign ↦ cc (rw (found, foreign) at h)
        | inl own ↦ elim (Bool-cases (is_queueable o.status)) [
          | inl early ↦ (o, found, (==_iff o.tenant_id tenant).0 own, early)
          | inr late ↦ cc (rw (found, own, late) at h)
        ]
      ]
    ]

module _ (now : ℕ) (d : Draft) (db : Db) (a : Account) (s : Sound db)
    (mine : account_of d.tenant db ≡ some a) (new : find (has_key d.key) db.orders ≡ none)
    (unposted : IsUnposted reserve db.next_id db.ledger) (priced : 1 ≤ total_price d) where
  abbrev price : ℤ
  price = pos (total_price d)

  abbrev after : Db
  after = placed now d db a s mine new unposted priced

  -- An order that is placed and cancelled leaves the balance, the reserve and what is available as
  -- they were, and its row is `CANCELLED`.
  pub cancel-find_or_place :
      (later : ℕ)
      → find (has_order_id db.next_id) db.orders ≡ none
      → IsUnposted release db.next_id db.ledger
      → price ≤ℤ (get_balance d.tenant db).available
      → let (r, db') = (find_or_place quiet now d >>= λ v. cancel quiet later d.tenant v.id) db in
        (r ≡ ok (db.next_id, cancelled))
        × (get_balance d.tenant db' ≡ get_balance d.tenant db)
        × (find (has_order_id db.next_id) db'.orders
            ≡ some
                (set_status later cancelled (queued_order now d db a s mine new unposted priced)))
  unfolding find_or_place placed_before cancel get_owned_order get_balance insert_outbox
  cancel-find_or_place later fresh unreleased covered =
      let h = available_of_view d.tenant db.next_id price db a s mine (omega arith) covered in
      let there = placed_order now d db a s mine new unposted priced fresh in
      let sb = begun-Sound now d db a s mine new unposted priced in
      let sh =
        held-Sound d.tenant db.next_id price (begun now d db) a sb mine (omega arith) covered in
      let sp : Sound after = record {
        keyed = sh.keyed;
        cached = sh.cached;
        positive = sh.positive;
        solvent = sh.solvent;
      } in
      let released =
        release_on_posts d.tenant db.next_id after (set_balance (a.balance +ℤ pos 0) a)
          (held_entry d.tenant db.next_id price (begun now d db) a sb mine (omega arith)) sp
          (held-account d.tenant db.next_id price (begun now d db) a sb mine (omega arith))
          (held-find d.tenant db.next_id price (begun now d db) a sb mine (omega arith) unposted)
          (held-IsUnposted d.tenant db.next_id price (begun now d db) a sb mine (omega arith)
            release refl unreleased) in
      rw
        (
          new,
          place_posts now d db a s mine new unposted priced h,
          there,
          ==_refl d.tenant,
          released,
        )
        (
          refl,
          get_balance-own (set_balance (a.balance +ℤ pos 0) a) d.tenant release price
                (order_opts db.next_id (pos 0) none) after
              ∙ ap (λ v. moved_view v release price)
                  (get_balance-own a d.tenant reserve price
                    (order_opts db.next_id (pos 0) (some (covers price))) (begun now d db))
              ∙ released_view d.tenant price (begun now d db),
          status-find later db.next_id cancelled after.orders there,
        )
