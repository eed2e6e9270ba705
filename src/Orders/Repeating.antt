-- ===== src/Orders/Repeating.antt =====
-- A repeated `POST /orders` with the same `Idempotency-Key`.
use mark_solutions.Base.{
  ℕ, ◌≤◌, ◌≡◌, refl, ◌∙◌, ap, true, none, some, List, [], ◌∷◌, ◌++◌, map, arith, ==_refl, filter,
  filter-append, find, find-append, find-update_where, update_where,
}
use mark_solutions.Base.Int.{pos, ◌≤ℤ◌}
use mark_solutions.Store.{
  Account, reserve, OrderStatus, validating, funds_reserved, queued, Order, Db, ok, ◌>>=◌,
}
use mark_solutions.Billing.{quiet, get_balance}
use mark_solutions.Billing.Invariant.{account_of, Sound}
use mark_solutions.Billing.Effects.{IsUnposted}
use mark_solutions.Billing.Cycle.{available_of_view}
use mark_solutions.Orders.{
  has_order_id, has_key, line_of, view_line, set_status, insert_outbox, Draft, total_price,
  order_line, placed_before, find_or_place,
}
use mark_solutions.Orders.Placing.{new_order, placed, queued_order, place_posts}

-- The row under the key through an update of the order's own status.
key-find :
    (now id key : ℕ) (status : OrderStatus) (rows : List Order) {o : Order}
    → find (has_key key) rows ≡ some o
    → has_order_id id o ≡ true
    → find (has_key key) (update_where (has_order_id id) (set_status now status) rows)
      ≡ some (set_status now status o)
key-find now id key status rows h own =
    find-update_where (has_key key) (has_order_id id) (set_status now status) rows (λ x. refl)
    ∙ rw (h, own)

module _ (now : ℕ) (d : Draft) (db : Db) (a : Account) (s : Sound db)
    (mine : account_of d.tenant db ≡ some a) (new : find (has_key d.key) db.orders ≡ none)
    (unposted : IsUnposted reserve db.next_id db.ledger) (priced : 1 ≤ total_price d) where
  abbrev after : Db
  after = placed now d db a s mine new unposted priced

  order_under_key :
      find (has_key d.key) after.orders ≡ some (queued_order now d db a s mine new unposted priced)
  unfolding insert_outbox
  order_under_key =
      let rows₀ = db.orders ++ (new_order now d db ∷ []) in
      let rows₁ = update_where (has_order_id db.next_id) (set_status now validating) rows₀ in
      let rows₂ = update_where (has_order_id db.next_id) (set_status now funds_reserved) rows₁ in
      let first : find (has_key d.key) rows₀ ≡ some (new_order now d db) =
        find-append (has_key d.key) db.orders (new_order now d db) ∙ rw (new, ==_refl d.key) in
      let own = ==_refl db.next_id in
      key-find now db.next_id d.key queued rows₂
        (key-find now db.next_id d.key funds_reserved rows₁
          (key-find now db.next_id d.key validating rows₀ first own) own)
        own

  lines_of_order :
      filter (line_of db.next_id) db.lines ≡ []
      → map view_line (filter (line_of db.next_id) after.lines) ≡ (d.quantity, total_price d) ∷ []
  unfolding insert_outbox
  lines_of_order fresh =
      ap (map view_line)
        (filter-append (line_of db.next_id) db.lines (order_line db.next_id d ∷ []))
      ∙ rw (fresh, ==_refl db.next_id)

  -- A second request of the same key, for whatever draft, answers what the first one has answered
  -- and writes nothing more.
  pub find_or_place_repeats :
      (again : Draft) (later : ℕ)
      → again.key ≡ d.key
      → filter (line_of db.next_id) db.lines ≡ []
      → pos (total_price d) ≤ℤ (get_balance d.tenant db).available
      → (find_or_place quiet now d >>= λ v. find_or_place quiet later again) db
        ≡ find_or_place quiet now d db
  unfolding find_or_place placed_before
  find_or_place_repeats again later same fresh covered =
      let h =
        available_of_view d.tenant db.next_id (pos (total_price d)) db a s mine (omega arith)
          covered in
      rw (new, place_posts now d db a s mine new unposted priced h, same, order_under_key)
        (ap
          (λ l. (
            ok (record {
              id = db.next_id;
              number = db.next_number;
              status = queued;
              is_paid = true;
              release_method_type = d.checked.release_method_type;
              lines = l;
            }),
            after,
          ))
          (lines_of_order fresh))
