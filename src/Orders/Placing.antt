-- ===== src/Orders/Placing.antt =====
-- What placing an order comes to.
use mark_solutions.Base.{
  ℕ, suc, ◌≤◌, ◌≡◌, refl, ◌∙◌, ap, ◌⊎◌, inl, inr, Bool, false, none, some, List, [], ◌∷◌, ◌++◌,
  arith, ==_refl, Bool-cases, find, find_sound, find-append, find-update_where, update_where, any,
}
use mark_solutions.Base.Int.{ℤ, pos, ◌+ℤ◌, ◌-ℤ◌, ◌≤ℤ◌, leb_ℤ, le_of_leb_ℤ, lt_of_leb_ℤ}
use mark_solutions.Store.{
  Account, reserve, OrderStatus, validating, funds_reserved, queued, Order, Db, insufficient_funds,
  ok, err, Action, pure, then_gives, ◌>>◌, modify,
}
use mark_solutions.Billing.{quiet, reserve_on, get_balance, covers}
use mark_solutions.Billing.Ledger.{active_reserve}
use mark_solutions.Billing.Invariant.{account_of, Sound, posted}
use mark_solutions.Billing.Effects.{IsUnposted, order_opts, reserve_on_posts, reserve_on_refuses}
use mark_solutions.Billing.Cycle.{
  get_balance-own, reserve_view, available_of_view, view_of_available, refused_view,
}
use mark_solutions.Orders.{
  has_order_id, has_key, OrderView, insert_order, set_status, update_status, send_message,
  insert_outbox, Draft, total_price, order_of, order_line, queued_view, place, placed_before,
  find_or_place,
}

any-find : {A : Type 0} (p : A → Bool) (xs : List A) → find p xs ≡ none → any p xs ≡ false
any-find p [] h = refl
any-find p (x ∷ xs) h = ground (arith, any-find p xs)

-- The tables after the first two steps of the transaction: the order is there, as `VALIDATING`.
abbrev pub new_order : ℕ → Draft → Db → Order
new_order now d db = record (order_of now d) { id = db.next_id; number = db.next_number }

abbrev pub begun : ℕ → Draft → Db → Db
begun now d db = record db {
  next_id = suc db.next_id;
  next_number = suc db.next_number;
  orders =
      update_where (has_order_id db.next_id) (set_status now validating)
        (db.orders ++ (new_order now d db ∷ []));
}

-- What the transaction does after the reservation.
abbrev pub rest_of : ℕ → Order → Draft → Action OrderView
rest_of now o d = do
  update_status now o.id funds_reserved
  modify (λ db. record db { lines = db.lines ++ (order_line o.id d ∷ []) })
  update_status now o.id queued
  insert_outbox (send_message o.id d.tenant d.quantity)
  pure (queued_view o d)

place-begun :
    (now : ℕ) (d : Draft) (db : Db)
    → find (has_key d.key) db.orders ≡ none
    → place quiet now d db
      ≡ then_gives
          (reserve_on quiet d.tenant db.next_id (pos (total_price d)) (begun now d db))
          (λ e. rest_of now (new_order now d db) d)
unfolding place insert_order
place-begun now d db new = rw (any-find (has_key d.key) db.orders new) refl

pub status-find :
    (now id : ℕ) (status : OrderStatus) (rows : List Order) {o : Order}
    → find (has_order_id id) rows ≡ some o
    → find (has_order_id id) (update_where (has_order_id id) (set_status now status) rows)
      ≡ some (set_status now status o)
status-find now id status rows h =
    find-update_where (has_order_id id) (has_order_id id) (set_status now status) rows (λ x. refl)
    ∙ rw (h, find_sound (has_order_id id) rows h)

module _ (now : ℕ) (d : Draft) (db : Db) (a : Account) (s : Sound db)
    (mine : account_of d.tenant db ≡ some a) (new : find (has_key d.key) db.orders ≡ none)
    (unposted : IsUnposted reserve db.next_id db.ledger) (priced : 1 ≤ total_price d) where
  abbrev pub price : ℤ
  price = pos (total_price d)

  pub begun-Sound : Sound (begun now d db)
  begun-Sound = record {
    keyed = s.keyed;
    cached = s.cached;
    positive = s.positive;
    solvent = s.solvent;
  }

  abbrev pub reserved_db : Db
  reserved_db =
      posted a d.tenant reserve price (order_opts db.next_id (pos 0) (some (covers price)))
        (begun now d db)

  -- The tables after an order was placed.
  abbrev pub placed : Db
  placed = (rest_of now (new_order now d db) d reserved_db).1

  pub place_posts :
      price ≤ℤ a.balance -ℤ active_reserve d.tenant db.ledger
      → place quiet now d db ≡ (ok (queued_view (new_order now d db) d), placed)
  unfolding insert_outbox
  place_posts covered =
      place-begun now d db new
      ∙ ap (λ m. then_gives m (λ e. rest_of now (new_order now d db) d))
          (reserve_on_posts d.tenant db.next_id price (begun now d db) a begun-Sound mine
            (omega arith) unposted covered)

  place_refuses :
      ¬ (price ≤ℤ a.balance -ℤ active_reserve d.tenant db.ledger)
      → place quiet now d db
        ≡ (err (insufficient_funds a.balance (active_reserve d.tenant db.ledger)), begun now d db)
  place_refuses short =
      place-begun now d db new
      ∙ ap (λ m. then_gives m (λ e. rest_of now (new_order now d db) d))
          (reserve_on_refuses d.tenant db.next_id price (begun now d db) a begun-Sound mine
            (omega arith) unposted short)

  abbrev pub queued_order : Order
  queued_order = record (new_order now d db) { status = queued }

  pub placed_order :
      find (has_order_id db.next_id) db.orders ≡ none
      → find (has_order_id db.next_id) placed.orders ≡ some queued_order
  unfolding insert_outbox
  placed_order fresh =
      let rows₀ = db.orders ++ (new_order now d db ∷ []) in
      let rows₁ = update_where (has_order_id db.next_id) (set_status now validating) rows₀ in
      let rows₂ = update_where (has_order_id db.next_id) (set_status now funds_reserved) rows₁ in
      let first : find (has_order_id db.next_id) rows₀ ≡ some (new_order now d db) =
        find-append (has_order_id db.next_id) db.orders (new_order now d db)
        ∙ rw (fresh, ==_refl db.next_id) in
      status-find now db.next_id queued rows₂ (
        status-find now db.next_id funds_reserved rows₁
          (status-find now db.next_id validating rows₀ first))

  pub placed_view : get_balance d.tenant placed ≡ record {
    balance = (get_balance d.tenant db).balance;
    reserved = (get_balance d.tenant db).reserved +ℤ price;
    available = (get_balance d.tenant db).available -ℤ price;
  }
  unfolding insert_outbox get_balance
  placed_view =
      get_balance-own a d.tenant reserve price (order_opts db.next_id (pos 0) (some (covers price)))
        (begun now d db)
      ∙ reserve_view d.tenant price (begun now d db)

  -- Where the price is available, a draft under a new key becomes an order: its row is `QUEUED` under
  -- the next identifier, the price is added to the reserve, the line carries the quantity and the
  -- price, and a message to the marking system is pending. Where it is not available, the call answers
  -- 402 with both sums and nothing at all is written.
  pub find_or_place_exact :
      find (has_order_id db.next_id) db.orders ≡ none
      → let (r, db') = find_or_place quiet now d db in
        ((price ≤ℤ (get_balance d.tenant db).available)
          × (r ≡ ok (queued_view (new_order now d db) d))
          × (find (has_order_id db.next_id) db'.orders ≡ some queued_order)
          × (db'.lines ≡ db.lines ++ (order_line db.next_id d ∷ []))
          × (db'.outbox
              ≡ db.outbox
                ++ (record (send_message db.next_id d.tenant d.quantity) {
                  id = suc (suc db.next_id);
                }
                    ∷ []))
          × (get_balance d.tenant db' ≡ record {
            balance = (get_balance d.tenant db).balance;
            reserved = (get_balance d.tenant db).reserved +ℤ price;
            available = (get_balance d.tenant db).available -ℤ price;
          }))
        ⊎ (¬ (price ≤ℤ (get_balance d.tenant db).available)
            × (r
                ≡ err (
                    insufficient_funds
                      (get_balance d.tenant db).balance
                      (get_balance d.tenant db).reserved))
            × (db' ≡ db))
  unfolding find_or_place placed_before insert_outbox
  find_or_place_exact fresh = elim (Bool-cases (leb_ℤ price (get_balance d.tenant db).available)) [
    | inl enough ↦
        let h = le_of_leb_ℤ price (get_balance d.tenant db).available enough in
        rw
          (
            new,
            place_posts (available_of_view d.tenant db.next_id price db a s mine (omega arith) h),
          )
          (inl (h, refl, placed_order fresh, refl, refl, placed_view))
    | inr short ↦
        let h = lt_of_leb_ℤ price (get_balance d.tenant db).available short in
        rw
          (
            new,
            place_refuses
                (λ c. h (view_of_available d.tenant db.next_id price db a s mine (omega arith) c)),
          )
          (inr (h, refused_view d.tenant db.next_id price db a s mine (omega arith), refl))
  ]
