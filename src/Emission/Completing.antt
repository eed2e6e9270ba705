-- ===== src/Emission/Completing.antt =====
-- From the placing of an order to its codes: the service, the poller and the marking system together.
use mark_solutions.Base.{
  ℕ, suc, ◌≤◌, ◌≡◌, refl, ◌∙◌, ap, false, none, some, Option, List, [], ◌∷◌, arith, ==_refl, find,
  find-append, find-update_where, update_where, any, filter, filter-append, length, Text,
}
use mark_solutions.Base.Int.{pos, ◌+ℤ◌, ◌-ℤ◌, ◌≤ℤ◌}
use mark_solutions.Store.{Account, reserve, OrderStatus, processed, Order, Outbox, Db, ok}
use mark_solutions.Billing.{quiet, get_balance}
use mark_solutions.Billing.Invariant.{account_of, Sound}
use mark_solutions.Billing.Effects.{IsUnposted}
use mark_solutions.Billing.Cycle.{available_of_view}
use mark_solutions.Catalog.Km.{Adr006Km}
use mark_solutions.Orders.{
  has_order_id, has_key, line_of, set_status, Draft, total_price, order_line, send_message,
  insert_outbox, find_or_place, placed_before,
}
use mark_solutions.Orders.Placing.{placed, place_posts, placed_order, queued_order, placed_view}
use mark_solutions.Vault.{code_of_order, store_codes}
use mark_solutions.Emission.{
  Reply, confirmed, MptView, ready, Mpt, has_row_id, set_row_status, mark_sent, count_attempt,
  send_to_mpt, send_row, post_order, after_reply, parse_all, expected_quantity, mpt_id,
  reconcile_order, status_eq,
}
use mark_solutions.Emission.Following.{
  reconcile_order-SameMoney, reconcile_order-completed, reconcile_order-stored, with_status,
}

abbrev pub row_id_of : Db → ℕ
row_id_of db = suc (suc db.next_id)

-- What the marking system is asked with: its own identifier, or else the order's.
abbrev pub asked : ℕ → Option ℕ → ℕ
asked id none = id
asked id (some k) = k

mark_sent-keeps :
    (id later : ℕ) (external : Option ℕ) (o : Order)
    → has_order_id id (mark_sent later external o) ≡ has_order_id id o
mark_sent-keeps id later none o = refl
mark_sent-keeps id later (some k) o = refl

module _ (now : ℕ) (d : Draft) (db : Db) (a : Account) (s : Sound db)
    (mine : account_of d.tenant db ≡ some a) (new : find (has_key d.key) db.orders ≡ none)
    (unposted : IsUnposted reserve db.next_id db.ledger) (priced : 1 ≤ total_price d)
    (fresh : find (has_order_id db.next_id) db.orders ≡ none)
    (fresh_row : find (has_row_id (row_id_of db)) db.outbox ≡ none)
    (lineless : filter (line_of db.next_id) db.lines ≡ [])
    (enough : pos (total_price d) ≤ℤ (get_balance d.tenant db).available) where
  abbrev pub after_placing : Db
  after_placing = placed now d db a s mine new unposted priced

  abbrev queued_row : Outbox
  queued_row = record (send_message db.next_id d.tenant d.quantity) { id = row_id_of db }

  abbrev pub the_order : Order
  the_order = queued_order now d db a s mine new unposted priced

  placed-message : find (has_row_id (row_id_of db)) after_placing.outbox ≡ some queued_row
  unfolding insert_outbox
  placed-message =
      find-append (has_row_id (row_id_of db)) db.outbox queued_row
      ∙ rw (fresh_row, ==_refl (row_id_of db)) refl

  pub placed-lines : filter (line_of db.next_id) after_placing.lines ≡ order_line db.next_id d ∷ []
  unfolding insert_outbox
  placed-lines =
      filter-append (line_of db.next_id) db.lines (order_line db.next_id d ∷ [])
      ∙ rw (lineless, ==_refl db.next_id) refl

  -- The tables once the marking system has confirmed the order.
  abbrev pub sent : ℕ → Option ℕ → Db
  sent later external = record after_placing {
    orders = update_where (has_order_id db.next_id) (mark_sent later external) after_placing.orders;
    outbox =
        update_where (has_row_id (row_id_of db)) (set_row_status processed)
          (update_where (has_row_id (row_id_of db)) count_attempt after_placing.outbox);
  }

  pub send_to_mpt-sent :
      (later : ℕ) (external : Option ℕ) (post : Order → ℕ → Db → Reply × Db)
      → ((db' : Db) → post the_order d.quantity db' ≡ (confirmed external, db'))
      → send_to_mpt later post (row_id_of db) after_placing ≡ (ok tt, sent later external)
  unfolding send_to_mpt send_row post_order after_reply
  send_to_mpt-sent later external post confirms =
      let mine_now = placed_order now d db a s mine new unposted priced fresh in
      rw (placed-message, mine_now, confirms, mine_now) refl

  abbrev pub sent_order : ℕ → Option ℕ → Order
  sent_order later external = mark_sent later external the_order

  pub sent-find :
      (later : ℕ) (external : Option ℕ)
      → find (has_order_id db.next_id) (sent later external).orders
        ≡ some (sent_order later external)
  sent-find later external =
      find-update_where (has_order_id db.next_id) (has_order_id db.next_id)
        (mark_sent later external) after_placing.orders (mark_sent-keeps db.next_id later external)
      ∙ rw (placed_order now d db a s mine new unposted priced fresh, ==_refl db.next_id) refl

  pub sent-quantity :
      (later : ℕ) (external : Option ℕ)
      → expected_quantity db.next_id (sent later external) ≡ d.quantity
  sent-quantity later external = rw placed-lines (omega arith)

  pub sent_lem :
      (later : ℕ) (external : Option ℕ)
      → ((sent_order later external).id ≡ db.next_id)
        × (mpt_id (sent_order later external) ≡ asked db.next_id external)
        × (status_eq (sent_order later external).status OrderStatus.completed ≡ false)
  sent_lem later none = (refl, refl, refl)
  sent_lem later (some k) = (refl, refl, refl)

  pub sent_tenant :
      (later : ℕ) (external : Option ℕ) → (sent_order later external).tenant_id ≡ d.tenant
  sent_tenant later none = refl
  sent_tenant later (some k) = refl

  module _ (later at timeout : ℕ) (external : Option ℕ) (mpt : Mpt) (view : MptView)
      (raw : List Text) (codes : List Adr006Km)
      (answer : mpt.get_order (asked db.next_id external) ≡ some view) (done : view.status ≡ ready)
      (fetched : mpt.get_codes (asked db.next_id external) d.quantity ≡ some raw)
      (parsed : parse_all raw ≡ some codes) (all_there : d.quantity ≤ length codes)
      (codeless : any (code_of_order db.next_id) db.vault ≡ false) where
    reconciled :
        let (r, db') = reconcile_order at timeout mpt db.next_id (sent later external) in
        (r ≡ ok tt)
        × (find (has_order_id db.next_id) db'.orders
            ≡ some (set_status at OrderStatus.completed (sent_order later external)))
        × (length (filter (code_of_order db.next_id) db'.vault) ≡ length codes)
    unfolding insert_outbox
    reconciled =
        let (same_id, same_mpt, open_still) = sent_lem later external in
        let (r, o, n, m) =
          reconcile_order-completed at timeout mpt (sent later external) db.next_id
            (sent_order later external) view raw codes (sent-find later external)
            (rw same_mpt answer) done (rw (same_mpt, same_id, sent-quantity later external) fetched)
            parsed (rw (same_id, sent-quantity later external) (ground (arith, all_there)))
            open_still (rw same_id codeless) in
        (r, o, rw same_id at n)

    -- The tables once the codes were stored.
    abbrev pub delivered : Db
    delivered =
        store_codes (set_status at OrderStatus.completed (sent_order later external)) codes
          (with_status at db.next_id OrderStatus.completed (sent later external))

    pub reconciled-delivered :
        reconcile_order at timeout mpt db.next_id (sent later external) ≡ (ok tt, delivered)
    unfolding insert_outbox
    reconciled-delivered =
        let (same_id, same_mpt, open_still) = sent_lem later external in
        reconcile_order-stored at timeout mpt (sent later external) db.next_id
          (sent_order later external) view raw codes (sent-find later external) (rw same_mpt answer)
          done (rw (same_mpt, same_id, sent-quantity later external) fetched) parsed
          (rw (same_id, sent-quantity later external) (ground (arith, all_there))) open_still
          (rw same_id codeless)
        ∙ ap
            (λ i. (
              ok tt,
              store_codes (set_status at OrderStatus.completed (sent_order later external)) codes
                  (with_status at i OrderStatus.completed (sent later external)),
            ))
            same_id

    reconciled-view :
        get_balance d.tenant (reconcile_order at timeout mpt db.next_id (sent later external)).1
        ≡ get_balance d.tenant after_placing
    unfolding get_balance
    reconciled-view =
        let (same_id, same_mpt, open_still) = sent_lem later external in
        let (same, accounts) =
          reconcile_order-SameMoney at timeout mpt (sent later external) db.next_id
            (sent_order later external) view (sent-find later external) (rw same_mpt answer)
            (rw done refl) in
        rw same refl

  pub placed_now : (find_or_place quiet now d db).1 ≡ after_placing
  unfolding find_or_place placed_before
  placed_now =
      let h =
        available_of_view d.tenant db.next_id (pos (total_price d)) db a s mine (omega arith)
          enough in
      rw (new, place_posts now d db a s mine new unposted priced h) refl

  -- An order that can be paid for comes to its codes: it is placed, its message is sent, and the marking
  -- system, which has confirmed it, is asked later and delivers at least the ordered quantity. Then the
  -- order is `COMPLETED`, the vault has as many of its codes as came, and all that has changed of the
  -- tenant's money is that the price is reserved. Here nobody else commits between the three steps, and
  -- the identifiers that the order takes are new to the tables.
  pub find_or_place-reconcile_order :
      (later at timeout : ℕ) (external : Option ℕ) (post : Order → ℕ → Db → Reply × Db) (mpt : Mpt)
      (view : MptView) (raw : List Text) (codes : List Adr006Km)
      → ((db' : Db) → post the_order d.quantity db' ≡ (confirmed external, db'))
      → mpt.get_order (asked db.next_id external) ≡ some view
      → view.status ≡ ready
      → mpt.get_codes (asked db.next_id external) d.quantity ≡ some raw
      → parse_all raw ≡ some codes
      → d.quantity ≤ length codes
      → any (code_of_order db.next_id) db.vault ≡ false
      → let db₁ = (find_or_place quiet now d db).1 in
        let db₂ = (send_to_mpt later post (row_id_of db) db₁).1 in
        let (r, db₃) = reconcile_order at timeout mpt db.next_id db₂ in
        (r ≡ ok tt)
        × (find (has_order_id db.next_id) db₃.orders
            ≡ some (set_status at OrderStatus.completed (sent_order later external)))
        × (length (filter (code_of_order db.next_id) db₃.vault) ≡ length codes)
        × (get_balance d.tenant db₃ ≡ record {
          balance = (get_balance d.tenant db).balance;
          reserved = (get_balance d.tenant db).reserved +ℤ pos (total_price d);
          available = (get_balance d.tenant db).available -ℤ pos (total_price d);
        })
  find_or_place-reconcile_order later at timeout external post mpt view raw codes confirms answer
        done fetched parsed all_there codeless =
      let (r, o, n) =
        reconciled later at timeout external mpt view raw codes answer done fetched parsed all_there
          codeless in
      let money =
        reconciled-view later at timeout external mpt view raw codes answer done fetched parsed
          all_there codeless in
      rw (placed_now, send_to_mpt-sent later external post confirms)
        (r, o, n, money ∙ placed_view now d db a s mine new unposted priced)
