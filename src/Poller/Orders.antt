-- ===== src/Poller/Orders.antt =====
-- What the poller's work on orders does to the ledger.
use mark_solutions.Base.{ℕ, refl, Bool, List, [], ◌∷◌, filter}
use mark_solutions.Store.{Order, MptOrder, OrderStatus, Outbox, Db, modify, transient, processed}
use mark_solutions.Store.Keeping.{
  Keeps, keeping, bind-Keeps, gets-Keeps, seq-Keeps, option_Keeps, swallow-Keeps, pure-Keeps,
  or_throw-Keeps,
}
use mark_solutions.Billing.Growth.{Books, modify-Books, release_on-Books}
use mark_solutions.Catalog.Km.{Adr006Km}
use mark_solutions.Vault.{store_codes, ingest}
use mark_solutions.Poller.Writes.{writes, update_row-Keeps}
use mark_solutions.Emission.Following.{store_codes-others}
use mark_solutions.Emission.{
  Reply, confirmed, refused, unknown, MptStatus, ready, rejected, in_progress, MptView, Mpt,
  after_reply, post_order, send_row, order_to_send, order_of_row, send_to_mpt, quantity_sent,
  count_attempt, take_codes, give_up, follow, reconcile_order, mpt_id, send_each, reconcile_each,
  poll_mpt_orders, set_row_status,
}

-- The messages of a cancelled order are deleted.
forget-Keeps :
    (h : MptOrder → Bool)
    → Keeps Books (modify (λ db. record db { mpt_orders = filter h db.mpt_orders }))
forget-Keeps h = modify-Books (λ db. refl) (λ db. refl)

after_reply-Keeps :
    (now row_id : ℕ) (order : Order) (r : Reply) → Keeps Books (after_reply now row_id order r)
unfolding after_reply
after_reply-Keeps now row_id order refused = search (keeping, writes)
after_reply-Keeps now row_id order unknown = search (keeping, writes)
after_reply-Keeps now row_id order (confirmed external) = search (keeping, writes, forget-Keeps)

module _ (now : ℕ) (post : Order → ℕ → Db → Reply × Db)
    (others : (o : Order) (quantity : ℕ) (db : Db) → Books db → Books (post o quantity db).1) where
  post_order-Keeps :
      (row_id : ℕ) (o : Order) (quantity : ℕ) → Keeps Books (post_order now post row_id o quantity)
  unfolding post_order
  post_order-Keeps row_id o quantity = record {
    after = λ db s.
        let (reply, db') = post o quantity db in
        (after_reply-Keeps now row_id o reply).after db' (others o quantity db s);
  }

  send_row-Keeps : (row_id : ℕ) (row : Outbox) → Keeps Books (send_row now post row_id row)
  unfolding send_row
  send_row-Keeps row_id row = seq-Keeps Books (update_row-Keeps row_id count_attempt) (
      bind-Keeps Books (gets-Keeps Books (λ db. order_to_send (order_of_row row db))) (λ order.
        option_Keeps Books order (update_row-Keeps row_id (set_row_status processed))
          (λ o. post_order-Keeps row_id o (quantity_sent row))))

  send_to_mpt-Keeps : (row_id : ℕ) → Keeps Books (send_to_mpt now post row_id)
  unfolding send_to_mpt
  send_to_mpt-Keeps row_id =
      bind-Keeps Books (gets-Keeps Books _)
        (λ row. option_Keeps Books row (pure-Keeps Books) (send_row-Keeps row_id))

  send_each-Keeps : (rows : List Outbox) → Keeps Books (send_each now post rows)
  send_each-Keeps [] = search keeping
  send_each-Keeps (row ∷ rows) =
      seq-Keeps Books (swallow-Keeps Books (send_to_mpt-Keeps row.id)) (send_each-Keeps rows)

-- Codes that come are put into the vault alone.
store_codes-Keeps : (o : Order) (codes : List Adr006Km) → Keeps Books (modify (store_codes o codes))
store_codes-Keeps o codes =
    modify-Books (λ db. (store_codes-others o codes db).0) (λ db. (store_codes-others o codes db).1)

ingest-Keeps : (id : ℕ) (codes : List Adr006Km) → Keeps Books (ingest id codes)
unfolding ingest
ingest-Keeps id codes = search (keeping, store_codes-Keeps)

take_codes-Keeps :
    (now : ℕ) (o : Order) (codes : List Adr006Km) (expected : ℕ)
    → Keeps Books (take_codes now o codes expected)
unfolding take_codes
take_codes-Keeps now o codes expected = search (keeping, writes, ingest-Keeps)

give_up-Keeps : (now : ℕ) (o : Order) (status : OrderStatus) → Keeps Books (give_up now o status)
unfolding give_up
give_up-Keeps now o status = search (keeping, writes, release_on-Books)

module _ (now timeout : ℕ) (mpt : Mpt) where
  follow-Keeps :
      (o : Order) (view : MptView) (status : MptStatus)
      → Keeps Books (follow now timeout mpt o view status)
  unfolding follow
  follow-Keeps o view ready = search (keeping, take_codes-Keeps)
  follow-Keeps o view rejected = search give_up-Keeps
  follow-Keeps o view in_progress = search (keeping, give_up-Keeps)

  reconcile_order-Keeps : (id : ℕ) → Keeps Books (reconcile_order now timeout mpt id)
  unfolding reconcile_order
  reconcile_order-Keeps id = bind-Keeps Books (gets-Keeps Books _) (λ row.
      option_Keeps Books row (pure-Keeps Books) (λ o.
        bind-Keeps Books (or_throw-Keeps Books (mpt.get_order (mpt_id o)) transient)
          (λ view. follow-Keeps o view view.status)))

  reconcile_each-Keeps : (rows : List Order) → Keeps Books (reconcile_each now timeout mpt rows)
  reconcile_each-Keeps [] = search keeping
  reconcile_each-Keeps (o ∷ rest) =
      seq-Keeps Books (swallow-Keeps Books (reconcile_order-Keeps o.id)) (reconcile_each-Keeps rest)

-- What other processes commit while an order is created keeps the ledger sound: so does the poller's
-- work on orders.
pub poll_mpt_orders-Keeps :
    (now timeout : ℕ) (post : Order → ℕ → Db → Reply × Db) (mpt : Mpt)
    → ((o : Order) (quantity : ℕ) (db : Db) → Books db → Books (post o quantity db).1)
    → Keeps Books (poll_mpt_orders now timeout post mpt)
unfolding poll_mpt_orders
poll_mpt_orders-Keeps now timeout post mpt others =
    search (keeping, send_each-Keeps now post others, reconcile_each-Keeps)
