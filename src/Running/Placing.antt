-- ===== src/Running/Placing.antt =====
-- What placing and cancelling an order does to the ledger (apps/api/src/order.service.ts).
use mark_solutions.Base.{
  ℕ, refl, inl, inr, Bool-cases, any, Option, none, some, List, [], ◌∷◌, ◌++◌,
}
use mark_solutions.Base.Int.{pos}
use mark_solutions.Store.{
  Order, OrderLine, OrderStatus, Outbox, Error, p2002, Action, modify, pure, ◌>>◌,
}
use mark_solutions.Store.Keeping.{
  Keeps, Commits, keeping, bind-Keeps, bind-Commits, gets-Keeps, option_Keeps, throw-Keeps,
  catch-Keeps, transaction-Keeps, Keeps-Commits,
}
use mark_solutions.Billing.Growth.{
  Books, same_Books, modify-Books, release_on-Books, reserve_on-Books,
}
use mark_solutions.Billing.{quiet}
use mark_solutions.Orders.Requests.{CreateOrder}
use mark_solutions.Orders.{
  Draft, OrderView, active_tariff, insert_order, insert_outbox, place, placed_before, find_or_place,
  create, get_owned_order, cancel, has_key, order_of, order_line, total_price, update_status,
  queued_view, send_message, view_of, neutralise,
}
use mark_solutions.Poller.Writes.{writes, update_status-Keeps}

insert_order-Keeps : (new : Order) → Keeps Books (insert_order new)
unfolding insert_order
insert_order-Keeps new = record {
  after = λ db s. elim (Bool-cases (any (has_key new.idempotency_key) db.orders)) [
    | inl taken ↦ rw taken s
    | inr free ↦ rw free (same_Books db refl refl s)
  ];
}

add_line-Keeps :
    (l : OrderLine) → Keeps Books (modify (λ db. record db { lines = db.lines ++ (l ∷ []) }))
add_line-Keeps l = modify-Books (λ db. refl) (λ db. refl)

-- What follows the reservation.
abbrev queue : ℕ → Draft → Order → Action OrderView
queue now d created = do
  update_status now created.id OrderStatus.funds_reserved
  modify (λ db. record db { lines = db.lines ++ (order_line created.id d ∷ []) })
  update_status now created.id OrderStatus.queued
  insert_outbox (send_message created.id d.tenant d.quantity)
  pure (queued_view created d)

queue-Keeps : (now : ℕ) (d : Draft) (created : Order) → Keeps Books (queue now d created)
queue-Keeps now d created = search (keeping, writes, add_line-Keeps) depth 8

place-Commits : (now : ℕ) (d : Draft) → Commits Books (place quiet now d)
unfolding place
place-Commits now d =
    bind-Commits Books (Keeps-Commits Books (insert_order-Keeps (order_of now d))) (λ created.
      bind-Commits Books (Keeps-Commits Books (update_status-Keeps now created.id _)) (λ marked.
        bind-Commits Books (reserve_on-Books d.tenant created.id (pos (total_price d)))
          (λ held. Keeps-Commits Books (queue-Keeps now d created))))

placed_before-Keeps : (now key : ℕ) (e : Error) → Keeps Books (placed_before quiet now key e)
unfolding placed_before
placed_before-Keeps now key p2002 = bind-Keeps Books (gets-Keeps Books _) (λ row.
    option_Keeps Books row (throw-Keeps Books {e = p2002}) (λ o. gets-Keeps Books (view_of o)))
placed_before-Keeps now key _ = throw-Keeps Books

find_or_place-Keeps : (now : ℕ) (d : Draft) → Keeps Books (find_or_place quiet now d)
unfolding find_or_place
find_or_place-Keeps now d = bind-Keeps Books (gets-Keeps Books _) (λ row.
    option_Keeps Books row
      (catch-Keeps Books (transaction-Keeps Books (place-Commits now d))
        (placed_before-Keeps now d.key))
      (λ o. gets-Keeps Books (view_of o)))

pub active_tariff-Keeps : (now : ℕ) (group : Option ℕ) → Keeps Books (active_tariff now group)
unfolding active_tariff
active_tariff-Keeps now group = search keeping

pub create-Keeps :
    (now tenant : ℕ) (key : Option ℕ) (body : CreateOrder)
    → Keeps Books (create quiet now tenant key body)
unfolding create
create-Keeps now tenant none body = throw-Keeps Books
create-Keeps now tenant (some key) body =
    search (keeping, active_tariff-Keeps, find_or_place-Keeps) depth 9

get_owned_order-Keeps : (tenant id : ℕ) → Keeps Books (get_owned_order tenant id)
unfolding get_owned_order
get_owned_order-Keeps tenant id = search keeping

neutralise-Keeps :
    (mine : List Outbox)
    → Keeps Books (modify (λ db. record db { outbox = neutralise mine db.outbox }))
neutralise-Keeps mine = modify-Books (λ db. refl) (λ db. refl)

pub cancel-Keeps : (now tenant id : ℕ) → Keeps Books (cancel quiet now tenant id)
unfolding cancel
cancel-Keeps now tenant id =
    search (keeping, writes, get_owned_order-Keeps, release_on-Books, neutralise-Keeps) depth 9
