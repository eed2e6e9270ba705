-- ===== src/Poller/Writes.antt =====
-- The writes that the poller shares with the services: none of them touches a posting or an account.
use mark_solutions.Base.{ℕ, refl}
use mark_solutions.Store.{Order, OrderStatus, Outbox}
use mark_solutions.Store.Keeping.{Keeps}
use mark_solutions.Billing.Growth.{Books, modify-Books}
use mark_solutions.Orders.{insert_outbox, update_status}
use mark_solutions.Emission.{update_row, update_order}

pub update_row-Keeps : (id : ℕ) (f : Outbox → Outbox) → Keeps Books (update_row id f)
update_row-Keeps id f = modify-Books (λ db. refl) (λ db. refl)

pub update_order-Keeps : (id : ℕ) (f : Order → Order) → Keeps Books (update_order id f)
update_order-Keeps id f = modify-Books (λ db. refl) (λ db. refl)

pub update_status-Keeps :
    (now id : ℕ) (status : OrderStatus) → Keeps Books (update_status now id status)
update_status-Keeps now id status = modify-Books (λ db. refl) (λ db. refl)

pub insert_outbox-Keeps : (row : Outbox) → Keeps Books (insert_outbox row)
unfolding insert_outbox
insert_outbox-Keeps row = modify-Books (λ db. refl) (λ db. refl)

pub ruleset writes =
    (update_row-Keeps, update_order-Keeps, update_status-Keeps, insert_outbox-Keeps)
