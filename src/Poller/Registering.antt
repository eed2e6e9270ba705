-- ===== src/Poller/Registering.antt =====
-- What the registration of cards does to the ledger.
use mark_solutions.Base.{ℕ, refl, Bool, Option, none, some, List, [], ◌∷◌}
use mark_solutions.Store.{ProductCard, NktJob, Outbox, OutboxStatus}
use mark_solutions.Store.Keeping.{
  Keeps, keeping, bind-Keeps, gets-Keeps, seq-Keeps, option_Keeps, swallow-Keeps, pure-Keeps,
  if-Keeps,
}
use mark_solutions.Billing.Growth.{Books, modify-Books}
use mark_solutions.Emission.{set_row_status}
use mark_solutions.Cards.{update_card}
use mark_solutions.Cards.Registering.{
  Nkt, NktStatus, registered, rejected, processing, take_status, start, ask, advance, process_job,
  process_nkt, process_each, poll_nkt, is_unverified,
}
use mark_solutions.Poller.Writes.{writes, update_row-Keeps}

update_card-Keeps : (id : ℕ) (f : ProductCard → ProductCard) → Keeps Books (update_card id f)
update_card-Keeps id f = modify-Books (λ db. refl) (λ db. refl)

take_status-Keeps :
    (row_id : ℕ) (card : ProductCard) (status : NktStatus)
    → Keeps Books (take_status row_id card status)
unfolding take_status
take_status-Keeps row_id card (registered ntin gtin) = search (keeping, writes, update_card-Keeps)
take_status-Keeps row_id card (rejected errors) = search (keeping, writes, update_card-Keeps)
take_status-Keeps row_id card processing = search keeping

module _ (now timeout : ℕ) (require : Bool) (nkt : Nkt) where
  start-Keeps :
      (row_id : ℕ) (job : NktJob) (card : ProductCard)
      → Keeps Books (start now timeout require nkt row_id job card)
  unfolding start
  start-Keeps row_id job card = search (keeping, writes, update_card-Keeps)

  ask-Keeps :
      (row_id : ℕ) (job : NktJob) (card : ProductCard) (started_at : ℕ)
      → Keeps Books (ask now timeout require nkt row_id job card started_at)
  unfolding ask
  ask-Keeps row_id job card started_at = search (keeping, writes, take_status-Keeps)

  advance-Keeps :
      (row_id : ℕ) (job : NktJob) (card : ProductCard)
      → Keeps Books (advance now timeout require nkt row_id job card)
  unfolding advance
  advance-Keeps row_id job card =
      bind-Keeps Books (gets-Keeps Books (is_unverified require job)) (λ stop.
        if-Keeps Books stop (update_row-Keeps row_id (set_row_status OutboxStatus.failed)) (
          option_Keeps Books job.started_at (start-Keeps row_id job card)
            (ask-Keeps row_id job card)))

  process_job-Keeps :
      (row_id : ℕ) (job : Option NktJob)
      → Keeps Books (process_job now timeout require nkt row_id job)
  unfolding process_job
  process_job-Keeps row_id none = search keeping
  process_job-Keeps row_id (some job) = bind-Keeps Books (gets-Keeps Books _) (λ card.
      option_Keeps Books card (update_row-Keeps row_id (set_row_status OutboxStatus.failed))
        (advance-Keeps row_id job))

  process_nkt-Keeps : (row_id : ℕ) → Keeps Books (process_nkt now timeout require nkt row_id)
  unfolding process_nkt
  process_nkt-Keeps row_id = bind-Keeps Books (gets-Keeps Books _) (λ row.
      option_Keeps Books row (pure-Keeps Books) (λ (r : Outbox). process_job-Keeps row_id r.job))

  process_each-Keeps :
      (rows : List Outbox) → Keeps Books (process_each now timeout require nkt rows)
  process_each-Keeps [] = pure-Keeps Books
  process_each-Keeps (row ∷ rows) =
      seq-Keeps Books (swallow-Keeps Books (process_nkt-Keeps row.id)) (process_each-Keeps rows)

  pub poll_nkt-Keeps : Keeps Books (poll_nkt now timeout require nkt)
  unfolding poll_nkt
  poll_nkt-Keeps = search (keeping, process_each-Keeps)
