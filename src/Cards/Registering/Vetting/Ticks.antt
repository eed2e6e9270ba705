-- ===== src/Cards/Registering/Vetting/Ticks.antt =====
-- No card is registered unless an operator has approved it: the registration at the ticks of the
-- poller.
use mathlib.Core.Path.{subst}
use mathlib.Core.Option.{some-injective}
use mark_solutions.Base.{
  ℕ, ◌≡◌, refl, ◌∙◌, sym, inl, inr, Bool, true, Option, none, some, List, [], ◌∷◌, ◌-◌, ltb,
  Bool-cases, Option-cases, find, find-All, take, Text, filter,
}
use mark_solutions.Store.{CardStatus, ProductCard, NktJob, OutboxStatus, Outbox, Db}
use mark_solutions.Orders.{is_pending}
use mark_solutions.Emission.{has_row_id, set_row_status, update_row}
use mark_solutions.Cards.{has_card_id, put_status, update_card}
use mark_solutions.Cards.Moderation.{card_status_eq}
use mark_solutions.Cards.Moderation.Calls.{found_at_key}
use mark_solutions.Cards.Moderation.History.{Call, serve, was_approved}
use mark_solutions.Cards.Registering.{
  NktStatus, Nkt, registered, rejected, processing, is_unverified, start_job, register, refuse,
  take_status, start, ask, advance, process_job, process_nkt, process_each, is_waiting, poll_nkt,
}
use mark_solutions.Cards.Registering.Vetting.{
  JobIsVetted, RowIsVetted, Vetted, serve-Vetted, update_row-Vetted, update_card-Vetted,
}

mark_row-Vetted :
    (db : Db)
    → Vetted db
    → (id : ℕ) (s : OutboxStatus) → Vetted (update_row id (set_row_status s) db).1
mark_row-Vetted db v id s = update_row-Vetted db v id (set_row_status s) (λ row h. h)

-- An approved card may get any status.
card-Vetted :
    (db : Db)
    → Vetted db
    → (c : ProductCard) → find (has_card_id c.id) db.cards ≡ some c
    → was_approved c ≡ true
    → (f : ProductCard → ProductCard) → ((x : ProductCard) → (f x).id ≡ x.id)
    → ((x : ProductCard) → (f x).audit ≡ x.audit)
    → Vetted (update_card c.id f db).1
card-Vetted db v c found was f key same =
    update_card-Vetted db v c.id f key (λ x h. rw (same x) h)
      (λ x h past.
        rw (same x) (subst (λ y. was_approved y ≡ true) (some-injective _ _ (sym found ∙ h)) was))

take_status-Vetted :
    (db : Db)
    → Vetted db
    → (row_id : ℕ) (c : ProductCard) (st : NktStatus) → find (has_card_id c.id) db.cards ≡ some c
    → was_approved c ≡ true
    → Vetted (take_status row_id c st db).1
unfolding take_status
take_status-Vetted db v row_id c processing found was = v
take_status-Vetted db v row_id c (registered ntin gtin) found was =
    mark_row-Vetted _ (card-Vetted db v c found was (register ntin gtin) (λ x. refl) (λ x. refl))
      row_id _
take_status-Vetted db v row_id c (rejected es) found was =
    mark_row-Vetted _ (card-Vetted db v c found was (refuse es) (λ x. refl) (λ x. refl)) row_id _

module _ (now timeout : ℕ) (require : Bool) (nkt : Nkt) where
  module _ (db : Db) (v : Vetted db) (row_id : ℕ) (job : NktJob) (c : ProductCard)
      (found : find (has_card_id job.card_id) db.cards ≡ some c) (was : was_approved c ≡ true) where
    at_key : find (has_card_id c.id) db.cards ≡ some c
    at_key = found_at_key job.card_id db.cards c found

    start-Vetted : Vetted (start now timeout require nkt row_id job c db).1
    unfolding start
    start-Vetted = elim (Option-cases (nkt.submit_product c)) [
      | inl thrown ↦ rw thrown v
      | inr (ref, sent) ↦
          let v' =
            update_row-Vetted db v row_id (start_job now ref job) (λ row h. (c, found, was)) in
          rw sent (elim (Bool-cases (card_status_eq c.status CardStatus.registering)) [
            | inl already ↦ rw already v'
            | inr new ↦ rw new (
                card-Vetted _ v' c at_key was (put_status CardStatus.registering) (λ x. refl)
                  (λ x. refl))
          ])
    ]

    ask-Vetted :
        (started_at : ℕ) → Vetted (ask now timeout require nkt row_id job c started_at db).1
    unfolding ask
    ask-Vetted started_at = elim (Bool-cases (ltb timeout (now - started_at))) [
      | inl late ↦ rw late (mark_row-Vetted db v row_id OutboxStatus.failed)
      | inr waiting ↦ rw waiting (elim (Option-cases (nkt.get_status job.ref)) [
        | inl thrown ↦ rw thrown v
        | inr (st, told) ↦ rw told (take_status-Vetted db v row_id c st at_key was)
      ])
    ]

    advance-Vetted : Vetted (advance now timeout require nkt row_id job c db).1
    unfolding advance
    advance-Vetted = elim (Bool-cases (is_unverified require job db)) [
      | inl stop ↦ rw stop (mark_row-Vetted db v row_id OutboxStatus.failed)
      | inr go_on ↦ rw go_on (elim (Option-cases job.started_at) [
        | inl new ↦ rw new start-Vetted
        | inr (t, begun) ↦ rw begun (ask-Vetted t)
      ])
    ]

  process_job-Vetted :
      (db : Db)
      → Vetted db
      → (row_id : ℕ) (job : Option NktJob) → JobIsVetted db.cards job
      → Vetted (process_job now timeout require nkt row_id job db).1
  unfolding process_job
  process_job-Vetted db v row_id none h = v
  process_job-Vetted db v row_id (some job) (c, found, was) =
      rw found (advance-Vetted db v row_id job c found was)

  process_nkt-Vetted :
      (db : Db)
      → Vetted db
      → (row_id : ℕ) → Vetted (process_nkt now timeout require nkt row_id db).1
  unfolding process_nkt
  process_nkt-Vetted db v row_id = elim (Option-cases (find (has_row_id row_id) db.outbox)) [
    | inl absent ↦ rw absent v
    | inr (row, found) ↦ rw found (elim (Bool-cases (is_pending row.status)) [
      | inr closed ↦ rw closed v
      | inl open_row ↦ rw open_row (
          process_job-Vetted db v row_id row.job
            (find-All (RowIsVetted db.cards) (has_row_id row_id) db.outbox found v.rows))
    ])
  ]

  process_each-Vetted :
      (rows : List Outbox) (db : Db)
      → Vetted db
      → Vetted (process_each now timeout require nkt rows db).1
  process_each-Vetted [] db v = v
  process_each-Vetted (row ∷ rows) db v =
      process_each-Vetted rows (process_nkt now timeout require nkt row.id db).1
        (process_nkt-Vetted db v row.id)

-- What happens to cards: a call of the moderation, or the registration at one tick of the poller, with
-- what the catalogue answers at it.
pub data Event : Type 0 where
  moderation : Call → Event
  tick : ℕ → Nkt → Event

abbrev pub happen : (Text → Bool) → ℕ → Bool → Event → Db → Db
happen verify timeout require (moderation call) db = serve verify call db
happen verify timeout require (tick now nkt) db = (poll_nkt now timeout require nkt db).1

abbrev pub happen_all : (Text → Bool) → ℕ → Bool → List Event → Db → Db
happen_all verify timeout require [] db = db
happen_all verify timeout require (e ∷ es) db =
    happen_all verify timeout require es (happen verify timeout require e db)

happen-Vetted :
    (verify : Text → Bool) (timeout : ℕ) (require : Bool) (e : Event) (db : Db)
    → Vetted db
    → Vetted (happen verify timeout require e db)
unfolding poll_nkt
happen-Vetted verify timeout require (moderation call) db v = serve-Vetted verify call db v
happen-Vetted verify timeout require (tick now nkt) db v =
    process_each-Vetted now timeout require nkt (take 20 (filter is_waiting db.outbox)) db v

-- Where every card past its review was approved, and every message of the outbox that registers a card
-- is about an approved one, this stays so through any calls of the moderation and any ticks of the
-- poller, whatever the catalogue answers: no card becomes approved, registering or registered unless
-- its audit has the entry of an approval.
pub happen_all-Vetted :
    (verify : Text → Bool) (timeout : ℕ) (require : Bool) (events : List Event) (db : Db)
    → Vetted db
    → Vetted (happen_all verify timeout require events db)
happen_all-Vetted verify timeout require [] db v = v
happen_all-Vetted verify timeout require (e ∷ es) db v =
    happen_all-Vetted verify timeout require es (happen verify timeout require e db)
      (happen-Vetted verify timeout require e db v)
