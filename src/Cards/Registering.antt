-- ===== src/Cards/Registering.antt =====
-- The registration of approved cards in the national catalogue (`processNkt` of
-- apps/api/src/outbox-poller.ts): a message is sent once, and then asked after until it is answered or
-- too old.
pub mod Messages
pub mod Vetting
use mark_solutions.Base.{
  ℕ, ◌-◌, Bool, true, false, ◌&&◌, not, Option, none, some, List, [], ◌∷◌, ltb, ◌==◌, if◌then◌else◌,
  find, take, filter, Text, is_empty,
}
use mark_solutions.Store.{
  CardStatus, ProductCard, NktJob, GtinStatus, verified, GtinCache, Aggregate, nkt_register,
  OutboxStatus, pending, processed, Outbox, Db, not_found, transient, Action, pure, throw, gets,
  or_throw, modify, swallow, ◌>>=◌, ◌>>◌,
}
use mark_solutions.Orders.{is_pending}
use mark_solutions.Emission.{has_row_id, set_row_status, update_row, pending_row}
use mark_solutions.Cards.{has_card_id, update_card, put_status}
use mark_solutions.Cards.Resolving.{is_cached}
use mark_solutions.Cards.Moderation.{card_status_eq}

-- `NktStatusResult`, with the identifiers of a registered card and the fields of a refused one.
pub data NktStatus : Type 0 where
  registered : Text → Text → NktStatus
  rejected : List Text → NktStatus
  processing : NktStatus

-- The catalogue, as it answers: a submission gives a reference; `none` is an exception.
pub record Nkt : Type 0 where
  pub submit_product : ProductCard → Option ℕ
  pub get_status : ℕ → Option NktStatus

-- `cached.status === "VERIFIED"`
abbrev pub is_verified : Option GtinCache → Bool
is_verified none = false
is_verified (some row) = elim row.status [ verified ↦ true | _ ↦ false ]

-- Where only verified GTINs may be registered, the message of another is given up.
abbrev pub is_unverified : Bool → NktJob → Db → Bool
is_unverified require job db =
    require
    && (not (is_empty job.gtin) && not (is_verified (find (is_cached job.gtin) db.gtin_cache)))

abbrev pub start_job : ℕ → ℕ → NktJob → Outbox → Outbox
start_job now ref job row = record row {
  job = some (record job { started_at = some now; ref = ref });
}

abbrev pub register : Text → Text → ProductCard → ProductCard
register ntin gtin c = record c { status = CardStatus.registered; ntin = some ntin; gtin = gtin }

abbrev pub refuse : List Text → ProductCard → ProductCard
refuse field_errors c = record c {
  status = CardStatus.needs_correction;
  field_reasons = field_errors;
}

-- What the answer of the catalogue comes to.
unfoldable pub take_status : ℕ → ProductCard → NktStatus → Action Unit
take_status row_id card (registered ntin gtin) = do
  update_card card.id (register ntin gtin)
  update_row row_id (set_row_status processed)
take_status row_id card (rejected field_errors) = do
  update_card card.id (refuse field_errors)
  update_row row_id (set_row_status OutboxStatus.failed)
take_status row_id card processing = pure tt

abbrev pub is_registration : Aggregate → Bool
is_registration nkt_register = true
is_registration _ = false

abbrev pub is_waiting : Outbox → Bool
is_waiting row = is_registration row.aggregate && is_pending row.status

module _ (now timeout : ℕ) (require : Bool) (nkt : Nkt) where
  unfoldable pub start : ℕ → NktJob → ProductCard → Action Unit
  start row_id job card = do
    ref ← or_throw (nkt.submit_product card) transient
    update_row row_id (start_job now ref job)
    if card_status_eq card.status CardStatus.registering
        then pure tt
        else update_card card.id (put_status CardStatus.registering)

  unfoldable pub ask : ℕ → NktJob → ProductCard → ℕ → Action Unit
  ask row_id job card started_at =
      if ltb timeout (now - started_at)
      then update_row row_id (set_row_status OutboxStatus.failed)
      else or_throw (nkt.get_status job.ref) transient >>= take_status row_id card

  unfoldable pub advance : ℕ → NktJob → ProductCard → Action Unit
  advance row_id job card = do
    stop ← gets (is_unverified require job)
    if stop then update_row row_id (set_row_status OutboxStatus.failed) else elim job.started_at [
      | none ↦ start row_id job card
      | some started_at ↦ ask row_id job card started_at
    ]

  -- A message without a card is an error of the database client.
  unfoldable pub process_job : ℕ → Option NktJob → Action Unit
  process_job row_id none = throw transient
  process_job row_id (some job) = do
    card ← gets (λ db. find (has_card_id job.card_id) db.cards)
    elim card [
      | none ↦ update_row row_id (set_row_status OutboxStatus.failed)
      | some c ↦ advance row_id job c
    ]

  unfoldable pub process_nkt : ℕ → Action Unit
  process_nkt row_id = do
    row ← gets (λ db. pending_row (find (has_row_id row_id) db.outbox))
    elim row [ none ↦ pure tt | some row ↦ process_job row_id row.job ]

  abbrev pub process_each : List Outbox → Action Unit
  process_each [] = pure tt
  process_each (row ∷ rows) = swallow (process_nkt row.id) >> process_each rows

  -- The first part of `poll`.
  unfoldable pub poll_nkt : Action Unit
  poll_nkt = do rows ← gets (λ db. take 20 (filter is_waiting db.outbox)); process_each rows
