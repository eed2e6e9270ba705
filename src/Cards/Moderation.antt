-- ===== src/Cards/Moderation.antt =====
-- `ModerationService` (apps/api/src/moderation.service.ts): the participant submits a card, it is checked
-- automatically, and the operator approves or rejects it; each move is written to the card's audit.
mod Checks
pub mod Trail
pub mod Calls
pub mod History
pub mod Resubmitting
use mark_solutions.Base.{
  ℕ, Bool, true, false, ◌&&◌, ◌||◌, not, Option, none, some, List, [], ◌∷◌, ◌++◌, ◌==◌, is_some,
  if◌then◌else◌, any, filter, find, take, Text, text, text_eq, is_empty,
}
use mark_solutions.Store.{
  CardStatus, AuditEntry, ProductCard, NktJob, nkt_register, OutboxStatus, Outbox, Db, Action,
  bad_request, not_found, pure, gets, throw_if, modify, ◌>>=◌, ◌>>◌,
}
use mark_solutions.Orders.{insert_outbox}
use mark_solutions.Cards.{
  Attributes, get_attribute, string_of, has_card_id, update_card, get_card, put_status, add_audit,
}
use mark_solutions.Cards.Schema.{Reference, references, validate_attributes, autofill_attributes}
use mark_solutions.Cards.Files.{validate_files, files_of, files_key}
use mark_solutions.Cards.Resolving.{Resolution, resolve}
unfoldable pub use Checks.*

abbrev pub is_in_queue : CardStatus → Bool
is_in_queue CardStatus.submitted = true
is_in_queue CardStatus.in_review = true
is_in_queue _ = false

-- An operator takes a submitted card.
unfoldable pub take_up : ProductCard → ℕ → Action Unit
unfolding transition
take_up card actor =
    if card_status_eq card.status CardStatus.submitted
    then transition card CardStatus.in_review actor
    else pure tt

abbrev pub nkt_message : ProductCard → Outbox
nkt_message card = record {
  id = 0;
  aggregate = nkt_register;
  status = OutboxStatus.pending;
  order_id = none;
  tenant_id = card.tenant_id;
  quantity = none;
  attempt = 0;
  unknown_result = false;
  job = some (record { card_id = card.id; gtin = card.gtin; started_at = none; ref = 0 });
}

-- `approve`, once the card is in review.
unfoldable pub approve_taken : ProductCard → ℕ → Action CardStatus
unfolding transition insert_outbox
approve_taken card actor = do
  reviewed ← get_card card.id
  transition reviewed CardStatus.approved actor
  insert_outbox (nkt_message card)
  pure CardStatus.approved

unfoldable pub approve_new : ProductCard → ℕ → Action CardStatus
unfolding take_up
approve_new card actor = take_up card actor >> approve_taken card actor

unfoldable pub approve : ℕ → ℕ → Action CardStatus
approve card_id actor = do
  card ← get_card card_id
  throw_if (not (is_in_queue card.status || card_status_eq card.status CardStatus.approved))
      bad_request
  if card_status_eq card.status CardStatus.approved
      then pure CardStatus.approved
      else approve_new card actor

-- `reject`, of a card that waits for the operator.
unfoldable pub reject_found : ℕ → ℕ → List Text → ProductCard → Action CardStatus
unfolding take_up
reject_found card_id actor field_reasons card = do
  throw_if (elim field_reasons [ [] ↦ true | _ ↦ false ]) bad_request
  take_up card actor
  update_card card_id (send_back field_reasons)
  record_transition card_id actor CardStatus.in_review CardStatus.needs_correction
  pure CardStatus.needs_correction

unfoldable pub reject : ℕ → ℕ → List Text → Action CardStatus
unfolding reject_found
reject card_id actor field_reasons = do
  card ← get_card card_id
  throw_if (not (is_in_queue card.status)) bad_request
  reject_found card_id actor field_reasons card
