-- ===== src/Codes.antt =====
-- `CodeEventService` (apps/api/src/code-event.service.ts): the life of a marking code as an
-- append-only journal of events, with the status of the code written through at each of them.
pub mod Life
pub mod Journal
pub mod Sscc
use mark_solutions.Base.{
  ℕ, suc, ◌+◌, Bool, true, false, ◌&&◌, not, Option, none, some, List, [], ◌∷◌, ◌++◌, ◌==◌,
  if◌then◌else◌, find, any, update_where,
}
use mark_solutions.Store.{
  CodeStatus, CodeEventType, CodeVault, CodeEvent, Db, Action, bad_request, not_found, pure, throw,
  gets, or_throw, throw_if, modify, ◌>>=◌, ◌>>◌,
}

-- A row of `TRANSITIONS` names events and statuses alike.
abbrev pub transitions : CodeStatus → List CodeEventType
transitions CodeStatus.active =
    CodeEventType.printed ∷ CodeEventType.withdrawn ∷ CodeEventType.written_off
    ∷ CodeEventType.expired ∷ CodeEventType.aggregated ∷ []
transitions CodeStatus.printed =
    CodeEventType.applied ∷ CodeEventType.reprinted ∷ CodeEventType.withdrawn
    ∷ CodeEventType.written_off ∷ CodeEventType.expired ∷ []
transitions CodeStatus.applied =
    CodeEventType.utilised ∷ CodeEventType.introduced ∷ CodeEventType.withdrawn
    ∷ CodeEventType.written_off ∷ CodeEventType.expired ∷ CodeEventType.aggregated ∷ []
transitions CodeStatus.utilised = []
transitions CodeStatus.introduced = CodeEventType.withdrawn ∷ CodeEventType.written_off ∷ []
transitions CodeStatus.aggregated =
    CodeEventType.disaggregated ∷ CodeEventType.applied ∷ CodeEventType.withdrawn
    ∷ CodeEventType.written_off ∷ []
transitions CodeStatus.expired = []
transitions CodeStatus.withdrawn = []
transitions CodeStatus.written_off = []

-- The status that an event leads to; `none` keeps the status.
abbrev pub target_status : CodeEventType → Option CodeStatus
target_status CodeEventType.printed = some CodeStatus.printed
target_status CodeEventType.reprinted = none
target_status CodeEventType.applied = some CodeStatus.applied
target_status CodeEventType.aggregated = some CodeStatus.aggregated
target_status CodeEventType.disaggregated = none
target_status CodeEventType.utilised = some CodeStatus.utilised
target_status CodeEventType.introduced = some CodeStatus.introduced
target_status CodeEventType.expired = some CodeStatus.expired
target_status CodeEventType.withdrawn = some CodeStatus.withdrawn
target_status CodeEventType.written_off = some CodeStatus.written_off

-- Whether a status and an event are the same string.
abbrev pub is_named : CodeStatus → CodeEventType → Bool
is_named CodeStatus.printed CodeEventType.printed = true
is_named CodeStatus.applied CodeEventType.applied = true
is_named CodeStatus.utilised CodeEventType.utilised = true
is_named CodeStatus.introduced CodeEventType.introduced = true
is_named CodeStatus.aggregated CodeEventType.aggregated = true
is_named CodeStatus.expired CodeEventType.expired = true
is_named CodeStatus.withdrawn CodeEventType.withdrawn = true
is_named CodeStatus.written_off CodeEventType.written_off = true
is_named _ _ = false

-- `!target || TRANSITIONS[status].includes(target)`
abbrev pub allows : CodeStatus → Option CodeStatus → Bool
allows status none = true
allows status (some target) = any (is_named target) (transitions status)

abbrev pub owned_code : ℕ → ℕ → CodeVault → Bool
owned_code tenant id c = (c.id == id) && (c.tenant_id == tenant)

abbrev pub code_has_id : ℕ → CodeVault → Bool
code_has_id id c = c.id == id

abbrev pub set_status : CodeStatus → CodeVault → CodeVault
set_status target c = record c { status = target }

abbrev pub write_through : ℕ → Option CodeStatus → List CodeVault → List CodeVault
write_through id none rows = rows
write_through id (some target) rows = update_where (code_has_id id) (set_status target) rows

-- `codeEvent.create` with a fresh identifier, and the update of the code's row.
abbrev pub with_event : ℕ → ℕ → ℕ → CodeEventType → Db → Db
with_event tenant code_id actor event db = record db {
  next_id = suc db.next_id;
  events =
      db.events
      ++ (record {
        id = db.next_id;
        tenant_id = tenant;
        code_id = code_id;
        actor = actor;
        event = event;
      }
          ∷ []);
  vault = write_through code_id (target_status event) db.vault;
}

-- `recordEventOn`. An event that is not one of `EVENT_TYPES` is `none`.
unfoldable pub record_event_on : ℕ → ℕ → ℕ → Option CodeEventType → Action CodeEvent
record_event_on tenant code_id actor none = throw bad_request
record_event_on tenant code_id actor (some event) = do
  row ← gets (λ db. find (owned_code tenant code_id) db.vault)
  code ← or_throw row not_found
  throw_if (not (allows code.status (target_status event))) bad_request
  id ← gets (λ db. db.next_id)
  modify (with_event tenant code_id actor event)
  pure (record { id = id; tenant_id = tenant; code_id = code_id; actor = actor; event = event })
