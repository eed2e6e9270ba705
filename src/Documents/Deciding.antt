-- ===== src/Documents/Deciding.antt =====
-- What the poller makes of a submitted document (`reconcileImport` and `reconcileWithdrawal` of
-- apps/api/src/outbox-poller.ts).
pub mod Introducing
pub mod Confirmed
use mark_solutions.Base.{
  ℕ, ◌-◌, Bool, true, false, ◌&&◌, ◌||◌, not, Option, none, some, List, [], ◌∷◌, ltb, ◌==◌, is_some,
  if◌then◌else◌, take, filter, any, find, update_where,
}
use mark_solutions.Store.{
  CodeEventType, CodeVault, DocumentStatus, submitted, success, ImportDocument, WithdrawalType,
  withdrawal, write_off, WithdrawalDocument, UnitStatus, AggregationUnit, AggregationMember, Db,
  Error, bad_request, not_found, transient, Action, Result, pure, throw, gets, or_throw, ◌>>=◌,
  ◌>>◌, throw_if, modify, catch, swallow, transaction,
}
use mark_solutions.Orders.{insert_outbox}
use mark_solutions.Codes.{record_event_on}
use mark_solutions.Vault.{rows_of}
use mark_solutions.Emission.{task_row}
use mark_solutions.Documents.{includes, is_submitted, unit_has_id}

-- How `mpt.getDocument` ends: with a status, or thrown, for good or for now.
pub data Decision : Type 0 where
  confirmed refused waiting gone unreachable : Decision

-- The actor of the poller.
abbrev pub system : ℕ
system = 0

abbrev pub import_has_id : ℕ → ImportDocument → Bool
import_has_id id d = d.id == id

abbrev pub set_import : DocumentStatus → ImportDocument → ImportDocument
set_import status d = record d { status = status }

abbrev pub is_open_import : ℕ → ImportDocument → Bool
is_open_import id d = import_has_id id d && is_submitted d.status

unfoldable pub fail_import : ImportDocument → Action Unit
unfolding insert_outbox
fail_import doc = do
  modify (λ db. record db {
    imports = update_where (import_has_id doc.id) (set_import DocumentStatus.error) db.imports;
  })
  insert_outbox (task_row doc.order_id doc.tenant_id)

unfoldable pub introduce_each : ℕ → List CodeVault → Action Unit
introduce_each tenant [] = pure tt
introduce_each tenant (c ∷ codes) = do
  record_event_on tenant c.id system (some CodeEventType.introduced)
  introduce_each tenant codes

-- The body of the transaction: one poller claims the document, and every code of the order is
-- introduced.
unfoldable pub finish_import : ImportDocument → Action Unit
finish_import doc = do
  hit ← gets (λ db. any (is_open_import doc.id) db.imports)
  modify (λ db. record db {
    imports = update_where (is_open_import doc.id) (set_import DocumentStatus.success) db.imports;
  })
  codes ← gets (rows_of doc.order_id doc.tenant_id)
  if hit then introduce_each doc.tenant_id codes else pure tt

-- An exception that no later attempt mends ends the document; another one waits for the next tick.
unfoldable pub import_failed : ImportDocument → Error → Action Unit
import_failed doc bad_request = fail_import doc
import_failed doc not_found = fail_import doc
import_failed doc e = pure tt

unfoldable pub decide_import : ℕ → ℕ → ImportDocument → Decision → Action Unit
decide_import now timeout doc confirmed =
    catch (transaction (finish_import doc)) (import_failed doc)
decide_import now timeout doc refused = fail_import doc
decide_import now timeout doc waiting =
    if ltb timeout (now - doc.created_at) then fail_import doc else pure tt
decide_import now timeout doc gone = fail_import doc
decide_import now timeout doc unreachable = pure tt

abbrev pub sent_as : {D : Type 0} → D → Option ℕ → Bool → Option (D × ℕ)
sent_as d none is_open = none
sent_as d (some external) is_open = if is_open then some (d, external) else none

-- The document and its identifier in the marking system, if it is still to be decided.
abbrev pub undecided_import : Option ImportDocument → Option (ImportDocument × ℕ)
undecided_import none = none
undecided_import (some d) = sent_as d d.external_document_id (is_submitted d.status)

module _ (now timeout : ℕ) (mpt : ℕ → Decision) where
  unfoldable pub reconcile_import : ℕ → Action Unit
  reconcile_import id = do
    row ← gets (λ db. undecided_import (find (import_has_id id) db.imports))
    elim row [ none ↦ pure tt | some p ↦ decide_import now timeout p.0 (mpt p.1) ]

abbrev pub withdrawal_has_id : ℕ → WithdrawalDocument → Bool
withdrawal_has_id id d = d.id == id

abbrev pub set_withdrawal : DocumentStatus → WithdrawalDocument → WithdrawalDocument
set_withdrawal status d = record d { status = status }

abbrev pub is_open_withdrawal : ℕ → WithdrawalDocument → Bool
is_open_withdrawal id d = withdrawal_has_id id d && is_submitted d.status

-- The task of a withdrawal names no order.
unfoldable pub fail_withdrawal : WithdrawalDocument → Action Unit
unfolding insert_outbox
fail_withdrawal doc = do
  modify (λ db. record db {
    withdrawals =
        update_where (withdrawal_has_id doc.id) (set_withdrawal DocumentStatus.error)
          db.withdrawals;
  })
  insert_outbox (record (task_row 0 doc.tenant_id) { order_id = none })

abbrev pub disaggregate : AggregationUnit → AggregationUnit
disaggregate u = record u { status = UnitStatus.disaggregated }

unfoldable pub disaggregate_each : List ℕ → Action Unit
disaggregate_each [] = pure tt
disaggregate_each (id ∷ ids) = do
  modify (λ db. record db { units = update_where (unit_has_id id) disaggregate db.units })
  disaggregate_each ids

abbrev pub event_of : WithdrawalType → CodeEventType
event_of write_off = CodeEventType.written_off
event_of withdrawal = CodeEventType.withdrawn

-- Whether the first membership of a code is in one of the units.
abbrev pub is_member_of : List ℕ → ℕ → Db → Bool
is_member_of units code db = elim (find (λ m. m.code_key == code) db.members) [
  | none ↦ false
  | some m ↦ includes m.unit_id units
]

unfoldable pub withdraw_code : WithdrawalDocument → ℕ → Action Unit
withdraw_code doc code = do
  member ← gets (is_member_of doc.aggregate_units code)
  (if member
      then record_event_on doc.tenant_id code system (some CodeEventType.disaggregated) >> pure tt
      else pure tt)
  record_event_on doc.tenant_id code system (some (event_of doc.withdrawal_type))
  pure tt

unfoldable pub withdraw_each : WithdrawalDocument → List ℕ → Action Unit
withdraw_each doc [] = pure tt
withdraw_each doc (k ∷ keys) = withdraw_code doc k >> withdraw_each doc keys

unfoldable pub finish_withdrawal : WithdrawalDocument → Action Unit
finish_withdrawal doc = do
  hit ← gets (λ db. any (is_open_withdrawal doc.id) db.withdrawals)
  modify (λ db. record db {
    withdrawals =
        update_where (is_open_withdrawal doc.id) (set_withdrawal DocumentStatus.success)
          db.withdrawals;
  })
  if hit then disaggregate_each doc.aggregate_units >> withdraw_each doc doc.codes else pure tt

unfoldable pub withdrawal_failed : WithdrawalDocument → Error → Action Unit
withdrawal_failed doc bad_request = fail_withdrawal doc
withdrawal_failed doc not_found = fail_withdrawal doc
withdrawal_failed doc e = pure tt

unfoldable pub decide_withdrawal : ℕ → ℕ → WithdrawalDocument → Decision → Action Unit
decide_withdrawal now timeout doc confirmed =
    catch (transaction (finish_withdrawal doc)) (withdrawal_failed doc)
decide_withdrawal now timeout doc refused = fail_withdrawal doc
decide_withdrawal now timeout doc waiting =
    if ltb timeout (now - doc.created_at) then fail_withdrawal doc else pure tt
decide_withdrawal now timeout doc gone = fail_withdrawal doc
decide_withdrawal now timeout doc unreachable = pure tt

abbrev pub undecided_withdrawal : Option WithdrawalDocument → Option (WithdrawalDocument × ℕ)
undecided_withdrawal none = none
undecided_withdrawal (some d) = sent_as d d.external_document_id (is_submitted d.status)

module _ (now timeout : ℕ) (mpt : ℕ → Decision) where
  unfoldable pub reconcile_withdrawal : ℕ → Action Unit
  reconcile_withdrawal id = do
    row ← gets (λ db. undecided_withdrawal (find (withdrawal_has_id id) db.withdrawals))
    elim row [ none ↦ pure tt | some p ↦ decide_withdrawal now timeout p.0 (mpt p.1) ]

  abbrev pub reconcile_imports : List ImportDocument → Action Unit
  reconcile_imports [] = pure tt
  reconcile_imports (d ∷ docs) =
      swallow (reconcile_import now timeout mpt d.id) >> reconcile_imports docs

  abbrev pub reconcile_withdrawals : List WithdrawalDocument → Action Unit
  reconcile_withdrawals [] = pure tt
  reconcile_withdrawals (d ∷ docs) =
      swallow (reconcile_withdrawal d.id) >> reconcile_withdrawals docs

  -- `pollDocuments`: at most twenty of each kind; an error in one does not stop the others.
  unfoldable pub poll_documents : Action Unit
  poll_documents = do
    imports ← gets (λ db. take 20 (filter (λ d. is_submitted d.status) db.imports))
    reconcile_imports imports
    withdrawals ← gets (λ db. take 20 (filter (λ d. is_submitted d.status) db.withdrawals))
    reconcile_withdrawals withdrawals
