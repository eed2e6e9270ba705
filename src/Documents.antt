-- ===== src/Documents.antt =====
-- `DocumentService` (apps/api/src/document.service.ts): the documents of import and of withdrawal that a
-- tenant submits to the marking system.
mod Importing
pub mod Deciding
pub mod Submitting
use mark_solutions.Base.{
  ℕ, zero, suc, ◌+◌, Bool, true, false, ◌&&◌, ◌||◌, not, Option, none, some, List, [], ◌∷◌, ◌++◌,
  map, leb, ltb, ◌==◌, is_some, if◌then◌else◌, take, filter, any, all, find, update_where, Text,
  length, is_empty, text_eq, trim,
}
use mark_solutions.Store.{
  Order, CodeStatus, CodeVault, DocumentStatus, submitted, ImportDocument, WithdrawalType,
  withdrawal, write_off, WithdrawalDocument, UnitStatus, open_unit, sealed, AggregationUnit,
  AggregationMember, Db, bad_request, not_found, conflict, transient, Action, pure, throw, gets,
  or_throw, ◌>>=◌, ◌>>◌, throw_if, modify,
}
use mark_solutions.Orders.{has_order_id, get_owned_order, insert_outbox}
use mark_solutions.Codes.{owned_code}
use mark_solutions.Vault.{rows_of, is_no_row}
use mark_solutions.Emission.{task_row}
unfoldable pub use Importing.*

-- An item of a withdrawal: a code, with the aggregate that it is taken with.
pub record WithdrawalCode : Type 0 where
  pub code : ℕ
  pub is_partial : Bool
  pub unit_id : Option ℕ

pub data Reason : Type 0 where
  defect lost expiry return_supplier destruction other : Reason

-- A type or a reason that is not one of the known ones is `none`.
pub record Withdrawal : Type 0 where
  pub codes : List WithdrawalCode
  pub type : Option WithdrawalType
  pub reason : Option Reason
  pub comment : Text
  pub children_write_off : Bool

abbrev pub is_unexplained : Reason → Text → Bool
is_unexplained other comment = ltb (length (trim comment)) 5
is_unexplained _ comment = false

abbrev pub is_active_unit : UnitStatus → Bool
is_active_unit open_unit = true
is_active_unit sealed = true
is_active_unit _ = false

abbrev pub owned_unit : ℕ → ℕ → AggregationUnit → Bool
owned_unit id tenant u = (u.id == id) && (u.tenant_id == tenant)

abbrev pub unit_has_id : ℕ → AggregationUnit → Bool
unit_has_id id u = u.id == id

abbrev pub member_code : ℕ → ℕ → AggregationMember → Bool
member_code code tenant m = (m.code_key == code) && (m.tenant_id == tenant)

abbrev pub includes : ℕ → List ℕ → Bool
includes k = any (λ x. x == k)

-- `if (!toProcess.includes(key)) toProcess.push(key)`
abbrev pub push : ℕ → List ℕ → List ℕ
push k keys = if includes k keys then keys else keys ++ (k ∷ [])

abbrev pub push_all : List ℕ → List ℕ → List ℕ
push_all [] keys = keys
push_all (k ∷ rest) keys = push_all rest (push k keys)

-- The codes that are withdrawn and the units that are disaggregated.
pub record Collected : Type 0 where
  pub to_process : List ℕ
  pub units : List ℕ

abbrev pub in_active_unit : ℕ → ℕ → Db → Bool
in_active_unit code tenant db = elim (find (member_code code tenant) db.members) [
  | none ↦ false
  | some m ↦ any (λ u. unit_has_id m.unit_id u && is_active_unit u.status) db.units
]

abbrev pub members_of : ℕ → Db → List ℕ
members_of unit db = map (λ m. m.code_key) (filter (λ m. m.unit_id == unit) db.members)

-- An item that names an aggregate.
unfoldable pub collect_unit : Bool → AggregationUnit → Collected → Action Collected
collect_unit children u c =
    if children
    then gets (λ db. record {
      to_process = push_all (members_of u.id db) c.to_process;
      units = push u.id c.units;
    })
    else if is_active_unit u.status
    then throw conflict
    else pure c

-- An item that is a code.
unfoldable pub collect_code : ℕ → ℕ → Collected → Action Collected
collect_code tenant code c = do
  active ← gets (in_active_unit code tenant)
  throw_if active conflict
  pure (record c { to_process = push code c.to_process })

-- `item.aggregation.unitId`, or else the code itself
abbrev pub unit_key : WithdrawalCode → ℕ
unit_key item = elim item.unit_id [ some u ↦ u | none ↦ item.code ]

abbrev pub collect_found : ℕ → Bool → ℕ → Option AggregationUnit → Collected → Action Collected
collect_found tenant children code (some u) c = collect_unit children u c
collect_found tenant children code none c = collect_code tenant code c

unfoldable pub collect : ℕ → Bool → List WithdrawalCode → Collected → Action Collected
collect tenant children [] c = pure c
collect tenant children (item ∷ items) c = do
  unit ← gets (λ db. find (owned_unit (unit_key item) tenant) db.units)
  next ← collect_found tenant children item.code unit c
  collect tenant children items next

abbrev pub is_withdrawn : CodeStatus → Bool
is_withdrawn CodeStatus.withdrawn = true
is_withdrawn CodeStatus.written_off = true
is_withdrawn CodeStatus.expired = true
is_withdrawn _ = false

unfoldable pub check_codes : ℕ → List ℕ → Action Unit
check_codes tenant [] = pure tt
check_codes tenant (k ∷ keys) = do
  row ← gets (λ db. find (owned_code tenant k) db.vault)
  code ← or_throw row not_found
  throw_if (is_withdrawn code.status) conflict
  check_codes tenant keys

abbrev pub is_submitted : DocumentStatus → Bool
is_submitted submitted = true
is_submitted _ = false

abbrev pub open_documents : ℕ → Db → List WithdrawalDocument
open_documents tenant db =
    take 50 (filter (λ d. (d.tenant_id == tenant) && is_submitted d.status) db.withdrawals)

-- Whether a code is in one of the documents.
abbrev pub is_in_documents : List WithdrawalDocument → ℕ → Bool
is_in_documents docs k = any (λ d. includes k d.codes) docs

abbrev pub withdrawal_row :
    ℕ → ℕ → List ℕ → WithdrawalType → List ℕ → DocumentStatus → Option ℕ → WithdrawalDocument
withdrawal_row now tenant codes type units status external = record {
  id = 0;
  tenant_id = tenant;
  codes = codes;
  withdrawal_type = type;
  aggregate_units = units;
  status = status;
  external_document_id = external;
  created_at = now;
}

unfoldable pub insert_withdrawal : WithdrawalDocument → Action ℕ
insert_withdrawal row = do
  id ← gets (λ db. db.next_id)
  modify (λ db. record db {
    next_id = suc db.next_id;
    withdrawals = db.withdrawals ++ (record row { id = db.next_id } ∷ []);
  })
  pure id

module _ (now : ℕ) (mpt : List ℕ → Option Submission) where
  unfoldable pub file_withdrawal :
      ℕ → Withdrawal → WithdrawalType → Collected → Submission → Action Submission
  unfolding insert_withdrawal
  file_withdrawal tenant body type c rejected = do
    insert_withdrawal
        (withdrawal_row now tenant (map (λ i. i.code) body.codes) type [] DocumentStatus.error none)
    pure rejected
  file_withdrawal tenant body type c (accepted external) = do
    id ←
        insert_withdrawal
          (withdrawal_row now tenant c.to_process type c.units submitted (some external))
    pure (accepted id)

  unfoldable pub send_withdrawal : ℕ → Withdrawal → WithdrawalType → Action Submission
  send_withdrawal tenant body type = do
    c ← collect tenant body.children_write_off body.codes (record { to_process = []; units = [] })
    check_codes tenant c.to_process
    docs ← gets (open_documents tenant)
    throw_if (any (is_in_documents docs) c.to_process) conflict
    sub ← or_throw (mpt c.to_process) transient
    file_withdrawal tenant body type c sub

  -- `mpt` is `mpt.submitWithdrawal`, which may throw.
  unfoldable pub submit_withdrawal : ℕ → Withdrawal → Action Submission
  submit_withdrawal tenant body = do
    type ← or_throw body.type bad_request
    reason ← or_throw body.reason bad_request
    throw_if (is_unexplained reason body.comment) bad_request
    throw_if (any (λ i. i.is_partial) body.codes) bad_request
    send_withdrawal tenant body type
