-- ===== src/Store/Marking.antt =====
-- The rows of the codes and of what is told about them to the marking system
-- (packages/db/prisma/schema.prisma).
use mark_solutions.Base.{ℕ, Option, List, Bool}

pub data CodeStatus : Type 0 where
  active printed applied utilised introduced aggregated expired withdrawn written_off : CodeStatus

-- What a row of `CodeVault` keeps encrypted; the model keeps the plain text.
pub record Secret : Type 0 where
  pub serial : List ℕ
  pub ai91 : Option (List ℕ)
  pub ai92 : Option (List ℕ)

pub record CodeVault : Type 0 where
  pub id : ℕ
  pub order_id : ℕ
  pub tenant_id : ℕ
  pub card_id : ℕ
  pub gtin : List ℕ
  pub mask : List ℕ
  pub secret : Secret
  pub label_key : Option ℕ
  pub status : CodeStatus

pub data CodeEventType : Type 0 where
  printed reprinted applied aggregated disaggregated : CodeEventType
  utilised introduced expired withdrawn written_off : CodeEventType

pub record CodeEvent : Type 0 where
  pub id : ℕ
  pub tenant_id : ℕ
  pub code_id : ℕ
  pub actor : ℕ
  pub event : CodeEventType

pub data ReportStatus : Type 0 where
  in_process success error : ReportStatus

pub record UtilisationReport : Type 0 where
  pub id : ℕ
  pub tenant_id : ℕ
  pub order_id : ℕ
  pub idempotency_key : ℕ
  pub report_id : ℕ
  pub status : ReportStatus
  pub settled : Bool
  pub sntins : List (List ℕ)

pub data AlertKind : Type 0 where
  alert expire : AlertKind

pub record UtilisationAlert : Type 0 where
  pub tenant_id : ℕ
  pub order_id : ℕ
  pub days_left : ℕ
  pub kind : AlertKind

pub data DocumentStatus : Type 0 where
  submitted success error : DocumentStatus

pub record ImportDocument : Type 0 where
  pub id : ℕ
  pub tenant_id : ℕ
  pub order_id : ℕ
  pub customs_date : ℕ
  pub customs_number : ℕ
  pub status : DocumentStatus
  pub external_document_id : Option ℕ
  pub created_at : ℕ

pub data WithdrawalType : Type 0 where
  withdrawal write_off : WithdrawalType

pub record WithdrawalDocument : Type 0 where
  pub id : ℕ
  pub tenant_id : ℕ
  pub codes : List ℕ
  pub withdrawal_type : WithdrawalType
  pub aggregate_units : List ℕ
  pub status : DocumentStatus
  pub external_document_id : Option ℕ
  pub created_at : ℕ

pub data UnitStatus : Type 0 where
  open_unit sealed disaggregated : UnitStatus

pub record AggregationUnit : Type 0 where
  pub id : ℕ
  pub tenant_id : ℕ
  pub status : UnitStatus

pub record AggregationMember : Type 0 where
  pub tenant_id : ℕ
  pub unit_id : ℕ
  pub code_key : ℕ

pub record SsccCounter : Type 0 where
  pub tenant_id : ℕ
  pub next_seq : ℕ

-- An order as the simulator of the marking system keeps it.
pub record MptOrder : Type 0 where
  pub external_id : ℕ

pub data ExportKind : Type 0 where
  export print : ExportKind

-- The trace of a decryption.
pub record VaultExport : Type 0 where
  pub tenant_id : ℕ
  pub order_id : ℕ
  pub kind : ExportKind
  pub count : ℕ
