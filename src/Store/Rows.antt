-- ===== src/Store/Rows.antt =====
-- The rows of packages/db/prisma/schema.prisma that the modelled services read and write. An
-- identifier, a key and a time in milliseconds are numbers, which are only compared (times are
-- also subtracted); the free texts of reasons and comments are left out.
use mark_solutions.Base.{ℕ, Option, List, Bool}
use mark_solutions.Base.Int.{ℤ}
use mark_solutions.Store.Marking.{
  CodeVault, CodeEvent, UtilisationReport, UtilisationAlert, ImportDocument, WithdrawalDocument,
  AggregationUnit, AggregationMember, SsccCounter, MptOrder, VaultExport,
}

pub record Account : Type 0 where
  pub id : ℕ
  pub tenant_id : ℕ
  pub balance : ℤ
  pub version : ℕ

pub data LedgerKind : Type 0 where
  topup reserve release settle : LedgerKind

pub record LedgerEntry : Type 0 where
  pub id : ℕ
  pub tenant_id : ℕ
  pub account_id : ℕ
  pub kind : LedgerKind
  pub amount : ℤ
  pub ref_order_id : Option ℕ
  pub ref_1c : Option ℕ

pub data OrderStatus : Type 0 where
  draft validating funds_reserved queued sent accepted processing : OrderStatus
  partially_completed completed rejected cancelled failed : OrderStatus

pub record Order : Type 0 where
  pub id : ℕ
  pub number : ℕ
  pub tenant_id : ℕ
  pub status : OrderStatus
  pub idempotency_key : ℕ
  pub card_id : ℕ
  pub gtin : List ℕ
  pub is_paid : Bool
  pub business_place_id : Option ℤ
  pub product_group : List ℕ
  pub release_method_type : List ℕ
  pub external_order_id : Option ℕ
  pub updated_at : ℕ

pub record OrderLine : Type 0 where
  pub tenant_id : ℕ
  pub order_id : ℕ
  pub card_id : ℕ
  pub gtin : List ℕ
  pub places : ℕ
  pub units_per_place : ℕ
  pub quantity : ℕ
  pub total_price : ℕ
  pub tariff_id : ℕ
  pub price_per_code_kzt : ℕ

pub data FileLabel : Type 0 where
  front back declaration : FileLabel

-- A file of a card: its key in the storage and what it shows.
pub record FileDescriptor : Type 0 where
  pub key : ℕ
  pub label : FileLabel

-- What an attribute holds. A number is its printed form; an attribute that is not there is undefined.
pub data Value : Type 0 where
  null : Value
  str : List ℕ → Value
  num : List ℕ → Value
  bool : Bool → Value
  files : List FileDescriptor → Value

pub data CardStatus : Type 0 where
  draft validating submitted in_review approved : CardStatus
  needs_correction rejected registering registered archived : CardStatus

pub record AuditEntry : Type 0 where
  pub author : ℕ
  pub from : CardStatus
  pub to : CardStatus

-- A product card. `product_group` is `productGroupOf(card.attributes)`, the names of the columns of
-- reasons are kept without the reasons, and a `gtin` that is null is empty.
pub record ProductCard : Type 0 where
  pub id : ℕ
  pub tenant_id : ℕ
  pub gtin : List ℕ
  pub product_group : Option ℕ
  pub status : CardStatus
  pub ntin : Option (List ℕ)
  pub attributes : List (List ℕ × Value)
  pub audit : List AuditEntry
  pub field_reasons : List (List ℕ)
  pub rejected_attributes : Option (List (List ℕ × Value))

pub data GtinStatus : Type 0 where
  verified rejected pending_real : GtinStatus

pub data GtinSource : Type 0 where
  seed ig manual : GtinSource

pub record GtinCache : Type 0 where
  pub gtin : List ℕ
  pub status : GtinStatus
  pub source : GtinSource

pub data InvoiceStatus : Type 0 where
  issued paid cancelled : InvoiceStatus

pub record Invoice : Type 0 where
  pub id : ℕ
  pub tenant_id : ℕ
  pub number : ℕ
  pub quantity : ℕ
  pub unit_price : ℕ
  pub sum_without_vat : ℕ
  pub vat : ℕ
  pub sum_with_vat : ℕ
  pub vat_rate_pct : ℤ
  pub status : InvoiceStatus
  pub payment_ref : Option ℕ

pub record Tariff : Type 0 where
  pub id : ℕ
  pub valid_from : ℕ
  pub valid_to : ℕ
  pub price_per_code_kzt : ℕ
  pub product_group : Option ℕ

pub data Aggregate : Type 0 where
  nkt_register send_order_to_mpt mpt_order_timeout product_card_audit : Aggregate

pub data OutboxStatus : Type 0 where
  pending processed failed : OutboxStatus

-- The payload of the message that registers a card.
pub record NktJob : Type 0 where
  pub card_id : ℕ
  pub gtin : List ℕ
  pub started_at : Option ℕ
  pub ref : ℕ

-- The payload columns that the poller reads back; the others are traces.
pub record Outbox : Type 0 where
  pub id : ℕ
  pub aggregate : Aggregate
  pub status : OutboxStatus
  pub order_id : Option ℕ
  pub tenant_id : ℕ
  pub quantity : Option ℕ
  pub attempt : ℕ
  pub unknown_result : Bool
  pub job : Option NktJob

-- The tables. `next_id` is the next fresh identifier, and `next_number` the sequence of order
-- numbers.
pub record Db : Type 0 where
  pub next_id : ℕ
  pub next_number : ℕ
  pub accounts : List Account
  pub ledger : List LedgerEntry
  pub tariffs : List Tariff
  pub cards : List ProductCard
  pub orders : List Order
  pub lines : List OrderLine
  pub outbox : List Outbox
  pub vault : List CodeVault
  pub exports : List VaultExport
  pub mpt_orders : List MptOrder
  pub events : List CodeEvent
  pub counters : List SsccCounter
  pub reports : List UtilisationReport
  pub alerts : List UtilisationAlert
  pub imports : List ImportDocument
  pub withdrawals : List WithdrawalDocument
  pub units : List AggregationUnit
  pub members : List AggregationMember
  pub gtin_cache : List GtinCache
  pub invoices : List Invoice
