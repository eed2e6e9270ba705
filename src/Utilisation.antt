-- ===== src/Utilisation.antt =====
-- `UtilisationService` (apps/api/src/utilisation.service.ts): a report on the applied codes of an
-- order, and its settlement when the marking system accepts it; and the deadline for the report
-- (`pollUtilisationDeadlines` of apps/api/src/outbox-poller.ts).
pub mod Settling
pub mod Deadlines
pub mod Submitting
use mark_solutions.Base.{
  ℕ, zero, suc, ◌+◌, ◌-◌, ◌/◌, Bool, true, false, ◌&&◌, ◌||◌, not, Option, none, some, List, [],
  ◌∷◌, ◌++◌, map, foldl, leb, ◌==◌, is_some, if◌then◌else◌, take, filter, any, find, update_where,
  Text, length,
}
use mark_solutions.Base.Int.{ℤ, pos}
use mark_solutions.Store.{
  OrderStatus, Order, OrderLine, OutboxStatus, Outbox, CodeStatus, CodeVault, ReportStatus,
  in_process, success, UtilisationReport, export, VaultExport, reserve, Db, bad_request, not_found,
  transient, Action, pure, throw, gets, or_throw, ◌>>=◌, ◌>>◌, throw_if, modify, swallow,
  transaction,
}
use mark_solutions.Billing.Ledger.{is_identity}
use mark_solutions.Billing.{quiet, settle_on, release_on}
use mark_solutions.Orders.{has_order_id, line_of, insert_outbox}
use mark_solutions.Catalog.Km.{Adr006Km}
use mark_solutions.Vault.{code_of_order, revealed, reveal, log_export}
use mark_solutions.Emission.{task_row}

-- The body of a report, by which of its fields are given.
pub record Report : Type 0 where
  pub order_id : ℕ
  pub has_release_type : Bool
  pub has_expiration_date : Bool
  pub has_production_date : Bool
  pub has_manufacturer_country : Bool

abbrev pub is_complete : Report → Bool
is_complete body =
    body.has_release_type
    && (body.has_expiration_date && (body.has_production_date && body.has_manufacturer_country))

abbrev pub is_emitted : OrderStatus → Bool
is_emitted OrderStatus.completed = true
is_emitted OrderStatus.partially_completed = true
is_emitted _ = false

abbrev pub has_report_key : ℕ → UtilisationReport → Bool
has_report_key key r = r.idempotency_key == key

abbrev pub is_error : ReportStatus → Bool
is_error ReportStatus.error = true
is_error _ = false

abbrev pub report_row : ℕ → ℕ → ℕ → List Text → ℕ × ReportStatus → UtilisationReport
report_row tenant order_id key sntins (report_id, status) = record {
  id = 0;
  tenant_id = tenant;
  order_id = order_id;
  idempotency_key = key;
  report_id = report_id;
  status = status;
  settled = false;
  sntins = sntins;
}

-- `utilisationReport.create`
unfoldable pub insert_report : UtilisationReport → Action Unit
insert_report row = modify (λ db. record db {
  next_id = suc db.next_id;
  reports = db.reports ++ (record row { id = db.next_id } ∷ []);
})

abbrev pub is_nil : List Adr006Km → Bool
is_nil [] = true
is_nil (c ∷ rest) = false

abbrev pub export_row : ℕ → ℕ → ℕ → VaultExport
export_row tenant order_id count = record {
  tenant_id = tenant;
  order_id = order_id;
  kind = export;
  count = count;
}

-- `mpt` is `mpt.submitUtilisation`, which may throw.
module _ (mpt : List Text → Option (ℕ × ReportStatus)) where
  unfoldable pub send_report : ℕ → ℕ → Report → Action (ℕ × ReportStatus)
  unfolding insert_outbox
  send_report tenant key body = do
    codes ← reveal body.order_id tenant
    throw_if (is_nil codes) not_found
    let sntins = map (λ c. c.serial) codes
    log_export (export_row tenant body.order_id (length sntins))
    sub ← or_throw (mpt sntins) transient
    insert_report (report_row tenant body.order_id key sntins sub)
    (if is_error sub.1 then insert_outbox (task_row body.order_id tenant) else pure tt)
    pure sub

  -- The empty `Idempotency-Key` is `none`.
  unfoldable pub submit : ℕ → Option ℕ → Report → Action (ℕ × ReportStatus)
  submit tenant none body = throw bad_request
  submit tenant (some key) body = do
    throw_if (not (is_complete body)) bad_request
    row ← gets (λ db. find (has_order_id body.order_id) db.orders)
    order ← or_throw row not_found
    throw_if (not (order.tenant_id == tenant)) not_found
    throw_if (not (is_emitted order.status)) bad_request
    existing ← gets (λ db. find (has_report_key key) db.reports)
    elim existing [ some r ↦ pure (r.report_id, r.status) | none ↦ send_report tenant key body ]

abbrev pub has_report_id : ℕ → UtilisationReport → Bool
has_report_id id r = r.id == id

abbrev pub settled_report : UtilisationReport → UtilisationReport
settled_report r = record r { status = success; settled = true }

abbrev pub failed_report : UtilisationReport → UtilisationReport
failed_report r = record r { status = ReportStatus.error }

abbrev pub set_utilised : CodeVault → CodeVault
set_utilised c = record c { status = CodeStatus.utilised }

abbrev pub price_of_order : ℕ → Db → ℕ
price_of_order order_id db = foldl (λ n l. n + l.total_price) 0 (filter (line_of order_id) db.lines)

abbrev pub finish_report : ℕ → ℕ → Db → Db
finish_report report_id order_id db = record db {
  reports = update_where (has_report_id report_id) settled_report db.reports;
  vault = update_where (code_of_order order_id) set_utilised db.vault;
}

-- The body of the transaction that settles an accepted report, for an order that is there.
unfoldable pub settle_order : ℕ → Order → Action Unit
settle_order report_id order = do
  total ← gets (price_of_order order.id)
  settle_on quiet order.tenant_id order.id (pos total)
  modify (finish_report report_id order.id)
  held ← gets (λ db. find (is_identity order.tenant_id reserve order.id) db.ledger)
  if is_some held then release_on quiet order.tenant_id order.id >> pure tt else pure tt

unfoldable pub settle_report : UtilisationReport → Action Unit
settle_report report = do
  row ← gets (λ db. find (has_order_id report.order_id) db.orders)
  elim row [ none ↦ pure tt | some order ↦ settle_order report.id order ]

unfoldable pub reject_report : UtilisationReport → Action Unit
unfolding insert_outbox
reject_report report = do
  modify (λ db. record db {
    reports = update_where (has_report_id report.id) failed_report db.reports;
  })
  insert_outbox (task_row report.order_id report.tenant_id)

abbrev pub is_in_process : ReportStatus → Bool
is_in_process in_process = true
is_in_process _ = false

-- The report, if it is still to be decided.
abbrev pub open_report : Option UtilisationReport → Option UtilisationReport
open_report none = none
open_report (some r) = if is_in_process r.status then some r else none

abbrev pub decide : UtilisationReport → ReportStatus → Action Unit
decide report success = transaction (settle_report report)
decide report ReportStatus.error = reject_report report
decide report in_process = pure tt

-- `mpt` is `mpt.getUtilisation`, which may throw.
module _ (mpt : ℕ → Option ReportStatus) where
  unfoldable pub reconcile : ℕ → Action Unit
  reconcile report_id = do
    row ← gets (λ db. open_report (find (has_report_id report_id) db.reports))
    elim row [
      | none ↦ pure tt
      | some report ↦ or_throw (mpt report.report_id) transient >>= decide report
    ]

  abbrev pub reconcile_each : List UtilisationReport → Action Unit
  reconcile_each [] = pure tt
  reconcile_each (r ∷ rest) = swallow (reconcile r.id) >> reconcile_each rest

  -- An error in one report does not stop the others.
  unfoldable pub poll_reports : Action Unit
  poll_reports = do
    rows ← gets (λ db. take 50 (filter (λ r. is_in_process r.status) db.reports))
    reconcile_each rows
