-- ===== src/Poller/Reports.antt =====
-- What the settlement of reports and the deadlines do to the ledger.
use mark_solutions.Base.{
  ℕ, refl, inl, inr, Option-cases, find, Bool, Option, List, [], ◌∷◌, is_some, update_where,
  if◌then◌else◌,
}
use mark_solutions.Base.Int.{pos}
use mark_solutions.Store.{
  Order, UtilisationReport, UtilisationAlert, CodeVault, ReportStatus, in_process, success, reserve,
  LedgerEntry, transient, Action, pure, gets, ◌>>◌, ◌>>=◌, modify,
}
use mark_solutions.Store.Keeping.{
  Keeps, Commits, keeping, bind-Keeps, bind-Commits, gets-Keeps, seq-Keeps, option_Keeps,
  swallow-Keeps, pure-Keeps, if-Keeps, or_throw-Keeps, transaction-Keeps, Keeps-Commits,
}
use mark_solutions.Billing.Growth.{Books, modify-Books, release_on-Books, settle_on-Books}
use mark_solutions.Billing.Ledger.{is_identity}
use mark_solutions.Billing.{quiet, release_on}
use mark_solutions.Orders.{has_order_id}
use mark_solutions.Utilisation.{
  price_of_order, finish_report, settle_order, settle_report, reject_report, decide, reconcile,
  reconcile_each, poll_reports,
}
use mark_solutions.Utilisation.Deadlines.{
  insert_alert, alert_step, expire_step, deadline_step, deadline_each, poll_utilisation_deadlines,
}
use mark_solutions.Poller.Writes.{writes}

finish_report-Keeps : (id order_id : ℕ) → Keeps Books (modify (finish_report id order_id))
finish_report-Keeps id order_id = modify-Books (λ db. refl) (λ db. refl)

released-Keeps :
    (t o : ℕ) (held : Option LedgerEntry)
    → Keeps Books (if is_some held then release_on quiet t o >> pure tt else pure tt)
released-Keeps t o held =
    if-Keeps Books (is_some held) (seq-Keeps Books (release_on-Books t o) (pure-Keeps Books))
      (pure-Keeps Books)

-- What follows the settlement of an order.
abbrev finish : ℕ → Order → Action Unit
finish id o = do
  modify (finish_report id o.id)
  held ← gets (λ db. find (is_identity o.tenant_id reserve o.id) db.ledger)
  if is_some held then release_on quiet o.tenant_id o.id >> pure tt else pure tt

finish-Keeps : (id : ℕ) (o : Order) → Keeps Books (finish id o)
finish-Keeps id o = search (keeping, finish_report-Keeps, released-Keeps)

settle_order-Commits : (id : ℕ) (o : Order) → Commits Books (settle_order id o)
unfolding settle_order
settle_order-Commits id o =
    bind-Commits Books (Keeps-Commits Books (gets-Keeps Books (price_of_order o.id))) (λ total.
      bind-Commits Books (settle_on-Books o.tenant_id o.id (pos total))
        (λ settled. Keeps-Commits Books (finish-Keeps id o)))

settle_report-Commits : (r : UtilisationReport) → Commits Books (settle_report r)
unfolding settle_report
settle_report-Commits r = record {
  returned = λ db s. elim (Option-cases (find (has_order_id r.order_id) db.orders)) [
    | inl absent ↦ rw absent s
    | inr (o, found) ↦ rw found ((settle_order-Commits r.id o).returned db s)
  ];
}

set_reports-Keeps :
    (here : UtilisationReport → Bool) (f : UtilisationReport → UtilisationReport)
    → Keeps Books (modify (λ db. record db { reports = update_where here f db.reports }))
set_reports-Keeps here f = modify-Books (λ db. refl) (λ db. refl)

reject_report-Keeps : (r : UtilisationReport) → Keeps Books (reject_report r)
unfolding reject_report
reject_report-Keeps r = search (keeping, writes, set_reports-Keeps)

decide-Keeps : (r : UtilisationReport) (status : ReportStatus) → Keeps Books (decide r status)
decide-Keeps r success = transaction-Keeps Books (settle_report-Commits r)
decide-Keeps r ReportStatus.error = reject_report-Keeps r
decide-Keeps r in_process = pure-Keeps Books

module _ (mpt : ℕ → Option ReportStatus) where
  reconcile-Keeps : (id : ℕ) → Keeps Books (reconcile mpt id)
  unfolding reconcile
  reconcile-Keeps id = bind-Keeps Books (gets-Keeps Books _) (λ row.
      option_Keeps Books row (pure-Keeps Books) (λ (r : UtilisationReport).
        bind-Keeps Books (or_throw-Keeps Books (mpt r.report_id) transient) (decide-Keeps r)))

  reconcile_each-Keeps : (rows : List UtilisationReport) → Keeps Books (reconcile_each mpt rows)
  reconcile_each-Keeps [] = pure-Keeps Books
  reconcile_each-Keeps (r ∷ rest) =
      seq-Keeps Books (swallow-Keeps Books (reconcile-Keeps r.id)) (reconcile_each-Keeps rest)

  pub poll_reports-Keeps : Keeps Books (poll_reports mpt)
  unfolding poll_reports
  poll_reports-Keeps = search (keeping, reconcile_each-Keeps)

insert_alert-Keeps : (a : UtilisationAlert) → Keeps Books (insert_alert a)
insert_alert-Keeps a = modify-Books (λ db. refl) (λ db. refl)

set_vault-Keeps :
    (here : CodeVault → Bool) (f : CodeVault → CodeVault)
    → Keeps Books (modify (λ db. record db { vault = update_where here f db.vault }))
set_vault-Keeps here f = modify-Books (λ db. refl) (λ db. refl)

ruleset deadline_rules = (keeping, writes, insert_alert-Keeps, set_vault-Keeps)

alert_step-Keeps : (o : Order) (left : ℕ) → Keeps Books (alert_step o left)
unfolding alert_step
alert_step-Keeps o left = search deadline_rules

expire_step-Keeps : (o : Order) → Keeps Books (expire_step o)
unfolding expire_step
expire_step-Keeps o = search deadline_rules

deadline_step-Keeps : (deadline now : ℕ) (o : Order) → Keeps Books (deadline_step deadline now o)
unfolding deadline_step
deadline_step-Keeps deadline now o = search (keeping, alert_step-Keeps, expire_step-Keeps)

deadline_each-Keeps :
    (deadline now : ℕ) (rows : List Order) → Keeps Books (deadline_each deadline now rows)
deadline_each-Keeps deadline now [] = pure-Keeps Books
deadline_each-Keeps deadline now (o ∷ rest) =
    seq-Keeps Books (deadline_step-Keeps deadline now o) (deadline_each-Keeps deadline now rest)

pub poll_utilisation_deadlines-Keeps :
    (deadline now : ℕ) → Keeps Books (poll_utilisation_deadlines deadline now)
unfolding poll_utilisation_deadlines
poll_utilisation_deadlines-Keeps deadline now = search (keeping, deadline_each-Keeps)
