-- ===== src/Running/Lifecycle.antt =====
-- An order from its placing to the payment for its codes: the service, the poller and the marking
-- system together (apps/api/src/order.service.ts, outbox-poller.ts, utilisation.service.ts).
mod Settlement
use mark_solutions.Base.{
  ℕ, ◌≤◌, ◌≡◌, refl, sym, ◌∙◌, ap, inl, inr, true, false, none, some, Option, List, [], ◌∷◌, ◌++◌,
  ◌==◌, arith, ==_refl, find, find-append, update_where, any, filter, length, map, Text,
}
use mark_solutions.Base.Int.{ℤ, pos, ◌+ℤ◌, ◌-ℤ◌, ◌≤ℤ◌, int_laws}
use mark_solutions.Store.{
  Account, LedgerEntry, reserve, release, settle, OrderStatus, Order, ReportStatus, in_process,
  success, UtilisationReport, Db, Result, ok,
}
use mark_solutions.Billing.Ledger.{is_identity}
use mark_solutions.Billing.{quiet, get_balance, set_balance}
use mark_solutions.Billing.Keeping.{same_books}
use mark_solutions.Billing.Invariant.{account_of, Sound}
use mark_solutions.Billing.Effects.{IsUnposted}
use mark_solutions.Billing.Cycle.{views_eq}
use mark_solutions.Catalog.Km.{Adr006Km}
use mark_solutions.Orders.{
  has_order_id, has_key, line_of, set_status, Draft, total_price, insert_outbox, find_or_place,
}
use mark_solutions.Orders.Placing.{status-find, placed_view}
use mark_solutions.Orders.Reserved.{
  held_entry, placed-Sound, placed-account, placed-held, placed-IsUnposted,
}
use mark_solutions.Vault.{code_of_order, store_codes, reveal}
use mark_solutions.Vault.Revealing.{as_base, reveal-store_codes}
use mark_solutions.Emission.{
  Reply, confirmed, MptView, ready, Mpt, has_row_id, mark_sent, send_to_mpt, parse_all,
  reconcile_order,
}
use mark_solutions.Emission.Following.{store_codes-others, store_codes-tables, with_status}
use mark_solutions.Emission.Completing.{
  row_id_of, after_placing, the_order, asked, sent, sent_order, sent_lem, sent_tenant, sent-find,
  placed-lines, placed_now, send_to_mpt-sent, delivered, reconciled-delivered,
}
use mark_solutions.Utilisation.{
  Report, is_complete, has_report_key, has_report_id, report_row, settled_report, set_utilised,
  price_of_order, submit, reconcile,
}
use mark_solutions.Utilisation.Submitting.{serials, serials-as_base, reported, submit_taken}
use mark_solutions.Utilisation.Settling.{settled_view, reconcile_exact}
use Settlement.{enough, settled_after}

module _ (now : ℕ) (d : Draft) (db : Db) (a : Account) (s : Sound db)
    (mine : account_of d.tenant db ≡ some a) (new : find (has_key d.key) db.orders ≡ none)
    (unposted : IsUnposted reserve db.next_id db.ledger) (priced : 1 ≤ total_price d)
    (fresh : find (has_order_id db.next_id) db.orders ≡ none)
    (fresh_row : find (has_row_id (row_id_of db)) db.outbox ≡ none)
    (lineless : filter (line_of db.next_id) db.lines ≡ [])
    (unsettled : IsUnposted settle db.next_id db.ledger)
    (unreleased : IsUnposted release db.next_id db.ledger)
    (twice : pos (total_price d)
      ≤ℤ (get_balance d.tenant db).available -ℤ pos (total_price d)) where
  pub affords : pos (total_price d) ≤ℤ (get_balance d.tenant db).available
  affords =
      enough now d db a s mine new unposted priced fresh fresh_row lineless unsettled unreleased
        twice

  abbrev placed_db : Db
  placed_db = after_placing now d db a s mine new unposted priced fresh fresh_row lineless affords

  abbrev confirmed_db : ℕ → Option ℕ → Db
  confirmed_db = sent now d db a s mine new unposted priced fresh fresh_row lineless affords

  module _ (later at timeout : ℕ) (external : Option ℕ) (mpt : Mpt) (view : MptView)
      (raw : List Text) (code : Adr006Km) (codes : List Adr006Km)
      (answer : mpt.get_order (asked db.next_id external) ≡ some view) (done : view.status ≡ ready)
      (fetched : mpt.get_codes (asked db.next_id external) d.quantity ≡ some raw)
      (parsed : parse_all raw ≡ some (code ∷ codes))
      (all_there : d.quantity ≤ length (code ∷ codes))
      (codeless : any (code_of_order db.next_id) db.vault ≡ false) where
    abbrev closed_order : Order
    closed_order = set_status at OrderStatus.completed (
        sent_order now d db a s mine new unposted priced fresh fresh_row lineless affords later
          external)

    abbrev stocked : Db
    stocked =
        delivered now d db a s mine new unposted priced fresh fresh_row lineless affords later at
          timeout external mpt view raw (code ∷ codes) answer done fetched parsed all_there codeless

    closed_tenant : closed_order.tenant_id ≡ d.tenant
    closed_tenant =
        sent_tenant now d db a s mine new unposted priced fresh fresh_row lineless affords later
          external

    closed_id : closed_order.id ≡ db.next_id
    closed_id =
        (sent_lem now d db a s mine new unposted priced fresh fresh_row lineless affords later
          external).0

    stocked-tables :
        (stocked.ledger ≡ placed_db.ledger)
        × (stocked.accounts ≡ placed_db.accounts)
        × (stocked.lines ≡ placed_db.lines)
        × (stocked.reports ≡ db.reports)
        × (find (has_order_id db.next_id) stocked.orders ≡ some closed_order)
    unfolding insert_outbox
    stocked-tables =
        let marked =
          with_status at db.next_id OrderStatus.completed (confirmed_db later external) in
        let (l, a', orders) = store_codes-others closed_order (code ∷ codes) marked in
        let (lines, reports) = store_codes-tables closed_order (code ∷ codes) marked in
        (
          l,
          a',
          lines,
          reports,
          ap (find (has_order_id db.next_id)) orders
              ∙ status-find at db.next_id OrderStatus.completed (confirmed_db later external).orders
                  (sent-find now d db a s mine new unposted priced fresh fresh_row lineless affords
                    later external),
        )

    stocked-reveal : reveal db.next_id d.tenant stocked ≡ (ok (map as_base (code ∷ codes)), stocked)
    unfolding insert_outbox
    stocked-reveal =
        let marked =
          with_status at db.next_id OrderStatus.completed (confirmed_db later external) in
        ap (λ i. reveal i d.tenant stocked) (sym closed_id)
        ∙ ap (λ t. reveal closed_order.id t stocked) (sym closed_tenant)
        ∙ reveal-store_codes closed_order marked code codes (rw closed_id codeless)

    abbrev report_of : ℕ → ℕ → UtilisationReport
    report_of key report_id =
        record (report_row d.tenant db.next_id key (serials (code ∷ codes))
          (report_id, in_process)) { id = stocked.next_id }

    submitted :
        (take_report : List Text → Option (ℕ × ReportStatus)) (key report_id : ℕ) (body : Report)
        → body.order_id ≡ db.next_id
        → is_complete body ≡ true
        → find (has_report_key key) db.reports ≡ none
        → take_report (serials (code ∷ codes)) ≡ some (report_id, in_process)
        → submit take_report d.tenant (some key) body stocked ≡ (
          ok (report_id, in_process),
          reported d.tenant db.next_id key (serials (code ∷ codes)) report_id stocked,
        )
    submitted take_report key report_id body of_order complete new_key taken =
        let (l, a', lines, reports, ordered) = stocked-tables in
        let written : ℕ → List Text → Result (ℕ × ReportStatus) × Db = λ i sntins.
          (ok (report_id, in_process), reported d.tenant i key sntins report_id stocked) in
        submit_taken take_report d.tenant key report_id body closed_order (as_base code)
          (map as_base codes) stocked complete (rw of_order ordered)
          (rw closed_tenant (==_refl d.tenant)) refl (rw reports new_key)
          (rw of_order stocked-reveal) (rw (serials-as_base codes) taken)
        ∙ ap (λ i. written i (serials (map as_base (code ∷ codes)))) of_order
        ∙ ap (written db.next_id) (serials-as_base (code ∷ codes))

    -- Where the tenant has twice the price available, an order comes to the payment for its codes: it is
    -- placed, its message is sent, the marking system delivers at least the ordered quantity of codes, a
    -- complete report on them is submitted, and the marking system takes it for consideration and later
    -- accepts it. Then the price has left the balance, no more is reserved than before the order, the
    -- report is settled, and every code of the order is `UTILISED`. Twice the price is asked for since
    -- the settlement comes before the release of the reserve. Here nobody else commits between the five
    -- steps, and the identifiers and the keys that they take are new to the tables.
    pub find_or_place-reconcile :
        (post : Order → ℕ → Db → Reply × Db) (take_report : List Text → Option (ℕ × ReportStatus))
        (look : ℕ → Option ReportStatus) (key report_id : ℕ) (body : Report)
        → ((db' : Db)
            → post
                (the_order now d db a s mine new unposted priced fresh fresh_row lineless affords)
                d.quantity
                db'
              ≡ (confirmed external, db'))
        → body.order_id ≡ db.next_id
        → is_complete body ≡ true
        → find (has_report_key key) db.reports ≡ none
        → find (has_report_id stocked.next_id) db.reports ≡ none
        → take_report (serials (code ∷ codes)) ≡ some (report_id, in_process)
        → look report_id ≡ some success
        → let db₁ = (find_or_place quiet now d db).1 in
          let db₂ = (send_to_mpt later post (row_id_of db) db₁).1 in
          let db₃ = (reconcile_order at timeout mpt db.next_id db₂).1 in
          let (taken, db₄) = submit take_report d.tenant (some key) body db₃ in
          let (r, db₅) = reconcile look db₃.next_id db₄ in
          (taken ≡ ok (report_id, in_process))
          × (r ≡ ok tt)
          × (get_balance d.tenant db₅ ≡ record {
            balance = (get_balance d.tenant db).balance -ℤ pos (total_price d);
            reserved = (get_balance d.tenant db).reserved;
            available = (get_balance d.tenant db).available -ℤ pos (total_price d);
          })
          × (find (has_report_id db₃.next_id) db₅.reports
              ≡ some (
                  settled_report
                    (record (report_row d.tenant db.next_id key
                      (serials (code ∷ codes))
                      (report_id, in_process)) { id = db₃.next_id })))
          × (db₅.vault ≡ update_where (code_of_order db.next_id) set_utilised db₃.vault)
    find_or_place-reconcile post take_report look key report_id body confirms of_order complete
          new_key new_report taken accepted =
        let (ledger, accounts, lines, reports, ordered) = stocked-tables in
        let report = report_of key report_id in
        let found : find (has_report_id report.id) (stocked.reports ++ (report ∷ []))
            ≡ some report =
          find-append (has_report_id report.id) stocked.reports report
          ∙ rw (reports, new_report, ==_refl stocked.next_id) refl in
        let (r, balance, settled, vault) =
          settled_after now d db a s mine new unposted priced fresh fresh_row lineless unsettled
            unreleased twice closed_order report
            (reported d.tenant db.next_id key (serials (code ∷ codes)) report_id stocked) look
            closed_id closed_tenant ledger accounts lines ordered found refl refl accepted in
        rw
          (
            placed_now now d db a s mine new unposted priced fresh fresh_row lineless affords,
            send_to_mpt-sent now d db a s mine new unposted priced fresh fresh_row lineless affords
                later external post confirms,
            reconciled-delivered now d db a s mine new unposted priced fresh fresh_row lineless
                affords later at timeout external mpt view raw (code ∷ codes) answer done fetched
                parsed all_there codeless,
            submitted take_report key report_id body of_order complete new_key taken,
          )
          (refl, r, balance, settled, vault)
