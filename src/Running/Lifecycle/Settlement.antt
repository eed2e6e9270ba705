-- ===== src/Running/Lifecycle/Settlement.antt =====
-- The settlement of a report (apps/api/src/utilisation.service.ts) for an order whose reserve is as the
-- placing has left it.
use mark_solutions.Base.{
  ℕ, ◌≤◌, ◌≡◌, refl, ◌∙◌, ap, inl, inr, none, some, Option, [], arith, find, update_where, filter,
}
use mark_solutions.Base.Int.{pos, ◌+ℤ◌, ◌-ℤ◌, ◌≤ℤ◌, int_laws}
use mark_solutions.Store.{
  Account, LedgerEntry, reserve, release, settle, Order, ReportStatus, in_process, success,
  UtilisationReport, Db, ok,
}
use mark_solutions.Billing.{get_balance, set_balance}
use mark_solutions.Billing.Keeping.{same_books}
use mark_solutions.Billing.Invariant.{account_of, Sound}
use mark_solutions.Billing.Effects.{IsUnposted}
use mark_solutions.Billing.Cycle.{views_eq}
use mark_solutions.Orders.{has_order_id, has_key, line_of, Draft, total_price}
use mark_solutions.Orders.Placing.{placed_view}
use mark_solutions.Orders.Reserved.{
  held_entry, placed-Sound, placed-account, placed-held, placed-IsUnposted,
}
use mark_solutions.Vault.{code_of_order}
use mark_solutions.Emission.{has_row_id}
use mark_solutions.Emission.Completing.{row_id_of, after_placing, placed-lines}
use mark_solutions.Utilisation.{
  has_report_id, settled_report, set_utilised, price_of_order, reconcile,
}
use mark_solutions.Utilisation.Settling.{settled_view, reconcile_exact}

module _ (now : ℕ) (d : Draft) (db : Db) (a : Account) (s : Sound db)
    (mine : account_of d.tenant db ≡ some a) (new : find (has_key d.key) db.orders ≡ none)
    (unposted : IsUnposted reserve db.next_id db.ledger) (priced : 1 ≤ total_price d)
    (fresh : find (has_order_id db.next_id) db.orders ≡ none)
    (fresh_row : find (has_row_id (row_id_of db)) db.outbox ≡ none)
    (lineless : filter (line_of db.next_id) db.lines ≡ [])
    (unsettled : IsUnposted settle db.next_id db.ledger)
    (unreleased : IsUnposted release db.next_id db.ledger)
    (twice : pos (total_price d)
      ≤ℤ (get_balance d.tenant db).available -ℤ pos (total_price d)) where
  pub enough : pos (total_price d) ≤ℤ (get_balance d.tenant db).available
  unfolding get_balance
  enough = omega (int_laws, twice)

  abbrev pub ordered_db : Db
  ordered_db = after_placing now d db a s mine new unposted priced fresh fresh_row lineless enough

  abbrev held : LedgerEntry
  held = held_entry now d db a s mine new unposted priced

  ordered_view : get_balance d.tenant ordered_db ≡ record {
    balance = (get_balance d.tenant db).balance;
    reserved = (get_balance d.tenant db).reserved +ℤ pos (total_price d);
    available = (get_balance d.tenant db).available -ℤ pos (total_price d);
  }
  ordered_view = placed_view now d db a s mine new unposted priced

  same_view :
      (db₄ : Db)
      → db₄.ledger ≡ ordered_db.ledger
      → get_balance d.tenant db₄ ≡ get_balance d.tenant ordered_db
  unfolding get_balance
  same_view db₄ ledger = rw ledger refl

  price_after :
      (id : ℕ) (db₄ : Db)
      → id ≡ db.next_id
      → db₄.lines ≡ ordered_db.lines
      → price_of_order id db₄ ≡ total_price d
  price_after id db₄ same_id lines =
      rw
        (
          same_id,
          lines,
          placed-lines now d db a s mine new unposted priced fresh fresh_row lineless enough,
        )
        (omega arith)

  view_after :
      settled_view (get_balance d.tenant ordered_db) (pos (total_price d)) held.amount ≡ record {
        balance = (get_balance d.tenant db).balance -ℤ pos (total_price d);
        reserved = (get_balance d.tenant db).reserved;
        available = (get_balance d.tenant db).available -ℤ pos (total_price d);
      }
  unfolding get_balance
  view_after =
      ap (λ v. settled_view v (pos (total_price d)) held.amount) ordered_view
      ∙ views_eq _ _ (omega int_laws) (omega int_laws) (omega int_laws)

  -- The reconciliation of an accepted report, where the money is as it was after the placing.
  pub settled_after :
      (o : Order) (report : UtilisationReport) (db₄ : Db) (mpt : ℕ → Option ReportStatus)
      → o.id ≡ db.next_id
      → o.tenant_id ≡ d.tenant
      → db₄.ledger ≡ ordered_db.ledger
      → db₄.accounts ≡ ordered_db.accounts
      → db₄.lines ≡ ordered_db.lines
      → find (has_order_id db.next_id) db₄.orders ≡ some o
      → find (has_report_id report.id) db₄.reports ≡ some report
      → report.order_id ≡ db.next_id
      → report.status ≡ in_process
      → mpt report.report_id ≡ some success
      → let (r, db₅) = reconcile mpt report.id db₄ in
        (r ≡ ok tt)
        × (get_balance d.tenant db₅ ≡ record {
          balance = (get_balance d.tenant db).balance -ℤ pos (total_price d);
          reserved = (get_balance d.tenant db).reserved;
          available = (get_balance d.tenant db).available -ℤ pos (total_price d);
        })
        × (find (has_report_id report.id) db₅.reports ≡ some (settled_report report))
        × (db₅.vault ≡ update_where (code_of_order db.next_id) set_utilised db₄.vault)
  settled_after o report db₄ mpt same_id same_tenant ledger accounts lines ordered found of_order
        open_still accepted =
      let price = price_after o.id db₄ same_id lines in
      let ordered_sound = placed-Sound now d db a s mine new unposted priced enough in
      let there = placed-held now d db a s mine new unposted priced in
      let unsettled_still =
        placed-IsUnposted now d db a s mine new unposted priced settle refl unsettled in
      let unreleased_still =
        placed-IsUnposted now d db a s mine new unposted priced release refl unreleased in
      let view : get_balance d.tenant db₄ ≡ get_balance d.tenant ordered_db =
        same_view db₄ ledger in
      elim (reconcile_exact report o db₄ (set_balance (a.balance +ℤ pos 0) a) held
        (same_books ordered_db ledger accounts ordered_sound)
        (rw (accounts, same_tenant) (placed-account now d db a s mine new unposted priced))
        (rw price priced) (rw (ledger, same_tenant, same_id) there)
        (rw (ledger, same_id) unsettled_still) (rw (ledger, same_id) unreleased_still) mpt found
        (rw open_still refl) accepted (rw of_order ordered)) [
          | inl (covered, r, v, settled, vault) ↦
              (r, (rw (same_tenant, price, view) at v) ∙ view_after, settled, rw same_id at vault)
          | inr (short, r, same) ↦
              absurd (short (rw (price, same_tenant, view, ordered_view) twice))
        ]
