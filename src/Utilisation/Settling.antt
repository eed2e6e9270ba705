-- ===== src/Utilisation/Settling.antt =====
-- What the reconciliation of an accepted report comes to.
use mark_solutions.Base.{
  ℕ, ◌≤◌, ◌≡◌, refl, ◌∙◌, ap, ◌⊎◌, inl, inr, true, Option, none, some, [], ◌∷◌, arith, ==_refl,
  is_some, if◌then◌else◌, Bool-cases, find, find_sound, find-append, find-update_where,
  update_where, any-append,
}
use mark_solutions.Base.Int.{
  ℤ, pos, ◌+ℤ◌, ◌-ℤ◌, ◌≤ℤ◌, neg, int_laws, leb_ℤ, le_of_leb_ℤ, lt_of_leb_ℤ,
}
use mark_solutions.Store.{
  Account, reserve, release, settle, LedgerEntry, Order, ReportStatus, success, UtilisationReport,
  Db, insufficient_funds, ok, err, pure, ◌>>=◌, ◌>>◌, Action, modify, gets,
}
use mark_solutions.Billing.Ledger.{is_identity}
use mark_solutions.Billing.{
  quiet, release_on, get_balance, covers, entry_of, set_balance, BalanceView,
}
use mark_solutions.Billing.Invariant.{account_of, account_of-swap, Sound, posted, posted-Sound}
use mark_solutions.Billing.Effects.{
  IsUnposted, order_opts, settle_on_posts, settle_on_refuses, release_on_posts,
}
use mark_solutions.Billing.Cycle.{
  get_balance-own, moved_view, available_of_view, view_of_available, refused_view, views_eq,
}
use mark_solutions.Orders.{has_order_id}
use mark_solutions.Vault.{code_of_order}
use mark_solutions.Utilisation.{
  has_report_id, settled_report, set_utilised, price_of_order, finish_report, settle_order,
  settle_report, is_in_process, reconcile,
}

-- A settlement that was posted, with the order's reserve still there.
module _ (t o : ℕ) (amount : ℤ) (db : Db) (a : Account) (held : LedgerEntry) (s : Sound db)
    (mine : account_of t db ≡ some a) (positive : pos 1 ≤ℤ amount)
    (reserved : find (is_identity t reserve o) db.ledger ≡ some held)
    (unreleased : IsUnposted release o db.ledger)
    (covered : amount ≤ℤ (get_balance t db).available) where
  abbrev paid : Db
  paid = posted a t settle amount (order_opts o (neg amount) (some (covers amount))) db

  abbrev paid_entry : LedgerEntry
  paid_entry =
      record (entry_of a.id t settle amount (order_opts o (neg amount) (some (covers amount)))) {
        id = db.next_id;
      }

  paid-Sound : Sound paid
  unfolding get_balance
  paid-Sound =
      posted-Sound t settle amount (order_opts o (neg amount) (some (covers amount))) db a s mine
        (record { moves = refl; positive = positive; affords = omega (int_laws, covered) })

  paid-account : account_of t paid ≡ some (set_balance (a.balance +ℤ neg amount) a)
  paid-account =
      account_of-swap t a (a.balance +ℤ neg amount) db.accounts
      ∙ rw mine (rw (==_refl a.id, ==_refl a.version))

  paid-find : find (is_identity t reserve o) paid.ledger ≡ some held
  paid-find = find-append (is_identity t reserve o) db.ledger paid_entry ∙ rw reserved

  paid-IsUnposted : IsUnposted release o paid.ledger
  paid-IsUnposted = any-append _ db.ledger (paid_entry ∷ []) ∙ rw (unreleased, ==_refl o)

-- The balance less the price, the reserve less what was held for the order.
abbrev pub settled_view : BalanceView → ℤ → ℤ → BalanceView
settled_view v total held = record {
  balance = v.balance -ℤ total;
  reserved = v.reserved -ℤ held;
  available = (v.balance -ℤ total) -ℤ (v.reserved -ℤ held);
}

moved-settled_view :
    (t : ℕ) (total held : ℤ) (db : Db)
    → moved_view (moved_view (get_balance t db) settle total) release held
      ≡ settled_view (get_balance t db) total held
unfolding get_balance
moved-settled_view t total held db = views_eq _ _ (omega int_laws) (omega int_laws) (omega int_laws)

-- What follows the settlement in the transaction.
abbrev rest_of : ℕ → Order → Action Unit
rest_of report_id order = do
  modify (finish_report report_id order.id)
  held ← gets (λ db. find (is_identity order.tenant_id reserve order.id) db.ledger)
  if is_some held then release_on quiet order.tenant_id order.id >> pure tt else pure tt

module _ (report : UtilisationReport) (order : Order) (db : Db) (a : Account) (held : LedgerEntry)
    (s : Sound db) (mine : account_of order.tenant_id db ≡ some a)
    (priced : 1 ≤ price_of_order order.id db)
    (reserved : find (is_identity order.tenant_id reserve order.id) db.ledger ≡ some held)
    (unsettled : IsUnposted settle order.id db.ledger)
    (unreleased : IsUnposted release order.id db.ledger) where
  abbrev total : ℤ
  total = pos (price_of_order order.id db)

  module _ (covered : total ≤ℤ (get_balance order.tenant_id db).available) where
    abbrev after_payment : Db
    after_payment = finish_report report.id order.id (
        paid order.tenant_id order.id total db a held s mine (omega arith) reserved unreleased
          covered)

    abbrev settled_db : Db
    settled_db =
        posted (set_balance (a.balance +ℤ neg total) a) order.tenant_id release held.amount
          (order_opts order.id (pos 0) none) after_payment

    settle_order-settled : settle_order report.id order db ≡ (ok tt, settled_db)
    unfolding settle_order
    settle_order-settled =
        let h =
          available_of_view order.tenant_id order.id total db a s mine (omega arith) covered in
        let sp =
          paid-Sound order.tenant_id order.id total db a held s mine (omega arith) reserved
            unreleased covered in
        let sf : Sound after_payment = record {
          keyed = sp.keyed;
          cached = sp.cached;
          positive = sp.positive;
          solvent = sp.solvent;
        } in
        let there =
          paid-find order.tenant_id order.id total db a held s mine (omega arith) reserved
            unreleased covered in
        let released =
          release_on_posts order.tenant_id order.id after_payment
            (set_balance (a.balance +ℤ neg total) a) held sf
            (paid-account order.tenant_id order.id total db a held s mine (omega arith) reserved
              unreleased covered)
            there
            (paid-IsUnposted order.tenant_id order.id total db a held s mine (omega arith) reserved
              unreleased covered) in
        rw
          (
            settle_on_posts order.tenant_id order.id total db a s mine (omega arith) unsettled h,
            there,
            released,
          )
          refl

    settled_db-view :
        get_balance order.tenant_id settled_db
        ≡ settled_view (get_balance order.tenant_id db) total held.amount
    unfolding get_balance
    settled_db-view =
        get_balance-own (set_balance (a.balance +ℤ neg total) a) order.tenant_id release held.amount
          (order_opts order.id (pos 0) none) after_payment
        ∙ ap (λ v. moved_view v release held.amount)
            (get_balance-own a order.tenant_id settle total
              (order_opts order.id (neg total) (some (covers total))) db)
        ∙ moved-settled_view order.tenant_id total held.amount db

  settle_order-refused :
      ¬ (total ≤ℤ (get_balance order.tenant_id db).available)
      → settle_order report.id order db ≡ (
        err (
            insufficient_funds
              (get_balance order.tenant_id db).balance
              (get_balance order.tenant_id db).reserved),
        db,
      )
  unfolding settle_order
  settle_order-refused short =
      rw
        (settle_on_refuses order.tenant_id order.id total db a s mine (omega arith) unsettled (λ c.
          short (view_of_available order.tenant_id order.id total db a s mine (omega arith) c)))
        (ap (λ r. (r, db)) (refused_view order.tenant_id order.id total db a s mine (omega arith)))

  -- The reconciliation of a report that the marking system has accepted, for an order that has its
  -- reserve: where the price is available besides what is reserved, the balance is less by the price,
  -- the reserve by what was held for the order, the report is settled and every code of the order is
  -- `UTILISED`. Where it is not, the call answers 402 and nothing at all is written, so that the report
  -- stays `IN_PROCESS`.
  pub reconcile_exact :
      (mpt : ℕ → Option ReportStatus)
      → find (has_report_id report.id) db.reports ≡ some report
      → is_in_process report.status ≡ true
      → mpt report.report_id ≡ some success
      → find (has_order_id report.order_id) db.orders ≡ some order
      → let (r, db') = reconcile mpt report.id db in
        ((total ≤ℤ (get_balance order.tenant_id db).available)
          × (r ≡ ok tt)
          × (get_balance order.tenant_id db'
              ≡ settled_view (get_balance order.tenant_id db) total held.amount)
          × (find (has_report_id report.id) db'.reports ≡ some (settled_report report))
          × (db'.vault ≡ update_where (code_of_order order.id) set_utilised db.vault))
        ⊎ (¬ (total ≤ℤ (get_balance order.tenant_id db).available)
            × (r
                ≡ err (
                    insufficient_funds
                      (get_balance order.tenant_id db).balance
                      (get_balance order.tenant_id db).reserved))
            × (db' ≡ db))
  unfolding reconcile settle_report
  reconcile_exact mpt found undecided answer ordered =
      elim (Bool-cases (leb_ℤ total (get_balance order.tenant_id db).available)) [
        | inl enough ↦
            let h = le_of_leb_ℤ total (get_balance order.tenant_id db).available enough in
            rw (found, undecided, answer, ordered, settle_order-settled h)
              (inl (
                h,
                refl,
                settled_db-view h,
                find-update_where (has_report_id report.id) (has_report_id report.id) settled_report
                      db.reports (λ x. refl)
                    ∙ rw (found, find_sound (has_report_id report.id) db.reports found),
                refl,
              ))
        | inr short ↦
            let h = lt_of_leb_ℤ total (get_balance order.tenant_id db).available short in
            rw (found, undecided, answer, ordered, settle_order-refused h) (inr (h, refl, refl))
      ]
