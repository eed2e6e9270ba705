-- ===== src/Tests/Settling.antt =====
-- The theorems on reports and on documents of import at work.
use mark_solutions.Base.{◌≡◌, refl, ◌⊎◌, false, none, some, [], ◌∷◌, arith, find, update_where, All}
use mark_solutions.Base.Int.{pos, ◌+ℤ◌, ◌-ℤ◌, ◌≤ℤ◌}
use mark_solutions.Store.{
  LedgerEntry, reserve, release, settle, OrderStatus, CodeStatus, UtilisationReport, in_process,
  success, Db, insufficient_funds, ok, err, DocumentStatus, submitted, ImportDocument,
}
use mark_solutions.Billing.Ledger.{
  active_reserve, balance_of, violates_unique, is_identity, create_entry,
}
use mark_solutions.Billing.Invariant.{account_of, Sound}
use mark_solutions.Billing.Effects.{IsUnposted}
use mark_solutions.Billing.Guarantee.{reserving, run_calls, run_calls-Sound}
use mark_solutions.Billing.{
  get_balance, reserve_on, apply_on, get_account, attempts, turn, turn_at, existing_entry,
  post_if_current, post,
}
use mark_solutions.Vault.{code_of_order}
use mark_solutions.Utilisation.{has_report_id, settled_report, set_utilised, reconcile}
use mark_solutions.Utilisation.Settling.{settled_view, reconcile_exact}
use mark_solutions.Codes.{code_has_id}
use mark_solutions.Documents.Deciding.{Decision, import_has_id, set_import, reconcile_import}
use mark_solutions.Documents.Deciding.Introducing.{introduced}
use mark_solutions.Documents.Deciding.Confirmed.{reconcile_import-confirmed}
use mark_solutions.Tests.Data.{account_7, shop, shop-Sound}
use mark_solutions.Tests.Following.{order, line, stored}

abbrev report : UtilisationReport
report = record {
  id = 8;
  tenant_id = 7;
  order_id = 5;
  idempotency_key = 78;
  report_id = 600;
  status = in_process;
  settled = false;
  sntins = [];
}

-- The order has its reserve, and its report waits.
abbrev reserved : Db
reserved = run_calls (reserving 7 5 (pos 30) ∷ []) shop

abbrev reported : Db
reported = record reserved {
  orders = order OrderStatus.completed (some 900) ∷ [];
  lines = line ∷ [];
  vault = stored CodeStatus.applied ∷ [];
  reports = report ∷ [];
}

reported-Sound : Sound reported
reported-Sound =
    let s = run_calls-Sound (reserving 7 5 (pos 30) ∷ []) shop shop-Sound in
    record { keyed = s.keyed; cached = s.cached; positive = s.positive; solvent = s.solvent }

abbrev held : LedgerEntry
held = record {
  id = 10;
  tenant_id = 7;
  account_id = 1;
  kind = reserve;
  amount = pos 30;
  ref_order_id = some 5;
  ref_1c = none;
}

reported-account : account_of 7 reported ≡ some (record account_7 { version = 1 })
unfolding reserve_on apply_on get_account attempts turn turn_at existing_entry post_if_current post
    create_entry violates_unique balance_of active_reserve ◌+ℤ◌ ◌-ℤ◌
reported-account = refl

reported-held : find (is_identity 7 reserve 5) reported.ledger ≡ some held
unfolding reserve_on apply_on get_account attempts turn turn_at existing_entry post_if_current post
    create_entry violates_unique balance_of active_reserve ◌+ℤ◌ ◌-ℤ◌
reported-held = refl

reported-unsettled : IsUnposted settle 5 reported.ledger
unfolding reserve_on apply_on get_account attempts turn turn_at existing_entry post_if_current post
    create_entry violates_unique balance_of active_reserve ◌+ℤ◌ ◌-ℤ◌
reported-unsettled = refl

reported-unreleased : IsUnposted release 5 reported.ledger
unfolding reserve_on apply_on get_account attempts turn turn_at existing_entry post_if_current post
    create_entry violates_unique balance_of active_reserve ◌+ℤ◌ ◌-ℤ◌
reported-unreleased = refl

reconcile_exact_example :
    let (r, db') = reconcile (λ id. some success) 8 reported in
    ((pos 30 ≤ℤ (get_balance 7 reported).available)
      × (r ≡ ok tt)
      × (get_balance 7 db' ≡ settled_view (get_balance 7 reported) (pos 30) (pos 30))
      × (find (has_report_id 8) db'.reports ≡ some (settled_report report))
      × (db'.vault ≡ update_where (code_of_order 5) set_utilised reported.vault))
    ⊎ (¬ (pos 30 ≤ℤ (get_balance 7 reported).available)
        × (r
            ≡ err (
                insufficient_funds
                  (get_balance 7 reported).balance
                  (get_balance 7 reported).reserved))
        × (db' ≡ reported))
reconcile_exact_example =
    reconcile_exact report (order OrderStatus.completed (some 900)) reported
      (record account_7 { version = 1 }) held reported-Sound reported-account (omega arith)
      reported-held reported-unsettled reported-unreleased (λ id. some success) refl refl refl refl

abbrev declaration : ImportDocument
declaration = record {
  id = 9;
  tenant_id = 7;
  order_id = 5;
  customs_date = 1;
  customs_number = 2;
  status = submitted;
  external_document_id = some 700;
  created_at = 0;
}

abbrev imported : Db
imported = record shop { vault = stored CodeStatus.applied ∷ []; imports = declaration ∷ [] }

reconcile_import-confirmed_example :
    let (r, db') = reconcile_import 1000 60000 (λ external. Decision.confirmed) 9 imported in
    (r ≡ ok tt)
    × (((find (import_has_id 9) db'.imports ≡ some (set_import DocumentStatus.success declaration))
          × All
              (λ c. find (code_has_id c.id) db'.vault ≡ some (introduced c))
              (stored CodeStatus.applied ∷ []))
        ⊎ ((find (import_has_id 9) db'.imports ≡ some (set_import DocumentStatus.error declaration))
            × (db'.vault ≡ stored CodeStatus.applied ∷ [])
            × (db'.events ≡ [])))
reconcile_import-confirmed_example =
    reconcile_import-confirmed declaration imported (refl, tt) refl refl 1000 60000
      (λ external. Decision.confirmed) 700 refl refl
