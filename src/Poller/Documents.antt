-- ===== src/Poller/Documents.antt =====
-- What the poller's work on documents does to the ledger.
use mark_solutions.Base.{ℕ, refl, Bool, Option, none, some, List, [], ◌∷◌, update_where}
use mark_solutions.Store.{
  CodeVault, CodeEventType, ImportDocument, WithdrawalDocument, AggregationUnit, Error, bad_request,
  not_found, modify,
}
use mark_solutions.Store.Keeping.{
  Keeps, keeping, bind-Keeps, gets-Keeps, seq-Keeps, option_Keeps, swallow-Keeps, pure-Keeps,
  catch-Keeps, transaction-Keeps, Keeps-Commits,
}
use mark_solutions.Billing.Growth.{Books, modify-Books}
use mark_solutions.Codes.{with_event, record_event_on}
use mark_solutions.Documents.{unit_has_id}
use mark_solutions.Documents.Deciding.{
  system, Decision, confirmed, refused, waiting, gone, unreachable, fail_import, introduce_each,
  finish_import, import_failed, decide_import, reconcile_import, fail_withdrawal, disaggregate,
  disaggregate_each, withdraw_code, withdraw_each, finish_withdrawal, withdrawal_failed,
  decide_withdrawal, reconcile_withdrawal, reconcile_imports, reconcile_withdrawals, poll_documents,
}
use mark_solutions.Poller.Writes.{writes}

set_imports-Keeps :
    (here : ImportDocument → Bool) (f : ImportDocument → ImportDocument)
    → Keeps Books (modify (λ db. record db { imports = update_where here f db.imports }))
set_imports-Keeps here f = modify-Books (λ db. refl) (λ db. refl)

set_withdrawals-Keeps :
    (here : WithdrawalDocument → Bool) (f : WithdrawalDocument → WithdrawalDocument)
    → Keeps Books (modify (λ db. record db { withdrawals = update_where here f db.withdrawals }))
set_withdrawals-Keeps here f = modify-Books (λ db. refl) (λ db. refl)

set_units-Keeps :
    (here : AggregationUnit → Bool) (f : AggregationUnit → AggregationUnit)
    → Keeps Books (modify (λ db. record db { units = update_where here f db.units }))
set_units-Keeps here f = modify-Books (λ db. refl) (λ db. refl)

with_event-Keeps :
    (tenant code actor : ℕ) (event : CodeEventType)
    → Keeps Books (modify (with_event tenant code actor event))
with_event-Keeps tenant code actor event = modify-Books (λ db. refl) (λ db. refl)

record_event_on-Keeps :
    (tenant code actor : ℕ) (kind : Option CodeEventType)
    → Keeps Books (record_event_on tenant code actor kind)
unfolding record_event_on
record_event_on-Keeps tenant code actor none = search keeping
record_event_on-Keeps tenant code actor (some event) = search (keeping, with_event-Keeps) depth 7

fail_import-Keeps : (doc : ImportDocument) → Keeps Books (fail_import doc)
unfolding fail_import
fail_import-Keeps doc = search (keeping, writes, set_imports-Keeps)

introduce_each-Keeps :
    (tenant : ℕ) (codes : List CodeVault) → Keeps Books (introduce_each tenant codes)
unfolding introduce_each
introduce_each-Keeps tenant [] = search keeping
introduce_each-Keeps tenant (c ∷ codes) =
    seq-Keeps Books (record_event_on-Keeps tenant c.id system (some CodeEventType.introduced))
      (introduce_each-Keeps tenant codes)

finish_import-Keeps : (doc : ImportDocument) → Keeps Books (finish_import doc)
unfolding finish_import
finish_import-Keeps doc = search (keeping, set_imports-Keeps, introduce_each-Keeps)

import_failed-Keeps : (doc : ImportDocument) (e : Error) → Keeps Books (import_failed doc e)
unfolding import_failed
import_failed-Keeps doc bad_request = fail_import-Keeps doc
import_failed-Keeps doc not_found = fail_import-Keeps doc
import_failed-Keeps doc _ = search keeping

decide_import-Keeps :
    (now timeout : ℕ) (doc : ImportDocument) (d : Decision)
    → Keeps Books (decide_import now timeout doc d)
unfolding decide_import
decide_import-Keeps now timeout doc confirmed =
    catch-Keeps Books (transaction-Keeps Books (Keeps-Commits Books (finish_import-Keeps doc)))
      (import_failed-Keeps doc)
decide_import-Keeps now timeout doc refused = fail_import-Keeps doc
decide_import-Keeps now timeout doc waiting = search (keeping, fail_import-Keeps)
decide_import-Keeps now timeout doc gone = fail_import-Keeps doc
decide_import-Keeps now timeout doc unreachable = search keeping

fail_withdrawal-Keeps : (doc : WithdrawalDocument) → Keeps Books (fail_withdrawal doc)
unfolding fail_withdrawal
fail_withdrawal-Keeps doc = search (keeping, writes, set_withdrawals-Keeps)

disaggregate_each-Keeps : (ids : List ℕ) → Keeps Books (disaggregate_each ids)
unfolding disaggregate_each
disaggregate_each-Keeps [] = search keeping
disaggregate_each-Keeps (id ∷ ids) =
    seq-Keeps Books (set_units-Keeps (unit_has_id id) disaggregate) (disaggregate_each-Keeps ids)

withdraw_code-Keeps : (doc : WithdrawalDocument) (code : ℕ) → Keeps Books (withdraw_code doc code)
unfolding withdraw_code
withdraw_code-Keeps doc code = search (keeping, record_event_on-Keeps) depth 7

withdraw_each-Keeps :
    (doc : WithdrawalDocument) (keys : List ℕ) → Keeps Books (withdraw_each doc keys)
unfolding withdraw_each
withdraw_each-Keeps doc [] = search keeping
withdraw_each-Keeps doc (k ∷ keys) =
    seq-Keeps Books (withdraw_code-Keeps doc k) (withdraw_each-Keeps doc keys)

finish_withdrawal-Keeps : (doc : WithdrawalDocument) → Keeps Books (finish_withdrawal doc)
unfolding finish_withdrawal
finish_withdrawal-Keeps doc =
    search (keeping, set_withdrawals-Keeps, disaggregate_each-Keeps, withdraw_each-Keeps)

withdrawal_failed-Keeps :
    (doc : WithdrawalDocument) (e : Error) → Keeps Books (withdrawal_failed doc e)
unfolding withdrawal_failed
withdrawal_failed-Keeps doc bad_request = fail_withdrawal-Keeps doc
withdrawal_failed-Keeps doc not_found = fail_withdrawal-Keeps doc
withdrawal_failed-Keeps doc _ = search keeping

decide_withdrawal-Keeps :
    (now timeout : ℕ) (doc : WithdrawalDocument) (d : Decision)
    → Keeps Books (decide_withdrawal now timeout doc d)
unfolding decide_withdrawal
decide_withdrawal-Keeps now timeout doc confirmed =
    catch-Keeps Books (transaction-Keeps Books (Keeps-Commits Books (finish_withdrawal-Keeps doc)))
      (withdrawal_failed-Keeps doc)
decide_withdrawal-Keeps now timeout doc refused = fail_withdrawal-Keeps doc
decide_withdrawal-Keeps now timeout doc waiting = search (keeping, fail_withdrawal-Keeps)
decide_withdrawal-Keeps now timeout doc gone = fail_withdrawal-Keeps doc
decide_withdrawal-Keeps now timeout doc unreachable = search keeping

module _ (now timeout : ℕ) (mpt : ℕ → Decision) where
  reconcile_import-Keeps : (id : ℕ) → Keeps Books (reconcile_import now timeout mpt id)
  unfolding reconcile_import
  reconcile_import-Keeps id = bind-Keeps Books (gets-Keeps Books _) (λ row.
      option_Keeps Books row (pure-Keeps Books)
        (λ (p : ImportDocument × ℕ). decide_import-Keeps now timeout p.0 (mpt p.1)))

  reconcile_withdrawal-Keeps : (id : ℕ) → Keeps Books (reconcile_withdrawal now timeout mpt id)
  unfolding reconcile_withdrawal
  reconcile_withdrawal-Keeps id = bind-Keeps Books (gets-Keeps Books _) (λ row.
      option_Keeps Books row (pure-Keeps Books)
        (λ (p : WithdrawalDocument × ℕ). decide_withdrawal-Keeps now timeout p.0 (mpt p.1)))

  reconcile_imports-Keeps :
      (docs : List ImportDocument) → Keeps Books (reconcile_imports now timeout mpt docs)
  reconcile_imports-Keeps [] = pure-Keeps Books
  reconcile_imports-Keeps (d ∷ docs) =
      seq-Keeps Books (swallow-Keeps Books (reconcile_import-Keeps d.id))
        (reconcile_imports-Keeps docs)

  reconcile_withdrawals-Keeps :
      (docs : List WithdrawalDocument) → Keeps Books (reconcile_withdrawals now timeout mpt docs)
  reconcile_withdrawals-Keeps [] = pure-Keeps Books
  reconcile_withdrawals-Keeps (d ∷ docs) =
      seq-Keeps Books (swallow-Keeps Books (reconcile_withdrawal-Keeps d.id))
        (reconcile_withdrawals-Keeps docs)

  pub poll_documents-Keeps : Keeps Books (poll_documents now timeout mpt)
  unfolding poll_documents
  poll_documents-Keeps = search (keeping, reconcile_imports-Keeps, reconcile_withdrawals-Keeps)
