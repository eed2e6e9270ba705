-- ===== src/Poller/Books.antt =====
-- What a whole tick of the poller does to the ledger.
use mark_solutions.Base.{ℕ}
use mark_solutions.Store.{Order, Db}
use mark_solutions.Store.Keeping.{seq-Keeps, swallow-Keeps}
use mark_solutions.Billing.Growth.{Books}
use mark_solutions.Poller.Registering.{poll_nkt-Keeps}
use mark_solutions.Poller.Orders.{poll_mpt_orders-Keeps}
use mark_solutions.Poller.Documents.{poll_documents-Keeps}
use mark_solutions.Poller.Reports.{poll_reports-Keeps, poll_utilisation_deadlines-Keeps}
use mark_solutions.Poller.{Timeouts, Systems, poll}

-- A tick keeps the books in order, whatever the outer systems answer and wherever it breaks off, if the
-- processes that commit while an order is sent do so.
pub poll-Books :
    (now : ℕ) (timeouts : Timeouts) (systems : Systems) (db : Db)
    → ((o : Order) (quantity : ℕ) (db : Db)
        → Books db
        → Books (systems.create_order o quantity db).1)
    → Books db
    → Books (poll now timeouts systems db).1
unfolding poll
poll-Books now timeouts systems db others s =
    (swallow-Keeps Books (
        seq-Keeps Books (poll_nkt-Keeps now timeouts.nkt timeouts.require_gs1_verified systems.nkt)
          (seq-Keeps Books
            (poll_mpt_orders-Keeps now timeouts.mpt_order systems.create_order systems.mpt others)
            (seq-Keeps Books (poll_documents-Keeps now timeouts.document systems.get_document) (
              seq-Keeps Books (poll_reports-Keeps systems.get_utilisation)
                (poll_utilisation_deadlines-Keeps timeouts.deadline_days now)))))).after
      db s
