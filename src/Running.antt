-- ===== src/Running.antt =====
-- The whole service at work: the requests that have to do with money, and the ticks of the poller
-- (apps/api/src), one after another. While a tick waits for the marking system to take an order,
-- requests are served.
pub mod Placing
pub mod Paying
pub mod Books
pub mod Lifecycle
use mark_solutions.Base.{ℕ, Bool, Option, List, [], ◌∷◌, Text}
use mark_solutions.Base.Int.{ℤ}
use mark_solutions.Store.{Order, ReportStatus, Db}
use mark_solutions.Billing.{quiet, topup_on}
use mark_solutions.Billing.Guarantee.{Call, run_call}
use mark_solutions.Cards.Registering.{Nkt}
use mark_solutions.Documents.Deciding.{Decision}
use mark_solutions.Emission.{Reply, Mpt}
use mark_solutions.Invoices.{confirm, kaspi_webhook}
use mark_solutions.Orders.Requests.{CreateOrder}
use mark_solutions.Orders.{cancel}
use mark_solutions.Poller.{Timeouts, Systems, poll}

-- A request, with the time or the settings that its handler reads.
pub data Request : Type 0 where
  placing : ℕ → ℕ → Option ℕ → CreateOrder → Request
  cancelling : ℕ → ℕ → ℕ → Request
  topping_up : ℕ → Option ℕ → ℤ → Request
  invoicing : ℕ → ℤ → ℕ → Option ℕ → ℕ → Request
  confirming : ℕ → ℕ → Option ℕ → Request
  notifying : ℕ → Option ℕ → Request
  calling : Call → Request

-- What the outer systems answer in a tick, and the requests that are served while an order is sent.
pub record Answers : Type 0 where
  pub nkt : Nkt
  pub reply : Order → ℕ → Reply
  pub meanwhile : Order → ℕ → List Request
  pub mpt : Mpt
  pub get_document : ℕ → Decision
  pub get_utilisation : ℕ → Option ReportStatus

pub data Event : Type 0 where
  request : Request → Event
  tick : ℕ → Timeouts → Answers → Event

-- `key` is a payment's key in the ledger for the number of an invoice.
module _ (key : Text → ℕ) where
  unfoldable pub serve : Request → Db → Db
  serve (placing now tenant idempotency_key body) db =
      (mark_solutions.Orders.create quiet now tenant idempotency_key body db).1
  serve (cancelling now tenant id) db = (cancel quiet now tenant id db).1
  serve (topping_up tenant ref_1c amount) db = (topup_on quiet tenant ref_1c amount db).1
  serve (invoicing now rate tenant group quantity) db =
      (mark_solutions.Invoices.create (λ i d. d) now rate tenant group quantity db).1
  serve (confirming tenant id payment_ref) db = (confirm quiet key tenant id payment_ref db).1
  serve (notifying id payment_ref) db = (kaspi_webhook quiet key id payment_ref db).1
  serve (calling c) db = run_call c db

  unfoldable pub serve_all : List Request → Db → Db
  serve_all [] db = db
  serve_all (r ∷ rs) db = serve_all rs (serve r db)

  abbrev pub systems_of : Answers → Systems
  systems_of a = record {
    nkt = a.nkt;
    create_order = λ o quantity db. (a.reply o quantity, serve_all (a.meanwhile o quantity) db);
    mpt = a.mpt;
    get_document = a.get_document;
    get_utilisation = a.get_utilisation;
  }

  unfoldable pub happen : Event → Db → Db
  happen (request r) db = serve r db
  happen (tick now timeouts a) db = (poll now timeouts (systems_of a) db).1

  unfoldable pub happen_all : List Event → Db → Db
  happen_all [] db = db
  happen_all (e ∷ es) db = happen_all es (happen e db)
