-- ===== src/Running/Books.antt =====
-- What the whole service at work does to the ledger.
use mark_solutions.Base.{ℕ, List, [], ◌∷◌, Text}
use mark_solutions.Store.{Db}
use mark_solutions.Store.Keeping.{transaction-Keeps, Keeps-Commits}
use mark_solutions.Billing.Guarantee.{Call, reserving, settling, releasing, run_call}
use mark_solutions.Billing.Growth.{
  Books, topup_on-Books, reserve_on-Books, settle_on-Books, release_on-Books,
}
use mark_solutions.Poller.Books.{poll-Books}
use mark_solutions.Running.Placing.{cancel-Keeps}
use mark_solutions.Running.Paying.{confirm-Keeps, kaspi_webhook-Keeps}
use mark_solutions.Running.{
  Request, placing, cancelling, topping_up, invoicing, confirming, notifying, calling, Event,
  request, tick, serve, serve_all, systems_of, happen, happen_all,
}

call-Books : (c : Call) (db : Db) → Books db → Books (run_call c db)
call-Books (reserving t o amount) db b =
    (transaction-Keeps Books (reserve_on-Books t o amount)).after db b
call-Books (settling t o amount) db b =
    (transaction-Keeps Books (settle_on-Books t o amount)).after db b
call-Books (releasing t o) db b =
    (transaction-Keeps Books (Keeps-Commits Books (release_on-Books t o))).after db b

module _ (key : Text → ℕ) where
  serve-Books : (r : Request) (db : Db) → Books db → Books (serve key r db)
  unfolding serve
  serve-Books (placing now tenant idempotency_key body) db s =
      (mark_solutions.Running.Placing.create-Keeps now tenant idempotency_key body).after db s
  serve-Books (cancelling now tenant id) db s = (cancel-Keeps now tenant id).after db s
  serve-Books (topping_up tenant ref_1c amount) db s =
      (topup_on-Books tenant ref_1c amount).after db s
  serve-Books (invoicing now rate tenant group quantity) db s =
      (mark_solutions.Running.Paying.create-Keeps (λ i d. d) (λ i d k. k) now rate tenant group
          quantity).after
        db s
  serve-Books (confirming tenant id payment_ref) db s =
      (confirm-Keeps key tenant id payment_ref).after db s
  serve-Books (notifying id payment_ref) db s = (kaspi_webhook-Keeps key id payment_ref).after db s
  serve-Books (calling c) db s = call-Books c db s

  serve_all-Books : (rs : List Request) (db : Db) → Books db → Books (serve_all key rs db)
  unfolding serve_all
  serve_all-Books [] db s = s
  serve_all-Books (r ∷ rs) db s = serve_all-Books rs (serve key r db) (serve-Books r db s)

  happen-Books : (e : Event) (db : Db) → Books db → Books (happen key e db)
  unfolding happen
  happen-Books (request r) db s = serve-Books r db s
  happen-Books (tick now timeouts a) db s =
      poll-Books now timeouts (systems_of key a) db
        (λ o quantity. serve_all-Books (a.meanwhile o quantity)) s

  -- The books stay in order through any requests and any ticks of the poller, one after another and
  -- whatever the outer systems answer, with requests served while a tick sends an order. The balance of
  -- every account is the sum of its journal, and no tenant has more reserved than it holds; no payment is
  -- posted twice, and no order is reserved, settled or released twice; what is released for an order was
  -- reserved for it by the same tenant, in the same amount. The requests are placing and cancelling an
  -- order, topping up, issuing an invoice, confirming it by hand or by the notice of the bank, and the
  -- calls of the ledger, each of those in a transaction of its own.
  pub happen_all-Books :
      (events : List Event) (db : Db) → Books db → Books (happen_all key events db)
  unfolding happen_all
  happen_all-Books [] db s = s
  happen_all-Books (e ∷ es) db s = happen_all-Books es (happen key e db) (happen-Books e db s)
