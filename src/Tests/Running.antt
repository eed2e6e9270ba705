-- ===== src/Tests/Running.antt =====
-- The theorem on the whole service at work.
use mark_solutions.Base.{ℕ, refl, false, none, some, List, [], ◌∷◌, Text}
use mark_solutions.Base.Int.{pos}
use mark_solutions.Store.{OrderStatus}
use mark_solutions.Billing.Growth.{Books, same_Books}
use mark_solutions.Billing.Ledger.{violates_unique}
use mark_solutions.Billing.Guarantee.{reserving}
use mark_solutions.Documents.Deciding.{Decision}
use mark_solutions.Emission.{rejected, confirmed}
use mark_solutions.Poller.{Timeouts}
use mark_solutions.Running.{
  topping_up, cancelling, calling, Answers, Event, request, tick, happen_all,
}
use mark_solutions.Running.Books.{happen_all-Books}
use mark_solutions.Tests.Data.{shop, shop-Sound}
use mark_solutions.Tests.Following.{with_order}

abbrev timeouts : Timeouts
timeouts = record {
  nkt = 15000;
  mpt_order = 60000;
  document = 600000;
  deadline_days = 30;
  require_gs1_verified = false;
}

-- The marking system takes the order, while two requests are served, and has rejected it when it is
-- asked.
abbrev answers : Answers
answers = record {
  nkt = record { submit_product = λ c. none; get_status = λ ref. none };
  reply = λ o quantity. confirmed (some 900);
  meanwhile = λ o quantity. topping_up 8 (some 98) (pos 5) ∷ calling (reserving 8 6 (pos 50)) ∷ [];
  mpt = record {
    get_order = λ id. some (record { status = rejected; found = false });
    get_codes = λ id quantity. none;
  };
  get_document = λ id. Decision.waiting;
  get_utilisation = λ id. none;
}

abbrev events : List Event
events =
    request (topping_up 7 (some 99) (pos 20))
    ∷ request (calling (reserving 7 5 (pos 110)))
    ∷ tick 2000 timeouts answers
    ∷ request (cancelling 3000 8 6)
    ∷ []

abbrev key_of_number : Text → ℕ
key_of_number [] = 0
key_of_number (c ∷ s) = c

shop-Books : Books shop
unfolding violates_unique
shop-Books = record { sound = shop-Sound; single = ((refl, tt), (tt, tt)); backed = (tt, (tt, tt)) }

happen_all-Books_example : Books (happen_all key_of_number events (with_order OrderStatus.queued))
happen_all-Books_example =
    happen_all-Books key_of_number events (with_order OrderStatus.queued)
      (same_Books shop refl refl shop-Books)
