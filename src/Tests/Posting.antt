-- ===== src/Tests/Posting.antt =====
-- The theorem on the poller with the adapter at work.
use mark_solutions.Base.{ℕ, suc, ◌≡◌, ◌+◌, ◌≤◌, refl, false, not, Option, none, some, [], ◌∷◌}
use mark_solutions.Store.{OrderStatus, Db}
use mark_solutions.Mpt.{Config, Response, Line}
use mark_solutions.Mpt.Calls.{create_order}
use mark_solutions.Mpt.Tally.{accepted, doubtful, one_if}
use mark_solutions.Mpt.Failing.{is_permanent}
use mark_solutions.Emission.{after_reply, send_to_mpt}
use mark_solutions.Emission.Posting.{
  input_of, reply_of, HasRow, counted, posting, send_to_mpt-create_order,
}
use mark_solutions.Tests.Following.{order, message, with_order}

abbrev config : Config
config = record {
  login = 108 ∷ [];
  password = 112 ∷ [];
  max_retries = 2;
  product_group = 111 ∷ [];
  business_place_id = none;
}

-- A token at hand, and a marking system that refuses every order with 400.
abbrev ready_line : Line
ready_line = record { access_token = some (97 ∷ []); refresh_token = none; log = [] }

abbrev refusing : ℕ → Option Response
refusing n = some (record { status = 400; is_json = false; breaks_off = false; body = none })

-- A request that is served meanwhile.
abbrev served : Line → Db → Db
served l db = record db { next_id = suc db.next_id }

send_to_mpt-create_order_example :
    let (out, l') =
      create_order config refusing
        (λ t. t)
        (λ d. [])
        (input_of (λ n. n ∷ []) (order OrderStatus.queued (some 900)) 1)
        ready_line in
    let sent =
      send_to_mpt 2000
        (posting config refusing (λ t. t) (λ d. []) (λ t. 0) (λ n. n ∷ []) served ready_line)
        6
        (with_order OrderStatus.queued) in
    (sent
      ≡ after_reply 2000 6
          (order OrderStatus.queued (some 900))
          (reply_of (λ t. 0) out)
          (served l' (counted 6 (with_order OrderStatus.queued))))
    × HasRow 6 (is_permanent out) sent.1
    × (accepted l'.log + doubtful l'.log ≤ 0 + 0 + one_if (not (is_permanent out)))
send_to_mpt-create_order_example =
    send_to_mpt-create_order config refusing (λ t. t) (λ d. []) (λ t. 0) (λ n. n ∷ []) served 2000 6
      ready_line message (order OrderStatus.queued (some 900)) (with_order OrderStatus.queued) refl
      refl refl (λ l'. refl)
