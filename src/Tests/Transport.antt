-- ===== src/Tests/Transport.antt =====
-- The theorems on the transport to the marking system at work.
use mark_solutions.Base.{
  ℕ, zero, suc, ◌+◌, ◌≤◌, ◌<◌, ◌≡◌, refl, true, false, ◌||◌, All, Option, none, some, [], ◌∷◌,
  arith, text,
}
use mark_solutions.Mpt.Values.{
  Json, null, string, bool, object, no_fields, field, sort_keys_recursive,
}
use mark_solutions.Base.Int.{pos}
use mark_solutions.Mpt.{
  Config, Response, Request, get, post, no_body, Line, permanent, broken_off, returned, thrown,
  ensure_token, refresh, refreshed, refresh_with, authenticated, try_send, judge, after_answer,
  after_try, round, rounds, request, refresh_path,
}
use mark_solutions.Mpt.Requesting.{is_out, is_out-request}
use mark_solutions.Mpt.Tally.{
  accepted, doubtful, one_if, is_returned, is_unknown, is_cut, is_doubtful,
}
use mark_solutions.Mpt.Reporting.{request-Told}
use mark_solutions.Mpt.Sessions.{is_whole, request-read}
use mark_solutions.Mpt.Denying.{request_all, logins, request_all-denied}
use mark_solutions.Mpt.Canonical.{IsSorted, Rearranged, sort_keys_recursive-IsSorted}
use mark_solutions.Mpt.Messages.{MptOrderInput, UtilisationInput, ImportInput, WithdrawalInput}
use mark_solutions.Mpt.Calls.{create_order, submit_utilisation, submit_import, submit_withdrawal}
use mark_solutions.Mpt.Failing.{Honest, submissions-Honest}

abbrev stage : Config
stage = record {
  login = text "markflow";
  password = text "secret";
  max_retries = 2;
  product_group = text "autofluids";
  business_place_id = some 17;
}

abbrev fine : Response
fine = record {
  status = 200;
  is_json = true;
  breaks_off = false;
  body = some (object (field (text "status") (string (text "READY")) no_fields));
}

abbrev down : Response
down = record { status = 503; is_json = false; breaks_off = false; body = none }

abbrev denied : Response
denied = record { status = 401; is_json = false; breaks_off = false; body = none }

abbrev tokens : Response
tokens = record {
  status = 200;
  is_json = true;
  breaks_off = false;
  body = some (
      object (
        field (text "accessToken") (string (text "a2"))
          (field (text "refreshToken") (string (text "r2")) no_fields)));
}

abbrev idle : Line
idle = record { access_token = some (text "a1"); refresh_token = some (text "r1"); log = [] }

abbrev cold : Line
cold = record { access_token = none; refresh_token = none; log = [] }

abbrev look : Request
look = record {
  path = text "/api/orders?orderId=1";
  method = get;
  body = no_body;
  headers = [];
  operation_id = text "1";
  mutating = false;
}

abbrev change : Request
change = record look { path = text "/api/orders"; method = post; mutating = true }

-- The token has run out: the first request is denied, the refresh works, the replay is answered.
abbrev renewing : ℕ → Option Response
renewing zero = some denied
renewing (suc zero) = some tokens
renewing _ = some fine

-- Nothing comes, then the service is down, then it answers.
abbrev recovering : ℕ → Option Response
recovering zero = none
recovering (suc zero) = some down
recovering _ = some fine

is_out-request_example : is_out (request stage recovering look idle).0 ≡ false
is_out-request_example = is_out-request stage recovering look idle

-- A change is denied once, then accepted.
request-Told_example :
    let (out, l') = request stage renewing change idle in
    (0 + one_if (is_returned out) ≤ accepted l'.log)
    × (accepted l'.log ≤ 0 + one_if (is_returned out || is_cut out))
    × (doubtful l'.log ≤ 0 + one_if (is_unknown out || is_cut out))
    × (accepted l'.log + doubtful l'.log
        ≤ 0 + 0 + one_if (is_returned out || (is_unknown out || is_cut out)))
request-Told_example = request-Told stage renewing change idle refl

renewed : accepted (request stage renewing change idle).1.log ≡ 1
unfolding request rounds round try_send ensure_token after_answer refresh refresh_with refreshed
    judge after_try
renewed = refl

few_failures : (i : ℕ) → i < 2 → is_doubtful (recovering (0 + i)) ≡ true
few_failures zero h = refl
few_failures (suc zero) h = refl
few_failures (suc (suc i)) h = absurd (omega arith)

all_whole : (i : ℕ) → i < 3 → is_whole (recovering (0 + i)) ≡ true
all_whole zero h = refl
all_whole (suc zero) h = refl
all_whole (suc (suc zero)) h = refl
all_whole (suc (suc (suc i))) h = absurd (omega arith)

-- The answer to a change is accepted, but breaks off.
abbrev breaking : ℕ → Option Response
breaking _ = some (record fine { breaks_off = true })

lost_answer :
    let (out, l') = request stage breaking change idle in
    (out ≡ thrown broken_off) × (accepted l'.log ≡ 1)
unfolding request rounds round try_send ensure_token after_answer after_try
lost_answer = (refl, refl)

request-read_example :
    (request stage recovering look idle).0
    ≡ returned (record {
      status = 200;
      data_of = object (field (text "status") (string (text "READY")) no_fields);
    })
request-read_example =
    request-read stage recovering 2 look idle fine refl refl (omega arith) few_failures all_whole
      refl refl

request_all-denied_example :
    let (outs, l') = request_all stage (λ n. some denied) (look ∷ change ∷ []) idle in
    All (λ out. out ≡ thrown (permanent 401 refresh_path)) outs
    × (l'.access_token ≡ idle.access_token)
    × (l'.refresh_token ≡ idle.refresh_token)
    × (logins l'.log ≡ 0)
request_all-denied_example =
    request_all-denied stage (λ n. some denied) (text "r1") refl (λ i. (denied, refl, refl))
      (look ∷ change ∷ []) idle refl refl

abbrev dated : Json
dated = object (field (text "number") (string (text "7")) (field (text "date") null no_fields))

sort_keys_recursive-IsSorted_example :
    IsSorted (sort_keys_recursive dated)
    × Rearranged dated (sort_keys_recursive dated)
    × (sort_keys_recursive (sort_keys_recursive dated) ≡ sort_keys_recursive dated)
sort_keys_recursive-IsSorted_example = sort_keys_recursive-IsSorted dated

sorted_once :
    sort_keys_recursive
      (object (field (text "number") null (field (text "date") (bool true) no_fields)))
    ≡ object (field (text "date") (bool true) (field (text "number") null no_fields))
unfolding sort_keys_recursive
sorted_once = refl

abbrev one_order : MptOrderInput
one_order = record {
  order_id = text "o1";
  gtin = text "04870000000013";
  quantity = 10;
  is_paid = true;
  product_group = none;
  business_place_id = some (pos 17);
  release_method_type = none;
}

abbrev one_report : UtilisationInput
one_report = record {
  sntins = text "s1" ∷ [];
  business_place_id = pos 17;
  release_type = text "PRODUCTION";
  expiration_date = text "2027-01-01";
  production_date = text "2026-01-01";
  manufacturer_country = text "KZ";
}

abbrev one_import : ImportInput
one_import = record {
  codes = text "s1" ∷ [];
  customs_date = text "2026-01-01";
  customs_number = text "7";
  authority_code = none;
}

abbrev one_withdrawal : WithdrawalInput
one_withdrawal = record {
  codes = text "s1" ∷ [];
  withdrawal_type = text "WRITE_OFF";
  withdrawal_reason = text "DAMAGE";
  children_write_off = false;
}

-- The login comes first, and the service is down after it.
abbrev failing : ℕ → Option Response
failing zero = some tokens
failing _ = some down

submissions-Honest_example :
    Honest cold (create_order stage failing (λ t. t) (λ d. []) one_order cold)
    × Honest cold (submit_utilisation stage failing (λ t. t) (λ d. []) one_report [] cold)
    × Honest cold (submit_import stage failing (λ t. t) (λ d. []) one_import cold)
    × Honest cold (submit_withdrawal stage failing (λ t. t) (λ d. []) one_withdrawal [] cold)
submissions-Honest_example =
    submissions-Honest stage failing (λ t. t) (λ d. []) one_order one_report one_import
      one_withdrawal [] cold

in_doubt : doubtful (create_order stage failing (λ t. t) (λ d. []) one_order cold).1.log ≡ 1
unfolding create_order request rounds round try_send ensure_token authenticated after_answer judge
    after_try
in_doubt = refl
