-- ===== src/Mpt/Tokens.antt =====
-- The state of the transport (apps/api/src/http-mpt.adapter.ts), its requests and answers, and what it
-- does with tokens.
use mark_solutions.Base.{
  ℕ, Bool, false, ◌&&◌, ◌||◌, not, Option, none, some, List, [], ◌∷◌, leb, if◌then◌else◌, Text,
  text, text_eq, is_empty,
}
use mark_solutions.Mpt.Values.{Json, null, text_field, is_null}

-- What the constructor reads from the environment. A retry limit that is no number allows no retry.
pub record Config : Type 0 where
  pub login : Text
  pub password : Text
  pub max_retries : ℕ
  pub product_group : Text
  pub business_place_id : Option ℕ

-- An answer of the network. The body is what `JSON.parse` makes of the text, if it is JSON; the
-- connection may fail while the body is read.
pub record Response : Type 0 where
  pub status : ℕ
  pub is_json : Bool
  pub breaks_off : Bool
  pub body : Option Json

pub data Method : Type 0 where
  get post : Method

pub data Body : Type 0 where
  json : Json → Body
  form : Text → Body
  no_body : Body

abbrev pub Headers : Type 0
Headers = List (Text × Text)

-- A request as the methods of the adapter give it to `request`.
pub record Request : Type 0 where
  pub path : Text
  pub method : Method
  pub body : Body
  pub headers : Headers
  pub operation_id : Text
  pub mutating : Bool

-- The calls of `fetch`. A token that is missing in an answer is sent as "undefined".
pub data Call : Type 0 where
  authenticate : Text → Text → Call
  refresh_tokens : Text → Call
  send : Text → Method → Headers → Body → Option Text → Call

-- A call, and what came of it: nothing after a time-out or a failure of the network.
pub record Exchange : Type 0 where
  pub call : Call
  pub answer : Option Response

-- The fields of the adapter, and the calls that it has made, the latest first.
pub record Line : Type 0 where
  pub access_token : Option Text
  pub refresh_token : Option Text
  pub log : List Exchange

-- The exceptions: with status and path where they carry them. `broken_off` is the one of `res.text()`,
-- `raw` any other, of `fetch` or of the reading of an answer to a login or a refresh. No request ends with `out_of_rounds`.
pub data MptError : Type 0 where
  permanent : ℕ → Text → MptError
  unknown_result : Text → MptError
  network : Text → MptError
  temporary : ℕ → Text → MptError
  invalid : MptError
  raw : MptError
  broken_off : MptError
  out_of_rounds : MptError

pub data Outcome {ℓ} (A : Type ℓ) : Type ℓ where
  returned : A → Outcome A
  thrown : MptError → Outcome A

pub record Reply : Type 0 where
  pub status : ℕ
  pub data_of : Json

abbrev pub and_then :
    {A B : Type 0} → Outcome A × Line → (A → Line → Outcome B × Line) → Outcome B × Line
and_then (returned a, l) f = f a l
and_then (thrown e, l) f = (thrown e, l)

-- `if (this.accessToken)`: a token that is there and not empty.
abbrev pub filled : Option Text → Bool
filled none = false
filled (some s) = not (is_empty s)

-- `res.ok`
abbrev pub is_ok : Response → Bool
is_ok r = leb 200 r.status && leb r.status 299

abbrev pub authenticate_path : Text
authenticate_path = text "/api/users/authenticate"

abbrev pub refresh_path : Text
refresh_path = text "/api/users/tokens/refresh"

-- `await res.json()`, and then a property of it.
abbrev pub json_of : Response → Option Json
json_of r = elim r.body [
  | none ↦ none
  | some d ↦ if r.breaks_off || is_null d then none else some d
]

-- `data` of an answer
abbrev pub data_of : Response → Json
data_of r = elim r.body [ none ↦ null | some d ↦ if r.is_json then d else null ]

abbrev pub take_tokens : Option Json → Line → Outcome (Option Text) × Line
take_tokens none l = (thrown raw, l)
take_tokens (some d) l = (
  returned (text_field (text "accessToken") d),
  record l {
    access_token = text_field (text "accessToken") d;
    refresh_token = text_field (text "refreshToken") d;
  },
)

-- The answer to the login.
unfoldable pub authenticated : Option Response → Line → Outcome (Option Text) × Line
authenticated none l = (thrown raw, l)
authenticated (some r) l =
    if not (is_ok r)
    then (thrown (permanent r.status authenticate_path), l)
    else take_tokens (json_of r) l

abbrev pub take_refreshed : Option Json → Line → Outcome (Unit {0}) × Line
take_refreshed none l = (thrown raw, l)
take_refreshed (some d) l =
    let renewed = text_field (text "refreshToken") d in
    (
      returned tt,
      record l {
        access_token = text_field (text "accessToken") d;
        refresh_token = if filled renewed then renewed else l.refresh_token;
      },
    )

unfoldable pub refreshed : Option Response → Line → Outcome (Unit {0}) × Line
refreshed none l = (thrown raw, l)
refreshed (some r) l =
    if not (is_ok r)
    then (thrown (permanent r.status refresh_path), l)
    else take_refreshed (json_of r) l

-- `Object.assign` on the headers
abbrev pub set_header : Text × Text → Headers → Headers
set_header h [] = h ∷ []
set_header (k, v) ((j, w) ∷ hs) =
    let rest = set_header (k, v) hs in if text_eq j k then (j, v) ∷ hs else (j, w) ∷ rest

abbrev pub assign : Headers → Headers → Headers
assign hs [] = hs
assign hs (h ∷ more) = assign (set_header h hs) more

abbrev pub content_headers : Body → Headers
content_headers (json d) =
    (text "Accept", text "*/*") ∷ (text "Content-Type", text "application/json") ∷ []
content_headers (form s) =
    (text "Accept", text "*/*")
    ∷ (text "Content-Type", text "application/x-www-form-urlencoded")
    ∷ []
content_headers no_body = (text "Accept", text "*/*") ∷ []

abbrev pub call_of : Request → Option Text → Call
call_of q token = send q.path q.method (assign (content_headers q.body) q.headers) q.body token
