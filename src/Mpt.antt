-- ===== src/Mpt.antt =====
-- The transport to the marking system (apps/api/src/http-mpt.adapter.ts): the tokens, and one request
-- with its repetitions. What the network answers to the calls, in the order in which they are made, is
-- an argument.
mod Tokens
pub mod Values
pub mod Canonical
pub mod Requesting
pub mod Tally
pub mod Reporting
pub mod Sessions
pub mod Denying
pub mod Messages
pub mod Answers
pub mod Calls
pub mod Failing
use mark_solutions.Base.{
  ℕ, zero, suc, ◌+◌, Bool, true, false, ◌&&◌, ◌||◌, not, Option, none, some, List, [], ◌∷◌, arith,
  ltb, leb, ◌==◌, if◌then◌else◌, length, Text, text, text_eq, is_empty,
}
use mark_solutions.Mpt.Values.{Json, null, text_field, is_null}
unfoldable pub use Tokens.*

-- What the loop does after a round: another round, or its end.
pub data Round : Type 0 where
  again : Bool → Line → Round
  stop : Outcome Reply → Line → Round

module _ (c : Config) (replies : ℕ → Option Response) where
  -- `rawFetch`
  abbrev pub raw_fetch : Call → Line → Option Response × Line
  raw_fetch call l =
      let answer = replies (length l.log) in
      (answer, record l { log = record { call = call; answer = answer } ∷ l.log })

  -- `ensureToken`
  unfoldable pub ensure_token : Line → Outcome (Option Text) × Line
  unfolding authenticated
  ensure_token l =
      if filled l.access_token
      then (returned l.access_token, l)
      else if is_empty c.login || is_empty c.password
      then (thrown (permanent 0 authenticate_path), l)
      else (let (r, l') = raw_fetch (authenticate c.login c.password) l in authenticated r l')

  unfoldable pub refresh_with : Text → Line → Outcome (Unit {0}) × Line
  unfolding refreshed
  refresh_with token l = let (r, l') = raw_fetch (refresh_tokens token) l in refreshed r l'

  abbrev pub refresh_by : Option Text → Line → Outcome (Unit {0}) × Line
  refresh_by none l = (thrown (permanent 0 refresh_path), l)
  refresh_by (some token) l =
      if is_empty token then (thrown (permanent 0 refresh_path), l) else refresh_with token l

  -- `refresh`
  unfoldable pub refresh : Line → Outcome (Unit {0}) × Line
  refresh l = refresh_by l.refresh_token l

  abbrev pub answered : Option Response × Line → Outcome Response × Line
  answered (none, l) = (thrown raw, l)
  answered (some r, l) = (returned r, l)

  -- The body of the `try`.
  unfoldable pub try_send : Request → Line → Outcome Response × Line
  unfolding ensure_token
  try_send q l = and_then (ensure_token l) (λ token l'. answered (raw_fetch (call_of q token) l'))

  -- After a failure that may pass: only what changes nothing is sent again.
  abbrev pub or_again : Request → ℕ → Bool → MptError → Line → Round
  or_again q retry refreshed e l =
      if q.mutating
      then stop (thrown (unknown_result q.path)) l
      else if ltb retry c.max_retries
      then again refreshed l
      else stop (thrown e) l

  -- The body of the `catch`.
  unfoldable pub after_throw : Request → ℕ → Bool → MptError → Line → Round
  after_throw q retry refreshed (permanent s p) l = stop (thrown (permanent s p)) l
  after_throw q retry refreshed _ l = or_again q retry refreshed (network q.path) l

  abbrev pub after_refresh : Outcome (Unit {0}) × Line → Round
  after_refresh (returned u, l) = again true l
  after_refresh (thrown e, l) = stop (thrown e) l

  -- An answer other than the first 401, whose body was read.
  unfoldable pub judge : Request → ℕ → Bool → Response → Line → Round
  judge q retry refreshed r l =
      if r.status == 401
      then stop (thrown (permanent r.status q.path)) l
      else if leb 500 r.status
      then or_again q retry refreshed (temporary r.status q.path) l
      else if leb 400 r.status
      then stop (thrown (permanent r.status q.path)) l
      else stop (returned (record { status = r.status; data_of = data_of r })) l

  unfoldable pub after_answer : Request → ℕ → Bool → Response → Line → Round
  unfolding refresh judge
  after_answer q retry refreshed r l =
      if (r.status == 401) && not refreshed
      then after_refresh (refresh l)
      else if r.breaks_off
      then stop (thrown broken_off) l
      else judge q retry refreshed r l

  unfoldable pub after_try : Request → ℕ → Bool → Outcome Response × Line → Round
  unfolding after_throw after_answer
  after_try q retry refreshed (returned r, l) = after_answer q retry refreshed r l
  after_try q retry refreshed (thrown e, l) = after_throw q retry refreshed e l

  -- One round of the loop.
  unfoldable pub round : Request → ℕ → Bool → Line → Round
  unfolding try_send after_throw after_answer
  round q retry refreshed l = after_try q retry refreshed (try_send q l)

  -- The end of the loop, or what follows.
  abbrev pub then_round : Round → (Bool → Line → Outcome Reply × Line) → Outcome Reply × Line
  then_round (again refreshed l) f = f refreshed l
  then_round (stop out l) f = (out, l)

  -- The loop, with the number of rounds that it may take.
  unfoldable pub rounds : ℕ → Request → ℕ → Bool → Line → Outcome Reply × Line
  unfolding round
  rounds zero q retry refreshed l = (thrown out_of_rounds, l)
  rounds (suc fuel) q retry refreshed l =
      then_round (round q retry refreshed l)
        (λ refreshed' l'. rounds fuel q (suc retry) refreshed' l')

  unfoldable pub request : Request → Line → Outcome Reply × Line
  unfolding rounds
  request q l = rounds (c.max_retries + 2) q 0 false l
