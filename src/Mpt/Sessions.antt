-- ===== src/Mpt/Sessions.antt =====
-- Failures that pass and failures that stay (apps/api/src/http-mpt.adapter.ts): what is read again, and
-- what a request does whose token and refresh are refused.
use native.Mathlib.Nat.{add-zero}
use mark_solutions.Base.{
  ℕ, zero, suc, ◌+◌, ◌≤◌, ◌<◌, ◌≡◌, refl, ◌∙◌, ap, true, false, Bool, not, Option, none, some, List,
  ◌∷◌, arith, ltb, leb, ◌==◌, length, is_empty, Text,
}
use mark_solutions.Mpt.{
  Config, Response, Request, Exchange, Line, MptError, permanent, network, temporary, returned,
  thrown, refresh_tokens, filled, is_ok, data_of, refreshed, call_of, again, stop, raw_fetch,
  ensure_token, refresh_with, refresh_by, or_again, refresh, answered, try_send, after_throw,
  after_refresh, judge, after_answer, after_try, round, rounds, request, refresh_path,
}
use mark_solutions.Mpt.Tally.{is_doubtful}

-- The body of an answer, if one comes, is read.
abbrev pub is_whole : Option Response → Bool
is_whole none = true
is_whole (some r) = not r.breaks_off

suc-shift : (n i : ℕ) → suc n + i ≡ n + suc i
suc-shift n i = omega arith

whole_lem :
    (r : Response) (a : Option Response) → a ≡ some r → is_whole a ≡ true → r.breaks_off ≡ false
whole_lem r a found whole = let h : not r.breaks_off ≡ true = rw found at whole in ground arith

module _ (c : Config) (replies : ℕ → Option Response) where
  -- The line after a request with the token that it has.
  abbrev sent : Request → Line → Line
  sent q l = (raw_fetch c replies (call_of q l.access_token) l).1

  try_send-filled :
      (q : Request) (l : Line)
      → filled l.access_token ≡ true
      → try_send c replies q l ≡ answered c replies (replies (length l.log), sent q l)
  unfolding try_send ensure_token
  try_send-filled q l there = rw there refl

  or_again-read :
      (q : Request) (retry : ℕ) (e : MptError) (l : Line)
      → q.mutating ≡ false
      → ltb retry c.max_retries ≡ true
      → or_again c replies q retry false e l ≡ again false l
  or_again-read q retry e l reading more = rw (reading, more) refl

  judge-failing :
      (q : Request) (retry : ℕ) (r : Response) (l : Line)
      → leb 500 r.status ≡ true
      → r.breaks_off ≡ false
      → after_answer c replies q retry false r l
        ≡ or_again c replies q retry false (temporary r.status q.path) l
  unfolding after_answer judge
  judge-failing q retry r l failing whole =
      let other : (r.status == 401) ≡ false = ground arith in rw (other, whole, failing) refl

  judge-taken :
      (q : Request) (retry : ℕ) (r : Response) (l : Line)
      → ltb r.status 400 ≡ true
      → r.breaks_off ≡ false
      → after_answer c replies q retry false r l
        ≡ stop (returned (record { status = r.status; data_of = data_of r })) l
  unfolding after_answer judge
  judge-taken q retry r l taken whole =
      let other : (r.status == 401) ≡ false = ground arith in
      let working : leb 500 r.status ≡ false = ground arith in
      let fine : leb 400 r.status ≡ false = ground arith in rw (other, whole, working, fine) refl

  after_try-doubtful :
      (q : Request) (retry : ℕ) (a : Option Response) (l : Line)
      → is_doubtful a ≡ true
      → is_whole a ≡ true
      → q.mutating ≡ false
      → ltb retry c.max_retries ≡ true
      → after_try c replies q retry false (answered c replies (a, l)) ≡ again false l
  unfolding after_try after_throw
  after_try-doubtful q retry none l failing whole reading more =
      or_again-read q retry (network q.path) l reading more
  after_try-doubtful q retry (some r) l failing whole reading more =
      judge-failing q retry r l failing (ground arith)
      ∙ or_again-read q retry (temporary r.status q.path) l reading more

  round-doubtful :
      (q : Request) (retry : ℕ) (l : Line)
      → filled l.access_token ≡ true
      → is_doubtful (replies (length l.log)) ≡ true
      → is_whole (replies (length l.log)) ≡ true
      → q.mutating ≡ false
      → ltb retry c.max_retries ≡ true
      → round c replies q retry false l ≡ again false (sent q l)
  unfolding round
  round-doubtful q retry l there failing whole reading more =
      ap (after_try c replies q retry false) (try_send-filled q l there)
      ∙ after_try-doubtful q retry (replies (length l.log)) (sent q l) failing whole reading more

  round-taken :
      (q : Request) (retry : ℕ) (l : Line) (r : Response)
      → filled l.access_token ≡ true
      → replies (length l.log) ≡ some r
      → ltb r.status 400 ≡ true
      → r.breaks_off ≡ false
      → round c replies q retry false l
        ≡ stop (returned (record { status = r.status; data_of = data_of r })) (sent q l)
  unfolding round after_try
  round-taken q retry l r there found taken whole =
      ap (after_try c replies q retry false) (try_send-filled q l there)
      ∙ rw found (judge-taken q retry r _ taken whole)

  rounds-read :
      (k fuel : ℕ) (q : Request) (retry : ℕ) (l : Line) (r : Response)
      → filled l.access_token ≡ true
      → q.mutating ≡ false
      → k + retry ≤ c.max_retries
      → k < fuel
      → ((i : ℕ) → i < k → is_doubtful (replies (length l.log + i)) ≡ true)
      → ((i : ℕ) → i < suc k → is_whole (replies (length l.log + i)) ≡ true)
      → replies (length l.log + k) ≡ some r
      → ltb r.status 400 ≡ true
      → (rounds c replies fuel q retry false l).0
        ≡ returned (record { status = r.status; data_of = data_of r })
  unfolding rounds
  rounds-read k zero q retry l r there reading few spare failing whole found taken =
      absurd (omega arith)
  rounds-read zero (suc fuel) q retry l r there reading few spare failing whole found taken =
      rw
        (round-taken q retry l r there (rw (add-zero (length l.log)) at found) taken (
          whole_lem r (replies (length l.log)) (rw (add-zero (length l.log)) at found)
            (rw (add-zero (length l.log)) at (whole 0 (omega arith)))))
        refl
  rounds-read (suc k) (suc fuel) q retry l r there reading few spare failing whole found taken =
      let now : is_doubtful (replies (length l.log)) ≡ true =
        rw (add-zero (length l.log)) at (failing 0 (omega arith)) in
      rw
        (round-doubtful q retry l there now
          (rw (add-zero (length l.log)) at (whole 0 (omega arith))) reading (ground arith))
        (rounds-read k fuel q (suc retry) (sent q l) r there reading (omega arith) (omega arith)
          (λ i small. rw (suc-shift (length l.log) i) (failing (suc i) (omega arith)))
          (λ i small. rw (suc-shift (length l.log) i) (whole (suc i) (omega arith)))
          (rw (suc-shift (length l.log) k) found) taken)

-- A request that changes nothing returns as soon as the marking system answers it: with a token at
-- hand, if an answer is accepted after no more failures (of the network, or with a status of 500 and
-- above) than the retry limit, and the connection does not fail while the body of an answer is read,
-- the request returns that answer.
pub request-read :
    (c : Config) (replies : ℕ → Option Response) (k : ℕ) (q : Request) (l : Line) (r : Response)
    → filled l.access_token ≡ true
    → q.mutating ≡ false
    → k ≤ c.max_retries
    → ((i : ℕ) → i < k → is_doubtful (replies (length l.log + i)) ≡ true)
    → ((i : ℕ) → i < suc k → is_whole (replies (length l.log + i)) ≡ true)
    → replies (length l.log + k) ≡ some r
    → ltb r.status 400 ≡ true
    → (request c replies q l).0 ≡ returned (record { status = r.status; data_of = data_of r })
unfolding request
request-read c replies k q l r there reading few failing whole found taken =
    rounds-read c replies k (c.max_retries + 2) q 0 l r there reading (omega arith) (omega arith)
      failing whole found taken

-- The exchanges of a request whose token is refused and whose refresh is refused too.
abbrev pub refused_pair : Request → Line → Text → Response → Response → List Exchange
refused_pair q l token denied refusal =
    record { call = refresh_tokens token; answer = some refusal }
    ∷ record { call = call_of q l.access_token; answer = some denied }
    ∷ l.log

refresh_by-refused :
    (c : Config) (replies : ℕ → Option Response) (token : Text) (l : Line) (refusal : Response)
    → is_empty token ≡ false
    → replies (length l.log) ≡ some refusal
    → is_ok refusal ≡ false
    → refresh_by c replies (some token) l ≡ (
      thrown (permanent refusal.status refresh_path),
      record l { log = record { call = refresh_tokens token; answer = some refusal } ∷ l.log },
    )
unfolding refresh_with refreshed
refresh_by-refused c replies token l refusal there found bad = rw (there, found, bad) refl

after_answer-denied :
    (c : Config) (replies : ℕ → Option Response) (q : Request) (denied : Response) (l : Line)
    → (denied.status == 401) ≡ true
    → after_answer c replies q 0 false denied l
      ≡ after_refresh c replies (refresh_by c replies l.refresh_token l)
unfolding after_answer refresh
after_answer-denied c replies q denied l denies = rw denies refl

after_try-denied :
    (c : Config) (replies : ℕ → Option Response) (q : Request) (token : Text)
    (denied refusal : Response) (l : Line)
    → (denied.status == 401) ≡ true
    → l.refresh_token ≡ some token
    → is_empty token ≡ false
    → replies (length l.log) ≡ some refusal
    → is_ok refusal ≡ false
    → after_try c replies q 0 false (answered c replies (some denied, l))
      ≡ stop
          (thrown (permanent refusal.status refresh_path))
          (record l { log = record { call = refresh_tokens token; answer = some refusal } ∷ l.log })
unfolding after_try
after_try-denied c replies q token denied refusal l denies renew full found bad =
    after_answer-denied c replies q denied l denies
    ∙ ap (after_refresh c replies) (
        ap (λ t. refresh_by c replies t l) renew
        ∙ refresh_by-refused c replies token l refusal full found bad)

plus_two : (n : ℕ) → n + 2 ≡ suc (suc n)
plus_two n = omega arith

pub request-denied :
    (c : Config) (replies : ℕ → Option Response) (q : Request) (l : Line) (token : Text)
    (denied refusal : Response)
    → filled l.access_token ≡ true
    → l.refresh_token ≡ some token
    → is_empty token ≡ false
    → replies (length l.log) ≡ some denied
    → (denied.status == 401) ≡ true
    → replies (suc (length l.log)) ≡ some refusal
    → is_ok refusal ≡ false
    → request c replies q l ≡ (
      thrown (permanent refusal.status refresh_path),
      record l { log = refused_pair q l token denied refusal },
    )
unfolding request rounds round after_try
request-denied c replies q l token denied refusal there renew full first denies second bad =
    let l' = sent c replies q l in
    let whole =
      ap (after_try c replies q 0 false) (try_send-filled c replies q l there)
      ∙ ap (λ a. after_try c replies q 0 false (answered c replies (a, l'))) first
      ∙ after_try-denied c replies q token denied refusal l' denies renew full second bad in
    rw (plus_two c.max_retries, whole, first) refl
