-- ===== src/Mpt/Reporting.antt =====
-- What a request that changes something reports, against what the marking system was asked
-- (apps/api/src/http-mpt.adapter.ts).
use mark_solutions.Base.{
  ℕ, zero, suc, ◌+◌, ◌≤◌, ◌≡◌, refl, ◌∙◌, Bool, true, false, ◌&&◌, ◌||◌, not, Option, none, some,
  ◌∷◌, arith, ltb, leb, ◌==◌, if_has, length, Text,
}
use mark_solutions.Mpt.{
  Config, Response, Request, Call, Line, MptError, permanent, unknown_result, network, temporary,
  invalid, raw, broken_off, out_of_rounds, Outcome, returned, thrown, Reply, and_then, call_of,
  Round, again, stop, raw_fetch, ensure_token, refresh_by, or_again, refresh, answered, try_send,
  after_throw, after_refresh, judge, after_answer, after_try, round, then_round, rounds, request,
}
use mark_solutions.Mpt.Tally.{
  one_if, is_send, accepted, doubtful, is_returned, is_unknown, is_cut, Quiet, ensure_token-Quiet,
  refresh_by-Quiet,
}

-- An end says what happened: a result, that one request was accepted, an exception, that none was, but
-- for the one of an answer that breaks off; and no request is in doubt unless the exception says so or
-- the answer has broken off; and no more than one in all is accepted or in doubt.
abbrev Told : Line → Outcome Reply → Line → Type 0
Told l out l' =
    (accepted l.log + one_if (is_returned out) ≤ accepted l'.log)
    × (accepted l'.log ≤ accepted l.log + one_if (is_returned out || is_cut out))
    × (doubtful l'.log ≤ doubtful l.log + one_if (is_unknown out || is_cut out))
    × (accepted l'.log + doubtful l'.log
        ≤ accepted l.log
          + doubtful l.log
          + one_if (is_returned out || (is_unknown out || is_cut out)))

ToldRound : Line → Round → Type 0
ToldRound l (again renewed l') = Quiet l l'
ToldRound l (stop out l') = Told l out l'

-- What the `try` gives.
Tried : Line → Outcome Response × Line → Type 0
Tried l (returned r, l') =
    (accepted l'.log ≡ accepted l.log + one_if (ltb r.status 400))
    × (doubtful l'.log ≡ doubtful l.log + one_if (leb 500 r.status))
Tried l (thrown (permanent s p), l') = Quiet l l'
Tried l (thrown _, l') = (accepted l'.log ≡ accepted l.log) × (doubtful l'.log ≤ doubtful l.log + 1)

thrown_Tried : (l : Line) (e : MptError) (l' : Line) → Quiet l l' → Tried l (thrown e, l')
unfolding Tried
thrown_Tried l (permanent s p) l' h = h
thrown_Tried l (unknown_result p) l' h = (h.0, omega (arith, h.1))
thrown_Tried l (network p) l' h = (h.0, omega (arith, h.1))
thrown_Tried l (temporary s p) l' h = (h.0, omega (arith, h.1))
thrown_Tried l invalid l' h = (h.0, omega (arith, h.1))
thrown_Tried l raw l' h = (h.0, omega (arith, h.1))
thrown_Tried l broken_off l' h = (h.0, omega (arith, h.1))
thrown_Tried l out_of_rounds l' h = (h.0, omega (arith, h.1))

module _ (c : Config) (replies : ℕ → Option Response) where
  answered-Tried :
      (call : Call) (l l' : Line) (a : Option Response)
      → is_send call ≡ true
      → Quiet l l'
      → Tried l
          (answered c replies (a, record l' { log = record { call = call; answer = a } ∷ l'.log }))
  unfolding Tried
  answered-Tried call l l' none s h = rw s (omega (arith, h.0), omega (arith, h.1))
  answered-Tried call l l' (some r) s h = rw s (omega (arith, h.0), omega (arith, h.1))

  -- Where no token is to be had, nothing is sent.
  and_then-Tried :
      (q : Request) (l : Line) (r : Outcome (Option Text) × Line)
      → Quiet l r.1
      → Tried l
          (and_then r (λ token l'. answered c replies (raw_fetch c replies (call_of q token) l')))
  and_then-Tried q l (returned token, l') h =
      answered-Tried (call_of q token) l l' (replies (length l'.log)) refl h
  and_then-Tried q l (thrown e, l') h = thrown_Tried l e l' h

  try_send-Tried : (q : Request) (l : Line) → Tried l (try_send c replies q l)
  unfolding try_send
  try_send-Tried q l =
      and_then-Tried q l (ensure_token c replies l) (ensure_token-Quiet c replies l)

  or_again-Told :
      (q : Request) (retry : ℕ) (renewed : Bool) (e : MptError) (l l' : Line)
      → q.mutating ≡ true
      → accepted l'.log ≡ accepted l.log
      → doubtful l'.log ≤ doubtful l.log + 1
      → ToldRound l (or_again c replies q retry renewed e l')
  unfolding ToldRound
  or_again-Told q retry renewed e l l' m a d =
      rw m (omega (arith, a), omega (arith, a), omega (arith, d), omega (arith, a, d))

  after_throw-Told :
      (q : Request) (retry : ℕ) (renewed : Bool) (e : MptError) (l l' : Line)
      → q.mutating ≡ true
      → Tried l (thrown e, l')
      → ToldRound l (after_throw c replies q retry renewed e l')
  unfolding ToldRound Tried after_throw
  after_throw-Told q retry renewed (permanent s p) l l' m h =
      (omega (arith, h.0), omega (arith, h.0), omega (arith, h.1), omega (arith, h.0, h.1))
  after_throw-Told q retry renewed (unknown_result p) l l' m h =
      or_again-Told q retry renewed (network q.path) l l' m h.0 h.1
  after_throw-Told q retry renewed (network p) l l' m h =
      or_again-Told q retry renewed (network q.path) l l' m h.0 h.1
  after_throw-Told q retry renewed (temporary s p) l l' m h =
      or_again-Told q retry renewed (network q.path) l l' m h.0 h.1
  after_throw-Told q retry renewed invalid l l' m h =
      or_again-Told q retry renewed (network q.path) l l' m h.0 h.1
  after_throw-Told q retry renewed raw l l' m h =
      or_again-Told q retry renewed (network q.path) l l' m h.0 h.1
  after_throw-Told q retry renewed broken_off l l' m h =
      or_again-Told q retry renewed (network q.path) l l' m h.0 h.1
  after_throw-Told q retry renewed out_of_rounds l l' m h =
      or_again-Told q retry renewed (network q.path) l l' m h.0 h.1

  judge-Told :
      (q : Request) (retry : ℕ) (renewed : Bool) (r : Response) (l l' : Line)
      → q.mutating ≡ true
      → Tried l (returned r, l')
      → ToldRound l (judge c replies q retry renewed r l')
  unfolding ToldRound Tried judge
  judge-Told q retry renewed r l l' m h =
      if_has (ToldRound l) (r.status == 401) _ _
        (λ denied. (ground arith, ground arith, ground arith, ground arith))
        λ other.
          if_has (ToldRound l) (leb 500 r.status) _ _
            (λ failing. rw m (ground arith, ground arith, ground arith, ground arith))
            λ working.
              if_has (ToldRound l) (leb 400 r.status) _ _
                (λ refused. (ground arith, ground arith, ground arith, ground arith))
                (λ taken. (ground arith, ground arith, ground arith, ground arith))

  cut-Told :
      (r : Response) (l l' : Line)
      → Tried l (returned r, l')
      → ToldRound l (stop (thrown broken_off) l')
  unfolding ToldRound Tried
  cut-Told r l l' h = (ground arith, ground arith, ground arith, ground arith)

  -- A first 401 accepts nothing and leaves nothing in doubt.
  denied-Quiet :
      (r : Response) (l l' : Line)
      → (r.status == 401) ≡ true
      → Tried l (returned r, l')
      → Quiet l l'
  unfolding Tried
  denied-Quiet r l l' denied h = ground arith

  after_refresh-Told :
      (l l' : Line) (r : Outcome (Unit {0}) × Line)
      → Quiet l l'
      → Quiet l' r.1
      → ToldRound l (after_refresh c replies r)
  unfolding ToldRound
  after_refresh-Told l l' (returned u, l'') h k = (k.0 ∙ h.0, k.1 ∙ h.1)
  after_refresh-Told l l' (thrown e, l'') h k = (
    omega (arith, h.0, k.0),
    omega (arith, h.0, k.0),
    omega (arith, h.1, k.1),
    omega (arith, h.0, k.0, h.1, k.1),
  )

  after_answer-Told :
      (q : Request) (retry : ℕ) (renewed : Bool) (r : Response) (l l' : Line)
      → q.mutating ≡ true
      → Tried l (returned r, l')
      → ToldRound l (after_answer c replies q retry renewed r l')
  unfolding after_answer refresh
  after_answer-Told q retry renewed r l l' m h =
      if_has (ToldRound l) ((r.status == 401) && not renewed) _ _
        (λ first.
          after_refresh-Told l l' (refresh_by c replies l'.refresh_token l')
            (denied-Quiet r l l' (ground arith) h) (refresh_by-Quiet c replies l'.refresh_token l'))
        λ later.
          if_has (ToldRound l) r.breaks_off _ _ (λ broken. cut-Told r l l' h)
            λ whole. judge-Told q retry renewed r l l' m h

  after_try-Told :
      (q : Request) (retry : ℕ) (renewed : Bool) (l : Line) (r : Outcome Response × Line)
      → q.mutating ≡ true
      → Tried l r
      → ToldRound l (after_try c replies q retry renewed r)
  unfolding after_try
  after_try-Told q retry renewed l (returned r, l') m h =
      after_answer-Told q retry renewed r l l' m h
  after_try-Told q retry renewed l (thrown e, l') m h = after_throw-Told q retry renewed e l l' m h

  then_round-Told :
      (l : Line) (r : Round) (f : Bool → Line → Outcome Reply × Line)
      → ToldRound l r
      → ((renewed : Bool) (l' : Line) → Told l' (f renewed l').0 (f renewed l').1)
      → Told l (then_round c replies r f).0 (then_round c replies r f).1
  unfolding ToldRound
  then_round-Told l (again renewed l') f h told = rw (← h.0, ← h.1) (told renewed l')
  then_round-Told l (stop out l') f h told = h

  rounds-Told :
      (fuel : ℕ) (q : Request) (retry : ℕ) (renewed : Bool) (l : Line)
      → q.mutating ≡ true
      → Told l
          (rounds c replies fuel q retry renewed l).0
          (rounds c replies fuel q retry renewed l).1
  unfolding rounds round
  rounds-Told zero q retry renewed l m = (omega arith, omega arith, omega arith, omega arith)
  rounds-Told (suc fuel) q retry renewed l m =
      then_round-Told l (round c replies q retry renewed l) _
        (after_try-Told q retry renewed l (try_send c replies q l) m (try_send-Tried q l))
        (λ renewed' l'. rounds-Told fuel q (suc retry) renewed' l' m)

-- A request that changes something reports what the marking system was asked: where it returns, one copy
-- of it was accepted, and an exception means that none was, unless the connection has failed while the
-- body of an answer was read. No copy is left in doubt, except with an unknown result or after such a
-- failure. At most one copy is accepted or in doubt in all, so that none is ever carried out twice.
pub request-Told :
    (c : Config) (replies : ℕ → Option Response) (q : Request) (l : Line)
    → q.mutating ≡ true
    → let (out, l') = request c replies q l in
      (accepted l.log + one_if (is_returned out) ≤ accepted l'.log)
      × (accepted l'.log ≤ accepted l.log + one_if (is_returned out || is_cut out))
      × (doubtful l'.log ≤ doubtful l.log + one_if (is_unknown out || is_cut out))
      × (accepted l'.log + doubtful l'.log
          ≤ accepted l.log
            + doubtful l.log
            + one_if (is_returned out || (is_unknown out || is_cut out)))
unfolding request
request-Told c replies q l m = rounds-Told c replies (c.max_retries + 2) q 0 false l m
