-- ===== src/Mpt/Requesting.antt =====
-- The loop of `request` (apps/api/src/http-mpt.adapter.ts): it ends.
use mark_solutions.Base.{
  ℕ, zero, suc, ◌+◌, ◌-◌, ◌≤◌, ◌<◌, ◌≡◌, refl, inl, inr, Bool, true, false, ◌&&◌, Option, none,
  some, arith, ltb, leb, ◌==◌, if◌then◌else◌, Bool-cases, if_has, length, is_empty, Text,
}
use mark_solutions.Mpt.Values.{Json}
use mark_solutions.Mpt.{
  Config, Response, Request, Line, MptError, permanent, unknown_result, network, temporary, invalid,
  raw, broken_off, out_of_rounds, Outcome, returned, thrown, Reply, refresh_tokens, is_ok, json_of,
  take_refreshed, refreshed, Round, again, stop, raw_fetch, refresh_with, refresh_by, or_again,
  refresh, try_send, after_throw, after_refresh, judge, after_answer, after_try, round, then_round,
  rounds, request,
}

abbrev pub is_out : {A : Type 0} → Outcome A → Bool
is_out (thrown out_of_rounds) = true
is_out _ = false

-- The rounds that a loop may still take.
abbrev left : ℕ → ℕ → Bool → ℕ
left limit retry renewed = (limit - retry) + (if renewed then 1 else 2)

left-suc :
    (limit retry : ℕ) (renewed : Bool)
    → ltb retry limit ≡ true
    → left limit (suc retry) renewed < left limit retry renewed
left-suc limit retry renewed h = ground arith

-- After a round, fewer rounds are left, or the loop has ended.
Shorter : ℕ → ℕ → Bool → Round → Type 0
Shorter limit retry renewed (again renewed' l) =
    left limit (suc retry) renewed' < left limit retry renewed
Shorter limit retry renewed (stop out l) = is_out out ≡ false

is_out-take_refreshed : (d : Option Json) (l : Line) → is_out (take_refreshed d l).0 ≡ false
is_out-take_refreshed none l = refl
is_out-take_refreshed (some d) l = refl

is_out-refreshed : (r : Option Response) (l : Line) → is_out (refreshed r l).0 ≡ false
unfolding refreshed
is_out-refreshed none l = refl
is_out-refreshed (some r) l = elim (Bool-cases (is_ok r)) [
  | inl fine ↦ rw fine (is_out-take_refreshed (json_of r) l)
  | inr bad ↦ rw bad refl
]

module _ (c : Config) (replies : ℕ → Option Response) where
  is_out-refresh_by : (t : Option Text) (l : Line) → is_out (refresh_by c replies t l).0 ≡ false
  unfolding refresh_with
  is_out-refresh_by none l = refl
  is_out-refresh_by (some t) l = elim (Bool-cases (is_empty t)) [
    | inl blank ↦ rw blank refl
    | inr there ↦
        rw there
          (is_out-refreshed (replies (length l.log)) (raw_fetch c replies (refresh_tokens t) l).1)
  ]

  or_again-Shorter :
      (q : Request) (retry : ℕ) (renewed : Bool) (e : MptError) (l : Line)
      → is_out {A = Reply} (thrown e) ≡ false
      → Shorter c.max_retries retry renewed (or_again c replies q retry renewed e l)
  unfolding Shorter
  or_again-Shorter q retry renewed e l h = elim (Bool-cases q.mutating) [
    | inl changing ↦ rw changing refl
    | inr reading ↦ rw reading (elim (Bool-cases (ltb retry c.max_retries)) [
      | inl more ↦ rw more (left-suc c.max_retries retry renewed more)
      | inr last ↦ rw last h
    ])
  ]

  after_throw-Shorter :
      (q : Request) (retry : ℕ) (renewed : Bool) (e : MptError) (l : Line)
      → Shorter c.max_retries retry renewed (after_throw c replies q retry renewed e l)
  unfolding Shorter after_throw
  after_throw-Shorter q retry renewed (permanent s p) l = refl
  after_throw-Shorter q retry renewed (unknown_result p) l =
      or_again-Shorter q retry renewed (network q.path) l refl
  after_throw-Shorter q retry renewed (network p) l =
      or_again-Shorter q retry renewed (network q.path) l refl
  after_throw-Shorter q retry renewed (temporary s p) l =
      or_again-Shorter q retry renewed (network q.path) l refl
  after_throw-Shorter q retry renewed invalid l =
      or_again-Shorter q retry renewed (network q.path) l refl
  after_throw-Shorter q retry renewed raw l =
      or_again-Shorter q retry renewed (network q.path) l refl
  after_throw-Shorter q retry renewed broken_off l =
      or_again-Shorter q retry renewed (network q.path) l refl
  after_throw-Shorter q retry renewed out_of_rounds l =
      or_again-Shorter q retry renewed (network q.path) l refl

  judge-Shorter :
      (q : Request) (retry : ℕ) (renewed : Bool) (r : Response) (l : Line)
      → Shorter c.max_retries retry renewed (judge c replies q retry renewed r l)
  unfolding Shorter judge
  judge-Shorter q retry renewed r l = elim (Bool-cases (r.status == 401)) [
    | inl denied ↦ rw denied refl
    | inr other ↦ rw other (elim (Bool-cases (leb 500 r.status)) [
      | inl failing ↦
          rw failing (or_again-Shorter q retry renewed (temporary r.status q.path) l refl)
      | inr working ↦ rw working (elim (Bool-cases (leb 400 r.status)) [
        | inl refused ↦ rw refused refl
        | inr taken ↦ rw taken refl
      ])
    ])
  ]

  read-Shorter :
      (q : Request) (retry : ℕ) (renewed : Bool) (r : Response) (l : Line)
      → Shorter c.max_retries retry renewed
          (if r.breaks_off then stop (thrown broken_off) l else judge c replies q retry renewed r l)
  unfolding Shorter
  read-Shorter q retry renewed r l =
      if_has (Shorter c.max_retries retry renewed) r.breaks_off _ _ (λ broken. refl)
        λ whole. judge-Shorter q retry renewed r l

  after_refresh-Shorter :
      (retry : ℕ) (r : Outcome (Unit {0}) × Line)
      → is_out r.0 ≡ false
      → Shorter c.max_retries retry false (after_refresh c replies r)
  unfolding Shorter
  after_refresh-Shorter retry (returned u, l) h = omega arith
  after_refresh-Shorter retry (thrown e, l) h = h

  after_answer-Shorter :
      (q : Request) (retry : ℕ) (renewed : Bool) (r : Response) (l : Line)
      → Shorter c.max_retries retry renewed (after_answer c replies q retry renewed r l)
  unfolding after_answer refresh
  after_answer-Shorter q retry true r l =
      if_has (Shorter c.max_retries retry true) ((r.status == 401) && false) _ _
        (λ h. absurd (ground arith)) λ h. read-Shorter q retry true r l
  after_answer-Shorter q retry false r l =
      if_has (Shorter c.max_retries retry false) ((r.status == 401) && true) _ _
        (λ h.
          after_refresh-Shorter retry (refresh_by c replies l.refresh_token l)
            (is_out-refresh_by l.refresh_token l))
        λ h. read-Shorter q retry false r l

  after_try-Shorter :
      (q : Request) (retry : ℕ) (renewed : Bool) (r : Outcome Response × Line)
      → Shorter c.max_retries retry renewed (after_try c replies q retry renewed r)
  unfolding after_try
  after_try-Shorter q retry renewed (returned r, l) = after_answer-Shorter q retry renewed r l
  after_try-Shorter q retry renewed (thrown e, l) = after_throw-Shorter q retry renewed e l

  then_round-end :
      (fuel : ℕ) (q : Request) (retry : ℕ) (renewed : Bool) (r : Round)
      → Shorter c.max_retries retry renewed r
      → left c.max_retries retry renewed ≤ suc fuel
      → ((renewed' : Bool) (l : Line)
          → left c.max_retries (suc retry) renewed' ≤ fuel
          → is_out (rounds c replies fuel q (suc retry) renewed' l).0 ≡ false)
      → is_out (then_round c replies r (λ b l. rounds c replies fuel q (suc retry) b l)).0 ≡ false
  unfolding Shorter
  then_round-end fuel q retry renewed (again renewed' l) h few ih =
      ih renewed' l (omega (arith, h, few))
  then_round-end fuel q retry renewed (stop out l) h few ih = h

  rounds-end :
      (fuel : ℕ) (q : Request) (retry : ℕ) (renewed : Bool) (l : Line)
      → left c.max_retries retry renewed ≤ fuel
      → is_out (rounds c replies fuel q retry renewed l).0 ≡ false
  unfolding rounds round
  rounds-end zero q retry renewed l h = absurd (ground arith)
  rounds-end (suc fuel) q retry renewed l h =
      then_round-end fuel q retry renewed (round c replies q retry renewed l)
        (after_try-Shorter q retry renewed (try_send c replies q l)) h
        (rounds-end fuel q (suc retry))

-- Whatever the network answers, a request ends: it never takes more rounds than the retry limit and
-- two.
pub is_out-request :
    (c : Config) (replies : ℕ → Option Response) (q : Request) (l : Line)
    → is_out (request c replies q l).0 ≡ false
unfolding request
is_out-request c replies q l = rounds-end c replies (c.max_retries + 2) q 0 false l (omega arith)
