-- ===== src/Mpt/Tally.antt =====
-- Counting what the marking system was asked (apps/api/src/http-mpt.adapter.ts): logins and refreshes
-- of tokens count for nothing.
use native.Mathlib.Nat.{zero-add}
use mark_solutions.Base.{
  ℕ, ◌+◌, ◌≡◌, refl, ◌∙◌, ap, Bool, true, false, ◌&&◌, ◌||◌, not, Option, none, some, List, [], ◌∷◌,
  ltb, leb, if◌then◌else◌, if_has, length, is_empty, Text,
}
use mark_solutions.Mpt.Values.{Json}
use mark_solutions.Mpt.{
  Config, Response, Call, Exchange, Line, unknown_result, broken_off, Outcome, returned, thrown,
  authenticate, refresh_tokens, send, filled, is_ok, json_of, take_tokens, authenticated,
  take_refreshed, refreshed, raw_fetch, ensure_token, refresh_with, refresh_by,
}

abbrev pub one_if : Bool → ℕ
one_if b = if b then 1 else 0

abbrev pub is_send : Call → Bool
is_send (send p m h b t) = true
is_send _ = false

abbrev pub is_accepting : Option Response → Bool
is_accepting none = false
is_accepting (some r) = ltb r.status 400

abbrev pub is_doubtful : Option Response → Bool
is_doubtful none = true
is_doubtful (some r) = leb 500 r.status

-- How many requests were answered as accepted.
abbrev pub accepted : List Exchange → ℕ
accepted [] = 0
accepted (e ∷ es) = one_if (is_send e.call && is_accepting e.answer) + accepted es

-- How many requests got no answer, or one that leaves open whether they were carried out.
abbrev pub doubtful : List Exchange → ℕ
doubtful [] = 0
doubtful (e ∷ es) = one_if (is_send e.call && is_doubtful e.answer) + doubtful es

abbrev pub is_returned : {A : Type 0} → Outcome A → Bool
is_returned (returned a) = true
is_returned (thrown e) = false

abbrev pub is_unknown : {A : Type 0} → Outcome A → Bool
is_unknown (thrown (unknown_result p)) = true
is_unknown _ = false

-- The connection failed while the body of an answer was read.
abbrev pub is_cut : {A : Type 0} → Outcome A → Bool
is_cut (thrown broken_off) = true
is_cut _ = false

-- No request is accepted or in doubt between two states.
abbrev pub Quiet : Line → Line → Type 0
Quiet l l' = (accepted l'.log ≡ accepted l.log) × (doubtful l'.log ≡ doubtful l.log)

log-take_tokens : (d : Option Json) (l : Line) → (take_tokens d l).1.log ≡ l.log
log-take_tokens none l = refl
log-take_tokens (some d) l = refl

log-authenticated : (r : Option Response) (l : Line) → (authenticated r l).1.log ≡ l.log
unfolding authenticated
log-authenticated none l = refl
log-authenticated (some r) l =
    if_has (λ (x : Outcome (Option Text) × Line). x.1.log ≡ l.log) (not (is_ok r)) _ _ (λ h. refl)
      λ h. log-take_tokens (json_of r) l

log-take_refreshed : (d : Option Json) (l : Line) → (take_refreshed d l).1.log ≡ l.log
log-take_refreshed none l = refl
log-take_refreshed (some d) l = refl

log-refreshed : (r : Option Response) (l : Line) → (refreshed r l).1.log ≡ l.log
unfolding refreshed
log-refreshed none l = refl
log-refreshed (some r) l =
    if_has (λ (x : Outcome (Unit {0}) × Line). x.1.log ≡ l.log) (not (is_ok r)) _ _ (λ h. refl)
      λ h. log-take_refreshed (json_of r) l

-- A call that is no request, and what follows without a call.
Quiet-log :
    (l l' : Line) (call : Call) (a : Option Response)
    → is_send call ≡ false
    → l'.log ≡ record { call = call; answer = a } ∷ l.log
    → Quiet l l'
Quiet-log l l' call a s e =
    let more : List Exchange = record { call = call; answer = a } ∷ l.log in
    let none_accepted : accepted more ≡ accepted l.log = rw s (zero-add _) in
    let none_doubtful : doubtful more ≡ doubtful l.log = rw s (zero-add _) in
    (ap accepted e ∙ none_accepted, ap doubtful e ∙ none_doubtful)

module _ (c : Config) (replies : ℕ → Option Response) where
  pub ensure_token-Quiet : (l : Line) → Quiet l (ensure_token c replies l).1
  unfolding ensure_token
  ensure_token-Quiet l =
      if_has (λ (x : Outcome (Option Text) × Line). Quiet l x.1) (filled l.access_token) _ _
        (λ h. (refl, refl))
        λ h.
          if_has (λ (x : Outcome (Option Text) × Line). Quiet l x.1)
            (is_empty c.login || is_empty c.password) _ _ (λ k. (refl, refl))
            λ k.
              let a = replies (length l.log) in
              let call = authenticate c.login c.password in
              let l' = (raw_fetch c replies call l).1 in
              Quiet-log l (authenticated a l').1 call a refl (log-authenticated a l')

  pub refresh_by-Quiet : (t : Option Text) (l : Line) → Quiet l (refresh_by c replies t l).1
  unfolding refresh_with
  refresh_by-Quiet none l = (refl, refl)
  refresh_by-Quiet (some t) l =
      if_has (λ (x : Outcome (Unit {0}) × Line). Quiet l x.1) (is_empty t) _ _ (λ h. (refl, refl))
        λ h.
          let a = replies (length l.log) in
          let l' = (raw_fetch c replies (refresh_tokens t) l).1 in
          Quiet-log l (refreshed a l').1 (refresh_tokens t) a refl (log-refreshed a l')
