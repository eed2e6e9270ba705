-- ===== src/Mpt/Denying.antt =====
-- Requests after the marking system has stopped taking the tokens (apps/api/src/http-mpt.adapter.ts).
use mark_solutions.Base.{
  ℕ, suc, ◌+◌, ◌≡◌, refl, ap, ◌∙◌, ==_iff, true, false, Bool, Option, some, List, [], ◌∷◌, arith,
  ◌==◌, All, length, is_empty, Text,
}
use mark_solutions.Mpt.{
  Config, Response, Request, Call, Exchange, Line, permanent, Outcome, thrown, Reply, authenticate,
  filled, is_ok, request, refresh_path,
}
use mark_solutions.Mpt.Tally.{one_if}
use mark_solutions.Mpt.Sessions.{request-denied, refused_pair}

-- One request after another, with what each comes to.
abbrev pub request_all :
    Config → (ℕ → Option Response) → List Request → Line → List (Outcome Reply) × Line
request_all c replies [] l = ([], l)
request_all c replies (q ∷ qs) l =
    let (out, l') = request c replies q l in
    let (outs, l'') = request_all c replies qs l' in (out ∷ outs, l'')

abbrev is_login : Call → Bool
is_login (authenticate login password) = true
is_login _ = false

-- How many logins were tried.
abbrev pub logins : List Exchange → ℕ
logins [] = 0
logins (e ∷ es) = one_if (is_login e.call) + logins es

denied-is_ok : (r : Response) → (r.status == 401) ≡ true → is_ok r ≡ false
denied-is_ok r denies = ground arith

module _ (c : Config) (replies : ℕ → Option Response) (token : Text) (full : is_empty token ≡ false)
    (denies : (i : ℕ) → (r : Response) × (replies i ≡ some r) × ((r.status == 401) ≡ true)) where
  -- As long as the marking system answers every call with 401, that with the refresh token like those
  -- with the access token, requests of any kind and number fail for good, each with the exception of the refresh, and the adapter,
  -- which has both tokens, keeps them and never tries to log in.
  pub request_all-denied :
      (qs : List Request) (l : Line)
      → filled l.access_token ≡ true
      → l.refresh_token ≡ some token
      → let (outs, l') = request_all c replies qs l in
        All (λ out. out ≡ thrown (permanent 401 refresh_path)) outs
        × (l'.access_token ≡ l.access_token)
        × (l'.refresh_token ≡ l.refresh_token)
        × (logins l'.log ≡ logins l.log)
  request_all-denied [] l there renew = (tt, refl, refl, refl)
  request_all-denied (q ∷ qs) l there renew =
      let (r, first, is_401) = denies (length l.log) in
      let (r', second, is_401') = denies (suc (length l.log)) in
      let whole =
        request-denied c replies q l token r r' there renew full first is_401 second
          (denied-is_ok r' is_401') in
      let l₁ : Line = record l { log = refused_pair q l token r r' } in
      let (fail, access, renewal, same) = request_all-denied qs l₁ there renew in
      rw whole (
        (ap (λ n. thrown (permanent n refresh_path)) ((==_iff r'.status 401).0 is_401'), fail),
        access,
        renewal,
        same ∙ omega arith,
      )
