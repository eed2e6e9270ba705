-- ===== src/Access/Admission.antt =====
-- What the two guards let in, and what a login is good for (apps/api/src/guards.ts,
-- apps/api/src/auth.service.ts).
use mark_solutions.Base.{
  ◌≡◌, refl, sym, inl, inr, Bool, true, false, ◌&&◌, ◌||◌, not, Option, none, some, List, ◌++◌,
  arith, if◌then◌else◌, Bool-cases, Option-cases, find, is_some, drop, Text, text_eq, starts_with,
}
use mark_solutions.Access.{
  JwtClaims, User, Endpoint, Caller, Gate, admitted, forbidden, shares_role, is_operator, mfa_roles,
  claims_of, caller_of, has_no_roles, bearer, roles_guard, then_roles, take_claims, issue, login,
  tenant_guard, can_activate,
}

abbrev is_admitted : {A : Type 0} → Gate A → Bool
is_admitted (admitted a) = true
is_admitted _ = false

-- What the guards know of a request that they have let in, besides the caller.
abbrev pub Known : Bool → Endpoint → Option JwtClaims → Option Caller → Type 0
Known mfa_enabled e claims caller =
    (c : JwtClaims) × (claims ≡ some c)
    × (caller ≡ some (caller_of c))
    × ((is_some c.tenant_id || is_operator c.roles) ≡ true)
    × (shares_role c.roles e.roles ≡ true)
    × ((mfa_enabled && not c.mfa_completed) ≡ false)

admitted-injective : {A : Type 0} {a b : A} → admitted a ≡ admitted b → a ≡ b
admitted-injective h = cc h

roles_guard-admitted :
    (mfa_enabled : Bool) (e : Endpoint) (c : JwtClaims) (caller : Option Caller)
    → has_no_roles e ≡ false
    → (is_some c.tenant_id || is_operator c.roles) ≡ true
    → roles_guard mfa_enabled e (some (caller_of c)) ≡ admitted caller
    → Known mfa_enabled e (some c) caller
unfolding roles_guard
roles_guard-admitted mfa_enabled e c caller roles scope h =
    elim (Bool-cases (shares_role c.roles e.roles)) [
      | inl shares ↦ elim (Bool-cases (mfa_enabled && not c.mfa_completed)) [
        | inl lacks ↦ absurd (cc (rw (roles, shares, lacks) at h))
        | inr fine ↦
            let same = admitted-injective (rw (roles, shares, fine) at h) in
            (c, refl, sym same, scope, shares, fine)
      ]
      | inr shares ↦ absurd (cc (rw (roles, shares) at h))
    ]

scope_of :
    (c : JwtClaims)
    → (not (is_some c.tenant_id) && not (is_operator c.roles)) ≡ false
    → (is_some c.tenant_id || is_operator c.roles) ≡ true
scope_of c h = ground arith

take_claims-admitted :
    (mfa_enabled : Bool) (e : Endpoint) (claims : Option JwtClaims) (caller : Option Caller)
    → has_no_roles e ≡ false
    → then_roles mfa_enabled e (take_claims claims) ≡ admitted caller
    → Known mfa_enabled e claims caller
unfolding then_roles
take_claims-admitted mfa_enabled e none caller roles h = absurd (cc h)
take_claims-admitted mfa_enabled e (some c) caller roles h =
    elim (Bool-cases (not (is_some c.tenant_id) && not (is_operator c.roles))) [
      | inl lacks ↦ absurd (cc (rw lacks at h))
      | inr fine ↦
          roles_guard-admitted mfa_enabled e c caller roles (scope_of c fine) (rw fine at h)
    ]

-- A request that both guards let in, to an endpoint that is not public and asks for roles, carries a
-- token that verifies; the caller is what the token says, with its tenant and no other; the token has a
-- tenant or is the operator's; it has one of the roles; and where a second factor is demanded, the
-- token has it.
pub can_activate-Known :
    (sha256 : Text → Text) (sign : JwtClaims → Text) (verify : Text → Option JwtClaims)
    (mfa_enabled : Bool) (e : Endpoint) (header : Option Text) (caller : Option Caller)
    → e.is_public ≡ false
    → has_no_roles e ≡ false
    → can_activate sha256 sign verify mfa_enabled e header ≡ admitted caller
    → (token : Text) × (header ≡ some token)
      × (starts_with bearer token ≡ true)
      × Known mfa_enabled e (verify (drop 7 token)) caller
unfolding can_activate tenant_guard then_roles
can_activate-Known sha256 sign verify mfa_enabled e none caller closed roles h =
    absurd (cc (rw closed at h))
can_activate-Known sha256 sign verify mfa_enabled e (some token) caller closed roles h =
    elim (Bool-cases (starts_with bearer token)) [
      | inl fits ↦ (
        token,
        refl,
        fits,
        take_claims-admitted mfa_enabled e (verify (drop 7 token)) caller roles
            (rw (closed, fits) at h),
      )
      | inr other ↦ absurd (cc (rw (closed, other) at h))
    ]

issue-some :
    (sha256 : Text → Text) (sign : JwtClaims → Text) (verify : Text → Option JwtClaims)
    (mfa_enabled : Bool) (password : Text) (user : User) (token : Text)
    → issue sha256 sign verify mfa_enabled password user ≡ some token
    → (text_eq user.password_hash (sha256 password) ≡ true)
      × ((not (is_some user.tenant_id) && not (is_operator user.roles)) ≡ false)
      × (sign (claims_of mfa_enabled user) ≡ token)
issue-some sha256 sign verify mfa_enabled password user token h =
    elim (Bool-cases (text_eq user.password_hash (sha256 password))) [
      | inl right ↦
          elim (Bool-cases (not (is_some user.tenant_id) && not (is_operator user.roles))) [
            | inl lacks ↦ absurd (cc (rw (right, lacks) at h))
            | inr fine ↦
                let same : some (sign (claims_of mfa_enabled user)) ≡ some token =
                  rw (right, fine) at h in
                (right, fine, cc same)
          ]
      | inr wrong ↦ absurd (cc (rw wrong at h))
    ]

drop-bearer : (token : Text) → drop 7 (bearer ++ token) ≡ token
drop-bearer token = refl

starts_with-bearer : (token : Text) → starts_with bearer (bearer ++ token) ≡ true
starts_with-bearer token = refl

-- What a session of a user may call.
abbrev pub may_call : Bool → Endpoint → User → Bool
may_call mfa_enabled e user =
    has_no_roles e
    || (shares_role user.roles e.roles && not (mfa_enabled && shares_role user.roles mfa_roles))

-- One test in place of three.
tests_in_turn :
    {A : Type 0} (x y : A) (a b m r : Bool)
    → (if a then x else if not b then y else if m && not (not (m && r)) then y else x)
      ≡ (if a || (b && not (m && r)) then x else y)
tests_in_turn x y true b m r = refl
tests_in_turn x y false false m r = refl
tests_in_turn x y false true true true = refl
tests_in_turn x y false true true false = refl
tests_in_turn x y false true false r = refl

roles_guard-session :
    (mfa_enabled : Bool) (e : Endpoint) (user : User)
    → roles_guard mfa_enabled e (some (caller_of (claims_of mfa_enabled user))) ≡ (
        if may_call mfa_enabled e user
        then admitted (some (caller_of (claims_of mfa_enabled user)))
        else forbidden)
unfolding roles_guard
roles_guard-session mfa_enabled e user =
    tests_in_turn (admitted (some (caller_of (claims_of mfa_enabled user)))) forbidden
      (has_no_roles e) (shares_role user.roles e.roles) mfa_enabled
      (shares_role user.roles mfa_roles)

-- The result of a login with a user that was found.
Session :
    (sha256 : Text → Text)
    → (sign : JwtClaims → Text) → (verify : Text → Option JwtClaims) → Bool
    → Endpoint
    → Text
    → Text
    → User
    → Type 0
Session sha256 sign verify mfa_enabled e password token user =
    (text_eq user.password_hash (sha256 password) ≡ true)
    × (can_activate sha256 sign verify mfa_enabled e (some (bearer ++ token)) ≡ (
        if may_call mfa_enabled e user
        then admitted (some (caller_of (claims_of mfa_enabled user)))
        else forbidden))

issue-Session :
    (sha256 : Text → Text) (sign : JwtClaims → Text) (verify : Text → Option JwtClaims)
    (mfa_enabled : Bool) (e : Endpoint) (password token : Text) (user : User)
    → ((c : JwtClaims) → verify (sign c) ≡ some c)
    → e.is_public ≡ false
    → issue sha256 sign verify mfa_enabled password user ≡ some token
    → Session sha256 sign verify mfa_enabled e password token user
unfolding Session can_activate tenant_guard then_roles
issue-Session sha256 sign verify mfa_enabled e password token user signed closed h =
    let (right, fine, same) = issue-some sha256 sign verify mfa_enabled password user token h in
    (
      right,
      rw (← same, closed, signed (claims_of mfa_enabled user), fine)
          (roles_guard-session mfa_enabled e user),
    )

-- A login that gives a token found the user by the name, with the digest of the password; and a request
-- with that token, to an endpoint that is not public, is let in as that user, with the user's tenant and
-- roles, exactly when the endpoint asks for no role, or when the user has one of the roles asked for and
-- no second factor is demanded of the user. It is refused with 403 otherwise. An endpoint that asks for
-- no role lets in also those of whom a second factor is demanded. The signature of a token is taken to
-- verify.
pub can_activate-login :
    (sha256 : Text → Text) (sign : JwtClaims → Text) (verify : Text → Option JwtClaims)
    (mfa_enabled : Bool) (e : Endpoint) (users : List User) (name password token : Text)
    → ((c : JwtClaims) → verify (sign c) ≡ some c)
    → e.is_public ≡ false
    → login sha256 sign verify mfa_enabled users name password ≡ some token
    → (user : User) × (find (λ (u : User). text_eq u.login name) users ≡ some user)
      × (text_eq user.password_hash (sha256 password) ≡ true)
      × (can_activate sha256 sign verify mfa_enabled e (some (bearer ++ token)) ≡ (
          if may_call mfa_enabled e user
          then admitted (some (caller_of (claims_of mfa_enabled user)))
          else forbidden))
unfolding login Session
can_activate-login sha256 sign verify mfa_enabled e users name password token signed closed h =
    elim (Option-cases (find (λ (u : User). text_eq u.login name) users)) [
      | inl missing ↦ absurd (cc (rw (login, missing) at h))
      | inr (user, found) ↦
          let issued : issue sha256 sign verify mfa_enabled password user ≡ some token =
            rw (login, found) at h in
          let (right, access) =
            issue-Session sha256 sign verify mfa_enabled e password token user signed closed
              issued in
          (user, found, right, access)
    ]
