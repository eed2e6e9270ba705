-- ===== src/Access.antt =====
-- Who may call what: the login (apps/api/src/auth.service.ts) and the two guards that every request
-- passes, in this order (apps/api/src/guards.ts). The digest of passwords and the signing of tokens are
-- arguments.
pub mod Admission
use mark_solutions.Base.{
  ℕ, ◌≡◌, Bool, true, false, ◌&&◌, ◌||◌, not, Option, none, some, List, [], ◌∷◌, ◌++◌,
  if◌then◌else◌, find, any, is_some, drop, Text, text, text_eq, starts_with,
}

pub record JwtClaims : Type 0 where
  pub sub : ℕ
  pub tenant_id : Option ℕ
  pub roles : List Text
  pub mfa_completed : Bool

pub record User : Type 0 where
  pub id : ℕ
  pub login : Text
  pub password_hash : Text
  pub roles : List Text
  pub tenant_id : Option ℕ

-- What an endpoint asks for: whether it is public, and one of which roles.
pub record Endpoint : Type 0 where
  pub is_public : Bool
  pub roles : List Text

-- What the first guard writes into the request.
pub record Caller : Type 0 where
  pub tenant_id : Option ℕ
  pub roles : List Text
  pub mfa_completed : Bool
  pub actor : ℕ

pub data Gate {ℓ} (A : Type ℓ) : Type ℓ where
  admitted : A → Gate A
  unauthorized : Gate A  -- 401
  forbidden : Gate A  -- 403

-- `rs.includes(r)`
abbrev pub includes : List Text → Text → Bool
includes rs r = any (λ x. text_eq x r) rs

abbrev pub shares_role : List Text → List Text → Bool
shares_role mine wanted = any (includes wanted) mine

-- `CLIENT_ROLES`
abbrev pub client_roles : List Text
client_roles =
    text "admin"
    ∷ text "manager"
    ∷ text "accountant"
    ∷ text "marking"
    ∷ text "warehouse"
    ∷ text "viewer"
    ∷ []

abbrev pub is_operator : List Text → Bool
is_operator roles = includes roles (text "operator")

-- The roles that need a second factor.
abbrev pub mfa_roles : List Text
mfa_roles = text "admin" ∷ text "accountant" ∷ text "operator" ∷ text "marking" ∷ []

abbrev pub claims_of : Bool → User → JwtClaims
claims_of mfa_enabled user = record {
  sub = user.id;
  tenant_id = user.tenant_id;
  roles = user.roles;
  mfa_completed = not (mfa_enabled && shares_role user.roles mfa_roles);
}

abbrev pub caller_of : JwtClaims → Caller
caller_of c = record {
  tenant_id = c.tenant_id;
  roles = c.roles;
  mfa_completed = c.mfa_completed;
  actor = c.sub;
}

abbrev pub has_no_roles : Endpoint → Bool
has_no_roles e = elim e.roles [ [] ↦ true | r ∷ rs ↦ false ]

abbrev pub bearer : Text
bearer = text "Bearer "

-- `RolesGuard`
unfoldable pub roles_guard : Bool → Endpoint → Option Caller → Gate (Option Caller)
roles_guard mfa_enabled e none = if has_no_roles e then admitted none else forbidden
roles_guard mfa_enabled e (some c) =
    if has_no_roles e
    then admitted (some c)
    else if not (shares_role c.roles e.roles)
    then forbidden
    else if mfa_enabled && not c.mfa_completed
    then forbidden
    else admitted (some c)

abbrev pub then_roles : Bool → Endpoint → Gate (Option Caller) → Gate (Option Caller)
unfolding roles_guard
then_roles mfa_enabled e (admitted c) = roles_guard mfa_enabled e c
then_roles mfa_enabled e unauthorized = unauthorized
then_roles mfa_enabled e forbidden = forbidden

-- A token that is verified needs a tenant, or the role of the operator.
abbrev pub take_claims : Option JwtClaims → Gate (Option Caller)
take_claims none = unauthorized
take_claims (some c) =
    if not (is_some c.tenant_id) && not (is_operator c.roles)
    then unauthorized
    else admitted (some (caller_of c))

module _ (sha256 : Text → Text) (sign : JwtClaims → Text) (verify : Text → Option JwtClaims) where
  abbrev pub issue : Bool → Text → User → Option Text
  issue mfa_enabled password user =
      if not (text_eq user.password_hash (sha256 password))
      then none
      else if not (is_some user.tenant_id) && not (is_operator user.roles)
      then none
      else some (sign (claims_of mfa_enabled user))

  -- `login`: a token, or 401.
  unfoldable pub login : Bool → List User → Text → Text → Option Text
  login mfa_enabled users name password = elim (find (λ (u : User). text_eq u.login name) users) [
    | none ↦ none
    | some user ↦ issue mfa_enabled password user
  ]

  abbrev pub read_header : Option Text → Gate (Option Caller)
  read_header none = unauthorized
  read_header (some h) =
      if starts_with bearer h then take_claims (verify (drop 7 h)) else unauthorized

  -- `TenantGuard`, on the header `authorization`
  unfoldable pub tenant_guard : Endpoint → Option Text → Gate (Option Caller)
  tenant_guard e header = if e.is_public then admitted none else read_header header

  -- Both guards
  unfoldable pub can_activate : Bool → Endpoint → Option Text → Gate (Option Caller)
  unfolding tenant_guard
  can_activate mfa_enabled e header = then_roles mfa_enabled e (tenant_guard e header)

-- `tenantOfOrThrow` of apps/api/src/dashboard.service.ts
abbrev pub tenant_of_or_throw : Option Caller → Gate ℕ
tenant_of_or_throw none = forbidden
tenant_of_or_throw (some c) = elim c.tenant_id [ none ↦ forbidden | some t ↦ admitted t ]
