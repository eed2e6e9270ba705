-- ===== src/Tests/Guarding.antt =====
-- The theorems on guards and configuration at work.
use mathlib.Core.List.{append-nil, append_assoc}
use mark_solutions.Base.{
  ℕ, zero, suc, ◌∙◌, ap, ◌≡◌, refl, Bool, true, false, Option, none, some, List, [], ◌∷◌, ◌++◌,
  drop, find, starts_with, text, text_eq, trim, trim_start, Text, if◌then◌else◌,
}
use mark_solutions.Access.{
  JwtClaims, User, Endpoint, admitted, forbidden, bearer, claims_of, caller_of, client_roles, login,
  tenant_guard, roles_guard, can_activate,
}
use mark_solutions.Access.Admission.{Known, may_call, can_activate-Known, can_activate-login}
use mark_solutions.Settings.{
  Env, config_of, build_app_config, validate_production_config, build_config_checks, check_secret,
  check_database, blank, create_mpt_adapter, mock_mpt_adapter,
}
use mark_solutions.Settings.Fitness.{IsFit, build_app_config-IsFit}

abbrev keeper : User
keeper = record {
  id = 4;
  login = text "anna";
  password_hash = text "secret";
  roles = text "marking" ∷ [];
  tenant_id = some 7;
}

abbrev endpoint : Endpoint
endpoint = record { is_public = false; roles = client_roles }

-- A token that spells the claims out.
abbrev spell : Text → Text → Text
spell [] s = 0 ∷ s
spell (c ∷ r) s = suc c ∷ spell r s

abbrev spell_roles : List Text → Text
spell_roles [] = []
spell_roles (r ∷ rs) = spell r (spell_roles rs)

abbrev read_roles : Text → Text → List Text
read_roles w [] = []
read_roles w (zero ∷ s) = w ∷ read_roles [] s
read_roles w (suc c ∷ s) = read_roles (w ++ (c ∷ [])) s

read_roles-spell : (w r s : Text) → read_roles w (spell r s) ≡ (w ++ r) ∷ read_roles [] s
read_roles-spell w [] s = rw (append-nil w) refl
read_roles-spell w (c ∷ r) s =
    read_roles-spell (w ++ (c ∷ [])) r s ∙ ap (λ t. t ∷ read_roles [] s) (append_assoc w (c ∷ []) r)

read_roles-spell_roles : (rs : List Text) → read_roles [] (spell_roles rs) ≡ rs
read_roles-spell_roles [] = refl
read_roles-spell_roles (r ∷ rs) =
    read_roles-spell [] r (spell_roles rs) ∙ ap (◌∷◌ r) (read_roles-spell_roles rs)

abbrev spell_tenant : Option ℕ → ℕ
spell_tenant none = 0
spell_tenant (some t) = suc t

abbrev read_tenant : ℕ → Option ℕ
read_tenant zero = none
read_tenant (suc t) = some t

abbrev read_flag : ℕ → Bool
read_flag zero = false
read_flag (suc n) = true

abbrev sign : JwtClaims → Text
sign c = c.sub ∷ spell_tenant c.tenant_id ∷ (if c.mfa_completed then 1 else 0) ∷ spell_roles c.roles

abbrev verify : Text → Option JwtClaims
verify (a ∷ b ∷ m ∷ s) = some (record {
  sub = a;
  tenant_id = read_tenant b;
  roles = read_roles [] s;
  mfa_completed = read_flag m;
})
verify _ = none

read_tenant-spell_tenant : (t : Option ℕ) → read_tenant (spell_tenant t) ≡ t
read_tenant-spell_tenant none = refl
read_tenant-spell_tenant (some t) = refl

read_flag_lem : (b : Bool) → read_flag (if b then 1 else 0) ≡ b
read_flag_lem true = refl
read_flag_lem false = refl

verify-sign : (c : JwtClaims) → verify (sign c) ≡ some c
verify-sign c =
    rw
      (
        read_tenant-spell_tenant c.tenant_id,
        read_roles-spell_roles c.roles,
        read_flag_lem c.mfa_completed,
      )
      refl

abbrev session : Text
session = sign (claims_of true keeper)

can_activate-Known_example :
    (token : Text) × (some (bearer ++ sign (claims_of false keeper)) ≡ some token)
    × (starts_with bearer token ≡ true)
    × Known false endpoint (verify (drop 7 token)) (some (caller_of (claims_of false keeper)))
unfolding can_activate tenant_guard roles_guard
can_activate-Known_example =
    can_activate-Known (λ p. p) sign verify false endpoint
      (some (bearer ++ sign (claims_of false keeper))) (some (caller_of (claims_of false keeper)))
      refl refl refl

-- With the second factor on, the session of a keeper is of no use.
can_activate-login_example :
    (user : User) × (find (λ (u : User). text_eq u.login (text "anna")) (keeper ∷ []) ≡ some user)
    × (text_eq user.password_hash (text "secret") ≡ true)
    × (can_activate (λ p. p) sign verify true endpoint (some (bearer ++ session)) ≡ (
        if may_call true endpoint user
        then admitted (some (caller_of (claims_of true user)))
        else forbidden))
unfolding login
can_activate-login_example =
    can_activate-login (λ p. p) sign verify true endpoint (keeper ∷ []) (text "anna")
      (text "secret") session verify-sign refl refl

abbrev pick : List (Text × Text) → Env
pick [] name = none
pick ((k, v) ∷ vars) name = let rest = pick vars name in if text_eq k name then some v else rest

abbrev stage : Env
stage = pick (
    (text "NODE_ENV", text "stage")
    ∷ (text "JWT_SECRET", text "0123456789abcdefghij")
    ∷ (text "ADAPTERS_MPT", text "Http")
    ∷ (text "ADAPTERS_GS1", text "http")
    ∷ (text "ADAPTERS_NKT", text "http")
    ∷ (text "ADAPTERS_1ECOM", text "http")
    ∷ (text "KMS_PROFILE", text "openbao")
    ∷ (text "DATABASE_URL", text "postgres://db")
    ∷ (text "MPT_BASE_URL", text "https://mpt")
    ∷ (text "MPT_LOGIN", text "l")
    ∷ (text "MPT_PASSWORD", text "p")
    ∷ (text "MINIO_ENDPOINT", text "https://s3")
    ∷ [])

build_app_config-IsFit_example : IsFit (config_of stage)
unfolding build_app_config validate_production_config build_config_checks check_secret
    check_database blank trim trim_start
build_app_config-IsFit_example = build_app_config-IsFit stage (config_of stage) refl refl

-- A value that is not "mock" passes, and still chooses the simulator.
simulator_chosen : create_mpt_adapter stage ≡ mock_mpt_adapter
simulator_chosen = refl
