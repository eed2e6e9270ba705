-- ===== src/Settings/Fitness.antt =====
-- What a configuration that passes the checks is like (apps/api/src/config-validation.ts).
use mathlib.Core.Path.{subst}
use mark_solutions.Base.{
  ◌≤◌, ◌≡◌, refl, sym, inl, inr, Bool, true, false, ◌||◌, not, Option, none, some, List, [], ◌∷◌,
  ◌++◌, arith, Bool-cases, ltb, length, Text, text, text_eq,
}
use mark_solutions.Settings.{
  Env, ConfigError, short_secret, mock_adapter, other_database, no_minio, is, env_or, blank,
  error_if, is_postgres, check_secret, is_mock, check_adapters, check_database, build_config_checks,
  mode_of, is_lenient, validate_production_config, AppConfig, built, settle, adapter_names,
  config_of, build_app_config,
}

append-nil_left : {A : Type 0} (xs ys : List A) → xs ++ ys ≡ [] → xs ≡ []
append-nil_left [] ys h = refl
append-nil_left (x ∷ xs) ys h = absurd (cc h)

append-nil_right : {A : Type 0} (xs ys : List A) → xs ++ ys ≡ [] → ys ≡ []
append-nil_right [] ys h = h
append-nil_right (x ∷ xs) ys h = absurd (cc h)

error_if-nil : (b : Bool) (e : ConfigError) → error_if b e ≡ [] → b ≡ false
error_if-nil true e h = absurd (cc h)
error_if-nil false e h = refl

error_if-last :
    (b : Bool) (e : ConfigError) (es : List ConfigError)
    → es ++ error_if b e ≡ []
    → (es ≡ []) × (b ≡ false)
error_if-last b e es h =
    (append-nil_left es (error_if b e) h, error_if-nil b e (append-nil_right es (error_if b e) h))

-- A text that the checks take as the secret of the tokens.
abbrev pub IsSecret : Text → Type 0
IsSecret s = (text_eq s (text "dev-secret") ≡ false) × (20 ≤ length s)

short_lem : (s : Text) → ltb (length s) 20 ≡ false → 20 ≤ length s
short_lem s h = ground arith

not-false : (b : Bool) → not b ≡ false → b ≡ true
not-false b h = ground arith

or_right : (a b : Bool) → (a || b) ≡ false → b ≡ false
or_right a b h = ground arith

check_secret-nil : (jwt : Option Text) → check_secret jwt ≡ [] → IsSecret (env_or jwt [])
unfolding check_secret blank
check_secret-nil none h = absurd (cc h)
check_secret-nil (some s) h = elim (Bool-cases (text_eq s (text "dev-secret"))) [
  | inl demo ↦ absurd (cc (rw demo at h))
  | inr other ↦
      let rest : error_if (blank (some s) || ltb (length s) 20) short_secret ≡ [] = rw other at h in
      (other, short_lem s (or_right (blank (some s)) (ltb (length s) 20) (error_if-nil _ _ rest)))
]

-- A variable that is set, and not to the value that is refused.
not_default :
    (v : Option Text) (d : Text) → (blank v || is v d) ≡ false → text_eq (env_or v d) d ≡ false
unfolding blank
not_default none d h = absurd (cc h)
not_default (some s) d h = or_right (blank (some s)) (text_eq s d) h

blank-env_or : (v : Option Text) → blank v ≡ false → blank (some (env_or v [])) ≡ false
unfolding blank
blank-env_or none h = absurd (cc h)
blank-env_or (some s) h = h

check_database-nil :
    (v : Option Text) → check_database v ≡ [] → is_postgres (some (env_or v [])) ≡ true
unfolding check_database blank
check_database-nil none h = absurd (cc h)
check_database-nil (some s) h = elim (Bool-cases (blank (some s))) [
  | inl empty ↦ absurd (cc (rw empty at h))
  | inr full ↦
      let rest : error_if (not (is_postgres (some s))) other_database ≡ [] = rw full at h in
      not-false (is_postgres (some s)) (error_if-nil _ _ rest)
]

-- The value of an adapter is not the simulator's.
abbrev pub IsReal : Text → Type 0
IsReal adapter = text_eq adapter (text "mock") ≡ false

check_adapters-head :
    (env : Env) (name : Text) (names : List Text)
    → check_adapters env (name ∷ names) ≡ []
    → IsReal (env_or (env name) (text "mock")) × (check_adapters env names ≡ [])
check_adapters-head env name names h =
    let first = error_if (is_mock (env name)) (mock_adapter name) in
    (
      not_default (env name) (text "mock")
          (error_if-nil _ _ (append-nil_left first (check_adapters env names) h)),
      append-nil_right first (check_adapters env names) h,
    )

-- A configuration without anything that is for a demonstration only.
pub record IsFit (c : AppConfig) : Type 0 where
  pub secret : IsSecret c.jwt_secret
  pub mpt : IsReal c.mpt_adapter
  pub gs1 : IsReal c.gs1_adapter
  pub nkt : IsReal c.nkt_adapter
  pub ecom : IsReal c.ecom_adapter
  pub kms : text_eq c.kms_profile (text "file") ≡ false
  pub storage : c.storage_local ≡ false
  pub database : is_postgres (some c.db_url) ≡ true
  pub base_url : blank (some c.mpt_base_url) ≡ false
  pub login : blank (some c.mpt_login) ≡ false
  pub password : blank (some c.mpt_password) ≡ false
  pub minio : blank (some c.minio_endpoint) ≡ false

build_config_checks-IsFit : (env : Env) → build_config_checks env ≡ [] → IsFit (config_of env)
unfolding build_config_checks config_of
build_config_checks-IsFit env h =
    let minio = append-nil_right _ (error_if (blank (env (text "MINIO_ENDPOINT"))) no_minio) h in
    let to_password =
      append-nil_left _ (error_if (blank (env (text "MINIO_ENDPOINT"))) no_minio) h in
    let (to_login, password) = error_if-last _ _ _ to_password in
    let (to_base_url, login) = error_if-last _ _ _ to_login in
    let (to_database, base_url) = error_if-last _ _ _ to_base_url in
    let database = append-nil_right _ (check_database (env (text "DATABASE_URL"))) to_database in
    let to_storage = append-nil_left _ (check_database (env (text "DATABASE_URL"))) to_database in
    let (to_kms, storage) = error_if-last _ _ _ to_storage in
    let (to_adapters, kms) = error_if-last _ _ _ to_kms in
    let adapters : check_adapters env adapter_names ≡ [] =
      append-nil_right (check_secret (env (text "JWT_SECRET"))) _ to_adapters in
    let secret : check_secret (env (text "JWT_SECRET")) ≡ [] =
      append-nil_left _ (check_adapters env adapter_names) to_adapters in
    let gs1_on = text "ADAPTERS_GS1" ∷ text "ADAPTERS_NKT" ∷ text "ADAPTERS_1ECOM" ∷ [] in
    let nkt_on = text "ADAPTERS_NKT" ∷ text "ADAPTERS_1ECOM" ∷ [] in
    let ecom_on = text "ADAPTERS_1ECOM" ∷ [] in
    let (mpt, after_mpt) = check_adapters-head env (text "ADAPTERS_MPT") gs1_on adapters in
    let (gs1, after_gs1) = check_adapters-head env (text "ADAPTERS_GS1") nkt_on after_mpt in
    let (nkt, after_nkt) = check_adapters-head env (text "ADAPTERS_NKT") ecom_on after_gs1 in
    let (ecom, _) = check_adapters-head env (text "ADAPTERS_1ECOM") [] after_nkt in
    record {
      secret = check_secret-nil (env (text "JWT_SECRET")) secret;
      mpt = mpt;
      gs1 = gs1;
      nkt = nkt;
      ecom = ecom;
      kms = not_default (env (text "KMS_PROFILE")) (text "file") kms;
      storage = storage;
      database = check_database-nil (env (text "DATABASE_URL")) database;
      base_url = blank-env_or (env (text "MPT_BASE_URL")) base_url;
      login = blank-env_or (env (text "MPT_LOGIN")) login;
      password = blank-env_or (env (text "MPT_PASSWORD")) password;
      minio = blank-env_or (env (text "MINIO_ENDPOINT")) (error_if-nil _ _ minio);
    }

build-IsFit :
    (env : Env) (errors : List ConfigError) (c : AppConfig)
    → errors ≡ build_config_checks env
    → settle env errors ≡ built c
    → IsFit c
build-IsFit env [] c same h =
    let e : config_of env ≡ c = cc h in subst IsFit e (build_config_checks-IsFit env (sym same))
build-IsFit env (e ∷ es) c same h = absurd (cc h)

-- A configuration that is built in any mode but the lenient ones (test, development, none) is fit for
-- production: its token secret is 20 characters long and not the demonstration's, no adapter is the
-- simulator's by name, keys are not in a file and files not on a local disk, the database is
-- PostgreSQL, and the access to the marking system and to the object storage is filled in.
pub build_app_config-IsFit :
    (env : Env) (c : AppConfig)
    → is_lenient (mode_of env) ≡ false
    → build_app_config env ≡ built c
    → IsFit c
unfolding build_app_config validate_production_config
build_app_config-IsFit env c strict h =
    build-IsFit env (build_config_checks env) c refl (rw strict at h)
