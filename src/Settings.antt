-- ===== src/Settings.antt =====
-- The configuration of the server (apps/api/src/config-validation.ts), and the choice of the adapter to
-- the marking system that it leads to (`createMptAdapter`, apps/api/src/http-mpt.adapter.ts). An
-- environment gives a variable its text, if it is set.
pub mod Fitness
use mark_solutions.Base.{
  ℕ, ◌≡◌, Bool, true, false, ◌&&◌, ◌||◌, not, Option, none, some, List, [], ◌∷◌, ◌++◌,
  if◌then◌else◌, ltb, length, Text, text, text_eq, is_empty, trim, starts_with,
}

abbrev pub Env : Type 0
Env = Text → Option Text

-- The messages, without their texts.
pub data ConfigError : Type 0 where
  demo_secret short_secret : ConfigError
  mock_adapter : Text → ConfigError
  file_kms local_storage no_database other_database no_base_url no_login no_password no_minio :
      ConfigError

abbrev pub is : Option Text → Text → Bool
is none t = false
is (some s) t = text_eq s t

-- `env.NAME ?? d`
abbrev pub env_or : Option Text → Text → Text
env_or none d = d
env_or (some s) d = s

unfoldable pub blank : Option Text → Bool
unfolding trim
blank none = true
blank (some s) = is_empty (trim s)

abbrev pub is_short : Option Text → Bool
is_short none = true
is_short (some s) = ltb (length s) 20

abbrev pub error_if : Bool → ConfigError → List ConfigError
error_if b e = if b then e ∷ [] else []

abbrev pub is_postgres : Option Text → Bool
is_postgres none = false
is_postgres (some s) = starts_with (text "postgresql://") s || starts_with (text "postgres://") s

unfoldable pub check_secret : Option Text → List ConfigError
check_secret jwt =
    if is jwt (text "dev-secret")
    then demo_secret ∷ []
    else error_if (blank jwt || is_short jwt) short_secret

abbrev pub adapter_names : List Text
adapter_names =
    text "ADAPTERS_MPT" ∷ text "ADAPTERS_GS1" ∷ text "ADAPTERS_NKT" ∷ text "ADAPTERS_1ECOM" ∷ []

abbrev pub is_mock : Option Text → Bool
is_mock v = blank v || is v (text "mock")

abbrev pub check_adapters : Env → List Text → List ConfigError
check_adapters env [] = []
check_adapters env (name ∷ names) =
    error_if (is_mock (env name)) (mock_adapter name) ++ check_adapters env names

unfoldable pub check_database : Option Text → List ConfigError
check_database url =
    if blank url then no_database ∷ [] else error_if (not (is_postgres url)) other_database

-- `buildConfigChecks`
unfoldable pub build_config_checks : Env → List ConfigError
unfolding check_secret check_database
build_config_checks env =
    check_secret (env (text "JWT_SECRET"))
    ++ check_adapters env adapter_names
    ++ error_if (blank (env (text "KMS_PROFILE")) || is (env (text "KMS_PROFILE")) (text "file"))
        file_kms
    ++ error_if (not (blank (env (text "STORAGE_DIR")))) local_storage
    ++ check_database (env (text "DATABASE_URL"))
    ++ error_if (blank (env (text "MPT_BASE_URL"))) no_base_url
    ++ error_if (blank (env (text "MPT_LOGIN"))) no_login
    ++ error_if (blank (env (text "MPT_PASSWORD"))) no_password
    ++ error_if (blank (env (text "MINIO_ENDPOINT"))) no_minio

abbrev pub mode_of : Env → Text
mode_of env = env_or (env (text "NODE_ENV")) []

-- The modes that allow anything.
abbrev pub is_lenient : Text → Bool
is_lenient mode = text_eq mode (text "test") || text_eq mode (text "development") || text_eq mode []

-- `validateProductionConfig`: the errors that it throws, if there are any.
unfoldable pub validate_production_config : Env → List ConfigError
unfolding build_config_checks
validate_production_config env = if is_lenient (mode_of env) then [] else build_config_checks env

pub record AppConfig : Type 0 where
  pub mode : Text
  pub is_production : Bool
  pub db_url : Text
  pub jwt_secret : Text
  pub jwt_expires_in : Text
  pub kms_profile : Text
  pub file_dir : Text
  pub openbao_addr : Text
  pub openbao_token : Text
  pub storage_local : Bool
  pub storage_dir : Text
  pub minio_endpoint : Text
  pub minio_access_key : Text
  pub minio_secret_key : Text
  pub minio_bucket : Text
  pub mpt_adapter : Text
  pub gs1_adapter : Text
  pub nkt_adapter : Text
  pub ecom_adapter : Text
  pub mpt_base_url : Text
  pub mpt_login : Text
  pub mpt_password : Text
  pub product_group : Text
  pub business_place_id : Option Text

pub data Built : Type 0 where
  refused : List ConfigError → Built
  built : AppConfig → Built

unfoldable pub config_of : Env → AppConfig
config_of env = record {
  mode = mode_of env;
  is_production = text_eq (mode_of env) (text "production");
  db_url = env_or (env (text "DATABASE_URL")) [];
  jwt_secret = env_or (env (text "JWT_SECRET")) [];
  jwt_expires_in = env_or (env (text "JWT_EXPIRES_IN")) (text "1h");
  kms_profile = env_or (env (text "KMS_PROFILE")) (text "file");
  file_dir = env_or (env (text "KMS_FILE_DIR")) [];
  openbao_addr = env_or (env (text "KMS_OPENBAO_ADDR")) [];
  openbao_token = env_or (env (text "KMS_OPENBAO_TOKEN")) [];
  storage_local = not (blank (env (text "STORAGE_DIR")));
  storage_dir = env_or (env (text "STORAGE_DIR")) [];
  minio_endpoint = env_or (env (text "MINIO_ENDPOINT")) [];
  minio_access_key = env_or (env (text "MINIO_ACCESS_KEY")) [];
  minio_secret_key = env_or (env (text "MINIO_SECRET_KEY")) [];
  minio_bucket = env_or (env (text "MINIO_BUCKET")) [];
  mpt_adapter = env_or (env (text "ADAPTERS_MPT")) (text "mock");
  gs1_adapter = env_or (env (text "ADAPTERS_GS1")) (text "mock");
  nkt_adapter = env_or (env (text "ADAPTERS_NKT")) (text "mock");
  ecom_adapter = env_or (env (text "ADAPTERS_1ECOM")) (text "mock");
  mpt_base_url = env_or (env (text "MPT_BASE_URL")) [];
  mpt_login = env_or (env (text "MPT_LOGIN")) [];
  mpt_password = env_or (env (text "MPT_PASSWORD")) [];
  product_group = env_or (env (text "MPT_PRODUCT_GROUP")) (text "autofluids");
  business_place_id = env (text "MPT_BUSINESS_PLACE_ID");
}

abbrev pub settle : Env → List ConfigError → Built
settle env [] = built (config_of env)
settle env (e ∷ es) = refused (e ∷ es)

-- `buildAppConfig`, without the two limits of the transport that are parsed as numbers.
unfoldable pub build_app_config : Env → Built
unfolding validate_production_config
build_app_config env = settle env (validate_production_config env)

-- The adapter to the marking system: the real one, or the simulator.
pub data MptAdapter : Type 0 where
  http_mpt_adapter mock_mpt_adapter : MptAdapter

abbrev pub create_mpt_adapter : Env → MptAdapter
create_mpt_adapter env =
    if is (env (text "ADAPTERS_MPT")) (text "http") then http_mpt_adapter else mock_mpt_adapter
