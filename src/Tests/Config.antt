-- ===== src/Tests/Config.antt =====
-- The configuration of common/config for production and for development, and what is built on it in
-- infrastructure/redis and common/swagger.
use Prim.Native.String.{len}
use mib_server.Prelude.Int.{pos}
use mib_server.Prelude.{
  ◌&&◌, if◌then◌else◌, ℕ, ◌≡◌, ◌≤◌, ◌<◌, ◌↔◌, refl, String, str_eq, true, false, none, some, List,
  [], ◌∷◌, Result, ok, err, arith,
}
use mib_server.Config.Env.{
  NodeEnv, ParsedEnv, EnvConfig, TextRuntime, finite, not_finite, is_forbidden_secret_value,
}
use mib_server.Config.Schema.{
  RawValue, ZodError, build_env_config, validate_env_config, checked_config,
}
use mib_server.Config.Secrets.{IsGuarded, validate_env_config-IsGuarded}
use mib_server.Config.RedisOptions.{retry_strategy}
use mib_server.Config.Backoff.{wait_before, retry_strategy-bounds, retry_strategy-gives_up_iff}
use mib_server.Swagger.{
  GuardRuntime, DocRequest, Guard, next, basic_auth, internal_network, run_guards,
  apply_swagger_guards, credentials, is_private_or_loopback_ip, address_of,
}
use mib_server.Swagger.Guarded.{apply_swagger_guards-IsGuarded}

-- A runtime for these texts, which are all in lower case and without numbers.
abbrev js : TextRuntime
js = record {
  length = len;
  trim = λ s. s;
  to_lower = λ s. s;
  includes = str_eq;
  number = λ s. if str_eq s "2" then finite (pos 2) else not_finite;
}

abbrev nothing : ParsedEnv
nothing = record {
  node_env = none;
  port = none;
  database_url = none;
  jwt_secret = none;
  jwt_expires_in = none;
  auth_login_max_attempts = none;
  auth_login_window_seconds = none;
  auth_login_lock_after_failures = none;
  auth_login_lock_seconds = none;
  redis_host = none;
  redis_port = none;
  redis_username = none;
  redis_password = none;
  redis_db = none;
  redis_key_prefix = none;
  redis_connect_timeout_ms = none;
  redis_command_timeout_ms = none;
  redis_max_retries_per_request = none;
  redis_enable_ready_check = none;
  redis_retry_base_delay_ms = none;
  redis_retry_max_delay_ms = none;
  redis_retry_max_attempts = none;
  mysql_root_password = none;
  mysql_password = none;
  mysql_database = none;
  mysql_user = none;
  mysql_port = none;
  mysql_image = none;
  log_level = none;
  log_service_name = none;
  app_version = none;
  http_slow_request_ms = none;
  log_dir = none;
  page_visit_flush_cron = none;
  log_max_size = none;
  log_max_files = none;
  log_zip_archive = none;
  prisma_log_queries = none;
  swagger_path = none;
  swagger_enabled = none;
  swagger_host = none;
  swagger_basic_user = none;
  swagger_basic_password = none;
  swagger_internal_only = none;
  payment_webhook_secret = none;
}

abbrev production : ParsedEnv
production = record nothing {
  node_env = some NodeEnv.production;
  database_url = some "mysql://mib:secret@db:3306/mib";
  jwt_secret = some "0123456789abcdef0123456789abcdef";
  payment_webhook_secret = some "fedcba9876543210fedcba9876543210";
  redis_password = some "redis-0123456789";
  mysql_root_password = some "mysql-0123456789";
  swagger_enabled = some "1";
  swagger_basic_user = some "docs";
  swagger_basic_password = some "docs-secret-1";
}

abbrev parse_production : List (String × RawValue) → Result ZodError ParsedEnv
parse_production raw = ok production

abbrev config : EnvConfig
unfolding build_env_config
config = build_env_config js production

passes :
    validate_env_config js parse_production (("NODE_ENV", RawValue.text "production") ∷ []) none
    ≡ ok (config, some config)
unfolding validate_env_config build_env_config is_forbidden_secret_value
passes = refl

validate_env_config-IsGuarded_example : IsGuarded js config × (some config ≡ some config)
validate_env_config-IsGuarded_example =
    validate_env_config-IsGuarded js parse_production
      (("NODE_ENV", RawValue.text "production") ∷ []) none (some config) config tt passes

-- The default of development is refused in production.
dev_secret_refused :
    checked_config js (
      build_env_config js
        (record production { jwt_secret = some "dev_only_jwt_secret_change_me_32_chars" }))
    ≡ err "Insecure production environment variable: JWT_SECRET"
unfolding checked_config build_env_config is_forbidden_secret_value
dev_secret_refused = refl

-- "null" for the retries of a request takes the default.
null_retries :
    (build_env_config js (record production {
      redis_max_retries_per_request = some "null";
    })).redis_max_retries_per_request
    ≡ some (pos 3)
unfolding build_env_config
null_retries = refl

third_wait : wait_before js config 3 ≡ some 800
unfolding wait_before retry_strategy build_env_config
third_wait = refl

retry_strategy-bounds_example :
    (0 < 800)
    × (800 ≤ 5000)
    × ((following : ℕ) → wait_before js config 4 ≡ some following → 800 ≤ following)
unfolding config
retry_strategy-bounds_example =
    retry_strategy-bounds js config 3 800 (omega arith) (omega arith) third_wait

retry_strategy-gives_up_iff_example :
    (wait_before js (build_env_config js nothing) 6 ≡ none) ↔ ((false ≡ false) × (5 < 6))
retry_strategy-gives_up_iff_example = retry_strategy-gives_up_iff js nothing 6 refl

abbrev doc_js : GuardRuntime
doc_js = record {
  starts_with = λ s prefix. str_eq s "Basic abc" && str_eq prefix "Basic ";
  after_six = λ s. "abc";
  byte_length = len;
  trim = λ s. s;
  decode_base64 = λ s. "docs:docs-secret-1";
  split_colon = λ s. some ("docs", "docs-secret-1");
  without_mapped_prefix = λ s. s;
  is_172_private = λ s. false;
}

abbrev doc_request : DocRequest
doc_request = record {
  authorization = some "Basic abc";
  ip = some "127.0.0.1";
  remote_address = none;
}

config-IsGuarded : IsGuarded js config
config-IsGuarded =
    (validate_env_config-IsGuarded js parse_production
      (("NODE_ENV", RawValue.text "production") ∷ []) none (some config) config tt passes).0

abbrev doc_guards : List Guard
doc_guards = internal_network ∷ basic_auth "docs" "docs-secret-1" ∷ []

admitted : run_guards doc_js doc_guards doc_request ≡ next
unfolding run_guards
admitted = refl

apply_swagger_guards-IsGuarded_example :
    (guards : List Guard) × (apply_swagger_guards config ≡ ok guards)
    × (run_guards doc_js guards doc_request ≡ next
        → (header : String) × (user : String) × (pass : String) × (doc_request.authorization
            ≡ some header)
          × (config.swagger_basic_user ≡ some user)
          × (config.swagger_basic_password ≡ some pass)
          × (credentials doc_js (doc_js.decode_base64 (doc_js.after_six header)) ≡ (user, pass))
          × (config.swagger_internal_only ≡ true
              → is_private_or_loopback_ip doc_js (address_of doc_js doc_request) ≡ true))
unfolding config
apply_swagger_guards-IsGuarded_example =
    apply_swagger_guards-IsGuarded doc_js js config doc_request config-IsGuarded refl refl
