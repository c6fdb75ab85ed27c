-- ===== src/Config/Schema.antt =====
-- common/config/env.schema.ts: from the raw environment to the configuration, its checks and the
-- cache. zod's `safeParse` is an argument; it answers a parsed environment or the issues it found.
use Prim.Native.String.{◌++◌ as ◌+++◌}
use mib_server.Prelude.Int.{ℤ, pos}
use mib_server.Prelude.{
  ◌>>=◌, ℕ, String, str_eq, Bool, true, false, not, ◌&&◌, ◌||◌, Option, none, some, List, [], ◌∷◌,
  ◌++◌, map, Result, ok, err, if◌then◌else◌, ltb, select_where,
}
use mib_server.Lessons.Memberships.{or_else}
use mib_server.Config.Env.{
  NodeEnv, ParsedEnv, EnvConfig, JsNumber, finite, not_finite, TextRuntime, is_production_env,
  is_forbidden_secret_value, dev_jwt_secret, dev_payment_webhook_secret, dev_database_url,
}

-- A value of the raw environment.
pub data RawValue : Type 0 where
  undefined null : RawValue
  text : String → RawValue
  number : ℤ → RawValue

-- `z.ZodError`: each issue has a path and a message
abbrev pub ZodError : Type 0
ZodError = List (List String × String)

abbrev pub join : String → List String → String
join separator [] = ""
join separator (first ∷ []) = first
join separator (first ∷ second ∷ rest) = first +++ separator +++ join separator (second ∷ rest)

-- `||` on texts
abbrev pub or_text : String → String → String
or_text a b = if str_eq a "" then b else a

-- `formatZodError`
unfoldable pub format_zod_error : ZodError → String
format_zod_error issues =
    join "; " (map (λ issue. or_text (join "." issue.0) "env" +++ ": " +++ issue.1) issues)

abbrev pub throw_errors : List String → Result String Unit
throw_errors [] = ok tt
throw_errors (e ∷ es) = err (join "; " (e ∷ es))

abbrev pub finite_or : JsNumber → Option ℤ → Option ℤ
finite_or (finite n) fallback = some n
finite_or not_finite fallback = fallback

-- The numbers of `PRODUCTION_MIN_LENGTHS` stand where they are read.
module _ (js : TextRuntime) where
  -- the guards of the loop in `normalizeRawEnv`
  unfoldable pub is_given : RawValue → Bool
  is_given RawValue.undefined = false
  is_given RawValue.null = false
  is_given (RawValue.text s) = not (str_eq (js.trim s) "")
  is_given (RawValue.number n) = true

  -- `normalizeRawEnv`
  unfoldable pub normalize_raw_env : List (String × RawValue) → List (String × RawValue)
  unfolding is_given
  normalize_raw_env raw = select_where (λ entry. is_given entry.1) raw

  -- `parseBoolFlag`
  unfoldable pub parse_bool_flag : Option String → Bool → Bool
  parse_bool_flag none fallback = fallback
  parse_bool_flag (some value) fallback =
      let s = js.to_lower value in
      if str_eq s "1" || str_eq s "true"
      then true
      else if str_eq s "0" || str_eq s "false"
      then false
      else fallback

  -- `parseSwaggerEnabled`
  unfoldable pub parse_swagger_enabled : Option String → NodeEnv → Bool
  unfolding parse_bool_flag
  parse_swagger_enabled none node_env = not (is_production_env node_env)
  parse_swagger_enabled (some value) node_env =
      parse_bool_flag (some value) (not (is_production_env node_env))

  -- `isInsecureSecret`
  unfoldable pub is_insecure_secret : String → ℕ → Bool
  is_insecure_secret value min_length =
      ltb (js.length value) min_length || is_forbidden_secret_value value

  -- What is pushed for a value that is absent or empty, and for one that is not.
  unfoldable pub assert_production_secret :
      List String → String → Option String → ℕ → Bool → List String
  unfolding is_insecure_secret
  assert_production_secret errors name none min_length required =
      if required
      then errors ++ (("Missing required environment variable: " +++ name) ∷ [])
      else errors
  assert_production_secret errors name (some value) min_length required =
      if str_eq value ""
      then (if required
          then errors ++ (("Missing required environment variable: " +++ name) ∷ [])
          else errors)
      else if is_insecure_secret value min_length
      then errors ++ (("Insecure production environment variable: " +++ name) ∷ [])
      else errors

  -- `assertDatabaseUrl`; the pattern is tested on the text in lower case
  unfoldable pub assert_database_url : List String → String → List String
  unfolding is_insecure_secret
  assert_database_url errors url =
      if str_eq url ""
      then errors ++ ("Missing required environment variable: DATABASE_URL" ∷ [])
      else if is_insecure_secret url 12
      then errors ++ ("Insecure production environment variable: DATABASE_URL" ∷ [])
      else if js.includes (js.to_lower url) ":password@"
      then errors
        ++ ("Insecure production environment variable: DATABASE_URL (contains default password)"
            ∷ [])
      else errors

  -- The checks of `validateProductionSecrets` that do not depend on Swagger.
  unfoldable pub secret_errors : EnvConfig → List String
  unfolding assert_production_secret assert_database_url
  secret_errors config =
      let jwt = assert_production_secret [] "JWT_SECRET" (some config.jwt_secret) 32 true in
      let payment =
        assert_production_secret jwt "PAYMENT_WEBHOOK_SECRET" (some config.payment_webhook_secret)
          32 true in
      let database = assert_database_url payment config.database_url in
      let redis =
        assert_production_secret database "REDIS_PASSWORD" config.redis_password 16 true in
      let root =
        assert_production_secret redis "MYSQL_ROOT_PASSWORD" config.mysql_root_password 16 true in
      assert_production_secret root "MYSQL_PASSWORD" config.mysql_password 16 false

  unfoldable pub swagger_errors : EnvConfig → List String → List String
  unfolding assert_production_secret
  swagger_errors config errors =
      if config.swagger_enabled
      then assert_production_secret
          (assert_production_secret errors "SWAGGER_BASIC_USER" config.swagger_basic_user 1 true)
          "SWAGGER_BASIC_PASSWORD" config.swagger_basic_password 12 true
      else errors

  -- `validateProductionSecrets`
  unfoldable pub validate_production_secrets : EnvConfig → Result String Unit
  unfolding secret_errors swagger_errors
  validate_production_secrets config = throw_errors (swagger_errors config (secret_errors config))

  -- `REDIS_MAX_RETRIES_PER_REQUEST`: `Number.isFinite(null)` is false, so "null" takes the default
  unfoldable pub redis_max_retries : Bool → Option String → Option ℤ
  redis_max_retries prod none = some (pos (if prod then 3 else 1))
  redis_max_retries prod (some raw) =
      let fallback : Option ℤ = some (pos (if prod then 3 else 1)) in
      if str_eq raw "null" || str_eq raw "" then fallback else finite_or (js.number raw) fallback

  -- `REDIS_RETRY_MAX_ATTEMPTS`
  unfoldable pub redis_retry_max_attempts : Bool → Option String → Option ℤ
  redis_retry_max_attempts prod none = if prod then none else some (pos 5)
  redis_retry_max_attempts prod (some raw) =
      if str_eq raw ""
      then (if prod then none else some (pos 5))
      else finite_or (js.number raw) none

  -- `buildEnvConfig`
  unfoldable pub build_env_config : ParsedEnv → EnvConfig
  unfolding parse_bool_flag parse_swagger_enabled redis_max_retries redis_retry_max_attempts
  build_env_config parsed =
      let node_env = or_else parsed.node_env NodeEnv.development in
      let prod = is_production_env node_env in
      let swagger = parse_swagger_enabled parsed.swagger_enabled node_env in
      record {
        node_env = node_env;
        port = or_else parsed.port 3000;
        database_url = or_else parsed.database_url (if prod then "" else dev_database_url);
        jwt_secret = or_else parsed.jwt_secret (if prod then "" else dev_jwt_secret);
        jwt_expires_in = or_else parsed.jwt_expires_in "7d";
        auth_login_max_attempts = or_else parsed.auth_login_max_attempts 10;
        auth_login_window_seconds = or_else parsed.auth_login_window_seconds 900;
        auth_login_lock_after_failures = or_else parsed.auth_login_lock_after_failures 5;
        auth_login_lock_seconds = or_else parsed.auth_login_lock_seconds 900;
        redis_host = or_else parsed.redis_host "127.0.0.1";
        redis_port = or_else parsed.redis_port 6379;
        redis_username = parsed.redis_username;
        redis_password = parsed.redis_password;
        redis_db = or_else parsed.redis_db 0;
        redis_key_prefix = or_else parsed.redis_key_prefix "mib";
        redis_connect_timeout_ms =
            or_else parsed.redis_connect_timeout_ms (if prod then 10000 else 3000);
        redis_command_timeout_ms =
            or_else parsed.redis_command_timeout_ms (if prod then 5000 else 2000);
        redis_max_retries_per_request = redis_max_retries prod parsed.redis_max_retries_per_request;
        redis_enable_ready_check = parse_bool_flag parsed.redis_enable_ready_check true;
        redis_retry_base_delay_ms =
            or_else parsed.redis_retry_base_delay_ms (if prod then 200 else 100);
        redis_retry_max_delay_ms =
            or_else parsed.redis_retry_max_delay_ms (if prod then 5000 else 1000);
        redis_retry_max_attempts = redis_retry_max_attempts prod parsed.redis_retry_max_attempts;
        mysql_root_password = parsed.mysql_root_password;
        mysql_password = parsed.mysql_password;
        mysql_database = parsed.mysql_database;
        mysql_user = parsed.mysql_user;
        mysql_port = parsed.mysql_port;
        mysql_image = parsed.mysql_image;
        log_level = or_else parsed.log_level (if prod then "info" else "debug");
        log_service_name = or_else parsed.log_service_name "mib-server";
        app_version = or_else parsed.app_version "0.0.1";
        http_slow_request_ms = or_else parsed.http_slow_request_ms 2000;
        log_dir = or_else parsed.log_dir "logs";
        page_visit_flush_cron = or_else parsed.page_visit_flush_cron "*/5 * * * *";
        log_max_size = or_else parsed.log_max_size "20m";
        log_max_files = or_else parsed.log_max_files "14d";
        log_zip_archive = parse_bool_flag parsed.log_zip_archive false;
        prisma_log_queries = parse_bool_flag parsed.prisma_log_queries false;
        swagger_path = or_else parsed.swagger_path "api-docs";
        swagger_enabled = swagger;
        swagger_host = or_else parsed.swagger_host "localhost";
        swagger_basic_user = parsed.swagger_basic_user;
        swagger_basic_password = parsed.swagger_basic_password;
        swagger_internal_only = parse_bool_flag parsed.swagger_internal_only (prod && swagger);
        payment_webhook_secret =
            or_else parsed.payment_webhook_secret (if prod then "" else dev_payment_webhook_secret);
      }

  -- The checks after a parse.
  unfoldable pub checked_config : EnvConfig → Result String EnvConfig
  unfolding validate_production_secrets
  checked_config config =
      if is_production_env config.node_env
      then (validate_production_secrets config >>= λ _. ok config)
      else ok config

  -- `validateEnvConfig`, with the cache before and after
  unfoldable pub validate_env_config :
      (List (String × RawValue) → Result ZodError ParsedEnv)
      → List (String × RawValue)
      → Option EnvConfig
      → Result String (EnvConfig × Option EnvConfig)
  unfolding normalize_raw_env build_env_config checked_config
  validate_env_config safe_parse raw (some cached) = ok (cached, some cached)
  validate_env_config safe_parse raw none = elim (safe_parse (normalize_raw_env raw)) [
    | err issues ↦ err ("Invalid environment configuration: " +++ format_zod_error issues)
    | ok parsed ↦ checked_config (build_env_config parsed) >>= λ config. ok (config, some config)
  ]
