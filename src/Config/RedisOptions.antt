-- ===== src/Config/RedisOptions.antt =====
-- infrastructure/redis/redis.config.ts: what the Redis client is given, and the accessors of
-- common/config/env.ts.
use Prim.Native.String.{◌++◌ as ◌+++◌}
use mib_server.Prelude.Int.{ℤ, pos, ltb_ℤ, pos_part}
use mib_server.Prelude.{
  ℕ, ◌-◌, ◌*◌, ◌^◌, min, String, str_eq, Bool, false, ◌||◌, Option, none, some, if◌then◌else◌,
}
use mib_server.Config.Env.{EnvConfig, JsNumber, finite, not_finite, TextRuntime, is_production_env}

-- `RedisConfig`
pub record RedisConfig : Type 0 where
  pub host : String
  pub port : ℕ
  pub password : Option String
  pub username : Option String
  pub db : ℕ
  pub key_prefix : String
  pub connect_timeout : ℕ
  pub command_timeout : ℕ
  pub max_retries_per_request : Option ℤ
  pub enable_ready_check : Bool
  pub retry_base_delay : ℕ
  pub retry_max_delay : ℕ
  pub retry_max_attempts : Option ℤ

-- `text || undefined`
abbrev pub or_undefined : Option String → Option String
or_undefined none = none
or_undefined (some s) = if str_eq s "" then none else some s

-- `getRedisConfigFromEnv`; the key prefix is always there in an `EnvConfig`
unfoldable pub get_redis_config_from_env : EnvConfig → RedisConfig
get_redis_config_from_env env = record {
  host = env.redis_host;
  port = env.redis_port;
  password = or_undefined env.redis_password;
  username = or_undefined env.redis_username;
  db = env.redis_db;
  key_prefix = env.redis_key_prefix;
  connect_timeout = env.redis_connect_timeout_ms;
  command_timeout = env.redis_command_timeout_ms;
  max_retries_per_request = env.redis_max_retries_per_request;
  enable_ready_check = env.redis_enable_ready_check;
  retry_base_delay = env.redis_retry_base_delay_ms;
  retry_max_delay = env.redis_retry_max_delay_ms;
  retry_max_attempts = env.redis_retry_max_attempts;
}

-- `RedisOptions`, as far as `buildRedisOptions` sets it. The client calls `retryStrategy` with the
-- number of the retry, from 1; no answer ends the retries. `reconnectOnError` answers 2 or false.
pub record RedisOptions : Type 0 where
  pub host : String
  pub port : ℕ
  pub username : Option String
  pub password : Option String
  pub db : ℕ
  pub key_prefix : Option String
  pub connect_timeout : ℕ
  pub command_timeout : ℕ
  pub max_retries_per_request : Option ℤ
  pub enable_ready_check : Bool
  pub lazy_connect : Bool
  pub retry_strategy : ℕ → Option ℕ
  pub reconnect_on_error : String → Option ℕ

-- `config.retryMaxAttempts !== undefined && times > config.retryMaxAttempts`
abbrev pub is_over : Option ℤ → ℕ → Bool
is_over none times = false
is_over (some most) times = ltb_ℤ most (pos times)

unfoldable pub retry_strategy : RedisConfig → ℕ → Option ℕ
retry_strategy config times =
    if is_over config.retry_max_attempts times
    then none
    else some (min (config.retry_base_delay * 2 ^ min (times - 1) 8) config.retry_max_delay)

unfoldable pub reconnect_on_error : TextRuntime → String → Option ℕ
reconnect_on_error js message =
    let lowered = js.to_lower message in
    if js.includes lowered "readonly"
      || js.includes lowered "etimedout"
      || js.includes lowered "econnreset"
    then some 2
    else none

-- `buildRedisOptions`
unfoldable pub build_redis_options : TextRuntime → RedisConfig → RedisOptions
unfolding retry_strategy reconnect_on_error
build_redis_options js config = record {
  host = config.host;
  port = config.port;
  username = config.username;
  password = config.password;
  db = config.db;
  key_prefix = if str_eq config.key_prefix "" then none else some (config.key_prefix +++ ":");
  connect_timeout = config.connect_timeout;
  command_timeout = config.command_timeout;
  max_retries_per_request = config.max_retries_per_request;
  enable_ready_check = config.enable_ready_check;
  lazy_connect = false;
  retry_strategy = retry_strategy config;
  reconnect_on_error = reconnect_on_error js;
}

-- `getJwtExpiresIn`: seconds, or a text for the `ms` package
pub data ExpiresIn : Type 0 where
  seconds : ℤ → ExpiresIn
  span : String → ExpiresIn

unfoldable pub get_jwt_expires_in : TextRuntime → EnvConfig → ExpiresIn
get_jwt_expires_in js config = by_number (js.number config.jwt_expires_in)
  where
    by_number : JsNumber → ExpiresIn
    by_number not_finite = ExpiresIn.span config.jwt_expires_in
    by_number (finite n) =
        if str_eq (js.trim config.jwt_expires_in) ""
        then ExpiresIn.span config.jwt_expires_in
        else ExpiresIn.seconds n

-- `unit === 's' ? 1 : …`
abbrev pub unit_factor : String → ℕ
unit_factor unit =
    if str_eq unit "s"
    then 1
    else if str_eq unit "m"
    then 60
    else if str_eq unit "h"
    then 3600
    else 86400

-- The part of `getJwtExpiresInSeconds` for a text that is not a positive number: `found` is what
-- the pattern of an amount and a unit finds.
unfoldable pub span_seconds : TextRuntime → Option (ℕ × String) → ℕ
span_seconds js none = 7 * 24 * 3600
span_seconds js (some (amount, unit)) = amount * unit_factor (js.to_lower unit)

-- `getJwtExpiresInSeconds`
unfoldable pub get_jwt_expires_in_seconds :
    TextRuntime → (String → Option (ℕ × String)) → EnvConfig → ℕ
unfolding span_seconds
get_jwt_expires_in_seconds js pattern config =
    let value = js.trim config.jwt_expires_in in by_number value (js.number value)
  where
    by_number : String → JsNumber → ℕ
    by_number value not_finite = span_seconds js (pattern value)
    by_number value (finite n) =
        if ltb_ℤ (pos 0) n then pos_part n else span_seconds js (pattern value)

-- `getSwaggerBasicAuth`
unfoldable pub get_swagger_basic_auth : EnvConfig → Option (String × String)
get_swagger_basic_auth config =
    both_given (or_undefined config.swagger_basic_user) (or_undefined config.swagger_basic_password)
  where
    both_given : Option String → Option String → Option (String × String)
    both_given (some user) (some pass) = some (user, pass)
    both_given _ _ = none

-- `isProduction`
unfoldable pub is_production : EnvConfig → Bool
is_production config = is_production_env config.node_env
