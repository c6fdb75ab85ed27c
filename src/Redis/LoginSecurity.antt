-- ===== src/Redis/LoginSecurity.antt =====
-- modules/auth/auth-login-security.service.ts: rate limits, strikes and the lock of an account.
use Prim.Native.String.{◌++◌ as ◌+++◌}
use mib_server.Prelude.{ℕ, String, Bool, true, false, not, if◌then◌else◌, leb, ltb, Result, ok, err}
use mib_server.Http.{HttpError}
use mib_server.Redis.Store.{Server, set, del, incr_with_ttl, rate_limit, ttl_or_zero}

-- The part of the configuration that is read.
pub record LoginLimits : Type 0 where
  pub window_seconds : ℕ
  pub max_attempts : ℕ
  pub lock_after_failures : ℕ
  pub lock_seconds : ℕ

pub data LoginGuardResult : Type 0 where
  allowed : LoginGuardResult
  locked : ℕ → LoginGuardResult
  rate_limited : ℕ → LoginGuardResult

abbrev pub lock_key : String → String
lock_key username = "auth:login:lock:" +++ username

abbrev pub strikes_key : String → String
strikes_key username = "auth:login:strikes:" +++ username

abbrev pub ip_subject : String → String
ip_subject ip = "login:ip:" +++ ip

abbrev pub user_subject : String → String
user_subject username = "login:user:" +++ username

module _ {R : Type 0} (server : Server R) (env : LoginLimits) where
  -- The two rate limits of an attempt.
  unfoldable pub check_limits : ℕ → String → String → R → LoginGuardResult × R
  unfolding rate_limit
  check_limits now ip username r =
      let (ip_limit, r') =
        rate_limit server now (ip_subject ip) env.max_attempts env.window_seconds r in
      if not ip_limit.0
      then (rate_limited ip_limit.2, r')
      else let (user_limit, r'') =
          rate_limit server now (user_subject username) env.max_attempts env.window_seconds r' in
        if not user_limit.0 then (rate_limited user_limit.2, r'') else (allowed, r'')

  -- `checkCanAttemptLogin`
  unfoldable pub check_can_attempt_login : ℕ → String → String → R → LoginGuardResult × R
  unfolding check_limits
  check_can_attempt_login now ip username r =
      let lock_ttl = ttl_or_zero server (server.ttl_of now (lock_key username) r) in
      if ltb 0 lock_ttl then (locked lock_ttl, r) else check_limits now ip username r

  abbrev pub as_exception : LoginGuardResult → Result HttpError (Unit {0})
  as_exception allowed = ok tt
  as_exception (locked s) = err (HttpError.forbidden "登录失败次数过多，账号已锁定")
  as_exception (rate_limited s) = err (HttpError.too_many_requests "登录尝试过于频繁，请稍后再试")

  -- `assertCanAttemptLogin`
  unfoldable pub assert_can_attempt_login :
      ℕ → String → String → R → Result HttpError (Unit {0}) × R
  unfolding check_can_attempt_login
  assert_can_attempt_login now ip username r =
      let (result, r') = check_can_attempt_login now ip username r in (as_exception result, r')

  -- `recordLoginFailure`: whether the account is locked now, and for how long
  unfoldable pub record_login_failure : ℕ → String → String → R → (Bool × ℕ) × R
  unfolding rate_limit incr_with_ttl set
  record_login_failure now ip username r =
      let r₁ = (rate_limit server now (ip_subject ip) env.max_attempts env.window_seconds r).1 in
      let r₂ =
        (rate_limit server now (user_subject username) env.max_attempts env.window_seconds r₁).1 in
      let (strikes, r₃) = incr_with_ttl server now (strikes_key username) env.window_seconds r₂ in
      if leb env.lock_after_failures strikes
      then ((true, env.lock_seconds), set server now (lock_key username) "1" env.lock_seconds r₃)
      else ((false, env.lock_seconds), r₃)

  -- `clearLoginFailures`
  unfoldable pub clear_login_failures : ℕ → String → R → R
  unfolding del
  clear_login_failures now username r =
      (del server now (lock_key username) (del server now (strikes_key username) r).1).1
