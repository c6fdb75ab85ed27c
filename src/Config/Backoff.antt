-- ===== src/Config/Backoff.antt =====
-- How long the Redis client waits before a retry, and when it gives up: infrastructure/redis/redis.config.ts
-- with the defaults of common/config/env.schema.ts.
use native.Mathlib.Nat.{pow-le-pow_right, mul-le-mul_left}
use mib_server.Prelude.{
  ◌∙◌, sym, inr, Bool, inl, ℕ, ◌-◌, ◌*◌, ◌^◌, ◌≤◌, ◌<◌, min, suc, ◌≡◌, refl, ◌↔◌, true, false,
  Option, none, some, arith, Bool-cases,
}
use mib_server.Lessons.Memberships.{or_else}
use mib_server.Config.Env.{NodeEnv, EnvConfig, ParsedEnv, TextRuntime, is_production_env}
use mib_server.Config.Schema.{build_env_config, redis_retry_max_attempts}
use mib_server.Config.RedisOptions.{
  RedisConfig, is_over, retry_strategy, build_redis_options, get_redis_config_from_env,
}

abbrev pub delay_of : RedisConfig → ℕ → ℕ
delay_of config times = min (config.retry_base_delay * 2 ^ min (times - 1) 8) config.retry_max_delay

two_pow-pos : (k : ℕ) → 1 ≤ 2 ^ k
two_pow-pos k = pow-le-pow_right (omega arith) {i = 0} {j = k} (omega arith)

delay_of-pos :
    (config : RedisConfig) (times : ℕ)
    → 0 < config.retry_base_delay
    → 0 < config.retry_max_delay
    → 0 < delay_of config times
delay_of-pos config times base most =
    let power : 1 ≤ 2 ^ min (times - 1) 8 = two_pow-pos (min (times - 1) 8) in
    let product : config.retry_base_delay * 1 ≤ config.retry_base_delay * 2 ^ min (times - 1) 8 =
      mul-le-mul_left config.retry_base_delay power in
    omega arith

delay_of_grows :
    (config : RedisConfig) (times : ℕ) → delay_of config times ≤ delay_of config (suc times)
delay_of_grows config times =
    let power : 2 ^ min (times - 1) 8 ≤ 2 ^ min (suc times - 1) 8 =
      pow-le-pow_right (omega arith) {i = min (times - 1) 8} {j = min (suc times - 1) 8}
        (omega arith) in
    let product : config.retry_base_delay * 2 ^ min (times - 1) 8
        ≤ config.retry_base_delay * 2 ^ min (suc times - 1) 8 =
      mul-le-mul_left config.retry_base_delay power in
    omega arith

answered :
    (config : RedisConfig) (times d : ℕ)
    → retry_strategy config times ≡ some d
    → d ≡ delay_of config times
unfolding retry_strategy
answered config times d h = elim (Bool-cases (is_over config.retry_max_attempts times)) [
  | inl e ↦ absurd (cc (rw e at h))
  | inr e ↦ cc (rw e at h)
]

-- What the client is told to wait before a retry, if it is to retry.
unfoldable pub wait_before : TextRuntime → EnvConfig → ℕ → Option ℕ
unfolding build_redis_options get_redis_config_from_env
wait_before js env times =
    (build_redis_options js (get_redis_config_from_env env)).retry_strategy times

-- With positive delays: a wait that the client is told is positive and at most the longest delay,
-- and the next wait, if there is one, is not shorter.
pub retry_strategy-bounds :
    (js : TextRuntime) (env : EnvConfig) (times d : ℕ)
    → 0 < env.redis_retry_base_delay_ms
    → 0 < env.redis_retry_max_delay_ms
    → wait_before js env times ≡ some d
    → (0 < d)
      × (d ≤ env.redis_retry_max_delay_ms)
      × ((next : ℕ) → wait_before js env (suc times) ≡ some next → d ≤ next)
unfolding wait_before
retry_strategy-bounds js env times d base most h =
    let config = get_redis_config_from_env env in
    let now : d ≡ delay_of config times = answered config times d h in
    let positive : 0 < delay_of config times = delay_of-pos config times base most in
    (
      omega arith,
      omega arith,
      λ next h'.
          let later : next ≡ delay_of config (suc times) = answered config (suc times) next h' in
          let grows : delay_of config times ≤ delay_of config (suc times) =
            delay_of_grows config times in
          omega arith,
    )

retry_strategy-none_iff :
    (config : RedisConfig) (times : ℕ)
    → (retry_strategy config times ≡ none) ↔ (is_over config.retry_max_attempts times ≡ true)
unfolding retry_strategy
retry_strategy-none_iff config times = elim (Bool-cases (is_over config.retry_max_attempts times)) [
  | inl e ↦ rw e (λ _. refl, λ _. refl)
  | inr e ↦ rw e (λ h. absurd (cc h), λ h. absurd (cc h))
]

default_over_iff :
    (js : TextRuntime) (prod : Bool) (times : ℕ)
    → (is_over (redis_retry_max_attempts js prod none) times ≡ true)
      ↔ ((prod ≡ false) × (5 < times))
unfolding redis_retry_max_attempts
default_over_iff js true times = (λ h. absurd (cc h), λ h. absurd (cc (h.0)))
default_over_iff js false times = (λ h. (refl, ground arith), λ h. ground (arith, h.1))

-- Where the environment does not say how often: the client gives up at the sixth retry and stays
-- so, except in production, where it never gives up.
pub retry_strategy-gives_up_iff :
    (js : TextRuntime) (parsed : ParsedEnv) (times : ℕ)
    → parsed.redis_retry_max_attempts ≡ none
    → (wait_before js (build_env_config js parsed) times ≡ none)
      ↔ ((is_production_env (or_else parsed.node_env NodeEnv.development) ≡ false) × (5 < times))
unfolding wait_before build_env_config
retry_strategy-gives_up_iff js parsed times h =
    let prod = is_production_env (or_else parsed.node_env NodeEnv.development) in
    let config = get_redis_config_from_env (build_env_config js parsed) in
    let limit : is_over config.retry_max_attempts times
        ≡ is_over (redis_retry_max_attempts js prod none) times =
      rw h refl in
    (
      λ gone.
          (default_over_iff js prod times).0
            (sym limit ∙ (retry_strategy-none_iff config times).0 gone),
      λ over.
          (retry_strategy-none_iff config times).1
            (limit ∙ (default_over_iff js prod times).1 over),
    )
