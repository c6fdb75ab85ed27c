-- ===== src/Config/Secrets.antt =====
-- What the checks of common/config/env.schema.ts promise of a configuration that they let pass.
use Prim.Native.String.{◌++◌ as ◌+++◌}
use mib_server.Prelude.{
  ℕ, ◌≤◌, ◌≡◌, refl, String, str_eq, Bool, true, false, inl, inr, Option, none, some, List, [], ◌∷◌,
  ◌++◌, Result, ok, err, ◌>>=◌, >>=-eq-ok, ok-injective, subst, arith, Bool-cases, if◌then◌else◌,
}
use mib_server.Config.Env.{
  EnvConfig, ParsedEnv, TextRuntime, is_production_env, is_forbidden_secret_value,
}
use mib_server.Config.Schema.{
  RawValue, ZodError, is_insecure_secret, assert_production_secret, assert_database_url,
  secret_errors, swagger_errors, throw_errors, validate_production_secrets, checked_config,
  build_env_config, normalize_raw_env, format_zod_error, validate_env_config,
}

append-not_empty : (errors : List String) (e : String) → errors ++ (e ∷ []) ≡ [] → ⊥
append-not_empty [] e h = cc
append-not_empty (x ∷ errors) e h = cc

throw_errors-empty : (errors : List String) → throw_errors errors ≡ ok tt → errors ≡ []
throw_errors-empty [] h = refl
throw_errors-empty (e ∷ errors) h = cc

module _ (js : TextRuntime) where
  -- Long enough, and none of the values that the repository publishes.
  abbrev pub IsStrong : ℕ → String → Type 0
  IsStrong min_length value =
      (min_length ≤ js.length value) × (is_forbidden_secret_value value ≡ false)

  abbrev pub HasStrong : ℕ → Option String → Type 0
  HasStrong min_length none = ⊥
  HasStrong min_length (some value) = IsStrong min_length value

  -- A value that is there and not empty is strong.
  abbrev pub IsStrongIfGiven : ℕ → Option String → Type 0
  IsStrongIfGiven min_length none = Unit
  IsStrongIfGiven min_length (some value) = str_eq value "" ≡ false → IsStrong min_length value

  secure-IsStrong :
      (value : String) (n : ℕ) → is_insecure_secret js value n ≡ false → IsStrong n value
  unfolding is_insecure_secret
  secure-IsStrong value n h = ground arith

  required-HasStrong :
      (errors : List String) (name : String) (o : Option String) (n : ℕ)
      → assert_production_secret js errors name o n true ≡ []
      → (errors ≡ []) × HasStrong n o
  unfolding assert_production_secret
  required-HasStrong errors name none n h = absurd (append-not_empty errors _ h)
  required-HasStrong errors name (some value) n h = elim (Bool-cases (str_eq value "")) [
    | inl e ↦ absurd (append-not_empty errors _ (rw e at h))
    | inr e ↦ by_check (is_insecure_secret js value n) refl (rw e at h)
  ]
    where
      by_check :
          (b : Bool)
          → is_insecure_secret js value n ≡ b
          → (if b
              then errors ++ (("Insecure production environment variable: " +++ name) ∷ [])
              else errors)
            ≡ []
          → (errors ≡ []) × IsStrong n value
      by_check true e h = absurd (append-not_empty errors _ h)
      by_check false e h = (h, secure-IsStrong value n e)

  optional-IsStrong :
      (errors : List String) (name : String) (o : Option String) (n : ℕ)
      → assert_production_secret js errors name o n false ≡ []
      → (errors ≡ []) × IsStrongIfGiven n o
  unfolding assert_production_secret
  optional-IsStrong errors name none n h = (h, tt)
  optional-IsStrong errors name (some value) n h = elim (Bool-cases (str_eq value "")) [
    | inl e ↦ (rw e at h, λ given. absurd (ground arith))
    | inr e ↦ by_check (is_insecure_secret js value n) refl (rw e at h)
  ]
    where
      by_check :
          (b : Bool)
          → is_insecure_secret js value n ≡ b
          → (if b
              then errors ++ (("Insecure production environment variable: " +++ name) ∷ [])
              else errors)
            ≡ []
          → (errors ≡ []) × (str_eq value "" ≡ false → IsStrong n value)
      by_check true e h = absurd (append-not_empty errors _ h)
      by_check false e h = (h, λ _. secure-IsStrong value n e)

  database-IsStrong :
      (errors : List String) (url : String)
      → assert_database_url js errors url ≡ []
      → (errors ≡ []) × IsStrong 12 url
  unfolding assert_database_url
  database-IsStrong errors url h = elim (Bool-cases (str_eq url "")) [
    | inl e ↦ absurd (append-not_empty errors _ (rw e at h))
    | inr e ↦ by_check (is_insecure_secret js url 12) refl (rw e at h)
  ]
    where
      by_password :
          (b : Bool)
          → (if b
              then errors
                ++ ("Insecure production environment variable: DATABASE_URL (contains default password)"
                    ∷ [])
              else errors)
            ≡ []
          → errors ≡ []
      by_password true h = absurd (append-not_empty errors _ h)
      by_password false h = h

      by_check :
          (b : Bool)
          → is_insecure_secret js url 12 ≡ b
          → (if b
              then errors ++ ("Insecure production environment variable: DATABASE_URL" ∷ [])
              else if js.includes (js.to_lower url) ":password@"
              then errors
                ++ ("Insecure production environment variable: DATABASE_URL (contains default password)"
                    ∷ [])
              else errors)
            ≡ []
          → (errors ≡ []) × IsStrong 12 url
      by_check true e h = absurd (append-not_empty errors _ h)
      by_check false e h =
          (by_password (js.includes (js.to_lower url) ":password@") h, secure-IsStrong url 12 e)

  pub record AreStrong (config : EnvConfig) : Type 0 where
    pub jwt : IsStrong 32 config.jwt_secret
    pub payment : IsStrong 32 config.payment_webhook_secret
    pub database : IsStrong 12 config.database_url
    pub redis : HasStrong 16 config.redis_password
    pub mysql_root : HasStrong 16 config.mysql_root_password
    pub mysql : IsStrongIfGiven 16 config.mysql_password
    pub swagger :
        config.swagger_enabled ≡ true
        → HasStrong 1 config.swagger_basic_user × HasStrong 12 config.swagger_basic_password

  swagger-HasStrong :
      (config : EnvConfig) (errors : List String)
      → swagger_errors js config errors ≡ []
      → (errors ≡ [])
        × (config.swagger_enabled ≡ true
            → HasStrong 1 config.swagger_basic_user × HasStrong 12 config.swagger_basic_password)
  unfolding swagger_errors
  swagger-HasStrong config errors h = by_switch config.swagger_enabled h
    where
      by_switch :
          (b : Bool)
          → (if b
              then assert_production_secret js
                  (assert_production_secret js errors "SWAGGER_BASIC_USER" config.swagger_basic_user
                    1 true)
                  "SWAGGER_BASIC_PASSWORD"
                  config.swagger_basic_password
                  12
                  true
              else errors)
            ≡ []
          → (errors ≡ [])
            × (b ≡ true
                → HasStrong 1 config.swagger_basic_user
                  × HasStrong 12 config.swagger_basic_password)
      by_switch true h =
          let (user_done, password) =
            required-HasStrong
              (assert_production_secret js errors "SWAGGER_BASIC_USER" config.swagger_basic_user 1
                true)
              "SWAGGER_BASIC_PASSWORD" config.swagger_basic_password 12 h in
          let (done, user) =
            required-HasStrong errors "SWAGGER_BASIC_USER" config.swagger_basic_user 1 user_done in
          (done, λ _. (user, password))
      by_switch false h = (h, λ e. cc)

  validate-AreStrong :
      (config : EnvConfig) → validate_production_secrets js config ≡ ok tt → AreStrong config
  unfolding validate_production_secrets secret_errors
  validate-AreStrong config h =
      let (none_5, swagger) = swagger-HasStrong config _ (throw_errors-empty _ h) in
      let (none_4, mysql) = optional-IsStrong _ "MYSQL_PASSWORD" config.mysql_password 16 none_5 in
      let (none_3, root) =
        required-HasStrong _ "MYSQL_ROOT_PASSWORD" config.mysql_root_password 16 none_4 in
      let (none_2, redis) = required-HasStrong _ "REDIS_PASSWORD" config.redis_password 16 none_3 in
      let (none_1, database) = database-IsStrong _ config.database_url none_2 in
      let (none_0, payment) =
        required-HasStrong _ "PAYMENT_WEBHOOK_SECRET" (some config.payment_webhook_secret) 32
          none_1 in
      let (_, jwt) = required-HasStrong [] "JWT_SECRET" (some config.jwt_secret) 32 none_0 in
      record {
        jwt = jwt;
        payment = payment;
        database = database;
        redis = redis;
        mysql_root = root;
        mysql = mysql;
        swagger = swagger;
      }

  abbrev pub IsGuarded : EnvConfig → Type 0
  IsGuarded config = is_production_env config.node_env ≡ true → AreStrong config

  abbrev pub IsGuardedCache : Option EnvConfig → Type 0
  IsGuardedCache none = Unit
  IsGuardedCache (some config) = IsGuarded config

  checked-IsGuarded :
      (config config' : EnvConfig) → checked_config js config ≡ ok config' → IsGuarded config'
  unfolding checked_config
  checked-IsGuarded config config' h = by_env (is_production_env config.node_env) refl h
    where
      by_env :
          (b : Bool)
          → is_production_env config.node_env ≡ b
          → (if b then (validate_production_secrets js config >>= λ _. ok config) else ok config)
            ≡ ok config'
          → IsGuarded config'
      by_env true e h =
          let (_, valid, same) = >>=-eq-ok (validate_production_secrets js config) _ h in
          subst IsGuarded (ok-injective same) (λ _. validate-AreStrong config valid)
      by_env false e h = subst IsGuarded (ok-injective h) (λ p. cc)

  -- Whatever the schema library answers and the cache holds that was put there in this way: a
  -- configuration that is handed out for production has strong secrets, and is what is cached.
  pub validate_env_config-IsGuarded :
      (safe_parse : List (String × RawValue) → Result ZodError ParsedEnv)
      (raw : List (String × RawValue)) (cache cache' : Option EnvConfig) (config : EnvConfig)
      → IsGuardedCache cache
      → validate_env_config js safe_parse raw cache ≡ ok (config, cache')
      → IsGuarded config × (cache' ≡ some config)
  unfolding validate_env_config
  validate_env_config-IsGuarded safe_parse raw (some cached) cache' config guarded h =
      let same : (cached, some cached) ≡ (config, cache') = ok-injective h in
      subst (λ (p : EnvConfig × Option EnvConfig). IsGuarded p.0 × (p.1 ≡ some p.0)) same
        (guarded, refl)
  validate_env_config-IsGuarded safe_parse raw none cache' config guarded h =
      by_parse (safe_parse (normalize_raw_env js raw)) h
    where
      by_parse :
          (parse : Result ZodError ParsedEnv)
          → ◌≡◌ {A = Result String (EnvConfig × Option EnvConfig)}
              (elim parse [
                | err issues ↦
                    err ("Invalid environment configuration: " +++ format_zod_error issues)
                | ok parsed ↦ checked_config js (build_env_config js parsed) >>= λ config.
                    ok (config, some config)
              ])
              (ok (config, cache'))
          → IsGuarded config × (cache' ≡ some config)
      by_parse (err issues) h = cc
      by_parse (ok parsed) h =
          let (found, checked, same) =
            >>=-eq-ok (checked_config js (build_env_config js parsed)) _ h in
          subst (λ (p : EnvConfig × Option EnvConfig). IsGuarded p.0 × (p.1 ≡ some p.0))
            (ok-injective same) (checked-IsGuarded (build_env_config js parsed) found checked, refl)
