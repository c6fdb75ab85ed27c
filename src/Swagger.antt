-- ===== src/Swagger.antt =====
-- The guards of the documentation's routes: common/swagger/swagger-basic-auth.middleware.ts,
-- swagger-internal-network.middleware.ts and apply-swagger-guards.ts. Functions of the runtime on
-- texts are arguments.
pub mod Guarded
use mib_server.Prelude.{
  ℕ, String, str_eq, Bool, true, false, not, ◌&&◌, ◌||◌, ◌==◌, Option, none, some, List, [], ◌∷◌,
  ◌++◌, Result, ok, err, if◌then◌else◌,
}
use mib_server.Config.Env.{EnvConfig, is_production_env}
use mib_server.Config.RedisOptions.{or_undefined}

pub record GuardRuntime : Type 0 where
  -- `startsWith`, `slice(6)`, `Buffer.byteLength`, `trim`
  pub starts_with : String → String → Bool
  pub after_six : String → String
  pub byte_length : String → ℕ
  pub trim : String → String
  -- base64 to UTF-8; the text before and after the first ':', if there is one
  pub decode_base64 : String → String
  pub split_colon : String → Option (String × String)
  -- `replace(/^::ffff:/, '')`, and the test for 172.16/12
  pub without_mapped_prefix : String → String
  pub is_172_private : String → Bool

-- What a guard reads of a request.
pub record DocRequest : Type 0 where
  pub authorization : Option String
  pub ip : Option String
  pub remote_address : Option String

pub data Guard : Type 0 where
  internal_network : Guard
  basic_auth : String → String → Guard

-- `next()`, or an answer with a status.
pub data Verdict : Type 0 where
  next : Verdict
  refused : ℕ → String → Verdict

module _ (js : GuardRuntime) where
  -- `safeEqual`: `timingSafeEqual` compares bytes
  unfoldable pub safe_equal : String → String → Bool
  safe_equal a b = js.byte_length a == js.byte_length b && str_eq a b

  -- The user and the password of a decoded header.
  abbrev pub credentials : String → String × String
  credentials decoded = elim (js.split_colon decoded) [ none ↦ (decoded, "") | some parts ↦ parts ]

  -- `swaggerBasicAuthMiddleware`
  unfoldable pub swagger_basic_auth : String → String → Option String → Verdict
  unfolding safe_equal
  swagger_basic_auth user pass none = refused 401 "Authentication required"
  swagger_basic_auth user pass (some header) =
      let given = credentials (js.decode_base64 (js.after_six header)) in
      if js.starts_with header "Basic "
      then (if safe_equal given.0 user && safe_equal given.1 pass
          then next
          else refused 401 "Invalid credentials")
      else refused 401 "Authentication required"

  -- `normalizeClientIp`
  unfoldable pub normalize_client_ip : String → String
  normalize_client_ip ip = if str_eq ip "" then "" else js.trim (js.without_mapped_prefix ip)

  -- `isPrivateOrLoopbackIp`
  unfoldable pub is_private_or_loopback_ip : String → Bool
  unfolding normalize_client_ip
  is_private_or_loopback_ip ip =
      let n = normalize_client_ip ip in
      not (str_eq n "")
      && (str_eq n "127.0.0.1"
          || str_eq n "::1"
          || str_eq n "localhost"
          || js.starts_with n "10."
          || js.starts_with n "192.168."
          || js.is_172_private n
          || js.starts_with n "169.254.")

  -- `req.ip ?? req.socket.remoteAddress`, `ip ?? ''`
  abbrev pub address_of : DocRequest → String
  address_of req = elim req.ip [
    | some ip ↦ ip
    | none ↦ elim req.remote_address [ none ↦ "" | some ip ↦ ip ]
  ]

  -- `swaggerInternalNetworkMiddleware`
  unfoldable pub swagger_internal_network : DocRequest → Verdict
  unfolding is_private_or_loopback_ip
  swagger_internal_network req =
      if is_private_or_loopback_ip (address_of req)
      then next
      else refused 403 "API documentation is not available from this network"

  abbrev pub run_guard : Guard → DocRequest → Verdict
  run_guard internal_network req = swagger_internal_network req
  run_guard (basic_auth user pass) req = swagger_basic_auth user pass req.authorization

  -- The guards of a route, in the order in which they were mounted.
  unfoldable pub run_guards : List Guard → DocRequest → Verdict
  unfolding swagger_internal_network swagger_basic_auth
  run_guards [] req = next
  run_guards (guard ∷ guards) req =
      let rest = run_guards guards req in
      elim (run_guard guard req) [ next ↦ rest | refused status text ↦ refused status text ]

-- The handler for the credentials, if both are given.
abbrev pub auth_guard : Option String → Option String → List Guard
auth_guard (some user) (some pass) = basic_auth user pass ∷ []
auth_guard _ _ = []

abbrev pub has_basic_auth : Option String → Option String → Bool
has_basic_auth (some user) (some pass) = true
has_basic_auth _ _ = false

-- `applySwaggerGuards`: the handlers that are mounted on each documentation path
unfoldable pub apply_swagger_guards : EnvConfig → Result String (List Guard)
apply_swagger_guards env =
    let user = or_undefined env.swagger_basic_user in
    let pass = or_undefined env.swagger_basic_password in
    if is_production_env env.node_env && not (has_basic_auth user pass)
    then err
        "SWAGGER_ENABLED is true in production but SWAGGER_BASIC_USER / SWAGGER_BASIC_PASSWORD are missing. Set strong credentials or set SWAGGER_ENABLED=0."
    else ok
        ((if env.swagger_internal_only then internal_network ∷ [] else []) ++ auth_guard user pass)
