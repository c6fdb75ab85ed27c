-- ===== src/Logging/Access.antt =====
-- common/interceptors/access-behavior.interceptor.ts: what is counted and logged when a request
-- ends. The patterns that shorten a path are the runtime's; times are milliseconds.
use Prim.Native.String.{◌++◌ as ◌+++◌}
use mib_server.Prelude.{
  ℕ, String, str_eq, Bool, true, false, ◌&&◌, Option, none, some, List, [], ◌∷◌, ◌++◌, any, leb,
  if◌then◌else◌,
}
use mib_server.Rbac.Permissions.{UserRole}
use mib_server.Config.Schema.{or_text}
use mib_server.Config.RedisOptions.{or_undefined}
use mib_server.Logging.Redaction.{Value, Fields}
use mib_server.Logging.Visits.{Counts, increment}

-- `split('?')[0]` and the three replacements of `normalizeRouteKey`.
pub record RouteRuntime : Type 0 where
  pub before_question : String → String
  pub replace_uuid : String → String
  pub replace_long_id : String → String
  pub replace_number : String → String

pub record RequestUser : Type 0 where
  pub user_id : String
  pub username : String
  pub role : UserRole

pub record Request : Type 0 where
  pub id : String
  pub method : String
  pub original_url : String
  pub url : String
  pub ip : Option String
  pub user_agent : Option String
  pub user : Option RequestUser
  pub body : Value

-- The fields that every line of a request has.
pub record LineBase : Type 0 where
  pub request_id : String
  pub method : String
  pub path : String
  pub status_code : ℕ
  pub duration_ms : ℕ
  pub user : Option RequestUser
  pub ip : Option String
  pub user_agent : Option String

pub data LogLine : Type 0 where
  -- `http_access`: the route's key, whether the request was slow, and its body
  http_access : LineBase → String → Bool → Option Value → LogLine
  -- `slow_http`: the route's key and the threshold
  slow_http : LineBase → String → ℕ → LogLine
  -- `audit` and `admin_audit`, with the action
  audit admin_audit : LineBase → String → LogLine
  -- `user_behavior`, with the action; it has neither address nor agent
  user_behavior : LineBase → String → LogLine

-- `delete o[k]`
abbrev pub without_keys : List String → Fields → Fields
without_keys keys Fields.end = Fields.end
without_keys keys (Fields.field key v fields) =
    let rest = without_keys keys fields in
    if any (str_eq key) keys then rest else Fields.field key v rest

abbrev pub secret_keys : List String
secret_keys =
    "password" ∷ "passwordHash" ∷ "token" ∷ "authorization" ∷ "refreshToken" ∷ "accessToken"
    ∷ "secret" ∷ []

-- `safeBody`
unfoldable pub safe_body : Value → Value
safe_body (Value.object fields) = Value.object (without_keys secret_keys fields)
safe_body v = v

-- `isMutation`
unfoldable pub is_mutation : String → Bool
is_mutation method = any (str_eq method) ("POST" ∷ "PUT" ∷ "PATCH" ∷ "DELETE" ∷ [])

-- `['POST', 'PUT', 'PATCH'].includes(req.method)`
abbrev pub has_body : String → Bool
has_body method = any (str_eq method) ("POST" ∷ "PUT" ∷ "PATCH" ∷ [])

abbrev pub is_admin : Option RequestUser → Bool
is_admin none = false
is_admin (some user) = elim user.role [ UserRole.admin ↦ true | _ ↦ false ]

-- The lines of the audit: for a description, or for a change by an administrator.
unfoldable pub audit_lines : LineBase → Option String → List LogLine
unfolding is_mutation
audit_lines base (some action) =
    if is_admin base.user
    then LogLine.audit base action ∷ LogLine.admin_audit base action ∷ []
    else LogLine.audit base action ∷ []
audit_lines base none =
    if is_admin base.user && is_mutation base.method
    then LogLine.admin_audit base (base.method +++ " " +++ base.path) ∷ []
    else []

unfoldable pub behavior_lines : LineBase → Option String → List LogLine
unfolding is_mutation
behavior_lines base (some action) = LogLine.user_behavior base action ∷ []
behavior_lines base none =
    if is_mutation base.method
    then LogLine.user_behavior base (base.method +++ " " +++ base.path) ∷ []
    else []

module _ (js : RouteRuntime) where
  -- `normalizeRouteKey`
  unfoldable pub normalize_route_key : String → String → String
  normalize_route_key method url =
      method
      +++ " "
      +++ js.replace_number (js.replace_long_id (js.replace_uuid (js.before_question url)))

  -- `req.originalUrl || req.url || ''`
  abbrev pub url_of : Request → String
  url_of req = or_text req.original_url req.url

  abbrev pub path_of : Request → String
  path_of req = js.before_question (url_of req)

  unfoldable pub line_base : Request → ℕ → ℕ → LineBase
  line_base req status_code duration_ms = record {
    request_id = req.id;
    method = req.method;
    path = path_of req;
    status_code = status_code;
    duration_ms = duration_ms;
    user = req.user;
    ip = req.ip;
    user_agent = req.user_agent;
  }

  -- The access line, and the one of a slow request.
  unfoldable pub access_lines : ℕ → Request → LineBase → List LogLine
  unfolding normalize_route_key safe_body
  access_lines slow_request_ms req base =
      let route_key = normalize_route_key req.method (url_of req) in
      let is_slow = leb slow_request_ms base.duration_ms in
      let body = if has_body req.method then some (safe_body req.body) else none in
      LogLine.http_access base route_key is_slow body
      ∷ (if is_slow then LogLine.slow_http base route_key slow_request_ms ∷ [] else [])

  -- `finalize` of `intercept`: the counters after, and the lines in their order
  unfoldable pub finalize :
      ℕ → Option String → Option String → Request → ℕ → ℕ → Counts → Counts × List LogLine
  unfolding normalize_route_key line_base access_lines audit_lines behavior_lines increment
  finalize slow_request_ms explicit audit_desc req status_code duration_ms counts =
      let base = line_base req status_code duration_ms in
      if str_eq (path_of req) "/health" then (counts, []) else (
        (increment (normalize_route_key req.method (url_of req)) counts).1,
        access_lines slow_request_ms req base
            ++ (audit_lines base (or_undefined audit_desc)
                ++ behavior_lines base (or_undefined explicit)),
      )
