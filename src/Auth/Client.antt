-- ===== src/Auth/Client.antt =====
-- modules/auth/auth-client.util.ts: where a login comes from. The first part of a text before a comma
-- is the runtime's, as are its other functions on texts.
use mib_server.Prelude.{String, str_eq, ◌||◌, Option, none, some, List, [], ◌∷◌, if◌then◌else◌}
use mib_server.Config.Env.{TextRuntime}
use mib_server.Config.Schema.{or_text}

-- `req.headers['x-forwarded-for']`
pub data Forwarded : Type 0 where
  missing : Forwarded
  one : String → Forwarded
  many : List String → Forwarded

pub record LoginRequest : Type 0 where
  pub forwarded : Forwarded
  pub ip : Option String
  pub remote_address : Option String
  pub user_agent : Option String

-- `LoginClientContext`
pub record LoginClientContext : Type 0 where
  pub ip : String
  pub user_agent : Option String
  pub device_hint : String

abbrev pub or_empty : Option String → String
or_empty none = ""
or_empty (some s) = s

module _ (js : TextRuntime) (before_comma : String → String) where
  -- `list.split(',')[0]?.trim() || 'unknown'`
  abbrev pub first_address : String → String
  first_address list = or_text (js.trim (before_comma list)) "unknown"

  -- `req.ip || req.socket?.remoteAddress || 'unknown'`
  abbrev pub own_address : LoginRequest → String
  own_address req = or_text (or_empty req.ip) (or_text (or_empty req.remote_address) "unknown")

  abbrev pub forwarded_address : Forwarded → LoginRequest → String
  forwarded_address missing req = own_address req
  forwarded_address (one list) req = if str_eq list "" then own_address req else first_address list
  forwarded_address (many []) req = own_address req
  forwarded_address (many (list ∷ lists)) req =
      if str_eq list "" then own_address req else first_address list

  -- `getClientIp`
  unfoldable pub get_client_ip : LoginRequest → String
  get_client_ip req = forwarded_address req.forwarded req

  -- `parseDeviceHint`
  unfoldable pub parse_device_hint : Option String → String
  parse_device_hint none = "unknown"
  parse_device_hint (some user_agent) =
      let ua = js.to_lower user_agent in
      if str_eq user_agent ""
      then "unknown"
      else if js.includes ua "iphone" || js.includes ua "ipad"
      then "ios"
      else if js.includes ua "android"
      then "android"
      else if js.includes ua "mobile"
      then "mobile"
      else if js.includes ua "windows"
      then "windows"
      else if js.includes ua "mac os" || js.includes ua "macintosh"
      then "macos"
      else if js.includes ua "linux"
      then "linux"
      else "desktop"

  -- `buildLoginClientContext`
  unfoldable pub build_login_client_context : LoginRequest → LoginClientContext
  unfolding get_client_ip parse_device_hint
  build_login_client_context req = record {
    ip = get_client_ip req;
    user_agent = req.user_agent;
    device_hint = parse_device_hint req.user_agent;
  }
