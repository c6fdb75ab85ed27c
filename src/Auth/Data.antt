-- ===== src/Auth/Data.antt =====
-- The rows, requests and tokens of modules/auth/auth.service.ts, and bcrypt as an argument.
use mib_server.Prelude.{
  ◌≡◌, ℕ, String, str_eq, Bool, true, false, ◌&&◌, ◌||◌, Option, none, some, List, if◌then◌else◌,
}
use mib_server.Rbac.Permissions.{UserRole, role_text}

pub record User : Type 0 where
  pub id : String
  pub tenant_id : Option String
  pub username : String
  pub password_hash : String
  pub role : UserRole
  pub token_version : ℕ

pub record TenantRow : Type 0 where
  pub id : String
  pub code : String

abbrev pub tenant_conflict : TenantRow → TenantRow → Bool
tenant_conflict a b = str_eq a.id b.id || str_eq a.code b.code

abbrev pub tenant_is : Option String → String → Bool
tenant_is none id = false
tenant_is (some t) id = str_eq t id

abbrev pub tenants_meet : Option String → Option String → Bool
tenants_meet none t = false
tenants_meet (some s) t = tenant_is t s

-- The primary key and `@@unique([tenantId, username])`.
abbrev pub user_conflict : User → User → Bool
user_conflict a b =
    str_eq a.id b.id || (tenants_meet a.tenant_id b.tenant_id && str_eq a.username b.username)

-- auth.types.ts
pub record JwtPayload : Type 0 where
  pub sub : String
  pub username : String
  pub role : String
  pub jti : String
  pub tv : ℕ

-- bcrypt: `compare` of a password with a hash, and `hash` under a salt.
pub record Bcrypt : Type 0 where
  pub compare : String → String → Bool
  pub hash : String → String → String
  pub compare_hash : (salt password : String) → compare password (hash salt password) ≡ true

pub record LoginEvent : Type 0 where
  pub user_id : Option String
  pub username : String
  pub success : Bool
  pub reason : Option String

pub record AuthState (R : Type 0) : Type 0 where
  pub users : List User
  pub events : List LoginEvent
  pub redis : R

-- dto/login.dto.ts, dto/register.dto.ts and dto/change-password.dto.ts
pub record LoginDto : Type 0 where
  pub tenant_code : Option String
  pub username : String
  pub password : String

pub record RegisterDto : Type 0 where
  pub username : String
  pub password : String
  pub role : Option UserRole

pub record ChangePasswordDto : Type 0 where
  pub current_password : String
  pub new_password : String

abbrev pub default_tenant_code : String
default_tenant_code = "default"

-- `code?.trim() || DEFAULT_TENANT_CODE`
abbrev pub tenant_code_or_default : (String → String) → Option String → String
tenant_code_or_default trim none = default_tenant_code
tenant_code_or_default trim (some code) =
    if str_eq (trim code) "" then default_tenant_code else trim code

-- `buildAuthResponse`: the payload that is signed; `jti` is what `randomUUID()` gives
unfoldable pub build_auth_response : String → User → JwtPayload
build_auth_response jti user = record {
  sub = user.id;
  username = user.username;
  role = role_text user.role;
  jti = jti;
  tv = user.token_version;
}

abbrev pub has_user_id : String → User → Bool
has_user_id id u = str_eq u.id id
