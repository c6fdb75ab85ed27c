-- ===== src/Auth/Service.antt =====
-- modules/auth/auth.service.ts and modules/auth/jwt/jwt.strategy.ts. The password hash of bcrypt and
-- the random ids are arguments; a token is its payload, which the JWT library signs and returns.
use mib_server.Prelude.{
  ℕ, ◌+◌, String, str_eq, Bool, true, false, ◌&&◌, ◌||◌, not, Option, none, some, List, [], ◌∷◌,
  ◌++◌, Result, ok, err, ◌>>=◌, if◌then◌else◌, ◌==◌,
}
use mib_server.Database.{Delegate}
use mib_server.Http.{HttpError, rethrow}
use mib_server.Rbac.Permissions.{UserRole}
use mib_server.Rbac.Scope.{AccessContext}
use mib_server.Rbac.Tenant.{resolve_tenant_id_for_write}
use mib_server.Lessons.Memberships.{or_else}
use mib_server.Redis.Store.{Server}
use mib_server.Redis.Locks.{blacklist_token, is_token_blacklisted}
use mib_server.Redis.LoginSecurity.{
  LoginLimits, assert_can_attempt_login, record_login_failure, clear_login_failures,
}
use mib_server.Auth.Data.{
  AuthState, Bcrypt, ChangePasswordDto, JwtPayload, LoginDto, RegisterDto, TenantRow, User,
  build_auth_response, has_user_id, tenant_code_or_default, tenant_conflict, tenant_is,
  user_conflict,
}

module _ {R : Type 0} (server : Server R) (limits : LoginLimits)
    (tenants : Delegate TenantRow tenant_conflict) (users : Delegate User user_conflict)
    (bcrypt : Bcrypt) where
  -- `recordLoginEvent`; the columns about the client are left out
  abbrev pub record_login_event :
      Option String → String → Bool → Option String → AuthState R → AuthState R
  record_login_event user_id username success reason s = record s {
    events =
        s.events
        ++ record { user_id = user_id; username = username; success = success; reason = reason }
          ∷ [];
  }

  -- The answer of `login` to a wrong user name or password.
  unfoldable pub reject_login :
      ℕ
      → String
      → Option String
      → String
      → String
      → AuthState R
      → Result HttpError JwtPayload × AuthState R
  unfolding record_login_failure
  reject_login now ip user_id username reason s =
      let (lock, redis) = record_login_failure server limits now ip username s.redis in
      let s' =
        record_login_event user_id username false (some reason) (record s { redis = redis }) in
      (
        err (
            HttpError.unauthorized
              (if lock.0 && str_eq reason "bad_password" then "登录失败次数过多，账号已锁定" else "用户名或密码错误")),
        s',
      )

  -- The answer to a right one.
  unfoldable pub accept_login :
      ℕ → String → String → User → AuthState R → Result HttpError JwtPayload × AuthState R
  unfolding clear_login_failures build_auth_response
  accept_login now jti username user s = (
    ok (build_auth_response jti user),
    record_login_event (some user.id) user.username true none
        (record s { redis = clear_login_failures server limits now username s.redis }),
  )

  -- `login` behind the limits, with the tenant found; `meanwhile` is what other requests do between
  -- the look-up of the user, with the slow comparison of hashes, and what is recorded
  unfoldable pub login_in_tenant :
      (AuthState R → AuthState R)
      → ℕ
      → String
      → String
      → LoginDto
      → TenantRow
      → AuthState R
      → Result HttpError JwtPayload × AuthState R
  unfolding reject_login accept_login
  login_in_tenant meanwhile now ip jti dto tenant s =
      elim (users.find_first
        (λ u. tenant_is u.tenant_id tenant.id && str_eq u.username dto.username) s.users) [
          | none ↦ reject_login now ip none dto.username "user_not_found" (meanwhile s)
          | some user ↦
              if bcrypt.compare dto.password user.password_hash
              then accept_login now jti dto.username user (meanwhile s)
              else reject_login now ip (some user.id) dto.username "bad_password" (meanwhile s)
        ]

  -- `login`; `trim` belongs to the runtime
  unfoldable pub login :
      (String → String)
      → (AuthState R → AuthState R)
      → ℕ
      → String
      → String
      → LoginDto
      → List TenantRow
      → AuthState R
      → Result HttpError JwtPayload × AuthState R
  unfolding login_in_tenant assert_can_attempt_login
  login trim meanwhile now ip jti dto rows s =
      let (allowed, redis) = assert_can_attempt_login server limits now ip dto.username s.redis in
      let s' : AuthState R = record s { redis = redis } in
      elim allowed [
        | err e ↦ (err e, s')
        | ok _ ↦
            elim (tenants.find_first
              (λ t. str_eq t.code (tenant_code_or_default trim dto.tenant_code)) rows) [
                | none ↦ (err (HttpError.unauthorized "用户名或密码错误"), s')
                | some tenant ↦ login_in_tenant meanwhile now ip jti dto tenant s'
              ]
      ]

  -- `register`, in the request's context; `id`, `jti` and `salt` are random, and
  -- `meanwhile` is what other requests do to the users between the look-up and the insert
  unfoldable pub register :
      (List User → List User)
      → Option AccessContext
      → String
      → String
      → String
      → RegisterDto
      → AuthState R
      → Result HttpError (JwtPayload × AuthState R)
  unfolding build_auth_response
  register meanwhile ctx id jti salt dto s = elim (resolve_tenant_id_for_write ctx) [
    | none ↦ err (HttpError.conflict "无法确定租户，请设置 X-Tenant-Id")
    | some tenant_id ↦
        if str_eq tenant_id ""
        then err (HttpError.conflict "无法确定租户，请设置 X-Tenant-Id")
        else elim (users.find_first
            (λ u. tenant_is u.tenant_id tenant_id && str_eq u.username dto.username) s.users) [
              | some _ ↦ err (HttpError.conflict "用户名已存在")
              | none ↦
                  let user : User = record {
                    id = id;
                    tenant_id = some tenant_id;
                    username = dto.username;
                    password_hash = bcrypt.hash salt dto.password;
                    role = or_else dto.role UserRole.staff;
                    token_version = 0;
                  } in
                  rethrow (users.create user (meanwhile s.users)) >>= λ t.
                  ok (build_auth_response jti user, record s { users = t })
            ]
  ]

  -- `{ passwordHash, tokenVersion: { increment: 1 } }`
  abbrev pub set_password : String → String → User → User
  set_password salt password u = record u {
    password_hash = bcrypt.hash salt password;
    token_version = u.token_version + 1;
  }

  -- `changePassword`; `meanwhile` is what other requests do to the users between the read and the
  -- update
  unfoldable pub change_password :
      (List User → List User)
      → String
      → String
      → String
      → ChangePasswordDto
      → AuthState R
      → Result HttpError (JwtPayload × AuthState R)
  unfolding build_auth_response
  change_password meanwhile user_id jti salt dto s =
      elim (users.find_first (has_user_id user_id) s.users) [
        | none ↦ err (HttpError.unauthorized "用户不存在")
        | some user ↦
            if not (bcrypt.compare dto.current_password user.password_hash)
            then err (HttpError.unauthorized "当前密码错误")
            else rethrow (
                users.update (has_user_id user_id) (set_password salt dto.new_password)
                  (meanwhile s.users))
              >>= λ r. ok (build_auth_response jti r.0, record s { users = r.1 })
      ]

  -- `logout`: the token's id goes on the blacklist for the lifetime of a token
  unfoldable pub logout : ℕ → ℕ → String → AuthState R → AuthState R
  unfolding blacklist_token
  logout now ttl jti s = record s { redis = blacklist_token server now jti ttl s.redis }

  -- `JwtStrategy.validate`: the user that a verified payload stands for; the access context is
  -- built after it, from that user
  unfoldable pub validate : ℕ → JwtPayload → AuthState R → Result HttpError User
  unfolding is_token_blacklisted
  validate now payload s =
      if str_eq payload.sub "" || str_eq payload.jti ""
      then err (HttpError.unauthorized "无效的令牌")
      else if is_token_blacklisted server now payload.jti s.redis
      then err (HttpError.unauthorized "令牌已失效")
      else elim (users.find_first (has_user_id payload.sub) s.users) [
        | none ↦ err (HttpError.unauthorized "令牌已失效，请重新登录")
        | some user ↦
            if user.token_version == payload.tv
            then ok user
            else err (HttpError.unauthorized "令牌已失效，请重新登录")
      ]
