-- ===== src/Auth/Revocation.antt =====
-- When the tokens of modules/auth stop being accepted by `JwtStrategy.validate`.
use mib_server.Prelude.{
  ◌≤◌, ℕ, ◌+◌, ◌≡◌, ◌≢◌, refl, sym, ap, ◌∙◌, subst, String, str_eq, Bool, true, false, ◌||◌, not,
  inl, inr, Option, none, some, List, [], ◌∷◌, arith, ok, err, ◌>>=◌, >>=-eq-ok, ok-injective,
  Bool-cases, eq_refl, if◌then◌else◌, ◌==◌, ltb, first_match, update_where,
}
use mib_server.Database.{Delegate}
use mib_server.Http.{HttpError, rethrow}
use mib_server.Redis.Store.{Server, set, exists}
use mib_server.Redis.Locks.{blacklist_token, is_token_blacklisted, token_blacklist_key}
use mib_server.Redis.LoginSecurity.{LoginLimits}
use mib_server.Courses.Preservation.{rethrow-eq-ok}
use mib_server.Auth.Data.{
  User, TenantRow, JwtPayload, Bcrypt, AuthState, ChangePasswordDto, tenant_conflict, user_conflict,
  has_user_id, build_auth_response,
}
use mib_server.Auth.Service.{set_password, change_password, logout, validate}

-- The first row that passes a test is still the first after an update that keeps the test.
first_match-update_where :
    {R : Type 0} (p : R → Bool) (f : R → R) (t : List R) {a : R}
    → ((x : R) → p (f x) ≡ p x)
    → first_match p t ≡ some a
    → first_match p (update_where p f t) ≡ some (f a)
first_match-update_where p f [] keeps h = absurd (cc)
first_match-update_where p f (x ∷ t) {a} keeps h = elim (Bool-cases (p x)) [
  | inl e ↦
      let hit : p (f x) ≡ true = keeps x ∙ e in
      let one : some x ≡ some a = rw e at h in
      let same : x ≡ a = cc in rw e (rw hit (ap (λ y. some (f y)) same))
  | inr e ↦ rw e (rw e (first_match-update_where p f t keeps (rw e at h)))
]

module _ {R : Type 0} (server : Server R) (limits : LoginLimits)
    (tenants : Delegate TenantRow tenant_conflict) (users : Delegate User user_conflict)
    (bcrypt : Bcrypt) where
  -- A token of another version than its user's is refused.
  validate-stale :
      (later : ℕ) (payload : JwtPayload) (s : AuthState R) (user u : User)
      → first_match (has_user_id payload.sub) s.users ≡ some user
      → (user.token_version == payload.tv) ≡ false
      → validate server limits tenants users bcrypt later payload s ≢ ok u
  unfolding validate
  validate-stale later payload s user u found stale k =
      elim (Bool-cases (str_eq payload.sub "" || str_eq payload.jti "")) [
        | inl e ↦ cc (rw e at k)
        | inr e ↦ elim (Bool-cases (is_token_blacklisted server later payload.jti s.redis)) [
          | inl e' ↦ cc (rw e' at (rw e at k))
          | inr e' ↦ cc (simp (e, e', users.find_first_law, found, stale) at k)
        ]
      ]

  -- What the table of users is after a change of password.
  change_password-users :
      (meanwhile : List User → List User) (user_id jti salt : String) (dto : ChangePasswordDto)
      (s : AuthState R) {q : JwtPayload × AuthState R}
      → change_password server limits tenants users bcrypt meanwhile user_id jti salt dto s ≡ ok q
      → q.1.users
        ≡ update_where
            (has_user_id user_id)
            (set_password server limits tenants users bcrypt salt dto.new_password)
            (meanwhile s.users)
  unfolding change_password
  change_password-users meanwhile user_id jti salt dto s {q} h =
      go (users.find_first (has_user_id user_id) s.users) h
    where
      change : User → User
      change = set_password server limits tenants users bcrypt salt dto.new_password

      go :
          (found : Option User)
          → (elim found [
            | none ↦ err (HttpError.unauthorized "用户不存在")
            | some user ↦
                if not (bcrypt.compare dto.current_password user.password_hash)
                then err (HttpError.unauthorized "当前密码错误")
                else rethrow (users.update (has_user_id user_id) change (meanwhile s.users))
                  >>= λ r. ok (build_auth_response jti r.0, record s { users = r.1 })
          ])
            ≡ ok q
          → q.1.users ≡ update_where (has_user_id user_id) change (meanwhile s.users)
      go none a = absurd (cc)
      go (some user) a =
          elim (Bool-cases (not (bcrypt.compare dto.current_password user.password_hash))) [
            | inl e ↦ absurd (cc (rw e at a))
            | inr e ↦
                let (r, updated, a') =
                  >>=-eq-ok
                    (rethrow (users.update (has_user_id user_id) change (meanwhile s.users))) _
                    (rw e at a) in
                subst
                  (λ (p : JwtPayload × AuthState R).
                    p.1.users ≡ update_where (has_user_id user_id) change (meanwhile s.users))
                  (ok-injective a')
                  (users.update_ok (has_user_id user_id) change (meanwhile s.users)
                    (rethrow-eq-ok _ updated)).0
          ]

  -- Once a user has changed the password, whatever other requests did to the users between its read
  -- and its write, no token of the user with the version that the row had before the write, or with
  -- a lower one, is accepted at any time while the users stay as the change left them.
  pub change_password-revokes :
      (meanwhile : List User → List User) (user_id jti salt : String) (dto : ChangePasswordDto)
      (payload : JwtPayload) (s : AuthState R) (user u : User) (later : ℕ)
      {q : JwtPayload × AuthState R}
      → first_match (has_user_id user_id) (meanwhile s.users) ≡ some user
      → payload.sub ≡ user_id
      → payload.tv ≤ user.token_version
      → change_password server limits tenants users bcrypt meanwhile user_id jti salt dto s ≡ ok q
      → validate server limits tenants users bcrypt later payload q.1 ≢ ok u
  change_password-revokes meanwhile user_id jti salt dto payload s user u later {q} found named old
        h =
      let change = set_password server limits tenants users bcrypt salt dto.new_password in
      let still : first_match (has_user_id user_id) q.1.users ≡ some (change user) =
        rw (change_password-users meanwhile user_id jti salt dto s h) (
          first_match-update_where (has_user_id user_id) change (meanwhile s.users) (λ x. refl)
            found) in
      validate-stale later payload q.1 (change user) u
        (subst (λ i. first_match (has_user_id i) q.1.users ≡ some (change user)) (sym named) still)
        (ground arith)

  -- A token that was logged out is refused for as long as the blacklist keeps it.
  pub logout-revokes :
      (now later ttl : ℕ) (payload : JwtPayload) (s : AuthState R) (u : User)
      → ltb 0 ttl ≡ true
      → ltb later (now + ttl) ≡ true
      → validate server limits tenants users bcrypt later payload
          (logout server limits tenants users bcrypt now ttl payload.jti s)
        ≢ ok u
  unfolding validate logout blacklist_token is_token_blacklisted exists set
  logout-revokes now later ttl payload s u some_time soon k =
      let there : is_token_blacklisted server later payload.jti
            (blacklist_token server now payload.jti ttl s.redis)
          ≡ true =
        simp
          (some_time, server.get_put_ex, eq_refl (token_blacklist_key server payload.jti), soon) in
      elim (Bool-cases (str_eq payload.sub "" || str_eq payload.jti "")) [
        | inl e ↦ cc (rw e at k)
        | inr e ↦ cc (rw there at (rw e at k))
      ]
