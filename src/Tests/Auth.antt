-- ===== src/Tests/Auth.antt =====
-- A user of modules/auth who changes the password and logs out.
use mib_server.Prelude.{arith, ◌≡◌, ◌≢◌, refl, str_eq, none, some, [], ◌∷◌, ok, eq_refl}
use mib_server.Database.Memory.{memory}
use mib_server.Rbac.Permissions.{UserRole}
use mib_server.Redis.Memory.{Keys, memory_server}
use mib_server.Redis.LoginSecurity.{LoginLimits}
use mib_server.Redis.Locks.{is_token_blacklisted}
use mib_server.Redis.Store.{exists}
use mib_server.Auth.Data.{
  User, JwtPayload, Bcrypt, AuthState, ChangePasswordDto, tenant_conflict, user_conflict,
  build_auth_response,
}
use mib_server.Auth.Service.{change_password, logout, validate}
use mib_server.Auth.Revocation.{change_password-revokes, logout-revokes}

abbrev kim : User
kim = record {
  id = "u1";
  tenant_id = some "north";
  username = "kim";
  password_hash = "old";
  role = UserRole.staff;
  token_version = 3;
}

-- A stand-in for bcrypt: the hash is the password.
abbrev plain : Bcrypt
plain = record {
  compare = str_eq;
  hash = λ salt password. password;
  compare_hash = λ salt password. eq_refl password;
}

abbrev no_keys : Keys
no_keys key = none

abbrev signed_in : AuthState Keys
signed_in = record { users = kim ∷ []; events = []; redis = no_keys }

abbrev new_password : ChangePasswordDto
new_password = record { current_password = "old"; new_password = "new" }

abbrev kim_after : User
kim_after = record kim { password_hash = "new"; token_version = 4 }

abbrev limits : LoginLimits
limits = record {
  window_seconds = 60;
  max_attempts = 5;
  lock_after_failures = 5;
  lock_seconds = 900;
}

change_first :
    change_password memory_server limits
      (memory tenant_conflict)
      (memory user_conflict)
      plain
      (λ t. t)
      "u1"
      "t2"
      "salt"
      new_password
      signed_in
    ≡ ok (build_auth_response "t2" kim_after, record signed_in { users = kim_after ∷ [] })
unfolding change_password build_auth_response
change_first = refl

change_password-revokes_example :
    validate memory_server limits
      (memory tenant_conflict)
      (memory user_conflict)
      plain
      9
      (build_auth_response "t1" kim)
      (record signed_in { users = kim_after ∷ [] })
    ≢ ok kim
unfolding build_auth_response
change_password-revokes_example =
    change_password-revokes memory_server limits (memory tenant_conflict) (memory user_conflict)
      plain (λ t. t) "u1" "t2" "salt" new_password (build_auth_response "t1" kim) signed_in kim kim
      9 refl refl (omega arith) change_first

abbrev token : JwtPayload
token = record { sub = "u1"; username = "kim"; role = "STAFF"; jti = "t1"; tv = 3 }

-- The token is accepted before.
validate_before :
    validate memory_server limits
      (memory tenant_conflict)
      (memory user_conflict)
      plain
      9
      token
      signed_in
    ≡ ok kim
unfolding validate is_token_blacklisted exists
validate_before = refl

logout-revokes_example :
    validate memory_server limits (memory tenant_conflict) (memory user_conflict) plain 9 token (
      logout memory_server limits
        (memory tenant_conflict)
        (memory user_conflict)
        plain
        5
        60
        "t1"
        signed_in)
    ≢ ok kim
logout-revokes_example =
    logout-revokes memory_server limits (memory tenant_conflict) (memory user_conflict) plain 5 9 60
      token signed_in kim refl refl
