-- ===== src/Routes.antt =====
-- The routes of the controllers: which guards stand before each, and what they ask for. Decorators
-- that describe a route for the documentation are left out.
pub mod People
pub mod Courses
pub mod Services
pub mod Reach
use mib_server.Prelude.{
  String, Bool, true, false, not, ◌&&◌, ◌||◌, Option, none, some, List, [], ◌∷◌, map, Result, ok,
  err,
}
use mib_server.Http.{HttpError}
use mib_server.Rbac.Permissions.{UserRole, role_text, GuardUser, can_activate}

pub data Verb : Type 0 where
  get post patch delete : Verb

abbrev pub is_write : Verb → Bool
is_write Verb.get = false
is_write _ = true

-- A handler: `jwt` and `guarded` for `JwtAuthGuard` and `RolesGuard`, the metadata that `RolesGuard`
-- reads, the scope of `@ApiIdempotent`, and the description of `@AuditAction`.
pub record Route : Type 0 where
  pub verb : Verb
  pub path : String
  pub handler : String
  pub jwt : Bool
  pub guarded : Bool
  pub roles : List UserRole
  pub permissions : List String
  pub idempotency : Option String
  pub audit : Option String

-- `getAllAndOverride([handler, class])`
abbrev pub override : Option (List UserRole) → List UserRole → List UserRole
override none of_class = of_class
override (some of_handler) of_class = of_handler

-- A handler of a controller behind both guards, with the roles of the class and its own.
abbrev pub in_class : List UserRole → Verb → String → String → Option (List UserRole) → Route
in_class of_class verb path handler of_handler = record {
  verb = verb;
  path = path;
  handler = handler;
  jwt = true;
  guarded = true;
  roles = override of_handler of_class;
  permissions = [];
  idempotency = none;
  audit = none;
}

abbrev pub is_passed : Result HttpError Bool → Bool
is_passed (ok b) = b
is_passed (err e) = false

abbrev pub is_present : Option GuardUser → Bool
is_present none = false
is_present (some user) = true

-- Whether the guards let a request of a user, or of nobody, through.
unfoldable pub admits : Option GuardUser → Route → Bool
unfolding can_activate
admits user r =
    (not r.jwt || is_present user)
    && (not r.guarded || is_passed (can_activate r.permissions (map role_text r.roles) user))

abbrev pub managers : List UserRole
managers = UserRole.admin ∷ UserRole.staff ∷ []

abbrev pub all_staff : List UserRole
all_staff = UserRole.admin ∷ UserRole.staff ∷ UserRole.coach ∷ []
