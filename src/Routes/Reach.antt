-- ===== src/Routes/Reach.antt =====
-- Who reaches which route: the controllers behind common/guards.
use mib_server.Prelude.{
  ◌≡◌, refl, String, Bool, true, false, not, ◌&&◌, ◌||◌, none, some, List, [], ◌∷◌, all, Member,
  inl, inr, Bool-cases, and-eq-true,
}
use mib_server.Rbac.Permissions.{GuardUser, includes, has_permission, has_any_permission}
use mib_server.Routes.{Route, is_write, admits}
use mib_server.Routes.Services.{all_routes}

-- What nobody has to sign in for, and what a student may change.
abbrev pub public_paths : List String
public_paths = "auth/login" ∷ "webhooks/payment" ∷ "health" ∷ []

abbrev pub student_paths : List String
student_paths =
    "auth/login" ∷ "auth/change-password" ∷ "auth/logout" ∷ "attendance/check-in"
    ∷ "attendance/check-out" ∷ "webhooks/payment" ∷ []

abbrev pub student_with : List String → GuardUser
student_with permissions = record { role = "STUDENT"; permissions = permissions }

abbrev stays_within : List String → Route → Bool
stays_within permissions r =
    (not (admits none r) || includes public_paths r.path)
    && (not (admits (some (student_with permissions)) r)
        || not (is_write r.verb)
        || includes student_paths r.path)

all_stay_within :
    (permissions : List String)
    → has_permission permissions "schedules:write" ≡ false
    → all (stays_within permissions) all_routes ≡ true
unfolding admits has_any_permission
all_stay_within permissions h = elim (Bool-cases (has_permission permissions "schedules:read")) [
  | inl r ↦ rw h (rw r refl)
  | inr r ↦ rw h (rw r refl)
]

-- Each test of the list holds of each member.
test_of_all :
    (p : Route → Bool) (rs : List Route) (r : Route) → all p rs ≡ true → Member r rs → p r ≡ true
test_of_all p [] r h m = absurd m
test_of_all p (x ∷ rs) r h (inl e) = rw e (and-eq-true (p x) (all p rs) h).0
test_of_all p (x ∷ rs) r h (inr m) = test_of_all p rs r (and-eq-true (p x) (all p rs) h).1 m

-- Without signing in only the login, the signed webhook and the health check are reached; and a
-- student whose permissions do not allow to write schedules reaches no handler that writes but those
-- of check-in, check-out, login, logout, the own password and the signed webhook.
pub routes-confined :
    (permissions : List String) (r : Route)
    → has_permission permissions "schedules:write" ≡ false
    → Member r all_routes
    → (admits none r ≡ true → includes public_paths r.path ≡ true)
      × (admits (some (student_with permissions)) r ≡ true
          → is_write r.verb ≡ true
          → includes student_paths r.path ≡ true)
routes-confined permissions r h m =
    let within =
      test_of_all (stays_within permissions) all_routes r (all_stay_within permissions h) m in
    let (open_ok, student_ok) =
      and-eq-true (not (admits none r) || includes public_paths r.path) _ within in
    (λ passed. rw passed at open_ok, λ passed writes. rw writes at (rw passed at student_ok))
