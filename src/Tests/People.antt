-- ===== src/Tests/People.antt =====
-- A member of staff of the northern tenant and a student of the southern.
use mib_server.Prelude.{ℕ, ◌≡◌, refl, String, Bool, false, none, some, [], ◌∷◌, err}
use mib_server.Http.{HttpError}
use mib_server.Database.Memory.{memory}
use mib_server.Rbac.Permissions.{UserRole}
use mib_server.Rbac.Scope.{AccessContext, DataScopeKind}
use mib_server.People.Students.{
  Student, StudentDb, UpdateStudentDto, student_conflict, link_conflict, label_conflict, find_one,
  update, remove, add_tag, add_group,
}
use mib_server.People.Hidden.{hidden-not_found}

abbrev staff : AccessContext
staff = record {
  user_id = "kim";
  role = UserRole.staff;
  permissions = [];
  tenant_ids = "north" ∷ [];
  active_tenant_id = some "north";
  coach_id = none;
  student_id = none;
  data_scope = DataScopeKind.organization;
}

abbrev amy : Student
amy = record {
  id = "amy";
  tenant_id = some "south";
  user_id = none;
  name = "Amy";
  phone = none;
  avatar_url = none;
  emergency_name = none;
  emergency_phone = none;
  emergency_relation = none;
  joined_at = 0;
  created_at = 0;
}

abbrev db : StudentDb
db = record {
  students = amy ∷ [];
  student_tags = [];
  student_groups = [];
  tags = [];
  groups = [];
  class_students = [];
  membership_cards = record { id = "c1"; student_id = "amy" } ∷ [];
  lesson_transactions = [];
  leave_requests = [];
  attendance_records = [];
  orders = [];
}

abbrev rename : UpdateStudentDto
rename = record {
  name = some "Ann";
  phone = none;
  avatar_url = none;
  emergency_name = none;
  emergency_phone = none;
  emergency_relation = none;
  joined_at = none;
  user_id = none;
  tenant_id = none;
}

abbrev unrelated : Student → String → String → Bool
unrelated s path value = false

abbrev by_any : String → ℕ
by_any name = 0

hidden-not_found_example :
    (find_one
        (memory student_conflict)
        (memory link_conflict)
        (memory label_conflict)
        unrelated
        by_any
        (some staff)
        "amy"
        db
      ≡ err (HttpError.not_found "学员不存在"))
    × (update
          (memory student_conflict)
          (memory link_conflict)
          (memory label_conflict)
          unrelated
          by_any
          (some staff)
          (λ d. d)
          "amy"
          rename
          db
        ≡ err (HttpError.not_found "学员不存在"))
    × (remove
          (memory student_conflict)
          (memory link_conflict)
          (memory label_conflict)
          unrelated
          by_any
          (some staff)
          (λ d. d)
          "amy"
          db
        ≡ err (HttpError.not_found "学员不存在"))
    × (add_tag
          (memory student_conflict)
          (memory link_conflict)
          (memory label_conflict)
          unrelated
          by_any
          (some staff)
          (λ d. d)
          "amy"
          "new"
          db
        ≡ err (HttpError.not_found "学员不存在"))
    × (add_group
          (memory student_conflict)
          (memory link_conflict)
          (memory label_conflict)
          unrelated
          by_any
          (some staff)
          (λ d. d)
          "amy"
          "new"
          db
        ≡ err (HttpError.not_found "学员不存在"))
hidden-not_found_example =
    hidden-not_found unrelated staff "amy" (memory student_conflict) (memory link_conflict)
      (memory label_conflict) by_any (λ d. d) rename "new" db refl refl ((λ _. refl), tt)
