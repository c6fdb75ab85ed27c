-- ===== src/People/Students.antt =====
-- modules/students/students.service.ts. What a query includes beside the row (tags and groups) is
-- part of the answer only and is left out. The tenant filter of `Rbac/Tenant` comes on top of the
-- scope. `related` tells whether a student has a value at a path through relations; `rank` is the
-- database's order of names; ids and times of creation are the database's.
use mib_server.Prelude.{
  ℕ, String, str_eq, Bool, true, false, not, ◌&&◌, ◌||◌, Option, none, some, List, [], ◌∷◌, Result,
  ok, err, ◌>>=◌, if◌then◌else◌, select_where, update_where,
}
use mib_server.Database.{Delegate}
use mib_server.Http.{HttpError, rethrow}
use mib_server.Lessons.Memberships.{or_else}
use mib_server.Rbac.Where.{Where, RowView, matches}
use mib_server.Rbac.Scope.{AccessContext, students_where}

pub record Student : Type 0 where
  pub id : String
  pub tenant_id : Option String
  pub user_id : Option String
  pub name : String
  pub phone : Option String
  pub avatar_url : Option String
  pub emergency_name : Option String
  pub emergency_phone : Option String
  pub emergency_relation : Option String
  pub joined_at : ℕ
  pub created_at : ℕ

-- A nullable column against a value; a null is equal to nothing, also in a unique index.
abbrev pub column_is : Option String → String → Bool
column_is none value = false
column_is (some column) value = str_eq column value

abbrev pub columns_meet : Option String → Option String → Bool
columns_meet none b = false
columns_meet (some a) b = column_is b a

-- The primary key, and `userId @unique`.
abbrev pub student_conflict : Student → Student → Bool
student_conflict a b = str_eq a.id b.id || columns_meet a.user_id b.user_id

-- A row of `StudentTag` or `StudentGroup`, and its primary key; a tag or group.
pub record Link : Type 0 where
  pub student_id : String
  pub label_id : String

abbrev pub link_conflict : Link → Link → Bool
link_conflict a b = str_eq a.student_id b.student_id && str_eq a.label_id b.label_id

pub record Label : Type 0 where
  pub id : String
  pub name : String

abbrev pub label_conflict : Label → Label → Bool
label_conflict a b = str_eq a.id b.id || str_eq a.name b.name

-- A row of another table that belongs to a student: ClassStudent (by its class), MembershipCard,
-- LessonTransaction, LeaveRequest, AttendanceRecord; and an order, which may have one.
pub record Dependent : Type 0 where
  pub id : String
  pub student_id : String

pub record OrderLink : Type 0 where
  pub id : String
  pub student_id : Option String

pub record StudentDb : Type 0 where
  pub students : List Student
  pub student_tags : List Link
  pub student_groups : List Link
  pub tags : List Label
  pub groups : List Label
  pub class_students : List Dependent
  pub membership_cards : List Dependent
  pub lesson_transactions : List Dependent
  pub leave_requests : List Dependent
  pub attendance_records : List Dependent
  pub orders : List OrderLink

-- dto/create-student.dto.ts and dto/update-student.dto.ts, with the time parsed
pub record CreateStudentDto : Type 0 where
  pub name : String
  pub phone : Option String
  pub avatar_url : Option String
  pub emergency_name : Option String
  pub emergency_phone : Option String
  pub emergency_relation : Option String
  pub joined_at : Option ℕ
  pub user_id : Option String
  pub tenant_id : Option String

pub record UpdateStudentDto : Type 0 where
  pub name : Option String
  pub phone : Option String
  pub avatar_url : Option String
  pub emergency_name : Option String
  pub emergency_phone : Option String
  pub emergency_relation : Option String
  pub joined_at : Option ℕ
  pub user_id : Option String
  pub tenant_id : Option String

-- `a ?? b`, where both may be missing.
abbrev pub or_option {ℓ} : {A : Type ℓ} → Option A → Option A → Option A
or_option none b = b
or_option (some a) b = some a

abbrev pub first_of : List String → Option String
first_of [] = none
first_of (t ∷ ts) = some t

-- `dto.tenantId ?? ctx?.activeTenantId ?? ctx?.tenantIds[0]`
unfoldable pub default_tenant : Option AccessContext → Option String → Option String
default_tenant none tenant_id = tenant_id
default_tenant (some ctx) tenant_id =
    or_option tenant_id (or_option ctx.active_tenant_id (first_of ctx.tenant_ids))

-- `...dto` over a row: a field that is undefined leaves its column.
abbrev pub student_data : UpdateStudentDto → Student → Student
student_data dto s = record s {
  name = or_else dto.name s.name;
  phone = or_option dto.phone s.phone;
  avatar_url = or_option dto.avatar_url s.avatar_url;
  emergency_name = or_option dto.emergency_name s.emergency_name;
  emergency_phone = or_option dto.emergency_phone s.emergency_phone;
  emergency_relation = or_option dto.emergency_relation s.emergency_relation;
  joined_at = or_else dto.joined_at s.joined_at;
  user_id = or_option dto.user_id s.user_id;
  tenant_id = or_option dto.tenant_id s.tenant_id;
}

abbrev pub reverse_onto {ℓ} : {A : Type ℓ} → List A → List A → List A
reverse_onto [] done = done
reverse_onto (x ∷ xs) done = reverse_onto xs (x ∷ done)

-- A student as a filter sees it.
unfoldable pub student_view : (Student → String → String → Bool) → Student → RowView
student_view related s path value =
    if str_eq path "id"
    then str_eq s.id value
    else if str_eq path "tenantId"
    then column_is s.tenant_id value
    else related s path value

abbrev pub has_student_id : String → Student → Bool
has_student_id id s = str_eq s.id id

abbrev pub is_link : String → String → Link → Bool
is_link student_id label_id l = str_eq l.student_id student_id && str_eq l.label_id label_id

-- `onDelete: Cascade` of prisma/schema.prisma
abbrev pub without_student : String → List Link → List Link
without_student id links = select_where (λ (l : Link). not (str_eq l.student_id id)) links

abbrev pub without_dependents : String → List Dependent → List Dependent
without_dependents id rows = select_where (λ (r : Dependent). not (str_eq r.student_id id)) rows

-- `onDelete: SetNull`, which is Prisma's default for an optional relation
abbrev pub unlink_orders : String → List OrderLink → List OrderLink
unlink_orders id orders =
    update_where (λ (o : OrderLink). column_is o.student_id id)
      (λ (o : OrderLink). record o { student_id = none }) orders

-- `if (!row) throw new NotFoundException(…)`
abbrev pub found_or : {A : Type 0} → String → Option A → Result HttpError A
found_or message none = err (HttpError.not_found message)
found_or message (some row) = ok row

module _ (students : Delegate Student student_conflict) (links : Delegate Link link_conflict)
    (labels : Delegate Label label_conflict) (related : Student → String → String → Bool)
    (rank : String → ℕ) (ctx : Option AccessContext) where
  -- `create`, with the new row's id and the time
  unfoldable pub create :
      String → ℕ → CreateStudentDto → StudentDb → Result HttpError (Student × StudentDb)
  unfolding default_tenant
  create id now dto db =
      let student : Student = record {
        id = id;
        tenant_id = default_tenant ctx dto.tenant_id;
        user_id = dto.user_id;
        name = dto.name;
        phone = dto.phone;
        avatar_url = dto.avatar_url;
        emergency_name = dto.emergency_name;
        emergency_phone = dto.emergency_phone;
        emergency_relation = dto.emergency_relation;
        joined_at = or_else dto.joined_at now;
        created_at = now;
      } in
      rethrow (students.create student db.students) >>= λ t.
      ok (student, record db { students = t })

  -- `findAll`, the newest first
  unfoldable pub find_all : StudentDb → List Student
  unfolding student_view
  find_all db =
      reverse_onto
        (students.find_many (λ s. matches (student_view related s) (students_where ctx none))
          (λ s. s.created_at) db.students)
        []

  -- `findOne`
  unfoldable pub find_one : String → StudentDb → Result HttpError Student
  unfolding student_view
  find_one id db = found_or "学员不存在" (
      students.find_first
        (λ s. matches (student_view related s) (students_where ctx (some (Where.equals "id" id))))
        db.students)

  -- `update`; here and below `meanwhile` is what other requests commit between the look-up and the
  -- write
  unfoldable pub update :
      (StudentDb → StudentDb)
      → String
      → UpdateStudentDto
      → StudentDb
      → Result HttpError (Student × StudentDb)
  unfolding find_one
  update meanwhile id dto db = find_one id db >>= λ _.
      let now : StudentDb = meanwhile db in
      rethrow (students.update (has_student_id id) (student_data dto) now.students) >>= λ r.
      ok (r.0, record now { students = r.1 })

  -- `remove`, and what the database does to the rows that refer to the student
  unfoldable pub remove : (StudentDb → StudentDb) → String → StudentDb → Result HttpError StudentDb
  unfolding find_one
  remove meanwhile id db = find_one id db >>= λ _.
      let now : StudentDb = meanwhile db in
      rethrow (students.delete (has_student_id id) now.students) >>= λ t. ok (record now {
        students = t;
        student_tags = without_student id now.student_tags;
        student_groups = without_student id now.student_groups;
        class_students = without_dependents id now.class_students;
        membership_cards = without_dependents id now.membership_cards;
        lesson_transactions = without_dependents id now.lesson_transactions;
        leave_requests = without_dependents id now.leave_requests;
        attendance_records = without_dependents id now.attendance_records;
        orders = unlink_orders id now.orders;
      })

  -- `addTag`, `addGroup`
  unfoldable pub add_tag :
      (StudentDb → StudentDb) → String → String → StudentDb → Result HttpError (Link × StudentDb)
  unfolding find_one
  add_tag meanwhile student_id tag_id db = find_one student_id db >>= λ _.
      let now : StudentDb = meanwhile db in
      let link : Link = record { student_id = student_id; label_id = tag_id } in
      rethrow (links.create link now.student_tags) >>= λ t.
      ok (link, record now { student_tags = t })

  unfoldable pub add_group :
      (StudentDb → StudentDb) → String → String → StudentDb → Result HttpError (Link × StudentDb)
  unfolding find_one
  add_group meanwhile student_id group_id db = find_one student_id db >>= λ _.
      let now : StudentDb = meanwhile db in
      let link : Link = record { student_id = student_id; label_id = group_id } in
      rethrow (links.create link now.student_groups) >>= λ t.
      ok (link, record now { student_groups = t })

  -- `removeTag`, `removeGroup`
  unfoldable pub remove_tag : String → String → StudentDb → Result HttpError StudentDb
  remove_tag student_id tag_id db =
      rethrow (links.delete (is_link student_id tag_id) db.student_tags) >>= λ t.
      ok (record db { student_tags = t })

  unfoldable pub remove_group : String → String → StudentDb → Result HttpError StudentDb
  remove_group student_id group_id db =
      rethrow (links.delete (is_link student_id group_id) db.student_groups) >>= λ t.
      ok (record db { student_groups = t })

  -- `listTags`, `listGroups`, `createTag`, `createGroup`
  unfoldable pub list_tags : StudentDb → List Label
  list_tags db = labels.find_many (λ _. true) (λ l. rank l.name) db.tags

  unfoldable pub list_groups : StudentDb → List Label
  list_groups db = labels.find_many (λ _. true) (λ l. rank l.name) db.groups

  unfoldable pub create_tag : String → String → StudentDb → Result HttpError (Label × StudentDb)
  create_tag id name db = rethrow (labels.create (record { id = id; name = name }) db.tags) >>= λ t.
      ok (record { id = id; name = name }, record db { tags = t })

  unfoldable pub create_group : String → String → StudentDb → Result HttpError (Label × StudentDb)
  create_group id name db =
      rethrow (labels.create (record { id = id; name = name }) db.groups) >>= λ t.
      ok (record { id = id; name = name }, record db { groups = t })
