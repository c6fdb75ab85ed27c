-- ===== src/Courses/Classes.antt =====
-- modules/courses/courses.service.ts: classes and the enrolment of students.
use mib_server.Prelude.{
  String, str_eq, Bool, true, ◌&&◌, List, Result, ok, err, ◌>>=◌, if◌then◌else◌, [],
}
use mib_server.Database.{DbError, Delegate, is_prisma_unique_violation}
use mib_server.Http.{HttpError, rethrow}
use mib_server.People.Students.{found_or, reverse_onto}
use mib_server.Courses.Catalog.{
  Class, ClassStudent, ClassDto, class_key_conflict, class_student_conflict, class_data,
}

module _ (classes : Delegate Class class_key_conflict) where
  -- `createClass`, of the row with its id and time
  unfoldable pub create_class : Class → List Class → Result HttpError (Class × List Class)
  create_class row t = rethrow (classes.create row t) >>= λ t'. ok (row, t')

  -- `listClasses`, the newest first
  unfoldable pub list_classes : List Class → List Class
  list_classes t = reverse_onto (classes.find_many (λ _. true) (λ c. c.created_at) t) []

  -- `getClass`
  unfoldable pub get_class : String → List Class → Result HttpError Class
  get_class id t = found_or "?????" (classes.find_first (λ c. str_eq c.id id) t)

  -- `updateClass`; here and below `meanwhile` is what other requests commit between the read and the
  -- write
  unfoldable pub update_class :
      (List Class → List Class)
      → String
      → ClassDto
      → List Class
      → Result HttpError (Class × List Class)
  unfolding get_class
  update_class meanwhile id dto t = get_class id t >>= λ _.
      rethrow (classes.update (λ c. str_eq c.id id) (class_data dto) (meanwhile t))

  -- `deleteClass`
  unfoldable pub delete_class :
      (List Class → List Class) → String → List Class → Result HttpError (List Class)
  unfolding get_class
  delete_class meanwhile id t =
      get_class id t >>= λ _. rethrow (classes.delete (λ c. str_eq c.id id) (meanwhile t))

-- The `catch` of `enrollStudent`.
abbrev pub as_enrolment :
    ClassStudent
    → Result DbError (List ClassStudent)
    → Result HttpError (ClassStudent × List ClassStudent)
as_enrolment row (ok t) = ok (row, t)
as_enrolment row (err error) =
    if is_prisma_unique_violation error
    then err (HttpError.conflict "????????")
    else err (HttpError.database error)

abbrev pub is_enrolment : String → String → ClassStudent → Bool
is_enrolment class_id student_id e = str_eq e.class_id class_id && str_eq e.student_id student_id

module _ (classes : Delegate Class class_key_conflict)
    (enrolments : Delegate ClassStudent class_student_conflict) where
  -- `enrollStudent`
  unfoldable pub enroll_student :
      String
      → String
      → List Class
      → List ClassStudent
      → Result HttpError (ClassStudent × List ClassStudent)
  unfolding get_class
  enroll_student class_id student_id rows t = get_class classes class_id rows >>= λ _.
      let row : ClassStudent = record { class_id = class_id; student_id = student_id } in
      as_enrolment row (enrolments.create row t)

  -- `unenrollStudent`
  unfoldable pub unenroll_student :
      String → String → List ClassStudent → Result HttpError (List ClassStudent)
  unenroll_student class_id student_id t =
      rethrow (enrolments.delete (is_enrolment class_id student_id) t)
