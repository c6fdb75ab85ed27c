-- ===== src/Courses/Catalog.antt =====
-- modules/courses/courses.service.ts: course types, venues, classes and enrolment. What a query
-- includes beside the row is part of the answer only and is left out. `rank` is the database's order
-- of names; ids and times of creation are the database's, coordinates are of any type.
use mib_server.Prelude.{ℕ, String, str_eq, Bool, true, ◌&&◌, Option, List, Result, ok, ◌>>=◌}
use mib_server.Database.{Delegate}
use mib_server.Http.{HttpError, rethrow}
use mib_server.Lessons.Memberships.{or_else}
use mib_server.People.Students.{found_or, or_option}

pub data CourseKind : Type 0 where
  group private large_class : CourseKind

pub record CourseType : Type 0 where
  pub id : String
  pub kind : CourseKind
  pub name : String
  pub default_lesson_deduct : ℕ

pub record Venue (Degrees : Type 0) : Type 0 where
  pub id : String
  pub name : String
  pub address : Option String
  pub latitude : Option Degrees
  pub longitude : Option Degrees
  pub geofence_radius_m : Option ℕ

pub record Class : Type 0 where
  pub id : String
  pub course_type_id : String
  pub name : String
  pub coach_id : Option String
  pub max_students : Option ℕ
  pub created_at : ℕ

-- `ClassStudent`, with its primary key
pub record ClassStudent : Type 0 where
  pub class_id : String
  pub student_id : String

abbrev pub course_type_conflict : CourseType → CourseType → Bool
course_type_conflict a b = str_eq a.id b.id

abbrev pub venue_conflict : {Degrees : Type 0} → Venue Degrees → Venue Degrees → Bool
venue_conflict a b = str_eq a.id b.id

abbrev pub class_key_conflict : Class → Class → Bool
class_key_conflict a b = str_eq a.id b.id

abbrev pub class_student_conflict : ClassStudent → ClassStudent → Bool
class_student_conflict a b = str_eq a.class_id b.class_id && str_eq a.student_id b.student_id

-- dto/create-course-type.dto.ts, dto/venue.dto.ts, dto/create-class.dto.ts; in an update every field
-- is optional
pub record CourseTypeDto : Type 0 where
  pub kind : Option CourseKind
  pub name : Option String
  pub default_lesson_deduct : Option ℕ

pub record VenueDto (Degrees : Type 0) : Type 0 where
  pub name : Option String
  pub address : Option String
  pub latitude : Option Degrees
  pub longitude : Option Degrees
  pub geofence_radius_m : Option ℕ

pub record ClassDto : Type 0 where
  pub course_type_id : Option String
  pub name : Option String
  pub coach_id : Option String
  pub max_students : Option ℕ

abbrev pub course_type_data : CourseTypeDto → CourseType → CourseType
course_type_data dto t = record t {
  kind = or_else dto.kind t.kind;
  name = or_else dto.name t.name;
  default_lesson_deduct = or_else dto.default_lesson_deduct t.default_lesson_deduct;
}

abbrev pub venue_data : {Degrees : Type 0} → VenueDto Degrees → Venue Degrees → Venue Degrees
venue_data dto v = record v {
  name = or_else dto.name v.name;
  address = or_option dto.address v.address;
  latitude = or_option dto.latitude v.latitude;
  longitude = or_option dto.longitude v.longitude;
  geofence_radius_m = or_option dto.geofence_radius_m v.geofence_radius_m;
}

abbrev pub class_data : ClassDto → Class → Class
class_data dto c = record c {
  course_type_id = or_else dto.course_type_id c.course_type_id;
  name = or_else dto.name c.name;
  coach_id = or_option dto.coach_id c.coach_id;
  max_students = or_option dto.max_students c.max_students;
}

module _ (types : Delegate CourseType course_type_conflict) (rank : String → ℕ) where
  -- `createCourseType`; `id` is the new row's
  unfoldable pub create_course_type :
      String
      → CourseKind
      → String
      → Option ℕ
      → List CourseType
      → Result HttpError (CourseType × List CourseType)
  create_course_type id kind name deduct t =
      let row : CourseType = record {
        id = id;
        kind = kind;
        name = name;
        default_lesson_deduct = or_else deduct 1;
      } in
      rethrow (types.create row t) >>= λ t'. ok (row, t')

  -- `listCourseTypes`
  unfoldable pub list_course_types : List CourseType → List CourseType
  list_course_types t = types.find_many (λ _. true) (λ r. rank r.name) t

  -- `ensureCourseType`
  unfoldable pub ensure_course_type : String → List CourseType → Result HttpError CourseType
  ensure_course_type id t = found_or "???????" (types.find_first (λ r. str_eq r.id id) t)

  -- `updateCourseType`; here and below `meanwhile` is what other requests commit between the read and
  -- the write
  unfoldable pub update_course_type :
      (List CourseType → List CourseType)
      → String
      → CourseTypeDto
      → List CourseType
      → Result HttpError (CourseType × List CourseType)
  unfolding ensure_course_type
  update_course_type meanwhile id dto t = ensure_course_type id t >>= λ _.
      rethrow (types.update (λ r. str_eq r.id id) (course_type_data dto) (meanwhile t))

  -- `deleteCourseType`
  unfoldable pub delete_course_type :
      (List CourseType → List CourseType)
      → String
      → List CourseType
      → Result HttpError (List CourseType)
  unfolding ensure_course_type
  delete_course_type meanwhile id t =
      ensure_course_type id t >>= λ _. rethrow (types.delete (λ r. str_eq r.id id) (meanwhile t))

module _ {Degrees : Type 0} (venues : Delegate (Venue Degrees) venue_conflict)
    (rank : String → ℕ) where
  -- `createVenue`, of the row with its id
  unfoldable pub create_venue :
      Venue Degrees → List (Venue Degrees) → Result HttpError (Venue Degrees × List (Venue Degrees))
  create_venue row t = rethrow (venues.create row t) >>= λ t'. ok (row, t')

  -- `listVenues`
  unfoldable pub list_venues : List (Venue Degrees) → List (Venue Degrees)
  list_venues t = venues.find_many (λ _. true) (λ r. rank r.name) t

  -- `ensureVenue`
  unfoldable pub ensure_venue : String → List (Venue Degrees) → Result HttpError (Venue Degrees)
  ensure_venue id t = found_or "?????" (venues.find_first (λ r. str_eq r.id id) t)

  -- `updateVenue`
  unfoldable pub update_venue :
      (List (Venue Degrees) → List (Venue Degrees))
      → String
      → VenueDto Degrees
      → List (Venue Degrees)
      → Result HttpError (Venue Degrees × List (Venue Degrees))
  unfolding ensure_venue
  update_venue meanwhile id dto t = ensure_venue id t >>= λ _.
      rethrow (venues.update (λ r. str_eq r.id id) (venue_data dto) (meanwhile t))

  -- `deleteVenue`
  unfoldable pub delete_venue :
      (List (Venue Degrees) → List (Venue Degrees))
      → String
      → List (Venue Degrees)
      → Result HttpError (List (Venue Degrees))
  unfolding ensure_venue
  delete_venue meanwhile id t =
      ensure_venue id t >>= λ _. rethrow (venues.delete (λ r. str_eq r.id id) (meanwhile t))
