-- ===== src/Courses/Preservation.antt =====
-- Creating a schedule (`createSchedule` of modules/courses/courses.service.ts) and the invariant of
-- `Courses/Booking`.
use mib_server.Prelude.{
  ℕ, ◌<◌, ◌≡◌, refl, sym, ap, ◌∙◌, subst, String, str_eq, true, inl, inr, Option, none, some, List,
  [], ◌∷◌, ◌++◌, arith, Member, All, All-member, Bool-cases, eq_iff, ltb, Result, ok, err,
  >>=-eq-ok, ok-injective,
}
use mib_server.Database.{DbError, is_consistent, Delegate}
use mib_server.Database.Consistency.{
  All-snoc, is_consistent-snoc, Member-append_left, Member-append_right, All-tabulate,
}
use mib_server.Http.{HttpError, rethrow}
use mib_server.Courses.Locks.{
  LockRow, LockError, lock_conflict, rows_of_slots, build_schedule_resource_lock_rows,
  insert_schedule_resource_locks, as_lock_result,
}
use mib_server.Courses.Schedules.{
  Schedule, CourseDb, ClassRow, CreateScheduleDto, class_conflict, schedule_conflict,
  as_course_result, apply_resource_locks, new_schedule, insert_schedule, create_schedule,
}
use mib_server.Courses.Booking.{rows_of, IsBooked, IsValid}

-- A database error that is thrown on is no answer.
pub rethrow-eq-ok : {A : Type 0} (m : Result DbError A) {a : A} → rethrow m ≡ ok a → m ≡ ok a
rethrow-eq-ok (ok b) h = cc
rethrow-eq-ok (err e) h = cc

pub IsBooked-mono :
    (l l' : List LockRow) (s : Schedule)
    → ((r : LockRow) → Member r l → Member r l')
    → IsBooked l s
    → IsBooked l' s
IsBooked-mono l l' s grow h live = (
  (h live).0,
  All-tabulate (λ r. Member r l') (rows_of s)
      (λ r m. grow r (All-member (λ x. Member x l) (rows_of s) (h live).1 r m)),
)

-- Every row that a schedule needs names it.
pub rows_of_slots-schedule_id :
    (id coach_id venue_id : String) (keys : List ℕ)
    → All (λ r. r.schedule_id ≡ id) (rows_of_slots id coach_id venue_id keys)
unfolding rows_of_slots
rows_of_slots-schedule_id id coach_id venue_id [] = tt
rows_of_slots-schedule_id id coach_id venue_id (k ∷ keys) =
    (refl, (refl, rows_of_slots-schedule_id id coach_id venue_id keys))

module _ (locks : Delegate LockRow lock_conflict) where
  -- Locks that were inserted stand behind the old ones, and break no constraint.
  insert_ok :
      (id coach_id venue_id : String) (starts_at ends_at : ℕ) (t : List LockRow) {l : List LockRow}
      → insert_schedule_resource_locks locks id coach_id venue_id starts_at ends_at t ≡ ok l
      → (l ≡ t ++ build_schedule_resource_lock_rows id coach_id venue_id starts_at ends_at)
        × (is_consistent lock_conflict l ≡ true)
  unfolding insert_schedule_resource_locks
  insert_ok id coach_id venue_id starts_at ends_at t {l} h =
      go (build_schedule_resource_lock_rows id coach_id venue_id starts_at ends_at) h
    where
      go :
          (rows : List LockRow)
          → (elim rows [
            | [] ↦ err LockError.empty_time_range
            | row ∷ rest ↦ as_lock_result locks (locks.create_many (row ∷ rest) t)
          ])
            ≡ ok l
          → (l ≡ t ++ rows) × (is_consistent lock_conflict l ≡ true)
      go [] e = cc
      go (row ∷ rest) e = settle (locks.create_many (row ∷ rest) t) refl e
        where
          settle :
              (m : Result DbError (List LockRow))
              → locks.create_many (row ∷ rest) t ≡ m
              → as_lock_result locks m ≡ ok l
              → (l ≡ t ++ row ∷ rest) × (is_consistent lock_conflict l ≡ true)
          settle (err e') w a = cc
          settle (ok u) w a =
              let (added, fine) = locks.create_many_ok (row ∷ rest) t w in (cc, ground arith)

schedule_conflict_comm : (a b : Schedule) → schedule_conflict a b ≡ schedule_conflict b a
schedule_conflict_comm a b = elim (Bool-cases (str_eq a.id b.id)) [
  | inl e ↦ elim (Bool-cases (str_eq b.id a.id)) [
    | inl e' ↦ e ∙ sym e'
    | inr e' ↦ absurd (cc ((eq_iff b.id a.id).1 (sym ((eq_iff a.id b.id).0 e)), e'))
  ]
  | inr e ↦ elim (Bool-cases (str_eq b.id a.id)) [
    | inl e' ↦ absurd (cc ((eq_iff a.id b.id).1 (sym ((eq_iff b.id a.id).0 e')), e))
    | inr e' ↦ e ∙ sym e'
  ]
]

module _ (classes : Delegate ClassRow class_conflict)
    (schedules : Delegate Schedule schedule_conflict) (locks : Delegate LockRow lock_conflict)
    (audit : Option String) where
  pub apply_ok :
      (s : Schedule) (t : List LockRow) {l : List LockRow}
      → apply_resource_locks classes schedules locks audit s.id s.coach_id s.venue_id s.starts_at
          s.ends_at t
        ≡ ok l
      → (l ≡ t ++ rows_of s) × (is_consistent lock_conflict l ≡ true)
  unfolding apply_resource_locks
  apply_ok s t {l} h =
      go (insert_schedule_resource_locks locks s.id s.coach_id s.venue_id s.starts_at s.ends_at t)
        refl h
    where
      go :
          (m : Result LockError (List LockRow))
          → insert_schedule_resource_locks locks s.id s.coach_id s.venue_id s.starts_at s.ends_at t
            ≡ m
          → as_course_result classes schedules locks audit m ≡ ok l
          → (l ≡ t ++ rows_of s) × (is_consistent lock_conflict l ≡ true)
      go (ok u) w a =
          insert_ok locks s.id s.coach_id s.venue_id s.starts_at s.ends_at t
            (w ∙ ap ok (ok-injective a))
      go (err e) w a = cc

  insert_schedule-IsValid :
      (s : Schedule) (db : CourseDb) {q : Schedule × CourseDb}
      → s.starts_at < s.ends_at
      → IsValid db
      → insert_schedule classes schedules locks audit s db ≡ ok q
      → IsValid q.1
  unfolding insert_schedule
  insert_schedule-IsValid s db {q} lasts valid h =
      let (t, created, h') = >>=-eq-ok (rethrow (schedules.create s db.schedules)) _ h in
      let (l, locked, h'') =
        >>=-eq-ok
          (apply_resource_locks classes schedules locks audit s.id s.coach_id s.venue_id s.starts_at
            s.ends_at db.locks)
          _ h' in
      let (added, free) = schedules.create_ok s db.schedules (rethrow-eq-ok _ created) in
      let (grown, fine) = apply_ok s db.locks locked in
      subst (λ r. IsValid r.1) (ok-injective h'')
        (record {
          unique_ids = rw added (
              is_consistent-snoc schedule_conflict schedule_conflict_comm s db.schedules
                valid.unique_ids free);
          unique_locks = fine;
          booked = rw added (
              rw grown (
                All-snoc (IsBooked (db.locks ++ rows_of s)) db.schedules s
                  (All-tabulate (IsBooked (db.locks ++ rows_of s)) db.schedules (λ a m.
                    IsBooked-mono db.locks (db.locks ++ rows_of s) a
                      (λ r n. Member-append_left r db.locks (rows_of s) n)
                      (All-member (IsBooked db.locks) db.schedules valid.booked a m)))
                  (λ _. (
                    lasts,
                    All-tabulate (λ r. Member r (db.locks ++ rows_of s)) (rows_of s)
                        (λ r n. Member-append_right r db.locks (rows_of s) n),
                  ))));
        })

  -- A schedule that is created keeps the tables valid.
  pub create_schedule-IsValid :
      (id : String) (dto : CreateScheduleDto) (rows : List ClassRow) (db : CourseDb)
      {q : Schedule × CourseDb}
      → IsValid db
      → create_schedule classes schedules locks audit id dto rows db ≡ ok q
      → IsValid q.1
  unfolding create_schedule new_schedule
  create_schedule-IsValid id dto rows db {q} valid h =
      elim (Bool-cases (ltb dto.starts_at dto.ends_at)) [
        | inl e ↦ go e (classes.find_first (λ c. str_eq c.id dto.class_id) rows) (rw e at h)
        | inr e ↦ absurd (cc (rw e at h))
      ]
    where
      go :
          ltb dto.starts_at dto.ends_at ≡ true
          → (found : Option ClassRow)
          → (elim found [
            | none ↦ err (HttpError.database DbError.failure)
            | some klass ↦
                insert_schedule classes schedules locks audit
                  (new_schedule classes schedules locks audit id klass.tenant_id dto)
                  db
          ])
            ≡ ok q
          → IsValid q.1
      go e none a = absurd (cc)
      go e (some klass) a =
          insert_schedule-IsValid
            (new_schedule classes schedules locks audit id klass.tenant_id dto) db (ground arith)
            valid a
