-- ===== src/Courses/Rescheduling.antt =====
-- Changing and cancelling a schedule (`updateSchedule` and `deleteSchedule` of
-- modules/courses/courses.service.ts) and the invariant of `Courses/Booking`.
use mib_server.Prelude.{
  ℕ, ◌<◌, ◌≡◌, refl, sym, ap, ◌∙◌, subst, String, str_eq, Bool, true, false, not, inl, inr, Option,
  none, some, List, ◌++◌, arith, Member, All, All-member, select_where, update_where, Bool-cases,
  eq_iff, ltb, ok, err, >>=-eq-ok, ok-injective, ◌&&◌, and-eq-true,
}
use mib_server.Database.{is_consistent, Delegate}
use mib_server.Database.Consistency.{
  unique-Member, is_consistent-select_where, Member-select_where, Member-append_left,
  Member-append_right, first_match-Member, All-tabulate, All-update_where-Member,
}
use mib_server.Http.{HttpError, rethrow}
use mib_server.Lessons.Memberships.{or_else}
use mib_server.Courses.Slots.{build_time_slot_keys}
use mib_server.Courses.Locks.{
  LockRow, lock_conflict, build_schedule_resource_lock_rows, release_schedule_resource_locks,
}
use mib_server.Courses.Schedules.{
  Schedule, CourseDb, ClassRow, UpdateScheduleDto, class_conflict, is_cancelled, schedule_conflict,
  has_schedule_id, update_data, cancel_data, get_schedule, relock, rewrite_schedule,
  update_schedule, delete_schedule,
}
use mib_server.Courses.Booking.{rows_of, IsBooked, IsValid}
use mib_server.Courses.Preservation.{
  rethrow-eq-ok, IsBooked-mono, rows_of_slots-schedule_id, apply_ok,
}

-- The rows that are left when those of one schedule are deleted.
abbrev pub without : String → List LockRow → List LockRow
without id t = select_where (λ r. not (str_eq r.schedule_id id)) t

rows_of-schedule_id : (s : Schedule) → All (λ r. r.schedule_id ≡ s.id) (rows_of s)
unfolding build_schedule_resource_lock_rows
rows_of-schedule_id s =
    rows_of_slots-schedule_id s.id s.coach_id s.venue_id
      (build_time_slot_keys s.starts_at s.ends_at)

-- A schedule keeps its rows when those of another are deleted.
IsBooked-without :
    (id : String) (t : List LockRow) (s : Schedule)
    → has_schedule_id id s ≡ false
    → IsBooked t s
    → IsBooked (without id t) s
IsBooked-without id t s other h live = (
  (h live).0,
  All-tabulate (λ r. Member r (without id t)) (rows_of s)
      (λ r m.
        let owner =
          All-member (λ x. x.schedule_id ≡ s.id) (rows_of s) (rows_of-schedule_id s) r m in
        Member-select_where (λ x. not (str_eq x.schedule_id id)) r t
          (All-member (λ x. Member x t) (rows_of s) (h live).1 r m)
          (ap (λ x. not (str_eq x id)) owner ∙ ap not other)),
)

-- The coach, the venue and the times of a schedule as they are after a request is carried out.
abbrev pub booked_part : UpdateScheduleDto → Schedule → String × (String × (ℕ × ℕ))
booked_part dto s = (
  or_else dto.coach_id s.coach_id,
  (
    or_else dto.venue_id s.venue_id,
    (or_else dto.starts_at s.starts_at, or_else dto.ends_at s.ends_at),
  ),
)

-- Two rows of a valid table with one id are one.
same_schedule :
    (db : CourseDb) (id : String) (a b : Schedule)
    → IsValid db
    → Member a db.schedules
    → Member b db.schedules
    → has_schedule_id id a ≡ true
    → has_schedule_id id b ≡ true
    → a ≡ b
same_schedule db id a b valid m n h k =
    let e : a.id ≡ b.id = (eq_iff a.id id).0 h ∙ sym ((eq_iff b.id id).0 k) in
    unique-Member schedule_conflict db.schedules a b valid.unique_ids m n ((eq_iff a.id b.id).1 e)
      ((eq_iff b.id a.id).1 (sym e))

module _ (classes : Delegate ClassRow class_conflict)
    (schedules : Delegate Schedule schedule_conflict) (locks : Delegate LockRow lock_conflict)
    (audit : Option String) where
  get_schedule-Member :
      (visible : Schedule → Bool) (id : String) (db : CourseDb) {s : Schedule}
      → get_schedule classes schedules locks audit visible id db ≡ ok s
      → (has_schedule_id id s ≡ true) × Member s db.schedules
  unfolding get_schedule
  get_schedule-Member visible id db {s} h = go (schedules.find_first test db.schedules) refl h
    where
      test : Schedule → Bool
      test s = has_schedule_id id s && visible s

      go :
          (found : Option Schedule)
          → schedules.find_first test db.schedules ≡ found
          → (elim found [ none ↦ err (HttpError.not_found "?????") | some s ↦ ok s ]) ≡ ok s
          → (has_schedule_id id s ≡ true) × Member s db.schedules
      go none w a = absurd (cc)
      go (some u) w a =
          let (hit, m) =
            first_match-Member test db.schedules
              (sym (schedules.find_first_law test db.schedules) ∙ (w ∙ ap some (ok-injective a))) in
          ((and-eq-true (has_schedule_id id s) (visible s) hit).0, m)

  -- What the rewritten rows must meet.
  rewritten-IsBooked :
      (id : String) (f : Schedule → Schedule) (db : CourseDb) (l : List LockRow)
      (current : Schedule)
      → IsValid db
      → (has_schedule_id id current ≡ true) × Member current db.schedules
      → ((r : LockRow) → Member r (without id db.locks) → Member r l)
      → IsBooked l (f current)
      → All (IsBooked l) (update_where (has_schedule_id id) f db.schedules)
  rewritten-IsBooked id f db l current valid there grow fresh =
      All-update_where-Member (IsBooked l) (has_schedule_id id) f db.schedules
        (λ a m e. rw (same_schedule db id a current valid m there.1 e there.0) fresh)
        (λ a m e. IsBooked-mono (without id db.locks) l a grow (
          IsBooked-without id db.locks a e
            (All-member (IsBooked db.locks) db.schedules valid.booked a m)))

  -- A schedule that is cancelled gives its slots back, and the tables stay valid: exactly its lock
  -- rows are removed from what the tables are when the transaction begins, whatever other requests
  -- committed since the schedule was read, if they left the tables valid.
  pub delete_schedule-IsValid :
      (visible : Schedule → Bool) (meanwhile : CourseDb → CourseDb) (id : String) (db : CourseDb)
      {db' : CourseDb}
      → IsValid (meanwhile db)
      → delete_schedule classes schedules locks audit visible meanwhile id db ≡ ok db'
      → IsValid db' × (db'.locks ≡ without id (meanwhile db).locks)
  unfolding delete_schedule release_schedule_resource_locks
  delete_schedule-IsValid visible meanwhile id db {db'} valid h =
      let now : CourseDb = meanwhile db in
      let (current, found, h₁) =
        >>=-eq-ok (get_schedule classes schedules locks audit visible id db) _ h in
      let (freed, released, h₂) =
        >>=-eq-ok (rethrow (release_schedule_resource_locks locks id now.locks)) _ h₁ in
      let (r, updated, h₃) =
        >>=-eq-ok
          (rethrow (schedules.update (has_schedule_id id) (cancel_data audit) now.schedules)) _
          h₂ in
      let left =
        locks.delete_many_ok (λ x. str_eq x.schedule_id id) now.locks (rethrow-eq-ok _ released) in
      let done = rethrow-eq-ok _ updated in
      let (rows, (old, first, new)) = schedules.update_ok _ _ now.schedules done in
      let there = first_match-Member _ now.schedules first in
      subst (λ (d : CourseDb). IsValid d × (d.locks ≡ without id now.locks)) (ok-injective h₃)
        (
          record {
            unique_ids = schedules.update_keeps _ _ now.schedules done valid.unique_ids;
            unique_locks =
                rw left (is_consistent-select_where lock_conflict _ now.locks valid.unique_locks);
            booked = rw rows (
                rw left (
                  rewritten-IsBooked id (cancel_data audit) now (without id now.locks) old valid
                    there (λ x m. m) (λ live. absurd (cc live))));
          },
          left,
        )

  -- The locks after an update: those of the others, and the rows of the new times and resources
  -- unless the schedule is cancelled.
  relock_ok :
      (s : Schedule) (t : List LockRow) {l : List LockRow}
      → s.starts_at < s.ends_at
      → is_consistent lock_conflict t ≡ true
      → relock classes schedules locks audit s s.id s.coach_id s.venue_id s.starts_at s.ends_at t
        ≡ ok l
      → (is_consistent lock_conflict l ≡ true)
        × ((r : LockRow) → Member r t → Member r l)
        × IsBooked l s
  unfolding relock
  relock_ok s t {l} lasts fine h = elim (Bool-cases (is_cancelled s.status)) [
    | inl e ↦
        let same : t ≡ l = ok-injective (rw e at h) in
        (rw (sym same) fine, λ r m. rw (sym same) m, λ live. absurd (cc (live, e)))
    | inr e ↦
        let (grown, fits) = apply_ok classes schedules locks audit s t (rw e at h) in
        (
          fits,
          λ r m. rw grown (Member-append_left r t (rows_of s) m),
          λ _. (
            lasts,
            rw grown (
                All-tabulate (λ r. Member r (t ++ rows_of s)) (rows_of s)
                  (λ r n. Member-append_right r t (rows_of s) n)),
          ),
        )
  ]

  -- The locks are taken for the row that was found, where its booked part is the one that was read.
  relock-found :
      (id : String) (dto : UpdateScheduleDto) (current old s : Schedule) (freed left : List LockRow)
      {l : List LockRow}
      → old.id ≡ id
      → s ≡ update_data audit dto old
      → freed ≡ left
      → booked_part dto current ≡ booked_part dto old
      → relock classes schedules locks audit s id
          (or_else dto.coach_id current.coach_id)
          (or_else dto.venue_id current.venue_id)
          (or_else dto.starts_at current.starts_at)
          (or_else dto.ends_at current.ends_at)
          freed
        ≡ ok l
      → relock classes schedules locks audit
          (update_data audit dto old)
          old.id
          (or_else dto.coach_id old.coach_id)
          (or_else dto.venue_id old.venue_id)
          (or_else dto.starts_at old.starts_at)
          (or_else dto.ends_at old.ends_at)
          left
        ≡ ok l
  unfolding relock
  relock-found id dto current old s freed left {l} named new same_rows same h = rw named (
      rw same_rows at (
        rw new at (
          subst
            (λ (p : String × (String × (ℕ × ℕ))).
              relock classes schedules locks audit s id p.0 p.1.0 p.1.1.0 p.1.1.1 freed ≡ ok l)
            same h)))

  -- The transaction, where the row that it finds has the booked part that was read.
  rewrite_schedule-IsValid :
      (id : String) (dto : UpdateScheduleDto) (current : Schedule) (db : CourseDb)
      {q : Schedule × CourseDb}
      → IsValid db
      → ((b : Schedule)
          → Member b db.schedules
          → has_schedule_id id b ≡ true
          → booked_part dto b ≡ booked_part dto current)
      → or_else dto.starts_at current.starts_at < or_else dto.ends_at current.ends_at
      → rewrite_schedule classes schedules locks audit id dto current db ≡ ok q
      → IsValid q.1
  unfolding rewrite_schedule release_schedule_resource_locks
  rewrite_schedule-IsValid id dto current db {q} valid steady lasts a =
      let (freed, released, a₁) =
        >>=-eq-ok (rethrow (release_schedule_resource_locks locks id db.locks)) _ a in
      let (r, updated, a₂) =
        >>=-eq-ok
          (rethrow (schedules.update (has_schedule_id id) (update_data audit dto) db.schedules)) _
          a₁ in
      let done = rethrow-eq-ok _ updated in
      let (rows, (old, first, is_new)) = schedules.update_ok _ _ db.schedules done in
      let there = first_match-Member _ db.schedules first in
      let is_id : old.id ≡ id = (eq_iff old.id id).0 there.0 in
      let same : booked_part dto current ≡ booked_part dto old = sym (steady old there.1 there.0) in
      let (l, relocked, a₃) =
        >>=-eq-ok
          (relock classes schedules locks audit r.0 id (or_else dto.coach_id current.coach_id)
            (or_else dto.venue_id current.venue_id) (or_else dto.starts_at current.starts_at)
            (or_else dto.ends_at current.ends_at) freed)
          _ a₂ in
      let left =
        locks.delete_many_ok (λ x. str_eq x.schedule_id id) db.locks (rethrow-eq-ok _ released) in
      let (fits, grow, booked) =
        relock_ok (update_data audit dto old) (without id db.locks)
          (subst (λ (p : String × (String × (ℕ × ℕ))). p.1.1.0 < p.1.1.1) same lasts)
          (is_consistent-select_where lock_conflict _ db.locks valid.unique_locks)
          (relock-found id dto current old r.0 freed (without id db.locks) is_id is_new left same
            relocked) in
      subst (λ p. IsValid p.1) (ok-injective a₃)
        (record {
          unique_ids = schedules.update_keeps _ _ db.schedules done valid.unique_ids;
          unique_locks = fits;
          booked =
              rw rows
                (rewritten-IsBooked id (update_data audit dto) db l old valid there grow booked);
        })

  -- A schedule that is moved, or given another coach or venue, keeps the tables valid, where other
  -- requests, between the read of the schedule and the transaction, left the tables valid and did
  -- not change those of its coach, venue and times that this request leaves as they are.
  pub update_schedule-IsValid :
      (visible : Schedule → Bool) (meanwhile : CourseDb → CourseDb) (id : String)
      (dto : UpdateScheduleDto) (db : CourseDb) {q : Schedule × CourseDb}
      → IsValid (meanwhile db)
      → ((a b : Schedule)
          → Member a db.schedules
          → Member b (meanwhile db).schedules
          → has_schedule_id id a ≡ true
          → has_schedule_id id b ≡ true
          → booked_part dto b ≡ booked_part dto a)
      → update_schedule classes schedules locks audit visible meanwhile id dto db ≡ ok q
      → IsValid q.1
  unfolding update_schedule
  update_schedule-IsValid visible meanwhile id dto db {q} valid steady h =
      let (current, found, h₁) =
        >>=-eq-ok (get_schedule classes schedules locks audit visible id db) _ h in
      let (named, listed) = get_schedule-Member visible id db found in
      elim (Bool-cases
        (ltb (or_else dto.starts_at current.starts_at) (or_else dto.ends_at current.ends_at))) [
          | inl e ↦
              rewrite_schedule-IsValid id dto current (meanwhile db) valid
                (λ b m n. steady current b listed m named n) (ground arith) (rw e at h₁)
          | inr e ↦ absurd (cc (rw e at h₁))
        ]
