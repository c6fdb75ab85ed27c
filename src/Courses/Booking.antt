-- ===== src/Courses/Booking.antt =====
-- No double booking: the invariant of schedules and lock rows, and what it rules out.
use mib_server.Prelude.{
  All-member, subst, ap, ℕ, ◌<◌, ◌≡◌, String, true, false, ◌⊎◌, inl, inr, List, [], ◌∷◌, arith,
  Member, All, eq_refl,
}
use mib_server.Database.{is_consistent}
use mib_server.Database.Consistency.{unique-Member}
use mib_server.Courses.Slots.{build_time_slot_keys}
use mib_server.Courses.SlotKeys.{overlap_share}
use mib_server.Courses.Locks.{
  LockRow, ScheduleResourceType, lock_conflict, lock_row, rows_of_slots,
  build_schedule_resource_lock_rows,
}
use mib_server.Courses.Schedules.{Schedule, CourseDb, is_cancelled, schedule_conflict}

-- The rows that a schedule needs.
abbrev pub rows_of : Schedule → List LockRow
rows_of s = build_schedule_resource_lock_rows s.id s.coach_id s.venue_id s.starts_at s.ends_at

-- A schedule that is not cancelled lasts for some time and holds its rows.
abbrev pub IsBooked : List LockRow → Schedule → Type 0
IsBooked locks s =
    is_cancelled s.status ≡ false
    → (s.starts_at < s.ends_at) × All (λ r. Member r locks) (rows_of s)

pub record IsValid (db : CourseDb) : Type 0 where
  pub unique_ids : is_consistent schedule_conflict db.schedules ≡ true
  pub unique_locks : is_consistent lock_conflict db.locks ≡ true
  pub booked : All (IsBooked db.locks) db.schedules

lock_conflict-refl_id :
    (kind : ScheduleResourceType) (resource a b : String) (key : ℕ)
    → lock_conflict (lock_row kind resource a key) (lock_row kind resource b key) ≡ true
lock_conflict-refl_id ScheduleResourceType.coach resource a b key = ground (arith, eq_refl resource)
lock_conflict-refl_id ScheduleResourceType.venue resource a b key = ground (arith, eq_refl resource)

-- Two rows of one slot and resource are one row.
same_row :
    (t : List LockRow) (kind : ScheduleResourceType) (resource a b : String) (key : ℕ)
    → is_consistent lock_conflict t ≡ true
    → Member (lock_row kind resource a key) t
    → Member (lock_row kind resource b key) t
    → a ≡ b
same_row t kind resource a b key h m n =
    ap (λ (r : LockRow). r.schedule_id)
      (unique-Member lock_conflict t (lock_row kind resource a key) (lock_row kind resource b key) h
        m n (lock_conflict-refl_id kind resource a b key)
        (lock_conflict-refl_id kind resource b a key))

-- A row for each slot, of the coach and of the venue.
slot_rows :
    (P : LockRow → Type 0) (schedule_id coach_id venue_id : String) (keys : List ℕ) (key : ℕ)
    → All P (rows_of_slots schedule_id coach_id venue_id keys)
    → Member key keys
    → P (lock_row ScheduleResourceType.coach coach_id schedule_id key)
      × P (lock_row ScheduleResourceType.venue venue_id schedule_id key)
unfolding rows_of_slots
slot_rows P schedule_id coach_id venue_id [] key h m = absurd m
slot_rows P schedule_id coach_id venue_id (k ∷ keys) key h (inl e) = rw e (h.0, (h.1).0)
slot_rows P schedule_id coach_id venue_id (k ∷ keys) key h (inr m) =
    slot_rows P schedule_id coach_id venue_id keys key (h.1).1 m

-- Two booked schedules that overlap and are not cancelled have neither a coach nor a venue in
-- common, unless they are one schedule.
pub no_double_booking :
    (db : CourseDb) (s u : Schedule)
    → IsValid db
    → Member s db.schedules
    → Member u db.schedules
    → is_cancelled s.status ≡ false
    → is_cancelled u.status ≡ false
    → s.starts_at < u.ends_at
    → u.starts_at < s.ends_at
    → (s.coach_id ≡ u.coach_id) ⊎ (s.venue_id ≡ u.venue_id)
    → s.id ≡ u.id
unfolding build_schedule_resource_lock_rows
no_double_booking db s u valid ms mu live_s live_u before after shared =
    let (s_lasts, s_rows) = All-member (IsBooked db.locks) db.schedules valid.booked s ms live_s in
    let (u_lasts, u_rows) = All-member (IsBooked db.locks) db.schedules valid.booked u mu live_u in
    let (key, in_s, in_u) =
      overlap_share s.starts_at s.ends_at u.starts_at u.ends_at s_lasts u_lasts before after in
    let s_row =
      slot_rows (λ r. Member r db.locks) s.id s.coach_id s.venue_id
        (build_time_slot_keys s.starts_at s.ends_at) key s_rows in_s in
    let u_row =
      slot_rows (λ r. Member r db.locks) u.id u.coach_id u.venue_id
        (build_time_slot_keys u.starts_at u.ends_at) key u_rows in_u in
    by_resource key s_row u_row shared
  where
    by_resource :
        (key : ℕ)
        → (Member (lock_row ScheduleResourceType.coach s.coach_id s.id key) db.locks
            × Member (lock_row ScheduleResourceType.venue s.venue_id s.id key) db.locks)
        → (Member (lock_row ScheduleResourceType.coach u.coach_id u.id key) db.locks
            × Member (lock_row ScheduleResourceType.venue u.venue_id u.id key) db.locks)
        → (s.coach_id ≡ u.coach_id) ⊎ (s.venue_id ≡ u.venue_id)
        → s.id ≡ u.id
    by_resource key m n (inl e) =
        same_row db.locks ScheduleResourceType.coach u.coach_id s.id u.id key valid.unique_locks
          (subst (λ c. Member (lock_row ScheduleResourceType.coach c s.id key) db.locks) e m.0) n.0
    by_resource key m n (inr e) =
        same_row db.locks ScheduleResourceType.venue u.venue_id s.id u.id key valid.unique_locks
          (subst (λ c. Member (lock_row ScheduleResourceType.venue c s.id key) db.locks) e m.1) n.1
