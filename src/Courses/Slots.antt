-- ===== src/Courses/Slots.antt =====
-- modules/courses/schedule-resource-lock.ts: the time slots of a schedule. Times are milliseconds
-- since 1970; a slot key is the number whose text the code stores.
use mib_server.Prelude.{ℕ, zero, suc, ◌+◌, ◌-◌, ◌*◌, ◌/◌, List, [], ◌∷◌, if◌then◌else◌, ltb}

-- `SLOT_MS`: 15 minutes
abbrev pub slot_ms : ℕ
slot_ms = 900000

-- The `while` loop; fuel stands for the rounds.
unfoldable pub slots_from : ℕ → ℕ → ℕ → List ℕ
slots_from zero slot_start_ms end_ms = []
slots_from (suc fuel) slot_start_ms end_ms =
    let rest = slots_from fuel (slot_start_ms + slot_ms) end_ms in
    if ltb slot_start_ms end_ms then slot_start_ms ∷ rest else []

-- A round for each slot from the first to the end, which is enough.
abbrev pub slot_fuel : ℕ → ℕ → ℕ
slot_fuel start end_ms = suc ((end_ms - start) / slot_ms)

-- `buildTimeSlotKeys`
unfoldable pub build_time_slot_keys : ℕ → ℕ → List ℕ
unfolding slots_from
build_time_slot_keys starts_at ends_at =
    let first = starts_at / slot_ms * slot_ms in slots_from (slot_fuel first ends_at) first ends_at
