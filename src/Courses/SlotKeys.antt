-- ===== src/Courses/SlotKeys.antt =====
-- Which slots `buildTimeSlotKeys` of modules/courses/schedule-resource-lock.ts gives.
use mib_server.Prelude.{
  ℕ, zero, suc, ◌+◌, ◌-◌, ◌*◌, ◌/◌, ◌<◌, ◌≡◌, ◌↔◌, refl, inl, inr, ◌⊎◌, true, max, Member, arith,
  Bool-cases, ltb, subst, sym,
}
use mib_server.Courses.Slots.{slot_ms, slots_from, slot_fuel, build_time_slot_keys}

slots_from_complete :
    (fuel j start end_ms : ℕ)
    → j < fuel
    → start + j * slot_ms < end_ms
    → Member (start + j * slot_ms) (slots_from fuel start end_ms)
unfolding slots_from
slots_from_complete zero j start end_ms h k = absurd (omega arith)
slots_from_complete (suc fuel) zero start end_ms h k =
    let more : ltb start end_ms ≡ true = ground arith in rw more (inl (omega arith))
slots_from_complete (suc fuel) (suc j) start end_ms h k =
    let more : ltb start end_ms ≡ true = ground arith in
    let shift : start + suc j * slot_ms ≡ start + slot_ms + j * slot_ms = omega arith in
    rw more (
      inr (
        subst (λ x. Member x (slots_from fuel (start + slot_ms) end_ms)) (sym shift)
          (slots_from_complete fuel j (start + slot_ms) end_ms (omega arith) (omega arith))))

slots_from_sound :
    (fuel start end_ms k : ℕ)
    → Member k (slots_from fuel start end_ms)
    → ((j : ℕ) × (k ≡ start + j * slot_ms)) × (k < end_ms)
unfolding slots_from
slots_from_sound zero start end_ms k m = absurd m
slots_from_sound (suc fuel) start end_ms k m = elim (Bool-cases (ltb start end_ms)) [
  | inl more ↦ first_or_rest more (slots_from_sound fuel (start + slot_ms) end_ms k) (rw more at m)
  | inr over ↦ absurd (rw over at m)
]
  where
    first_or_rest :
        ltb start end_ms ≡ true
        → (Member k (slots_from fuel (start + slot_ms) end_ms)
            → ((j : ℕ) × (k ≡ start + slot_ms + j * slot_ms)) × (k < end_ms))
        → (k ≡ start) ⊎ Member k (slots_from fuel (start + slot_ms) end_ms)
        → ((j : ℕ) × (k ≡ start + j * slot_ms)) × (k < end_ms)
    first_or_rest more ih (inl e) = ((0, omega arith), ground arith)
    first_or_rest more ih (inr r) = let ((j, e), bound) = ih r in ((suc j, omega arith), bound)

-- The keys of a schedule are exactly the starts of those slots that meet its interval.
pub build_time_slot_keys_iff :
    (starts_at ends_at k : ℕ)
    → Member k (build_time_slot_keys starts_at ends_at) ↔ (
        (q : ℕ) × ((k ≡ q * slot_ms) × ((starts_at < (q + 1) * slot_ms) × (q * slot_ms < ends_at))))
unfolding build_time_slot_keys
build_time_slot_keys_iff starts_at ends_at k = (
  λ m.
      let ((j, e), bound) =
        slots_from_sound (slot_fuel (starts_at / slot_ms * slot_ms) ends_at)
          (starts_at / slot_ms * slot_ms) ends_at k m in
      (starts_at / slot_ms + j, (omega arith, (omega arith, omega arith))),
  λ h.
      let (q, (is_start, (after, before))) = h in
      let same : k ≡ starts_at / slot_ms * slot_ms + (q - starts_at / slot_ms) * slot_ms =
        omega arith in
      rw same (
        slots_from_complete (slot_fuel (starts_at / slot_ms * slot_ms) ends_at)
          (q - starts_at / slot_ms) (starts_at / slot_ms * slot_ms) ends_at (omega arith)
          (omega arith)),
)

-- Two intervals that overlap have a slot in common.
pub overlap_share :
    (s₁ e₁ s₂ e₂ : ℕ)
    → s₁ < e₁
    → s₂ < e₂
    → s₁ < e₂
    → s₂ < e₁
    → (k : ℕ) × Member k (build_time_slot_keys s₁ e₁) × Member k (build_time_slot_keys s₂ e₂)
overlap_share s₁ e₁ s₂ e₂ a b c d = (
  max s₁ s₂ / slot_ms * slot_ms,
  (build_time_slot_keys_iff s₁ e₁ (max s₁ s₂ / slot_ms * slot_ms)).1
      (max s₁ s₂ / slot_ms, (refl, (omega arith, omega arith))),
  (build_time_slot_keys_iff s₂ e₂ (max s₁ s₂ / slot_ms * slot_ms)).1
      (max s₁ s₂ / slot_ms, (refl, (omega arith, omega arith))),
)
