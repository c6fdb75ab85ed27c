-- ===== src/Statistics/Conservation.antt =====
-- The lesson consumption of modules/statistics/statistics.service.ts and the check-ins of
-- modules/attendance/attendance-lesson-deduct.ts speak of the same lessons.
use mib_server.Prelude.{
  ℕ, ◌≡◌, refl, String, Bool, true, false, inl, inr, Option, none, List, [], ◌∷◌, ◌++◌, ok, arith,
  select_where, Bool-cases, ok-injective, subst,
}
use mib_server.Prelude.Int.{ℤ, pos, ◌+ℤ◌, ◌-ℤ◌, ◌≡ℤ◌, int_laws, ltb_ℤ, leb_ℤ}
use mib_server.Database.{is_consistent, Delegate}
use mib_server.Lessons.Data.{Card, LessonTransaction, LessonDb, card_conflict, transaction_conflict}
use mib_server.Lessons.Totals.{total}
use mib_server.Lessons.Deduct.{
  LessonDeductOutcome, deducted, deduction_row, deduct_lessons_for_check_in,
}
use mib_server.Lessons.CheckIn.{deduct_lessons-Settles}
use mib_server.Lessons.Settlement.{Settles}
use mib_server.Statistics.{ConsumptionParams, lesson_consumption, is_consumption, sum_of_delta}

-- No filter.
abbrev pub everything : ConsumptionParams
everything = record { from = none; to = none; student_id = none }

module _ (created_at : LessonTransaction → ℕ) where
  -- The lessons on the cards and those that the statistics count as deducted.
  abbrev pub accounted : LessonDb → ℤ
  accounted db = total db.cards +ℤ lesson_consumption created_at db.cards everything db.transactions

  sum-with_row :
      (p : LessonTransaction → Bool) (rows : List LessonTransaction) (row : LessonTransaction)
      → p row ≡ true
      → sum_of_delta (select_where p (rows ++ (row ∷ [])))
        ≡ℤ row.delta +ℤ sum_of_delta (select_where p rows)
  sum-with_row p [] row h = rw h refl
  sum-with_row p (r ∷ rows) row h = elim (Bool-cases (p r)) [
    | inl e ↦ rw e (omega (int_laws, sum-with_row p rows row h))
    | inr e ↦ rw e (sum-with_row p rows row h)
  ]

  everything-cards :
      (cards cards' : List Card) (rows : List LessonTransaction)
      → lesson_consumption created_at cards everything rows
        ≡ lesson_consumption created_at cards' everything rows
  unfolding lesson_consumption
  everything-cards cards cards' rows = refl

  consumption-with_row :
      (cards : List Card) (rows : List LessonTransaction) (row : LessonTransaction)
      → ltb_ℤ row.delta (pos 0) ≡ true
      → lesson_consumption created_at cards everything (rows ++ (row ∷ [])) +ℤ row.delta
        ≡ℤ lesson_consumption created_at cards everything rows
  unfolding lesson_consumption
  consumption-with_row cards rows row h =
      let selected : is_consumption created_at cards everything row ≡ true = rw h refl in
      omega (int_laws, sum-with_row (is_consumption created_at cards everything) rows row selected)

  negated : (amount : ℤ) → leb_ℤ amount (pos 0) ≡ false → ltb_ℤ (pos 0 -ℤ amount) (pos 0) ≡ true
  unfolding ◌-ℤ◌
  negated amount h = ground arith

  kept :
      (db db' : LessonDb)
      → total db'.cards ≡ℤ total db.cards
      → db'.transactions ≡ db.transactions
      → accounted db' ≡ accounted db
  kept db db' moved added =
      rw (added, everything-cards db'.cards db.cards db.transactions) (omega (int_laws, moved))

  moved_over :
      (db db' : LessonDb) (row : LessonTransaction) (amount : ℤ)
      → leb_ℤ amount (pos 0) ≡ false
      → row.delta ≡ pos 0 -ℤ amount
      → total db'.cards +ℤ amount ≡ℤ total db.cards
      → db'.transactions ≡ db.transactions ++ (row ∷ [])
      → accounted db' ≡ accounted db
  moved_over db db' row amount big delta moved added =
      let counted =
        consumption-with_row db.cards db.transactions row (rw delta (negated amount big)) in
      let parts : row.delta ≡ℤ pos 0 -ℤ amount = rw delta refl in
      rw (added, everything-cards db'.cards db.cards (db.transactions ++ (row ∷ [])))
        (omega (int_laws, moved, counted, parts))

  module _ (cards : Delegate Card card_conflict)
      (transactions : Delegate LessonTransaction transaction_conflict) (audit : Option String)
      (student_id schedule_id : String) (amount : ℤ) where
    -- With one row per card id, a check-in that answers keeps the lessons on the cards and those
    -- counted as deducted, taken together.
    pub deduct_lessons-accounted :
        (now : ℕ) (db : LessonDb) {q : LessonDeductOutcome × LessonDb}
        → is_consistent card_conflict db.cards ≡ true
        → deduct_lessons_for_check_in cards transactions audit student_id schedule_id amount now db
          ≡ ok q
        → accounted q.1 ≡ accounted db
    unfolding deduct_lessons_for_check_in
    deduct_lessons-accounted now db {q} unique e = elim (Bool-cases (leb_ℤ amount (pos 0))) [
      | inl small ↦
          subst (λ (r : LessonDeductOutcome × LessonDb). accounted r.1 ≡ accounted db)
            (ok-injective (rw small at e)) refl
      | inr big ↦ by_outcome q big (
          deduct_lessons-Settles cards transactions audit student_id schedule_id amount now db
            unique e)
    ]
      where
        by_outcome :
            (q : LessonDeductOutcome × LessonDb)
            → leb_ℤ amount (pos 0) ≡ false
            → Settles audit student_id schedule_id amount db q
            → accounted q.1 ≡ accounted db
        by_outcome (deducted, db') big (moved, (card, added)) =
            moved_over db db' (deduction_row audit student_id schedule_id amount card) amount big
              refl moved added
        by_outcome (LessonDeductOutcome.already_deducted, db') big (moved, added) =
            kept db db' moved added
        by_outcome (LessonDeductOutcome.insufficient, db') big (moved, added) =
            kept db db' moved added
