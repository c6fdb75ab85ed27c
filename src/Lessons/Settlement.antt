-- ===== src/Lessons/Settlement.antt =====
-- The deduction at check-in moves lessons only together with the row that records it.
use mib_server.Prelude.{
  All, All-update_where, ◌≡◌, ◌++◌, refl, String, Bool, true, Option, List, [], ◌∷◌, arith,
  count_where, update_where, eq_iff,
}
use mib_server.Prelude.Int.{◌≤ℤ◌, ℤ, pos, ◌+ℤ◌, ◌≡ℤ◌, int_laws}
use mib_server.Database.{is_consistent}
use mib_server.Lessons.Data.{Card, LessonDb, card_conflict}
use mib_server.Lessons.Balance.{decrement, can_decrement}
use mib_server.Lessons.Deduct.{LessonDeductOutcome, deducted, deduction_row}
use mib_server.Lessons.Totals.{
  total, has_id, total-update_where, count_where-update_where, count_where-le, count_where-le-one,
}

-- No card is overdrawn.
abbrev pub IsCovered : List Card → Type 0
IsCovered t = All (λ c. pos 0 ≤ℤ c.remaining_lessons) t

-- How the tables after a deduction stand to those before, by its outcome: its amount comes from the
-- cards' total and one row is added, or both stay.
abbrev pub Settles :
    Option String → String → String → ℤ → LessonDb → LessonDeductOutcome × LessonDb → Type 0
Settles audit student_id schedule_id amount db (deducted, db') =
    (total db'.cards +ℤ amount ≡ℤ total db.cards)
    × ((card : Card) × (db'.transactions
          ≡ db.transactions ++ deduction_row audit student_id schedule_id amount card ∷ []))
Settles audit student_id schedule_id amount db (_, db') =
    (total db'.cards ≡ℤ total db.cards) × (db'.transactions ≡ db.transactions)

-- The same, with the cards that stay covered.
abbrev pub Outcome :
    Option String → String → String → ℤ → LessonDb → LessonDeductOutcome × LessonDb → Type 0
Outcome audit student_id schedule_id amount db (deducted, db') =
    (total db'.cards +ℤ amount ≡ℤ total db.cards)
    × ((card : Card) × (db'.transactions
          ≡ db.transactions ++ deduction_row audit student_id schedule_id amount card ∷ []))
    × (IsCovered db.cards → IsCovered db'.cards)
Outcome audit student_id schedule_id amount db (_, db') =
    (total db'.cards ≡ℤ total db.cards)
    × (db'.transactions ≡ db.transactions)
    × (IsCovered db.cards → IsCovered db'.cards)

pub Outcome-Settles :
    (audit : Option String) (student_id schedule_id : String) (amount : ℤ) (db : LessonDb)
    (q : LessonDeductOutcome × LessonDb)
    → Outcome audit student_id schedule_id amount db q
    → Settles audit student_id schedule_id amount db q
Outcome-Settles audit student_id schedule_id amount db (deducted, db') h = (h.0, h.1)
Outcome-Settles audit student_id schedule_id amount db (LessonDeductOutcome.already_deducted, db')
      h =
    (h.0, h.1)
Outcome-Settles audit student_id schedule_id amount db (LessonDeductOutcome.insufficient, db') h =
    (h.0, h.1)

pub Outcome-IsCovered :
    (audit : Option String) (student_id schedule_id : String) (amount : ℤ) (db : LessonDb)
    (q : LessonDeductOutcome × LessonDb)
    → Outcome audit student_id schedule_id amount db q
    → IsCovered db.cards
    → IsCovered q.1.cards
Outcome-IsCovered audit student_id schedule_id amount db (deducted, db') h = h.2
Outcome-IsCovered audit student_id schedule_id amount db (LessonDeductOutcome.already_deducted, db')
      h =
    h.2
Outcome-IsCovered audit student_id schedule_id amount db (LessonDeductOutcome.insufficient, db') h =
    h.2

abbrev pub as_is : Card → Card
as_is c = c

abbrev pub always : Card → Bool
always c = true

pub decrement-total :
    (audit : Option String) (id : String) (amount : ℤ) (t : List Card)
    → count_where (can_decrement id amount always) t ≡ 1
    → total (update_where (can_decrement id amount always) (decrement audit as_is amount) t)
        +ℤ amount
      ≡ℤ total t
decrement-total audit id amount t one = omega (
  int_laws,
  total-update_where (can_decrement id amount always) (decrement audit as_is amount) amount (pos 0)
      t (λ c _. omega int_laws) one,
)

pub decrement-IsCovered :
    (audit : Option String) (id : String) (amount : ℤ) (t : List Card)
    → IsCovered t
    → IsCovered (update_where (can_decrement id amount always) (decrement audit as_is amount) t)
decrement-IsCovered audit id amount t h =
    All-update_where (λ c. pos 0 ≤ℤ c.remaining_lessons) (can_decrement id amount always)
      (decrement audit as_is amount) t
      (λ c e k. let enough : amount ≤ℤ c.remaining_lessons = ground arith in omega int_laws) h

-- Giving the lessons back finds the one card that was charged.
pub charged-has_id :
    (audit : Option String) (id : String) (amount : ℤ) (t : List Card)
    → is_consistent card_conflict t ≡ true
    → count_where (can_decrement id amount always) t ≡ 1
    → count_where
        (has_id id)
        (update_where (can_decrement id amount always) (decrement audit as_is amount) t)
      ≡ 1
charged-has_id audit id amount t unique one = omega (
  arith,
  count_where-update_where id (can_decrement id amount always) (decrement audit as_is amount) t
      (λ c. refl),
  count_where-le (can_decrement id amount always) (has_id id) t (λ c h. ground arith),
  count_where-le-one (has_id id) id t (λ c h. (eq_iff c.id id).0 h) unique,
)
