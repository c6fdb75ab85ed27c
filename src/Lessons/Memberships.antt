-- ===== src/Lessons/Memberships.antt =====
-- modules/memberships/memberships.service.ts. What a query includes beside the card (its latest
-- transactions) is part of the answer only and is left out.
use mib_server.Prelude.{
  ℕ, String, str_eq, Bool, Option, none, some, List, Result, ok, err, ◌>>=◌, if◌then◌else◌, ◌==◌,
}
use mib_server.Prelude.Int.{ℤ, pos_part, neg_part, ◌+ℤ◌}
use mib_server.Database.{DbError, Delegate}
use mib_server.Http.{HttpError, rethrow}
use mib_server.Lessons.Data.{
  Card, MembershipStatus, LessonTransaction, LessonDb, card_conflict, transaction_conflict,
  audit_on_update, build_adjust_business_key, lesson_transaction_create_data,
}
use mib_server.Lessons.Adjust.{
  LessonAdjustFailureReason, LessonAdjustResult, adjusted, refused, apply_membership_lesson_delta,
}

-- The part of a student row that is read.
pub record StudentRow : Type 0 where
  pub id : String
  pub tenant_id : Option String

abbrev pub student_conflict : StudentRow → StudentRow → Bool
student_conflict a b = str_eq a.id b.id

-- dto/create-membership.dto.ts, with the dates parsed by `new Date`
pub record CreateMembershipDto : Type 0 where
  pub student_id : String
  pub title : String
  pub total_lessons : ℤ
  pub remaining_lessons : ℤ
  pub valid_from : ℕ
  pub valid_to : ℕ
  pub status : Option MembershipStatus

-- dto/update-membership.dto.ts: every field is optional
pub record UpdateMembershipDto : Type 0 where
  pub student_id : Option String
  pub title : Option String
  pub total_lessons : Option ℤ
  pub remaining_lessons : Option ℤ
  pub valid_from : Option ℕ
  pub valid_to : Option ℕ
  pub status : Option MembershipStatus

-- dto/adjust-lessons.dto.ts
pub record AdjustLessonsDto : Type 0 where
  pub delta : ℤ
  pub reason : String
  pub schedule_id : Option String

-- `value ?? fallback`; in an update, a column that stays as it is where the field is undefined.
abbrev pub or_else {ℓ} : {A : Type ℓ} → Option A → A → A
or_else none d = d
or_else (some a) d = a

abbrev pub is_zero : ℤ → Bool
is_zero d = pos_part d == neg_part d

-- The columns that `update` sets.
abbrev pub update_data : Option String → UpdateMembershipDto → Card → Card
update_data audit dto c = record c {
  student_id = or_else dto.student_id c.student_id;
  title = or_else dto.title c.title;
  total_lessons = or_else dto.total_lessons c.total_lessons;
  remaining_lessons = or_else dto.remaining_lessons c.remaining_lessons;
  valid_from = or_else dto.valid_from c.valid_from;
  valid_to = or_else dto.valid_to c.valid_to;
  status = or_else dto.status c.status;
  updated_by = audit_on_update audit c.updated_by;
}

-- The transaction row of a manual adjustment; `uuid` is what `randomUUID()` gives.
abbrev pub adjustment_row : Option String → String → AdjustLessonsDto → Card → LessonTransaction
adjustment_row audit uuid dto card = lesson_transaction_create_data audit (record {
  membership_id = card.id;
  student_id = card.student_id;
  delta = dto.delta;
  reason = dto.reason;
  business_key = build_adjust_business_key card.id uuid;
  schedule_id = dto.schedule_id;
  before_remaining = card.remaining_lessons;
  after_remaining = card.remaining_lessons +ℤ dto.delta;
  metadata = some (record { source = "manual_adjust"; schedule_id = dto.schedule_id });
})

module _ (students : Delegate StudentRow student_conflict) (cards : Delegate Card card_conflict)
    (transactions : Delegate LessonTransaction transaction_conflict) (audit : Option String) where
  -- `create`, over the table of students; `uuid` is the new row's id
  unfoldable pub create :
      String → CreateMembershipDto → List StudentRow → LessonDb → Result HttpError (Card × LessonDb)
  create uuid dto rows db = elim (students.find_first (λ s. str_eq s.id dto.student_id) rows) [
    | none ↦ err (HttpError.not_found "学员不存在")
    | some student ↦
        let card : Card = record {
          id = uuid;
          tenant_id = student.tenant_id;
          student_id = dto.student_id;
          title = dto.title;
          total_lessons = dto.total_lessons;
          remaining_lessons = dto.remaining_lessons;
          valid_from = dto.valid_from;
          valid_to = dto.valid_to;
          status = or_else dto.status MembershipStatus.active;
          version = 0;
          created_by = audit;
          updated_by = audit;
        } in
        rethrow (cards.create card db.cards) >>= λ t. ok (card, record db { cards = t })
  ]

  -- `findByStudent`
  unfoldable pub find_by_student : String → LessonDb → List Card
  find_by_student student_id db =
      cards.find_many (λ c. str_eq c.student_id student_id) (λ c. c.valid_to) db.cards

  -- `findOne`
  unfoldable pub find_one : String → LessonDb → Result HttpError Card
  find_one id db = elim (cards.find_first (λ c. str_eq c.id id) db.cards) [
    | none ↦ err (HttpError.not_found "会员卡不存在")
    | some m ↦ ok m
  ]

  -- `update`; `meanwhile` is what other requests commit between the read and the write
  unfoldable pub update :
      (LessonDb → LessonDb)
      → String
      → UpdateMembershipDto
      → LessonDb
      → Result HttpError (Card × LessonDb)
  unfolding find_one
  update meanwhile id dto db = find_one id db >>= λ _.
      let now : LessonDb = meanwhile db in
      rethrow (cards.update (λ c. str_eq c.id id) (update_data audit dto) now.cards) >>= λ r.
      ok (r.0, record now { cards = r.1 })

  -- The rest of the transaction, once the balance has been changed.
  unfoldable pub record_adjustment :
      String
      → AdjustLessonsDto
      → Card
      → LessonAdjustResult × List Card
      → LessonDb
      → Result HttpError (Card × LessonDb)
  record_adjustment uuid dto card (refused LessonAdjustFailureReason.insufficient, t) db =
      err (HttpError.bad_request "剩余课时不足")
  record_adjustment uuid dto card (refused LessonAdjustFailureReason.version_conflict, t) db =
      err (HttpError.conflict "会员卡已被其他人更新，请刷新后重试")
  record_adjustment uuid dto card (adjusted, t) db =
      rethrow (transactions.create (adjustment_row audit uuid dto card) db.transactions) >>= λ rows.
      elim (cards.find_first (λ c. str_eq c.id card.id) t) [
        | none ↦ err (HttpError.database DbError.failure)
        | some c ↦ ok (c, record { cards = t; transactions = rows })
      ]

  -- `adjustLessons`: one transaction, so an error leaves the tables as they were. `between` is what
  -- other transactions commit to the cards between the read of the card and the conditional write.
  unfoldable pub adjust_lessons :
      (List Card → List Card)
      → String
      → String
      → AdjustLessonsDto
      → LessonDb
      → Result HttpError (Card × LessonDb)
  unfolding record_adjustment
  adjust_lessons between uuid id dto db =
      if is_zero dto.delta
      then err (HttpError.bad_request "调整量不能为 0")
      else elim (cards.find_first (λ c. str_eq c.id id) db.cards) [
        | none ↦ err (HttpError.not_found "会员卡不存在")
        | some card ↦
            rethrow (
              apply_membership_lesson_delta cards audit id card.version dto.delta
                (between db.cards))
            >>= λ r. record_adjustment uuid dto card r db
      ]
