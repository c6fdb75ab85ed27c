-- ===== src/Lessons/Data.antt =====
-- The rows of the lesson ledger, as in prisma/schema.prisma, and the audit fields that each write
-- sets (common/audit/audit-context.ts). Ids are texts, times are milliseconds.
use Prim.Native.String.{◌++◌ as ◌+++◌}
use mib_server.Prelude.{
  ℕ, String, str_eq, Bool, false, ◌&&◌, ◌||◌, Option, none, some, List, if◌then◌else◌,
}
use mib_server.Prelude.Int.{ℤ}

pub data MembershipStatus : Type 0 where
  active expired frozen : MembershipStatus

pub record Card : Type 0 where
  pub id : String
  pub tenant_id : Option String
  pub student_id : String
  pub title : String
  pub total_lessons : ℤ
  pub remaining_lessons : ℤ
  pub valid_from : ℕ
  pub valid_to : ℕ
  pub status : MembershipStatus
  pub version : ℕ
  pub created_by : Option String
  pub updated_by : Option String

-- `metadata`, with the two keys that are written.
pub record Metadata : Type 0 where
  pub source : String
  pub schedule_id : Option String

pub record LessonTransaction : Type 0 where
  pub membership_id : String
  pub student_id : String
  pub delta : ℤ
  pub reason : String
  pub schedule_id : Option String
  pub business_key : String
  pub operator_id : Option String
  pub before_remaining : ℤ
  pub after_remaining : ℤ
  pub metadata : Option Metadata
  pub created_by : Option String
  pub updated_by : Option String

pub record LessonDb : Type 0 where
  pub cards : List Card
  pub transactions : List LessonTransaction

-- The primary key of a card.
abbrev pub card_conflict : Card → Card → Bool
card_conflict a b = str_eq a.id b.id

-- Equality of two nullable columns in a unique index: a null is equal to nothing.
abbrev pub both_eq : Option String → Option String → Bool
both_eq (some a) (some b) = str_eq a b
both_eq _ _ = false

-- `businessKey @unique` and `@@unique([membershipId, scheduleId])`.
abbrev pub transaction_conflict : LessonTransaction → LessonTransaction → Bool
transaction_conflict a b =
    str_eq a.business_key b.business_key
    || (str_eq a.membership_id b.membership_id && both_eq a.schedule_id b.schedule_id)

-- `getAuditUserId`: the user of the request, kept in `AsyncLocalStorage`; `runWithAuditUser` runs
-- without one for an absent or empty id.
abbrev pub run_with_audit_user : Option String → Option String
run_with_audit_user none = none
run_with_audit_user (some id) = if str_eq id "" then none else some id

-- `...auditOnUpdate()` over the old column.
abbrev pub audit_on_update : Option String → Option String → Option String
audit_on_update none old = old
audit_on_update (some id) old = some id

-- `buildCheckInBusinessKey`
abbrev pub build_check_in_business_key : String → String → String
build_check_in_business_key student_id schedule_id =
    "checkin:" +++ (student_id +++ (":" +++ schedule_id))

-- `buildAdjustBusinessKey`; the argument `uuid` is what `randomUUID()` gives.
abbrev pub build_adjust_business_key : String → String → String
build_adjust_business_key membership_id uuid = "adjust:" +++ (membership_id +++ (":" +++ uuid))

pub record LessonTransactionWriteInput : Type 0 where
  pub membership_id : String
  pub student_id : String
  pub delta : ℤ
  pub reason : String
  pub business_key : String
  pub schedule_id : Option String
  pub before_remaining : ℤ
  pub after_remaining : ℤ
  pub metadata : Option Metadata

-- `lessonTransactionCreateData`
abbrev pub lesson_transaction_create_data :
    Option String → LessonTransactionWriteInput → LessonTransaction
lesson_transaction_create_data audit input = record {
  membership_id = input.membership_id;
  student_id = input.student_id;
  delta = input.delta;
  reason = input.reason;
  schedule_id = input.schedule_id;
  business_key = input.business_key;
  operator_id = audit;
  before_remaining = input.before_remaining;
  after_remaining = input.after_remaining;
  metadata = input.metadata;
  created_by = audit;
  updated_by = audit;
}
