-- ===== src/Lessons/Adjust.antt =====
-- modules/memberships/memberships-lesson-adjust.ts: a change of the balance under optimistic
-- locking by the card's version.
use mib_server.Prelude.{
  ℕ, ◌+◌, String, str_eq, Bool, ◌&&◌, Option, none, some, List, Result, ok, ◌>>=◌, if◌then◌else◌,
  ◌==◌, not,
}
use mib_server.Prelude.Int.{ℤ, pos, ltb_ℤ, abs}
use mib_server.Database.{DbError, Delegate}
use mib_server.Lessons.Data.{Card, card_conflict, audit_on_update}
use mib_server.Lessons.Balance.{increment, try_decrement_membership_lessons}

pub data LessonAdjustFailureReason : Type 0 where
  insufficient version_conflict : LessonAdjustFailureReason

-- `LessonAdjustResult`: `{ ok: true }` or `{ ok: false, reason }`
pub data LessonAdjustResult : Type 0 where
  adjusted : LessonAdjustResult
  refused : LessonAdjustFailureReason → LessonAdjustResult

abbrev pub has_version : ℕ → Card → Bool
has_version expected c = c.version == expected

-- `{ version: { increment: 1 } }`
abbrev pub bump_version : Card → Card
bump_version c = record c { version = c.version + 1 }

-- `{ version: { increment: 1 }, ...auditOnUpdate() }`
abbrev pub bump_version_audited : Option String → Card → Card
bump_version_audited audit c = record c {
  version = c.version + 1;
  updated_by = audit_on_update audit c.updated_by;
}

-- Why nothing was changed: the branch after a failed decrement.
unfoldable pub refusal : ℕ → ℤ → Option Card → LessonAdjustFailureReason
refusal expected amount none = LessonAdjustFailureReason.version_conflict
refusal expected amount (some c) =
    if not (c.version == expected)
    then LessonAdjustFailureReason.version_conflict
    else if ltb_ℤ c.remaining_lessons amount
    then LessonAdjustFailureReason.insufficient
    else LessonAdjustFailureReason.version_conflict

abbrev pub raised_result : ℕ → LessonAdjustResult
raised_result n = if n == 1 then adjusted else refused LessonAdjustFailureReason.version_conflict

module _ (cards : Delegate Card card_conflict) (audit : Option String) where
  -- The branch of a positive delta.
  unfoldable pub raise_lessons :
      String → ℕ → ℤ → List Card → Result DbError (LessonAdjustResult × List Card)
  raise_lessons id expected delta t =
      cards.update_many (λ c. str_eq c.id id && has_version expected c)
        (increment audit bump_version delta) t
      >>= λ r. ok (raised_result r.0, r.1)

  -- The branch of a delta that is not positive.
  unfoldable pub lower_lessons :
      String → ℕ → ℤ → List Card → Result DbError (LessonAdjustResult × List Card)
  unfolding refusal
  lower_lessons id expected amount t =
      try_decrement_membership_lessons cards audit id amount (has_version expected)
        (bump_version_audited audit) t
      >>= λ r. ok (
        (if r.0
            then adjusted
            else refused (refusal expected amount (cards.find_first (λ c. str_eq c.id id) r.1))),
        r.1,
      )

  -- `applyMembershipLessonDelta`
  unfoldable pub apply_membership_lesson_delta :
      String → ℕ → ℤ → List Card → Result DbError (LessonAdjustResult × List Card)
  unfolding raise_lessons lower_lessons
  apply_membership_lesson_delta id expected delta t =
      if ltb_ℤ (pos 0) delta
      then raise_lessons id expected delta t
      else lower_lessons id expected (abs delta) t
