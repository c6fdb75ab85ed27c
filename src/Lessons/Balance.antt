-- ===== src/Lessons/Balance.antt =====
-- The conditional decrement and the compensating increment of common/prisma/membership-lessons.ts.
use mib_server.Prelude.{
  String, str_eq, Bool, false, ◌&&◌, Option, List, Result, ok, ◌>>=◌, if◌then◌else◌, ◌==◌,
}
use mib_server.Prelude.Int.{ℤ, pos, ◌+ℤ◌, ◌-ℤ◌, leb_ℤ}
use mib_server.Database.{DbError, Delegate}
use mib_server.Lessons.Data.{Card, card_conflict, audit_on_update}

-- `{ ...data, remainingLessons: { decrement: amount }, ...auditOnUpdate() }`
abbrev pub decrement : Option String → (Card → Card) → ℤ → Card → Card
decrement audit set amount c =
    let d : Card = set c in
    record d {
      remaining_lessons = d.remaining_lessons -ℤ amount;
      updated_by = audit_on_update audit d.updated_by;
    }

abbrev pub increment : Option String → (Card → Card) → ℤ → Card → Card
increment audit set amount c =
    let d : Card = set c in
    record d {
      remaining_lessons = d.remaining_lessons +ℤ amount;
      updated_by = audit_on_update audit d.updated_by;
    }

-- The `where` clause of the decrement: the id, the caller's predicates, and enough lessons.
abbrev pub can_decrement : String → ℤ → (Card → Bool) → Card → Bool
can_decrement id amount extra c = str_eq c.id id && (extra c && leb_ℤ amount c.remaining_lessons)

module _ (cards : Delegate Card card_conflict) (audit : Option String) where
  -- `tryDecrementMembershipLessons`: whether exactly one card was changed, and the cards after
  unfoldable pub try_decrement_membership_lessons :
      String → ℤ → (Card → Bool) → (Card → Card) → List Card → Result DbError (Bool × List Card)
  try_decrement_membership_lessons id amount extra set t =
      if leb_ℤ amount (pos 0)
      then ok (false, t)
      else cards.update_many (can_decrement id amount extra) (decrement audit set amount) t >>= λ r.
          ok (r.0 == 1, r.1)

  -- `incrementMembershipLessons`
  unfoldable pub increment_membership_lessons : String → ℤ → List Card → Result DbError (List Card)
  increment_membership_lessons id amount t =
      if leb_ℤ amount (pos 0)
      then ok t
      else cards.update_many (λ c. str_eq c.id id) (increment audit (λ c. c) amount) t >>= λ r.
          ok r.1
