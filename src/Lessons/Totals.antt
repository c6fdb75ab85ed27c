-- ===== src/Lessons/Totals.antt =====
-- The sum of the lessons that are left on the cards, under the writes of
-- common/prisma/membership-lessons.ts.
use mib_server.Prelude.{
  ℕ, ◌≤◌, ◌≡◌, refl, String, str_eq, Bool, true, false, Option, List, [], ◌∷◌, arith, any,
  count_where, update_where, update_where-none, Result, ok, err, ◌>>=◌, ◌==◌, Bool-cases, inl, inr,
  eq_iff, ◌⊎◌,
}
use mib_server.Prelude.Int.{ℤ, pos, ◌+ℤ◌, ◌≡ℤ◌, leb_ℤ, int_laws}
use mib_server.Database.{DbError, is_consistent, Delegate}
use mib_server.Lessons.Data.{Card, card_conflict}
use mib_server.Lessons.Balance.{decrement, can_decrement, try_decrement_membership_lessons}

abbrev pub total : List Card → ℤ
total [] = pos 0
total (c ∷ t) = c.remaining_lessons +ℤ total t

abbrev pub has_id : String → Card → Bool
has_id id c = str_eq c.id id

-- An update that selects one row moves the sum by what it does to that row.
module _ (p : Card → Bool) (f : Card → Card) (before after : ℤ) where
  pub total-update_where :
      (t : List Card)
      → ((c : Card)
          → p c ≡ true
          → (f c).remaining_lessons +ℤ before ≡ℤ c.remaining_lessons +ℤ after)
      → count_where p t ≡ 1
      → total (update_where p f t) +ℤ before ≡ℤ total t +ℤ after
  total-update_where [] moved h = absurd (omega arith)
  total-update_where (c ∷ t) moved h = elim (Bool-cases (p c)) [
    | inl e ↦ rw (e, update_where-none p f t (rest e)) (omega (int_laws, moved c e))
    | inr e ↦ rw e (omega (int_laws, total-update_where t moved (same e)))
  ]
    where
      rest : p c ≡ true → count_where p t ≡ 0
      rest e = ground arith

      same : p c ≡ false → count_where p t ≡ 1
      same e = ground arith

-- The primary key: at most one row has an id.
count_where-conflict :
    (p : Card → Bool) (id : String) (c : Card) (t : List Card)
    → c.id ≡ id
    → ((d : Card) → p d ≡ true → d.id ≡ id)
    → any (card_conflict c) t ≡ false
    → count_where p t ≡ 0
count_where-conflict p id c [] e only h = refl
count_where-conflict p id c (d ∷ t) e only h = elim (Bool-cases (p d)) [
  | inl q ↦ absurd (clash (only d q))
  | inr q ↦ rw q (count_where-conflict p id c t e only (ground arith))
]
  where
    clash : d.id ≡ id → ⊥
    clash q = ground (arith, eq_iff c.id d.id)

pub count_where-le-one :
    (p : Card → Bool) (id : String) (t : List Card)
    → ((d : Card) → p d ≡ true → d.id ≡ id)
    → is_consistent card_conflict t ≡ true
    → count_where p t ≤ 1
count_where-le-one p id [] only h = omega arith
count_where-le-one p id (c ∷ t) only h = elim (Bool-cases (p c)) [
  | inl q ↦ rw (q, count_where-conflict p id c t (only c q) only (ground arith)) (omega arith)
  | inr q ↦ rw q (count_where-le-one p id t only (ground arith))
]

pub can_decrement-id :
    (id : String) (amount : ℤ) (extra : Card → Bool) (c : Card)
    → can_decrement id amount extra c ≡ true
    → c.id ≡ id
can_decrement-id id amount extra c h = ground (arith, eq_iff c.id id)

-- A write that keeps the ids keeps how often an id occurs.
pub count_where-update_where :
    (id : String) (p : Card → Bool) (f : Card → Card) (t : List Card)
    → ((c : Card) → (f c).id ≡ c.id)
    → count_where (has_id id) (update_where p f t) ≡ count_where (has_id id) t
count_where-update_where id p f [] same = refl
count_where-update_where id p f (c ∷ t) same = elim (Bool-cases (p c)) [
  | inl e ↦ rw (e, same c, count_where-update_where id p f t same)
  | inr e ↦ rw (e, count_where-update_where id p f t same)
]

pub count_where-le :
    (p q : Card → Bool) (t : List Card)
    → ((c : Card) → p c ≡ true → q c ≡ true)
    → count_where p t ≤ count_where q t
count_where-le p q [] imp = omega arith
count_where-le p q (c ∷ t) imp = elim (Bool-cases (p c)) [
  | inl e ↦ rw (e, imp c e) (omega (arith, count_where-le p q t imp))
  | inr e ↦ rw e (ground (arith, count_where-le p q t imp))
]

-- What a decrement has done: it changed the one card that it selects, or nothing at all.
abbrev pub Decremented :
    Option String
    → String
    → ℤ
    → (Card → Bool)
    → (Card → Card)
    → List Card
    → Bool × List Card
    → Type 0
Decremented audit id amount extra set t r =
    ((r.0 ≡ true)
      × (count_where (can_decrement id amount extra) t ≡ 1)
      × (r.1 ≡ update_where (can_decrement id amount extra) (decrement audit set amount) t)
      × (is_consistent card_conflict r.1 ≡ true))
    ⊎ ((r.0 ≡ false)
        × (r.1 ≡ t)
        × (leb_ℤ amount (pos 0) ≡ false → count_where (can_decrement id amount extra) t ≡ 0))

module _ (cards : Delegate Card card_conflict) (audit : Option String) where
  pub try_decrement_cases :
      (id : String) (amount : ℤ) (extra : Card → Bool) (set : Card → Card) (t : List Card)
      {r : Bool × List Card}
      → is_consistent card_conflict t ≡ true
      → try_decrement_membership_lessons cards audit id amount extra set t ≡ ok r
      → Decremented audit id amount extra set t r
  unfolding try_decrement_membership_lessons
  try_decrement_cases id amount extra set t {r} h e = elim (Bool-cases (leb_ℤ amount (pos 0))) [
    | inl small ↦ inr (ground arith, ground arith, λ big. cc)
    | inr big ↦ go (cards.update_many select write t) refl (rw big at e)
  ]
    where
      select : Card → Bool
      select = can_decrement id amount extra

      write : Card → Card
      write = decrement audit set amount

      go :
          (m : Result DbError (ℕ × List Card))
          → cards.update_many select write t ≡ m
          → (m >>= λ q. ok (q.0 == 1, q.1)) ≡ ok r
          → Decremented audit id amount extra set t r
      go (err _) w a = cc
      go (ok (n, u)) w a =
          let few = count_where-le-one select id t (can_decrement-id id amount extra) h in
          let (counted, changed) = cards.update_many_ok select write t w in
          let kept = cards.update_many_keeps select write t w h in
          elim (Bool-cases (n == 1)) [
            | inl one ↦ inl (ground arith, ground arith, ground arith, ground arith)
            | inr other ↦
                let empty : count_where select t ≡ 0 = ground arith in
                inr (
                  ground arith,
                  ground (arith, update_where-none select write t empty),
                  λ big. empty,
                )
          ]
