-- ===== src/Database.antt =====
-- What the services rely on of a Prisma delegate (`tx.order`, `tx.membershipCard`, …): the package
-- is not part of the repository, so a delegate is a record of operations with laws. A table is the
-- list of its rows, in the order in which a query without `orderBy` returns them.
pub mod Memory
pub mod Consistency
use mib_server.Prelude.{
  ℕ, ◌≤◌, ◌≡◌, Bool, true, false, ◌&&◌, not, Option, some, List, [], ◌∷◌, ◌++◌, any, first_match,
  count_where, update_where, select_where, Result, ok, err, All, Member,
}

-- What a write may throw: error P2002, or anything else (a lost connection, a timeout).
pub data DbError : Type 0 where
  unique_violation failure : DbError

-- `isPrismaUniqueViolation`.
abbrev pub is_prisma_unique_violation : DbError → Bool
is_prisma_unique_violation DbError.unique_violation = true
is_prisma_unique_violation DbError.failure = false

-- No two rows break a unique constraint; `conflict` says when two rows do.
abbrev pub is_consistent : {R : Type 0} → (R → R → Bool) → List R → Bool
is_consistent conflict [] = true
is_consistent conflict (r ∷ t) = not (any (conflict r) t) && is_consistent conflict t

-- Ascending by a key.
abbrev pub IsSorted : {R : Type 0} → (R → ℕ) → List R → Type 0
IsSorted key [] = Unit
IsSorted key (r ∷ t) = All (λ s. key r ≤ key s) t × IsSorted key t

pub record Delegate (R : Type 0) (conflict : R → R → Bool) : Type 0 where
  -- `findUnique` and `findFirst`
  pub find_first : (R → Bool) → List R → Option R
  pub find_first_law : (p : R → Bool) (t : List R) → find_first p t ≡ first_match p t
  -- `findMany` with `orderBy` a time, ascending: rows of the table that pass the test
  pub find_many : (R → Bool) → (R → ℕ) → List R → List R
  pub find_many_law :
      (p : R → Bool) (key : R → ℕ) (t : List R)
      → All (λ r. (p r ≡ true) × Member r t) (find_many p key t)
  pub find_many_complete :
      (p : R → Bool) (key : R → ℕ) (t : List R) (r : R)
      → Member r t
      → p r ≡ true
      → Member r (find_many p key t)
  pub find_many_sorted :
      (p : R → Bool) (key : R → ℕ) (t : List R) → IsSorted key (find_many p key t)
  -- `updateMany`: the number of rows that pass the test, and the table after
  pub update_many : (R → Bool) → (R → R) → List R → Result DbError (ℕ × List R)
  pub update_many_ok :
      (p : R → Bool) (f : R → R) (t : List R) {n : ℕ} {t' : List R}
      → update_many p f t ≡ ok (n, t')
      → (n ≡ count_where p t) × (t' ≡ update_where p f t)
  pub update_many_keeps :
      (p : R → Bool) (f : R → R) (t : List R) {n : ℕ} {t' : List R}
      → update_many p f t ≡ ok (n, t')
      → is_consistent conflict t ≡ true
      → is_consistent conflict t' ≡ true
  pub update_many_unique :
      (p : R → Bool) (f : R → R) (t : List R)
      → update_many p f t ≡ err DbError.unique_violation
      → is_consistent conflict (update_where p f t) ≡ false
  -- `update` of the one row that a unique test finds: an error when there is none
  pub update : (R → Bool) → (R → R) → List R → Result DbError (R × List R)
  pub update_ok :
      (p : R → Bool) (f : R → R) (t : List R) {r : R} {t' : List R}
      → update p f t ≡ ok (r, t')
      → (t' ≡ update_where p f t) × ((old : R) × (first_match p t ≡ some old) × (r ≡ f old))
  pub update_keeps :
      (p : R → Bool) (f : R → R) (t : List R) {r : R} {t' : List R}
      → update p f t ≡ ok (r, t')
      → is_consistent conflict t ≡ true
      → is_consistent conflict t' ≡ true
  -- `delete` of the one row that a unique test finds, and `deleteMany`
  pub delete : (R → Bool) → List R → Result DbError (List R)
  pub delete_ok :
      (p : R → Bool) (t : List R) {t' : List R}
      → delete p t ≡ ok t'
      → (t' ≡ select_where (λ r. not (p r)) t) × (any p t ≡ true)
  pub delete_many : (R → Bool) → List R → Result DbError (List R)
  pub delete_many_ok :
      (p : R → Bool) (t : List R) {t' : List R}
      → delete_many p t ≡ ok t'
      → t' ≡ select_where (λ r. not (p r)) t
  pub create : R → List R → Result DbError (List R)
  pub create_ok :
      (r : R) (t : List R) {t' : List R}
      → create r t ≡ ok t'
      → (t' ≡ t ++ r ∷ []) × (any (conflict r) t ≡ false)
  pub create_unique :
      (r : R) (t : List R) → create r t ≡ err DbError.unique_violation → any (conflict r) t ≡ true
  -- `createMany`: every row, or none
  pub create_many : List R → List R → Result DbError (List R)
  pub create_many_ok :
      (rows t : List R) {t' : List R}
      → create_many rows t ≡ ok t'
      → (t' ≡ t ++ rows) × (is_consistent conflict (t ++ rows) ≡ true)
  pub create_many_unique :
      (rows t : List R)
      → create_many rows t ≡ err DbError.unique_violation
      → is_consistent conflict (t ++ rows) ≡ false
