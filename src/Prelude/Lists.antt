-- ===== src/Prelude/Lists.antt =====
-- Lists read by a Boolean test: what a table query with a `where` clause selects and changes.
use Prim.Native.Nat.{ℕ, suc, ◌+◌}
use mathlib.Core.Path.{◌≡◌, refl}
use mathlib.Core.Logic.{◌⊎◌, ◌≢◌, inl, inr}
use mathlib.Core.Bool.{Bool, true, false, ◌&&◌, ◌||◌}
use mathlib.Core.List.{List, [], ◌∷◌, ◌++◌}
use mathlib.Core.Option.{Option, none, some}
use native.Mathlib.Omega.{arith}
use mib_server.Prelude.Tests.{if◌then◌else◌}

module _ {ℓ} {A : Type ℓ} where
  abbrev pub length : List A → ℕ
  length [] = 0
  length (x ∷ xs) = suc (length xs)

  abbrev pub any : (A → Bool) → List A → Bool
  any p [] = false
  any p (x ∷ xs) = p x || any p xs

  abbrev pub all : (A → Bool) → List A → Bool
  all p [] = true
  all p (x ∷ xs) = p x && all p xs

  -- The rows that pass a test, in order.
  abbrev pub select_where : (A → Bool) → List A → List A
  select_where p [] = []
  select_where p (x ∷ xs) = if p x then x ∷ select_where p xs else select_where p xs

  abbrev pub first_match : (A → Bool) → List A → Option A
  first_match p [] = none
  first_match p (x ∷ xs) = if p x then some x else first_match p xs

  abbrev pub count_where : (A → Bool) → List A → ℕ
  count_where p [] = 0
  count_where p (x ∷ xs) = if p x then suc (count_where p xs) else count_where p xs

  abbrev pub update_where : (A → Bool) → (A → A) → List A → List A
  update_where p f [] = []
  update_where p f (x ∷ xs) = (if p x then f x else x) ∷ update_where p f xs

  pub length-append : (xs ys : List A) → length (xs ++ ys) ≡ length xs + length ys
  length-append [] ys = omega arith
  length-append (x ∷ xs) ys = omega (arith, length-append xs ys)

  pub first_match-some :
      (p : A → Bool) (xs : List A) {a : A} → first_match p xs ≡ some a → p a ≡ true
  first_match-some p [] h = cc
  first_match-some p (x ∷ xs) {a} h = ground (arith, first_match-some p xs {a = a})

  pub any-of_first_match :
      (p : A → Bool) (xs : List A) {a : A} → first_match p xs ≡ some a → any p xs ≡ true
  any-of_first_match p [] h = cc
  any-of_first_match p (x ∷ xs) {a} h = ground (arith, any-of_first_match p xs {a = a})

  pub first_match-none : (p : A → Bool) (xs : List A) → first_match p xs ≡ none → any p xs ≡ false
  first_match-none p [] h = refl
  first_match-none p (x ∷ xs) h = ground (arith, first_match-none p xs)

  pub first_match-append :
      (p : A → Bool) (xs : List A) (a : A)
      → p a ≡ true
      → (b : A) × (first_match p (xs ++ a ∷ []) ≡ some b)
  first_match-append p [] a h = (a, ground arith)
  first_match-append p (x ∷ xs) a h =
      let (b, e) = first_match-append p xs a h in (if p x then x else b, ground arith)

  pub count_where-none : (p : A → Bool) (xs : List A) → any p xs ≡ false → count_where p xs ≡ 0
  count_where-none p [] h = refl
  count_where-none p (x ∷ xs) h = ground (arith, count_where-none p xs)

  -- A query that selects no row changes nothing.
  pub update_where-none :
      (p : A → Bool) (f : A → A) (xs : List A) → count_where p xs ≡ 0 → update_where p f xs ≡ xs
  update_where-none p f [] h = refl
  update_where-none p f (x ∷ xs) h = ground (arith, update_where-none p f xs)

abbrev pub All {ℓ κ} : {A : Type ℓ} → (A → Type κ) → List A → Type κ
All Holds [] = Unit
All Holds (first ∷ rest) = Holds first × All Holds rest

abbrev pub Member : {A : Type 0} → A → List A → Type 0
Member a [] = ⊥
Member a (x ∷ xs) = (a ≡ x) ⊎ Member a xs

pub All-update_where {ℓ κ} :
    {A : Type ℓ} (P : A → Type κ) (p : A → Bool) (f : A → A) (xs : List A)
    → ((a : A) → p a ≡ true → P a → P (f a))
    → All P xs
    → All P (update_where p f xs)
All-update_where P p f [] keep h = tt
All-update_where P p f (x ∷ xs) keep h = (step (p x) refl, All-update_where P p f xs keep h.1)
  where
    step : (b : Bool) → p x ≡ b → P (if b then f x else x)
    step true e = keep x e h.0
    step false e = h.0

pub All-member {ℓ} :
    {A : Type 0} (P : A → Type ℓ) (xs : List A) → All P xs → (a : A) → Member a xs → P a
All-member P [] h a m = absurd m
All-member P (x ∷ xs) h a (inl e) = rw e h.0
All-member P (x ∷ xs) h a (inr m) = All-member P xs h.1 a m

pub count_where-pos :
    {A : Type 0} (p : A → Bool) (a : A) (xs : List A)
    → Member a xs
    → p a ≡ true
    → count_where p xs ≢ 0
count_where-pos p a [] m h e = m
count_where-pos p a (x ∷ xs) (inl same) h e = ground arith
count_where-pos p a (x ∷ xs) (inr m) h e = ground (arith, count_where-pos p a xs m h)
