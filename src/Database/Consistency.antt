-- ===== src/Database/Consistency.antt =====
-- Consequences of a table's unique constraints, and of the writes that keep them.
use mib_server.Prelude.{
  if◌then◌else◌, ◌≡◌, refl, sym, ap, ◌∙◌, Bool, true, false, not, inl, inr, List, [], ◌∷◌, ◌++◌,
  arith, any, All, Member, select_where, update_where, Bool-cases, and-eq-true, first_match, some,
}
use mib_server.Database.{is_consistent}

module _ {R : Type 0} where
  pub any-Member : (p : R → Bool) (r : R) (t : List R) → Member r t → p r ≡ true → any p t ≡ true
  any-Member p r [] m h = absurd m
  any-Member p r (x ∷ t) (inl e) h = ground arith
  any-Member p r (x ∷ t) (inr m) h = ground (arith, any-Member p r t m h)

  -- Two rows that break a constraint are one row.
  pub unique-Member :
      (conflict : R → R → Bool) (t : List R) (a b : R)
      → is_consistent conflict t ≡ true
      → Member a t
      → Member b t
      → conflict a b ≡ true
      → conflict b a ≡ true
      → a ≡ b
  unique-Member conflict [] a b h m n c d = absurd m
  unique-Member conflict (x ∷ t) a b h (inl e) (inl f) c d = e ∙ sym f
  unique-Member conflict (x ∷ t) a b h (inl e) (inr n) c d =
      let hit : any (conflict x) t ≡ true = rw e at (any-Member (conflict a) b t n c) in
      ground arith
  unique-Member conflict (x ∷ t) a b h (inr m) (inl f) c d =
      let hit : any (conflict x) t ≡ true = rw f at (any-Member (conflict b) a t m d) in
      ground arith
  unique-Member conflict (x ∷ t) a b h (inr m) (inr n) c d =
      unique-Member conflict t a b
        (and-eq-true (not (any (conflict x) t)) (is_consistent conflict t) h).1 m n c d

  any-select_where :
      (p q : R → Bool) (t : List R) → any p t ≡ false → any p (select_where q t) ≡ false
  any-select_where p q [] h = refl
  any-select_where p q (x ∷ t) h = ground (arith, any-select_where p q t)

  -- Deleting rows breaks no constraint.
  pub is_consistent-select_where :
      (conflict : R → R → Bool) (q : R → Bool) (t : List R)
      → is_consistent conflict t ≡ true
      → is_consistent conflict (select_where q t) ≡ true
  is_consistent-select_where conflict q [] h = refl
  is_consistent-select_where conflict q (x ∷ t) h =
      ground (arith, is_consistent-select_where conflict q t, any-select_where (conflict x) q t)

  pub Member-select_where :
      (q : R → Bool) (a : R) (t : List R) → Member a t → q a ≡ true → Member a (select_where q t)
  Member-select_where q a [] m h = absurd m
  Member-select_where q a (r ∷ t) (inl e) h = rw (ap q (sym e) ∙ h) (inl e)
  Member-select_where q a (r ∷ t) (inr m) h = elim (Bool-cases (q r)) [
    | inl e ↦ rw e (inr (Member-select_where q a t m h))
    | inr e ↦ rw e (Member-select_where q a t m h)
  ]

  pub Member-append_left : (a : R) (t u : List R) → Member a t → Member a (t ++ u)
  Member-append_left a [] u m = absurd m
  Member-append_left a (x ∷ t) u (inl e) = inl e
  Member-append_left a (x ∷ t) u (inr m) = inr (Member-append_left a t u m)

  pub Member-append_right : (a : R) (t u : List R) → Member a u → Member a (t ++ u)
  Member-append_right a [] u m = m
  Member-append_right a (x ∷ t) u m = inr (Member-append_right a t u m)

  pub first_match-Member :
      (p : R → Bool) (t : List R) {a : R} → first_match p t ≡ some a → (p a ≡ true) × Member a t
  first_match-Member p [] h = cc
  first_match-Member p (x ∷ t) {a} h = elim (Bool-cases (p x)) [
    | inl e ↦ found e (rw e at h)
    | inr e ↦ let (q, m) = first_match-Member p t (rw e at h) in (q, inr m)
  ]
    where
      found : p x ≡ true → some x ≡ some a → (p a ≡ true) × Member a (x ∷ t)
      found e h' = (ground arith, inl (cc))

  pub All-tabulate {ℓ} : (P : R → Type ℓ) (t : List R) → ((a : R) → Member a t → P a) → All P t
  All-tabulate P [] h = tt
  All-tabulate P (x ∷ t) h = (h x (inl refl), All-tabulate P t (λ a m. h a (inr m)))

  -- What holds of the rows after an update.
  pub All-update_where-Member :
      (P : R → Type 0) (p : R → Bool) (f : R → R) (t : List R)
      → ((a : R) → Member a t → p a ≡ true → P (f a))
      → ((a : R) → Member a t → p a ≡ false → P a)
      → All P (update_where p f t)
  All-update_where-Member P p f [] h k = tt
  All-update_where-Member P p f (x ∷ t) h k =
      (split (p x) refl, All-update_where-Member P p f t (λ a m. h a (inr m)) (λ a m. k a (inr m)))
    where
      split : (b : Bool) → p x ≡ b → P (if b then f x else x)
      split true e = h x (inl refl) e
      split false e = k x (inl refl) e

  any-snoc :
      (p : R → Bool) (r : R) (t : List R)
      → any p t ≡ false
      → p r ≡ false
      → any p (t ++ r ∷ []) ≡ false
  any-snoc p r [] h k = ground arith
  any-snoc p r (x ∷ t) h k = ground (arith, any-snoc p r t)

  -- Adding a row that meets no other breaks no constraint.
  pub is_consistent-snoc :
      (conflict : R → R → Bool)
      → ((a b : R) → conflict a b ≡ conflict b a)
      → (r : R) (t : List R) → is_consistent conflict t ≡ true
      → any (conflict r) t ≡ false
      → is_consistent conflict (t ++ r ∷ []) ≡ true
  is_consistent-snoc conflict comm r [] h k = refl
  is_consistent-snoc conflict comm r (x ∷ t) h k =
      ground (arith, comm x r, is_consistent-snoc conflict comm r t, any-snoc (conflict x) r t)

  pub All-snoc : (P : R → Type 0) (t : List R) (r : R) → All P t → P r → All P (t ++ r ∷ [])
  All-snoc P [] r h k = (k, tt)
  All-snoc P (x ∷ t) r h k = (h.0, All-snoc P t r h.1 k)
