-- ===== src/Database/Memory.antt =====
-- A delegate over a list: it meets the laws of `Delegate`, so what is proved from them is about
-- something that can exist.
use mib_server.Prelude.{
  ℕ, ◌≤◌, ◌≡◌, refl, ◌⊎◌, inl, inr, Bool, true, false, not, none, some, List, [], ◌∷◌, ◌++◌, arith,
  any, first_match, count_where, update_where, select_where, Result, ok, err, All, Member, leb,
  if◌then◌else◌, Bool-cases, Option-cases, ap, sym, ◌∙◌,
}
use mib_server.Database.{DbError, is_consistent, IsSorted, Delegate}

module _ {R : Type 0} (key : R → ℕ) where
  abbrev pub insert_by : R → List R → List R
  insert_by r [] = r ∷ []
  insert_by r (s ∷ t) = if leb (key r) (key s) then r ∷ s ∷ t else s ∷ insert_by r t

  abbrev pub sort_by : List R → List R
  sort_by [] = []
  sort_by (r ∷ t) = insert_by r (sort_by t)

  All-insert_by : (P : R → Type 0) (r : R) (t : List R) → P r → All P t → All P (insert_by r t)
  All-insert_by P r [] h k = (h, tt)
  All-insert_by P r (s ∷ t) h k = elim (Bool-cases (leb (key r) (key s))) [
    | inl e ↦ rw e (h, k)
    | inr e ↦ rw e (k.0, All-insert_by P r t h k.1)
  ]

  pub All-sort_by : (P : R → Type 0) (t : List R) → All P t → All P (sort_by t)
  All-sort_by P [] h = tt
  All-sort_by P (r ∷ t) h = All-insert_by P r (sort_by t) h.0 (All-sort_by P t h.1)

  All-le : (a b : ℕ) (t : List R) → a ≤ b → All (λ s. b ≤ key s) t → All (λ s. a ≤ key s) t
  All-le a b [] h k = tt
  All-le a b (s ∷ t) h k = (omega arith, All-le a b t h k.1)

  insert_by-IsSorted : (r : R) (t : List R) → IsSorted key t → IsSorted key (insert_by r t)
  insert_by-IsSorted r [] h = (tt, tt)
  insert_by-IsSorted r (s ∷ t) h = elim (Bool-cases (leb (key r) (key s))) [
    | inl e ↦ rw e ((ground arith, All-le (key r) (key s) t (ground arith) h.0), h)
    | inr e ↦
        rw e (All-insert_by (λ u. key s ≤ key u) r t (ground arith) h.0, insert_by-IsSorted r t h.1)
  ]

  pub sort_by-IsSorted : (t : List R) → IsSorted key (sort_by t)
  sort_by-IsSorted [] = tt
  sort_by-IsSorted (r ∷ t) = insert_by-IsSorted r (sort_by t) (sort_by-IsSorted t)

  Member-insert_by : (a r : R) (t : List R) → (a ≡ r) ⊎ Member a t → Member a (insert_by r t)
  Member-insert_by a r [] h = h
  Member-insert_by a r (s ∷ t) h = elim (Bool-cases (leb (key r) (key s))) [
    | inl e ↦ rw e h
    | inr e ↦ rw e (later h (λ k. Member-insert_by a r t k))
  ]
    where
      later :
          (a ≡ r) ⊎ ((a ≡ s) ⊎ Member a t)
          → ((a ≡ r) ⊎ Member a t → Member a (insert_by r t))
          → (a ≡ s) ⊎ Member a (insert_by r t)
      later (inl p) ih = inr (ih (inl p))
      later (inr (inl p)) ih = inl p
      later (inr (inr p)) ih = inr (ih (inr p))

  pub Member-sort_by : (a : R) (t : List R) → Member a t → Member a (sort_by t)
  Member-sort_by a [] h = h
  Member-sort_by a (r ∷ t) (inl p) = Member-insert_by a r (sort_by t) (inl p)
  Member-sort_by a (r ∷ t) (inr p) = Member-insert_by a r (sort_by t) (inr (Member-sort_by a t p))

module _ {R : Type 0} (p : R → Bool) where
  pub All-select_where :
      (P : R → Type 0) (t : List R)
      → ((r : R) → p r ≡ true → Member r t → P r)
      → All P (select_where p t)
  All-select_where P [] h = tt
  All-select_where P (r ∷ t) h = elim (Bool-cases (p r)) [
    | inl e ↦ rw e (h r e (inl refl), All-select_where P t (λ s q m. h s q (inr m)))
    | inr e ↦ rw e (All-select_where P t (λ s q m. h s q (inr m)))
  ]

  pub Member-select_where :
      (a : R) (t : List R) → Member a t → p a ≡ true → Member a (select_where p t)
  Member-select_where a [] m h = absurd m
  Member-select_where a (r ∷ t) (inl e) h = rw ((ap p (sym e)) ∙ h) (inl e)
  Member-select_where a (r ∷ t) (inr m) h = elim (Bool-cases (p r)) [
    | inl e ↦ rw e (inr (Member-select_where a t m h))
    | inr e ↦ rw e (Member-select_where a t m h)
  ]

module _ {R : Type 0} (conflict : R → R → Bool) where
  abbrev pub memory_update_many : (R → Bool) → (R → R) → List R → Result DbError (ℕ × List R)
  memory_update_many p f t =
      if is_consistent conflict (update_where p f t)
      then ok (count_where p t, update_where p f t)
      else err DbError.unique_violation

  abbrev pub memory_update : (R → Bool) → (R → R) → List R → Result DbError (R × List R)
  memory_update p f t = elim (first_match p t) [
    | none ↦ err DbError.failure
    | some old ↦
        if is_consistent conflict (update_where p f t)
        then ok (f old, update_where p f t)
        else err DbError.unique_violation
  ]

  abbrev pub memory_delete : (R → Bool) → List R → Result DbError (List R)
  memory_delete p t = if any p t then ok (select_where (λ r. not (p r)) t) else err DbError.failure

  abbrev pub memory_create : R → List R → Result DbError (List R)
  memory_create r t = if any (conflict r) t then err DbError.unique_violation else ok (t ++ r ∷ [])

  pub update_many_law :
      (p : R → Bool) (f : R → R) (t : List R) {n : ℕ} {t' : List R}
      → memory_update_many p f t ≡ ok (n, t')
      → (n ≡ count_where p t) × (t' ≡ update_where p f t)
  update_many_law p f t h = ground arith

  pub update_many_consistent :
      (p : R → Bool) (f : R → R) (t : List R) {n : ℕ} {t' : List R}
      → memory_update_many p f t ≡ ok (n, t')
      → is_consistent conflict t ≡ true
      → is_consistent conflict t' ≡ true
  update_many_consistent p f t h k = ground arith

  pub update_many_refused :
      (p : R → Bool) (f : R → R) (t : List R)
      → memory_update_many p f t ≡ err DbError.unique_violation
      → is_consistent conflict (update_where p f t) ≡ false
  update_many_refused p f t h = ground arith

  pub update_law :
      (p : R → Bool) (f : R → R) (t : List R) {r : R} {t' : List R}
      → memory_update p f t ≡ ok (r, t')
      → (t' ≡ update_where p f t) × ((old : R) × (first_match p t ≡ some old) × (r ≡ f old))
  update_law p f t h = elim (Option-cases (first_match p t)) [
    | inl e ↦ ground arith
    | inr (old, e) ↦ (ground arith, (old, e, ground arith))
  ]

  pub update_consistent :
      (p : R → Bool) (f : R → R) (t : List R) {r : R} {t' : List R}
      → memory_update p f t ≡ ok (r, t')
      → is_consistent conflict t ≡ true
      → is_consistent conflict t' ≡ true
  update_consistent p f t h k = ground arith

  pub delete_law :
      (p : R → Bool) (t : List R) {t' : List R}
      → memory_delete p t ≡ ok t'
      → (t' ≡ select_where (λ r. not (p r)) t) × (any p t ≡ true)
  delete_law p t h = ground arith

  pub create_law :
      (r : R) (t : List R) {t' : List R}
      → memory_create r t ≡ ok t'
      → (t' ≡ t ++ r ∷ []) × (any (conflict r) t ≡ false)
  create_law r t h = ground arith

  pub create_refused :
      (r : R) (t : List R)
      → memory_create r t ≡ err DbError.unique_violation
      → any (conflict r) t ≡ true
  create_refused r t h = ground arith

  abbrev pub memory_create_many : List R → List R → Result DbError (List R)
  memory_create_many rows t =
      if is_consistent conflict (t ++ rows) then ok (t ++ rows) else err DbError.unique_violation

  pub create_many_law :
      (rows t : List R) {t' : List R}
      → memory_create_many rows t ≡ ok t'
      → (t' ≡ t ++ rows) × (is_consistent conflict (t ++ rows) ≡ true)
  create_many_law rows t h = ground arith

  pub create_many_refused :
      (rows t : List R)
      → memory_create_many rows t ≡ err DbError.unique_violation
      → is_consistent conflict (t ++ rows) ≡ false
  create_many_refused rows t h = ground arith

  pub ok-injective : {t t' : List R} → ◌≡◌ {A = Result DbError (List R)} (ok t) (ok t') → t' ≡ t
  ok-injective h = cc

  abbrev pub memory : Delegate R conflict
  memory = record {
    find_first = first_match;
    find_first_law = λ p t. refl;
    find_many = λ p key t. sort_by key (select_where p t);
    find_many_law = λ p key t.
        All-sort_by key (λ r. (p r ≡ true) × Member r t) (select_where p t)
          (All-select_where p (λ r. (p r ≡ true) × Member r t) t (λ r e m. (e, m)));
    find_many_complete =
        λ p key t r m e. Member-sort_by key r (select_where p t) (Member-select_where p r t m e);
    find_many_sorted = λ p key t. sort_by-IsSorted key (select_where p t);
    update_many = memory_update_many;
    update_many_ok = update_many_law;
    update_many_keeps = update_many_consistent;
    update_many_unique = update_many_refused;
    update = memory_update;
    update_ok = update_law;
    update_keeps = update_consistent;
    delete = memory_delete;
    delete_ok = delete_law;
    delete_many = λ p t. ok (select_where (λ r. not (p r)) t);
    delete_many_ok = λ p t h. ok-injective h;
    create = memory_create;
    create_ok = create_law;
    create_unique = create_refused;
    create_many = memory_create_many;
    create_many_ok = create_many_law;
    create_many_unique = create_many_refused;
  }
