-- ===== src/Courses/Enrolment.antt =====
-- Enrolling and its undoing: modules/courses/courses.service.ts.
use mib_server.Prelude.{
  and-eq-true, ◌≡◌, refl, sym, ap, ◌∙◌, subst, String, str_eq, true, false, not, inl, inr, ◌⊎◌,
  List, [], ◌∷◌, ◌++◌, Result, ok, err, >>=-eq-ok, ok-injective, arith, any, select_where,
  Bool-cases, eq_iff, eq_refl,
}
use mib_server.Database.{DbError, Delegate}
use mib_server.Http.{rethrow, HttpError}
use mib_server.Courses.Catalog.{Class, ClassStudent, class_key_conflict, class_student_conflict}
use mib_server.Courses.Classes.{
  get_class, as_enrolment, is_enrolment, enroll_student, unenroll_student,
}

-- A row that conflicts with none is the only one that its key finds.
others_kept :
    (class_id student_id : String) (t : List ClassStudent)
    → any (class_student_conflict (record { class_id = class_id; student_id = student_id })) t
      ≡ false
    → select_where
        (λ e. not (is_enrolment class_id student_id e))
        (t ++ (record { class_id = class_id; student_id = student_id } ∷ []))
      ≡ t
others_kept class_id student_id [] h = rw (eq_refl class_id) (rw (eq_refl student_id) refl)
others_kept class_id student_id (e ∷ t) h = elim (Bool-cases (is_enrolment class_id student_id e)) [
  | inl found ↦ absurd (clash (and-eq-true (str_eq e.class_id class_id) _ found))
  | inr other ↦
      rw other
        (ap (λ (l : List ClassStudent). e ∷ l) (others_kept class_id student_id t (ground arith)))
]
  where
    clash : (str_eq e.class_id class_id ≡ true) × (str_eq e.student_id student_id ≡ true) → ⊥
    clash (c, s) =
        let same_class : str_eq class_id e.class_id ≡ true =
          (eq_iff class_id e.class_id).1 (sym ((eq_iff e.class_id class_id).0 c)) in
        let same_student : str_eq student_id e.student_id ≡ true =
          (eq_iff student_id e.student_id).1 (sym ((eq_iff e.student_id student_id).0 s)) in
        ground arith

-- The row that is there conflicts with itself.
own_conflict :
    (row : ClassStudent) (t : List ClassStudent)
    → any (class_student_conflict row) (t ++ (row ∷ [])) ≡ true
own_conflict row [] = rw (eq_refl row.class_id) (rw (eq_refl row.student_id) refl)
own_conflict row (e ∷ t) = ground (arith, own_conflict row t)

module _ (classes : Delegate Class class_key_conflict)
    (enrolments : Delegate ClassStudent class_student_conflict) where
  -- What an enrolment that answers has done.
  enrolled :
      (class_id student_id : String) (rows : List Class) (t t' : List ClassStudent)
      (row : ClassStudent)
      → enroll_student classes enrolments class_id student_id rows t ≡ ok (row, t')
      → (t' ≡ t ++ (record { class_id = class_id; student_id = student_id } ∷ []))
        × (any (class_student_conflict (record { class_id = class_id; student_id = student_id })) t
            ≡ false)
  unfolding enroll_student
  enrolled class_id student_id rows t t' row h =
      let (_, _, answered) = >>=-eq-ok (get_class classes class_id rows) _ h in
      by_create (enrolments.create (record { class_id = class_id; student_id = student_id }) t) refl
        answered
    where
      by_create :
          (created : Result DbError (List ClassStudent))
          → enrolments.create (record { class_id = class_id; student_id = student_id }) t ≡ created
          → as_enrolment (record { class_id = class_id; student_id = student_id }) created
            ≡ ok (row, t')
          → (t' ≡ t ++ (record { class_id = class_id; student_id = student_id } ∷ []))
            × (any
                  (class_student_conflict (record { class_id = class_id; student_id = student_id }))
                  t
                ≡ false)
      by_create (err DbError.unique_violation) e a = cc
      by_create (err DbError.failure) e a = cc
      by_create (ok u) e a =
          let (grown, free) =
            enrolments.create_ok (record { class_id = class_id; student_id = student_id }) t e in
          let same : u ≡ t' = ap (λ (p : ClassStudent × List ClassStudent). p.1) (ok-injective a) in
          (sym same ∙ grown, free)

  undone :
      (class_id student_id : String) (t t' : List ClassStudent)
      → unenroll_student classes enrolments class_id student_id t ≡ ok t'
      → t' ≡ select_where (λ e. not (is_enrolment class_id student_id e)) t
  unfolding unenroll_student
  undone class_id student_id t t' h =
      by_delete (enrolments.delete (is_enrolment class_id student_id) t) refl h
    where
      by_delete :
          (deleted : Result DbError (List ClassStudent))
          → enrolments.delete (is_enrolment class_id student_id) t ≡ deleted
          → rethrow deleted ≡ ok t'
          → t' ≡ select_where (λ e. not (is_enrolment class_id student_id e)) t
      by_delete (err _) e a = cc
      by_delete (ok u) e a =
          sym (ok-injective a) ∙ (enrolments.delete_ok (is_enrolment class_id student_id) t e).0

  -- Whatever is thrown for a row that conflicts, it is one of two errors.
  refused :
      (row : ClassStudent) (t : List ClassStudent)
      → any (class_student_conflict row) t ≡ true
      → (as_enrolment row (enrolments.create row t) ≡ err (HttpError.conflict "????????"))
        ⊎ (as_enrolment row (enrolments.create row t) ≡ err (HttpError.database DbError.failure))
  refused row t taken = by_create (enrolments.create row t) refl
    where
      by_create :
          (created : Result DbError (List ClassStudent))
          → enrolments.create row t ≡ created
          → (as_enrolment row created ≡ err (HttpError.conflict "????????"))
            ⊎ (as_enrolment row created ≡ err (HttpError.database DbError.failure))
      by_create (err DbError.unique_violation) e = inl refl
      by_create (err DbError.failure) e = inr refl
      by_create (ok u) e = absurd (cc (sym taken ∙ (enrolments.create_ok row t e).1))

  -- An enrolment that answers: removing it gives the table of before, and a second enrolment in the
  -- class, which is still there, is refused as a conflict, unless the database fails.
  pub enroll_student-undone :
      (class_id student_id : String) (rows : List Class) (t t' : List ClassStudent)
      (row : ClassStudent)
      → enroll_student classes enrolments class_id student_id rows t ≡ ok (row, t')
      → ((t'' : List ClassStudent)
          → unenroll_student classes enrolments class_id student_id t' ≡ ok t''
          → t'' ≡ t)
        × ((enroll_student classes enrolments class_id student_id rows t'
              ≡ err (HttpError.conflict "????????"))
            ⊎ (enroll_student classes enrolments class_id student_id rows t'
                ≡ err (HttpError.database DbError.failure)))
  unfolding enroll_student unenroll_student
  enroll_student-undone class_id student_id rows t t' row h =
      let (grown, free) = enrolled class_id student_id rows t t' row h in
      let (klass, found, _) = >>=-eq-ok (get_class classes class_id rows) _ h in
      let entry : ClassStudent = record { class_id = class_id; student_id = student_id } in
      let taken : any (class_student_conflict entry) t' ≡ true =
        subst (λ (l : List ClassStudent). any (class_student_conflict entry) l ≡ true) (sym grown)
          (own_conflict entry t) in
      (
        λ t'' u.
            undone class_id student_id t' t'' u
            ∙ ap (select_where (λ e. not (is_enrolment class_id student_id e))) grown
            ∙ others_kept class_id student_id t free,
        rw found (refused entry t' taken),
      )
