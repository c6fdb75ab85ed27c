-- ===== src/People/Hidden.antt =====
-- Rows outside the user's tenants are out of reach: modules/students and modules/coaches under
-- common/rbac/data-scope.service.ts.
use mib_server.Prelude.{
  ◌≡◌, refl, String, str_eq, Bool, true, false, ◌&&◌, inl, inr, none, some, List, [], ◌∷◌, All, any,
  err, Bool-cases, first_match, and-eq-true, ap, sym, ◌∙◌, ℕ, eq_iff,
}
use mib_server.Database.{Delegate}
use mib_server.Http.{HttpError}
use mib_server.Rbac.Where.{Where, matches, matches_option, matches-merge_where}
use mib_server.Rbac.Scope.{AccessContext, DataScopeKind, student_data_scope_where, students_where}
use mib_server.Rbac.Confinement.{students_where-within}
use mib_server.People.Students.{
  Student, Link, Label, StudentDb, UpdateStudentDto, student_conflict, link_conflict,
  label_conflict, student_view, column_is, found_or, find_one, update, remove, add_tag, add_group,
}

-- A test that fails on all rows finds none.
first_match-hidden {ℓ} :
    {A : Type ℓ} (p : A → Bool) (t : List A) → All (λ a. p a ≡ false) t → first_match p t ≡ none
first_match-hidden p [] h = refl
first_match-hidden p (a ∷ t) h = rw h.0 (first_match-hidden p t h.1)

-- The student with the id belongs to none of the user's tenants.
abbrev pub IsOutside : AccessContext → String → Student → Type 0
IsOutside ctx id s = str_eq s.id id ≡ true → any (column_is s.tenant_id) ctx.tenant_ids ≡ false

module _ (related : Student → String → String → Bool) (ctx : AccessContext) (id : String) where
  outside-unseen :
      (s : Student)
      → ctx.data_scope ≡ DataScopeKind.organization
      → str_eq id "__no_access__" ≡ false
      → IsOutside ctx id s
      → matches (student_view related s) (students_where (some ctx) (some (Where.equals "id" id)))
        ≡ false
  unfolding student_view students_where
  outside-unseen s scope reserved outside =
      elim (Bool-cases (
        matches (student_view related s)
          (students_where (some ctx) (some (Where.equals "id" id))))) [
            | inr e ↦ e
            | inl e ↦
                let both : (str_eq s.id id
                      && matches_option (student_view related s)
                          (student_data_scope_where (some ctx)))
                    ≡ true =
                  sym (
                    matches-merge_where (student_view related s) (some (Where.equals "id" id))
                      (student_data_scope_where (some ctx)))
                  ∙ e in
                let (same, _) = and-eq-true (str_eq s.id id) _ both in
                let free : str_eq s.id "__no_access__" ≡ false =
                  rw ((eq_iff s.id id).0 same) reserved in
                let seen : any (column_is s.tenant_id) ctx.tenant_ids ≡ true =
                  students_where-within (student_view related s) ctx (some (Where.equals "id" id))
                    scope free e in
                absurd (cc (sym seen ∙ outside same))
          ]

  module _ (students : Delegate Student student_conflict) (links : Delegate Link link_conflict)
      (labels : Delegate Label label_conflict) (rank : String → ℕ) where
    find_one-hidden :
        (db : StudentDb)
        → ctx.data_scope ≡ DataScopeKind.organization
        → str_eq id "__no_access__" ≡ false
        → All (IsOutside ctx id) db.students
        → find_one students links labels related rank (some ctx) id db
          ≡ err (HttpError.not_found "学员不存在")
    unfolding find_one
    find_one-hidden db scope reserved outside =
        let seen : Student → Bool = λ s.
          matches (student_view related s)
            (students_where (some ctx) (some (Where.equals "id" id))) in
        let none_seen : students.find_first seen db.students ≡ none =
          students.find_first_law seen db.students
          ∙ first_match-hidden seen db.students (all_unseen db.students outside) in
        ap (found_or "学员不存在") none_seen
      where
        all_unseen :
            (t : List Student)
            → All (IsOutside ctx id) t
            → All
                (λ s.
                  matches
                    (student_view related s)
                    (students_where (some ctx) (some (Where.equals "id" id)))
                  ≡ false)
                t
        all_unseen [] h = tt
        all_unseen (s ∷ t) h = (outside-unseen s scope reserved h.0, all_unseen t h.1)

    -- For a user of organization scope a student that belongs to none of the user's tenants does not
    -- exist: reading, changing, removing, tagging and grouping it all answer "not found".
    pub hidden-not_found :
        (meanwhile : StudentDb → StudentDb) (dto : UpdateStudentDto) (label : String)
        (db : StudentDb)
        → ctx.data_scope ≡ DataScopeKind.organization
        → str_eq id "__no_access__" ≡ false
        → All (IsOutside ctx id) db.students
        → (find_one students links labels related rank (some ctx) id db
            ≡ err (HttpError.not_found "学员不存在"))
          × (update students links labels related rank (some ctx) meanwhile id dto db
              ≡ err (HttpError.not_found "学员不存在"))
          × (remove students links labels related rank (some ctx) meanwhile id db
              ≡ err (HttpError.not_found "学员不存在"))
          × (add_tag students links labels related rank (some ctx) meanwhile id label db
              ≡ err (HttpError.not_found "学员不存在"))
          × (add_group students links labels related rank (some ctx) meanwhile id label db
              ≡ err (HttpError.not_found "学员不存在"))
    unfolding update remove add_tag add_group
    hidden-not_found meanwhile dto label db scope reserved outside =
        let gone = find_one-hidden db scope reserved outside in
        (gone, rw gone refl, rw gone refl, rw gone refl, rw gone refl)
