-- ===== src/People/Coaches.antt =====
-- modules/coaches/coaches.service.ts, with the same conventions as the students.
use mib_server.Prelude.{
  ℕ, String, str_eq, Bool, ◌||◌, Option, none, some, List, [], Result, ok, ◌>>=◌, if◌then◌else◌,
}
use mib_server.Database.{Delegate}
use mib_server.Http.{HttpError, rethrow}
use mib_server.Lessons.Memberships.{or_else}
use mib_server.Rbac.Where.{Where, RowView, matches}
use mib_server.Rbac.Scope.{AccessContext, coaches_where}
use mib_server.People.Students.{
  column_is, columns_meet, default_tenant, found_or, or_option, reverse_onto,
}

pub record Coach : Type 0 where
  pub id : String
  pub tenant_id : Option String
  pub user_id : Option String
  pub name : String
  pub phone : Option String
  pub bio : Option String
  pub created_at : ℕ

abbrev pub coach_conflict : Coach → Coach → Bool
coach_conflict a b = str_eq a.id b.id || columns_meet a.user_id b.user_id

-- dto/create-coach.dto.ts and dto/update-coach.dto.ts
pub record CreateCoachDto : Type 0 where
  pub name : String
  pub phone : Option String
  pub bio : Option String
  pub user_id : Option String
  pub tenant_id : Option String

pub record UpdateCoachDto : Type 0 where
  pub name : Option String
  pub phone : Option String
  pub bio : Option String
  pub user_id : Option String
  pub tenant_id : Option String

abbrev pub coach_data : UpdateCoachDto → Coach → Coach
coach_data dto c = record c {
  name = or_else dto.name c.name;
  phone = or_option dto.phone c.phone;
  bio = or_option dto.bio c.bio;
  user_id = or_option dto.user_id c.user_id;
  tenant_id = or_option dto.tenant_id c.tenant_id;
}

-- A coach as a filter sees it: the scopes of coaches go through no relation.
unfoldable pub coach_view : Coach → RowView
coach_view c path value =
    if str_eq path "id" then str_eq c.id value else column_is c.tenant_id value

abbrev pub has_coach_id : String → Coach → Bool
has_coach_id id c = str_eq c.id id

module _ (coaches : Delegate Coach coach_conflict) (ctx : Option AccessContext) where
  -- `create`, with the new row's id and the time
  unfoldable pub create_coach :
      String → ℕ → CreateCoachDto → List Coach → Result HttpError (Coach × List Coach)
  unfolding default_tenant
  create_coach id now dto t =
      let coach : Coach = record {
        id = id;
        tenant_id = default_tenant ctx dto.tenant_id;
        user_id = dto.user_id;
        name = dto.name;
        phone = dto.phone;
        bio = dto.bio;
        created_at = now;
      } in
      rethrow (coaches.create coach t) >>= λ t'. ok (coach, t')

  -- `findAll`, the newest first
  unfoldable pub find_all_coaches : List Coach → List Coach
  unfolding coach_view
  find_all_coaches t =
      reverse_onto
        (coaches.find_many (λ c. matches (coach_view c) (coaches_where ctx none))
          (λ c. c.created_at) t)
        []

  -- `findOne`
  unfoldable pub find_one_coach : String → List Coach → Result HttpError Coach
  unfolding coach_view
  find_one_coach id t = found_or "教练不存在" (
      coaches.find_first
        (λ c. matches (coach_view c) (coaches_where ctx (some (Where.equals "id" id)))) t)

  -- `update`; `meanwhile` is what other requests commit between the read and the write
  unfoldable pub update_coach :
      (List Coach → List Coach)
      → String
      → UpdateCoachDto
      → List Coach
      → Result HttpError (Coach × List Coach)
  unfolding find_one_coach
  update_coach meanwhile id dto t = find_one_coach id t >>= λ _.
      rethrow (coaches.update (has_coach_id id) (coach_data dto) (meanwhile t))

  -- `remove`
  unfoldable pub remove_coach :
      (List Coach → List Coach) → String → List Coach → Result HttpError (List Coach)
  unfolding find_one_coach
  remove_coach meanwhile id t =
      find_one_coach id t >>= λ _. rethrow (coaches.delete (has_coach_id id) (meanwhile t))
