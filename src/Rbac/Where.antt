-- ===== src/Rbac/Where.antt =====
-- The filter objects that the code builds for Prisma. A filter is data here too, as it is there: a
-- field may be reached through relations ("class.students.some.studentId"). What a filter selects
-- is given by `matches` over a row, which tells whether the field at a path has a value.
use mib_server.Prelude.{
  String, Bool, true, false, ◌&&◌, ◌||◌, Option, none, some, List, any, ◌≡◌, refl, arith,
}

pub data Where : Type 0 where
  -- `{}`
  everything : Where
  -- `{ path: value }`
  equals : String → String → Where
  -- `{ path: { in: values } }`
  one_of : String → List String → Where
  -- `{ OR: [a, b] }`, `{ AND: [a, b] }`
  either both : Where → Where → Where

-- A row as a filter sees it.
abbrev pub RowView : Type 0
RowView = String → String → Bool

abbrev pub matches : RowView → Where → Bool
matches row Where.everything = true
matches row (Where.equals path value) = row path value
matches row (Where.one_of path values) = any (row path) values
matches row (Where.either a b) = matches row a || matches row b
matches row (Where.both a b) = matches row a && matches row b

abbrev is_everything : Where → Bool
is_everything Where.everything = true
is_everything _ = false

-- `mergeWhere` of common/rbac/data-scope.filters.ts: an absent or empty base gives way to the scope.
unfoldable pub merge_where : Option Where → Option Where → Where
merge_where none none = Where.everything
merge_where (some base) none = base
merge_where none (some scope) = scope
merge_where (some Where.everything) (some scope) = scope
merge_where (some base) (some scope) = Where.both base scope

-- An absent filter selects every row.
abbrev pub matches_option : RowView → Option Where → Bool
matches_option row none = true
matches_option row (some w) = matches row w

-- Merging filters selects the rows that both select.
pub matches-merge_where :
    (row : RowView) (base scope : Option Where)
    → matches row (merge_where base scope) ≡ (matches_option row base && matches_option row scope)
unfolding merge_where
matches-merge_where row none none = refl
matches-merge_where row (some base) none = ground arith
matches-merge_where row none (some scope) = refl
matches-merge_where row (some Where.everything) (some scope) = refl
matches-merge_where row (some (Where.equals _ _)) (some scope) = refl
matches-merge_where row (some (Where.one_of _ _)) (some scope) = refl
matches-merge_where row (some (Where.either _ _)) (some scope) = refl
matches-merge_where row (some (Where.both _ _)) (some scope) = refl
