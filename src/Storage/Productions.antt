-- ===== src/Storage/Productions.antt =====
-- `productionRepository` of internal/storage/repositories.go. `name_le` is the collation of ORDER BY.
use costume_tree.Common.{
  ℕ, suc, Bool, not, ◌&&◌, ◌||◌, none, List, [], ◌∷◌, ◌++◌, ◌==◌, leb, ltb, if◌then◌else◌, ok, err,
  Text, text_eq, is_empty, storable, trim_space, sql_trim, find?, select, count_where, update_where,
  sort_by,
}
use costume_tree.Storage.Models.{
  production, name_required, constraint, Production, UpdateProductionInput,
}
use costume_tree.Storage.Database.{
  Query, ◌>>=◌, ◌>>◌, guard, found, some_affected, coalesce, is_none, is_production, first_bool,
}

-- CHECK (length(trim(name)) > 0)
abbrev pub has_text : Text → Bool
has_text name = not (is_empty (sql_trim name))

abbrev pub is_named : Text → Production → Bool
is_named name p = text_eq p.name name

-- INSERT INTO productions (name) VALUES ($1) RETURNING id, under the CHECK and UNIQUE (name)
unfoldable pub insert_production : Text → ℕ → Query ℕ
insert_production name now s =
    let row : Production = record {
      id = s.next_production;
      name = name;
      archived_at = none;
      created_at = now;
      updated_at = now;
    } in
    if storable name && (has_text name && count_where (is_named name) s.productions == 0)
    then ok (
      s.next_production,
      record s {
        productions = s.productions ++ (row ∷ []);
        next_production = suc s.next_production;
      },
    )
    else err constraint

-- UPDATE productions SET ... WHERE id = $2: the rows affected. The new name is checked if there is
-- a row, and against the other rows.
unfoldable pub rename_productions : ℕ → Text → ℕ → Query ℕ
rename_productions id name now s =
    let count = count_where (is_production id) s.productions in
    let clashes = count_where (λ p. not (is_production id p) && is_named name p) s.productions in
    if not (storable name) || (ltb 0 count && (not (has_text name) || ltb 0 clashes))
    then err constraint
    else ok (
      count,
      record s {
        productions =
            update_where (is_production id) (λ p. record p { name = name; updated_at = now })
              s.productions;
      },
    )

-- UPDATE productions SET archived_at = COALESCE(archived_at, CURRENT_TIMESTAMP), ... WHERE id = $1
unfoldable pub archive_productions : ℕ → ℕ → Query ℕ
archive_productions id now s = ok (
  count_where (is_production id) s.productions,
  record s {
    productions =
        update_where (is_production id)
          (λ p. record p { archived_at = coalesce p.archived_at now; updated_at = now })
          s.productions;
  },
)

unfoldable pub get : ℕ → Query Production
get id s = found production (find? (is_production id) s.productions) s

unfoldable pub create : Text → ℕ → Query Production
create input_name now = do
  let name = trim_space input_name
  guard (not (is_empty name)) (name_required production)
  id ← insert_production name now
  get id

module _ (name_le : Text → Text → Bool) where
  -- ORDER BY name, id
  abbrev pub by_name : Production → Production → Bool
  by_name a b = if text_eq a.name b.name then leb a.id b.id else name_le a.name b.name

  unfoldable pub list : List Bool → Query (List Production)
  list include_archived s =
      let active = λ (p : Production). first_bool include_archived || is_none p.archived_at in
      ok (sort_by by_name (select active s.productions), s)

unfoldable pub update : UpdateProductionInput → ℕ → Query Production
update input now = do
  let name = trim_space input.name
  guard (not (is_empty name)) (name_required production)
  count ← rename_productions input.id name now
  some_affected production count
  get input.id

unfoldable pub archive : ℕ → ℕ → Query (Unit {0})
archive id now = do count ← archive_productions id now; some_affected production count
