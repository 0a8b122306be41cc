-- ===== src/Storage/ItemTypes.antt =====
-- `itemTypeRepository` of internal/storage/repositories.go. `lower` is PostgreSQL's function, and
-- `name_le` the collation of ORDER BY.
use costume_tree.Common.{
  ℕ, suc, ◌+◌, Bool, not, ◌&&◌, ◌||◌, none, List, [], ◌∷◌, ◌++◌, ◌==◌, leb, ltb, if◌then◌else◌, ok,
  err, Text, text_eq, is_empty, storable, trim_space, find?, select, count_where, update_where,
  sort_by,
}
use costume_tree.Storage.Models.{
  item_type, name_required, constraint, ItemType, CreateItemTypeInput, UpdateItemTypeInput,
}
use costume_tree.Storage.Database.{
  Query, ◌>>=◌, ◌>>◌, guard, found, some_affected, coalesce, is_none, is_production, is_item_type,
  first_bool, ensure_production,
}
use costume_tree.Storage.Productions.{has_text}

unfoldable pub get : ℕ → ℕ → Query ItemType
get production_id id s = found item_type (find? (is_item_type production_id id) s.item_types) s

-- UPDATE item_types SET archived_at = COALESCE(archived_at, CURRENT_TIMESTAMP), ...
unfoldable pub archive_item_types : ℕ → ℕ → ℕ → Query ℕ
archive_item_types production_id id now s = ok (
  count_where (is_item_type production_id id) s.item_types,
  record s {
    item_types =
        update_where (is_item_type production_id id)
          (λ t. record t { archived_at = coalesce t.archived_at now; updated_at = now })
          s.item_types;
  },
)

unfoldable pub archive : ℕ → ℕ → ℕ → Query (Unit {0})
archive production_id id now = do
  count ← archive_item_types production_id id now
  some_affected item_type count

module _ (name_le : Text → Text → Bool) where
  -- ORDER BY name, id
  abbrev pub by_name : ItemType → ItemType → Bool
  by_name a b = if text_eq a.name b.name then leb a.id b.id else name_le a.name b.name

  unfoldable pub list : ℕ → List Bool → Query (List ItemType)
  list production_id include_archived s =
      let wanted = λ (t : ItemType).
        t.production_id == production_id
        && (first_bool include_archived || is_none t.archived_at) in
      ok (sort_by by_name (select wanted s.item_types), s)

module _ (lower : Text → Text) where
  -- The key of the unique index on (production_id, lower(name)) WHERE archived_at IS NULL
  abbrev pub has_active_name : ℕ → Text → ItemType → Bool
  has_active_name production_id name t =
      t.production_id == production_id
      && (is_none t.archived_at && text_eq (lower t.name) (lower name))

  -- INSERT INTO item_types ... RETURNING id, under the CHECK, the FOREIGN KEY and the unique index
  unfoldable pub insert_item_type : CreateItemTypeInput → ℕ → Query ℕ
  insert_item_type input now s =
      let row : ItemType = record {
        id = s.next_item_type;
        production_id = input.production_id;
        name = input.name;
        archived_at = none;
        created_at = now;
        updated_at = now;
      } in
      if storable input.name
        && (has_text input.name
            && (ltb 0 (count_where (is_production input.production_id) s.productions)
                && count_where (has_active_name input.production_id input.name) s.item_types == 0))
      then ok (
        s.next_item_type,
        record s { item_types = s.item_types ++ (row ∷ []); next_item_type = suc s.next_item_type },
      )
      else err constraint

  -- An active row with another id has the name.
  abbrev other_has_name : ℕ → ℕ → Text → ItemType → Bool
  other_has_name production_id id name t =
      not (is_item_type production_id id t) && has_active_name production_id name t

  -- UPDATE item_types SET name = $1, ... : an archived row is not in the index.
  unfoldable pub rename_item_types : UpdateItemTypeInput → Text → ℕ → Query ℕ
  rename_item_types input name now s =
      let this = is_item_type input.production_id input.id in
      let count = count_where this s.item_types in
      let active = count_where (λ t. this t && is_none t.archived_at) s.item_types in
      let clashes = count_where (other_has_name input.production_id input.id name) s.item_types in
      if not (storable name)
        || (ltb 0 count && not (has_text name))
        || (ltb 0 active && ltb 0 clashes)
      then err constraint
      else ok (
        count,
        record s {
          item_types =
              update_where this (λ t. record t { name = name; updated_at = now }) s.item_types;
        },
      )

  -- The names of the rows that a test picks.
  abbrev clashing : (ItemType → Bool) → List ItemType → List ItemType → ℕ
  clashing this rows [] = 0
  clashing this rows (t ∷ ts) =
      (if this t then count_where (other_has_name t.production_id t.id t.name) rows else 0)
      + clashing this rows ts

  -- UPDATE item_types SET archived_at = NULL, ... : the row enters the index again.
  unfoldable pub restore_item_types : ℕ → ℕ → ℕ → Query ℕ
  restore_item_types production_id id now s =
      let this = is_item_type production_id id in
      if ltb 0 (clashing this s.item_types s.item_types)
      then err constraint
      else ok (
        count_where this s.item_types,
        record s {
          item_types =
              update_where this (λ t. record t { archived_at = none; updated_at = now })
                s.item_types;
        },
      )

  unfoldable pub create : CreateItemTypeInput → ℕ → Query ItemType
  create input now = do
    let name = trim_space input.name
    guard (not (is_empty name)) (name_required item_type)
    ensure_production input.production_id
    id ← insert_item_type (record input { name = name }) now
    get input.production_id id

  unfoldable pub update : UpdateItemTypeInput → ℕ → Query ItemType
  update input now = do
    let name = trim_space input.name
    guard (not (is_empty name)) (name_required item_type)
    count ← rename_item_types input name now
    some_affected item_type count
    get input.production_id input.id

  unfoldable pub restore : ℕ → ℕ → ℕ → Query (Unit {0})
  restore production_id id now = do
    count ← restore_item_types production_id id now
    some_affected item_type count
