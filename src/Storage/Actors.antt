-- ===== src/Storage/Actors.antt =====
-- `actorRepository` of internal/storage/repositories.go. `name_le` is the collation of ORDER BY.
use costume_tree.Common.{
  ℕ, suc, Bool, not, ◌&&◌, ◌||◌, none, List, [], ◌∷◌, ◌++◌, ◌==◌, leb, ltb, if◌then◌else◌, ok, err,
  Text, text_eq, is_empty, storable, trim_space, find?, select, count_where, update_where, sort_by,
}
use costume_tree.Storage.Models.{
  actor, name_required, constraint, Actor, CreateActorInput, UpdateActorInput,
}
use costume_tree.Storage.Database.{
  Query, ◌>>=◌, ◌>>◌, guard, found, some_affected, coalesce, is_none, is_production, is_actor,
  first_bool, ensure_production,
}
use costume_tree.Storage.Productions.{has_text}

abbrev pub actor_texts_storable : Text → Text → Text → Bool
actor_texts_storable name role notes = storable name && (storable role && storable notes)

-- INSERT INTO actors ... RETURNING id, under the CHECK on the name and the FOREIGN KEY
unfoldable pub insert_actor : CreateActorInput → ℕ → Query ℕ
insert_actor input now s =
    let row : Actor = record {
      id = s.next_actor;
      production_id = input.production_id;
      name = input.name;
      role = input.role;
      notes = input.notes;
      archived_at = none;
      created_at = now;
      updated_at = now;
    } in
    if actor_texts_storable input.name input.role input.notes
      && (has_text input.name
          && ltb 0 (count_where (is_production input.production_id) s.productions))
    then ok
        (s.next_actor, record s { actors = s.actors ++ (row ∷ []); next_actor = suc s.next_actor })
    else err constraint

-- UPDATE actors SET ... WHERE production_id = $4 AND id = $5: the rows affected
unfoldable pub change_actors : UpdateActorInput → Text → ℕ → Query ℕ
change_actors input name now s =
    let this = is_actor input.production_id input.id in
    let count = count_where this s.actors in
    if not (actor_texts_storable name input.role input.notes)
      || (ltb 0 count && not (has_text name))
    then err constraint
    else ok (
      count,
      record s {
        actors =
            update_where this
              (λ a. record a {
                name = name;
                role = input.role;
                notes = input.notes;
                updated_at = now;
              })
              s.actors;
      },
    )

-- UPDATE actors SET archived_at = COALESCE(archived_at, CURRENT_TIMESTAMP), ...
unfoldable pub archive_actors : ℕ → ℕ → ℕ → Query ℕ
archive_actors production_id id now s = ok (
  count_where (is_actor production_id id) s.actors,
  record s {
    actors =
        update_where (is_actor production_id id)
          (λ a. record a { archived_at = coalesce a.archived_at now; updated_at = now }) s.actors;
  },
)

unfoldable pub get : ℕ → ℕ → Query Actor
get production_id id s = found actor (find? (is_actor production_id id) s.actors) s

unfoldable pub create : CreateActorInput → ℕ → Query Actor
create input now = do
  let name = trim_space input.name
  guard (not (is_empty name)) (name_required actor)
  ensure_production input.production_id
  id ← insert_actor (record input { name = name }) now
  get input.production_id id

module _ (name_le : Text → Text → Bool) where
  -- ORDER BY name, id
  abbrev pub by_name : Actor → Actor → Bool
  by_name a b = if text_eq a.name b.name then leb a.id b.id else name_le a.name b.name

  unfoldable pub list : ℕ → List Bool → Query (List Actor)
  list production_id include_archived s =
      let wanted = λ (a : Actor).
        a.production_id == production_id
        && (first_bool include_archived || is_none a.archived_at) in
      ok (sort_by by_name (select wanted s.actors), s)

unfoldable pub update : UpdateActorInput → ℕ → Query Actor
update input now = do
  let name = trim_space input.name
  guard (not (is_empty name)) (name_required actor)
  count ← change_actors input name now
  some_affected actor count
  get input.production_id input.id

unfoldable pub archive : ℕ → ℕ → ℕ → Query (Unit {0})
archive production_id id now = do
  count ← archive_actors production_id id now
  some_affected actor count
