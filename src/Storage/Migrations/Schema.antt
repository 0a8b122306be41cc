-- ===== src/Storage/Migrations/Schema.antt =====
-- The current schema of the database, the runs of `Migrate` over it, and internal/storage/validation.go.
use costume_tree.Common.{
  Bool, true, false, not, Option, none, some, List, [], ◌∷◌, ◌++◌, ◌==◌, if◌then◌else◌, Outcome, ok,
  err, and_then, Text, text, text_eq, length, find?,
}
use costume_tree.Storage.Database.{is_none}
use costume_tree.Storage.Migrations.{
  DirEntry, Migration, MigrationError, read_history, history_length, table_missing, index_missing,
  inspect_failed, column_missing, invalid_database, ping, validate_migration_history,
  embedded_migrations,
}

pub record Table : Type 0 where
  pub name : Text
  pub columns : List Text

-- The current schema: its tables and indexes, and the rows of schema_migrations.
pub record Database : Type 0 where
  pub tables : List Table
  pub indexes : List Text
  pub history : List Migration

-- Which calls of the driver succeed. The queries of
-- `validateSchema` about one table answer alike.
pub record Driver : Type 0 where
  pub connects : Bool
  pub locks : Bool
  pub unlocks : Bool
  pub pings : Bool
  pub inspects : Bool
  pub counts : Bool
  pub creates : Bool
  pub reads : Bool
  -- the read of the history in `validateSchema`
  pub rereads : Bool
  pub begins : Text → Bool
  pub records : Text → Bool
  pub commits : Text → Bool
  -- the queries of `validateSchema` about a table or an index
  pub looks : Text → Bool

infixl 5 ◌>>=◌ ◌>>◌
abbrev ◌>>=◌ {ℓ κ} :
    {A : Type ℓ} {B : Type κ}
    → Outcome MigrationError A
    → (A → Outcome MigrationError B)
    → Outcome MigrationError B
m >>= f = and_then m f

abbrev ◌>>◌ {ℓ} :
    {B : Type ℓ}
    → Outcome MigrationError (Unit {0})
    → Outcome MigrationError B
    → Outcome MigrationError B
m >> k = and_then m (λ _. k)

abbrev pub check : Bool → MigrationError → Outcome MigrationError (Unit {0})
check true e = ok tt
check false e = err e

abbrev pub named : Text → Table → Bool
named name t = text_eq t.name name

unfoldable pub table_exists : Text → Database → Bool
table_exists name d = not (is_none (find? (named name) d.tables))

abbrev pub history_name : Text
history_name = text "schema_migrations"

-- CREATE TABLE schema_migrations
abbrev pub with_history_table : Database → Database
with_history_table d = record d {
  tables =
      d.tables
      ++ record {
        name = history_name;
        columns = text "version" ∷ text "name" ∷ text "applied_at" ∷ [];
      }
        ∷ [];
  history = [];
}

unfoldable pub read_migration_history : Bool → Database → Outcome MigrationError (List Migration)
read_migration_history reads d = if reads then ok d.history else err read_history

-- `fmt.Errorf("%w: %v", ErrInvalidDatabase, err)`
abbrev pub wrapped {ℓ} : {A : Type ℓ} → Outcome MigrationError A → Outcome MigrationError A
wrapped (ok a) = ok a
wrapped (err e) = err (invalid_database e)

-- `found[column]`
abbrev pub contains : Text → Option Table → Bool
contains c none = false
contains c (some t) = not (is_none (find? (text_eq c) t.columns))

unfoldable pub has_columns : Text → List Text → Option Table → Outcome MigrationError (Unit {0})
has_columns table [] found = ok tt
has_columns table (c ∷ cs) found =
    check (contains c found) (column_missing table c) >> has_columns table cs found

unfoldable pub required_tables : List Table
required_tables =
    record { name = history_name; columns = text "version" ∷ text "name" ∷ text "applied_at" ∷ [] }
    ∷ record {
      name = text "productions";
      columns =
          text "id" ∷ text "name" ∷ text "archived_at" ∷ text "created_at" ∷ text "updated_at" ∷ [];
    }
    ∷ record {
      name = text "actors";
      columns =
          text "id"
          ∷ text "production_id"
          ∷ text "name"
          ∷ text "role"
          ∷ text "notes"
          ∷ text "archived_at"
          ∷ text "created_at"
          ∷ text "updated_at"
          ∷ [];
    }
    ∷ record {
      name = text "item_types";
      columns =
          text "id"
          ∷ text "production_id"
          ∷ text "name"
          ∷ text "archived_at"
          ∷ text "created_at"
          ∷ text "updated_at"
          ∷ [];
    }
    ∷ record {
      name = text "production_item_sequences";
      columns = text "production_id" ∷ text "next_value" ∷ [];
    }
    ∷ record {
      name = text "costume_items";
      columns =
          text "id"
          ∷ text "production_id"
          ∷ text "actor_id"
          ∷ text "item_type_id"
          ∷ text "code"
          ∷ text "description"
          ∷ text "status"
          ∷ text "progress"
          ∷ text "next_action"
          ∷ text "blocker"
          ∷ text "notes"
          ∷ text "archived_at"
          ∷ text "created_at"
          ∷ text "updated_at"
          ∷ [];
    }
    ∷ record {
      name = text "costume_item_photos";
      columns =
          text "id"
          ∷ text "production_id"
          ∷ text "costume_item_id"
          ∷ text "original_name"
          ∷ text "display_name"
          ∷ text "thumbnail_name"
          ∷ text "media_type"
          ∷ text "status"
          ∷ text "error_message"
          ∷ text "created_at"
          ∷ text "updated_at"
          ∷ [];
    }
    ∷ []

unfoldable pub required_indexes : List Text
required_indexes =
    text "idx_productions_active"
    ∷ text "idx_actors_production_active"
    ∷ text "idx_item_types_active_name"
    ∷ text "idx_item_types_production_active"
    ∷ text "idx_costume_items_production_active"
    ∷ text "idx_costume_items_actor_active"
    ∷ text "idx_costume_items_type_active"
    ∷ text "idx_costume_items_status_active"
    ∷ text "idx_costume_items_code"
    ∷ text "idx_costume_item_photos_item"
    ∷ text "idx_costume_item_photos_pending"
    ∷ []

-- The source ranges over a map: its order, and so the error that is met first, may be another.
unfoldable pub check_tables :
    (Text → Bool) → List Table → Database → Outcome MigrationError (Unit {0})
unfolding table_exists has_columns
check_tables looks [] d = ok tt
check_tables looks (t ∷ ts) d = do
  check (looks t.name) (inspect_failed t.name)
  check (table_exists t.name d) (table_missing t.name)
  has_columns t.name t.columns (find? (named t.name) d.tables)
  check_tables looks ts d

unfoldable pub check_indexes :
    (Text → Bool) → List Text → Database → Outcome MigrationError (Unit {0})
check_indexes looks [] d = ok tt
check_indexes looks (i ∷ is) d = do
  check (looks i) (inspect_failed i)
  check (not (is_none (find? (text_eq i) d.indexes))) (index_missing i)
  check_indexes looks is d

unfoldable pub validate_schema :
    Driver → List DirEntry → Database → Outcome MigrationError (Unit {0})
unfolding check_tables check_indexes read_migration_history validate_migration_history
    required_tables required_indexes embedded_migrations
validate_schema v entries d = do
  ordered ← embedded_migrations entries
  wrapped (do
    applied ← read_migration_history v.rereads d
    validate_migration_history applied ordered
    check (length applied == length ordered) (history_length (length applied) (length ordered))
    check_tables v.looks required_tables d
    check_indexes v.looks required_indexes d)

-- `Ready` of an open database
unfoldable pub ready : Driver → List DirEntry → Database → Outcome MigrationError (Unit {0})
unfolding validate_schema
ready v entries d = do check v.pings ping; validate_schema v entries d
