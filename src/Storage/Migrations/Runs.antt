-- ===== src/Storage/Migrations/Runs.antt =====
-- `DB.Migrate` of internal/storage/db.go. The server's work on a script and the success of the calls
-- of the driver are parameters.
use costume_tree.Common.{
  not, ◌||◌, Option, none, some, List, [], ◌∷◌, ◌++◌, ◌==◌, if◌then◌else◌, Outcome, ok, err, Text,
  length,
}
use costume_tree.Storage.Migrations.{
  DirEntry, Migration, MigrationError, no_migrations, acquire_connection, acquire_lock,
  release_lock, inspect_history, inspect_schema, create_history_table, no_history, begin, apply,
  record_row, commit, is_known, validate_migration_history, embedded_migrations,
}
use costume_tree.Storage.Migrations.Schema.{
  Database, Driver, history_name, with_history_table, table_exists, read_migration_history,
  validate_schema,
}

-- A run that may fail keeps what its committed transactions have done.
abbrev pub Run {ℓ} : Type ℓ → Type ℓ
Run A = Database → Outcome MigrationError A × Database

abbrev pub continue {ℓ κ} :
    {A : Type ℓ} {B : Type κ}
    → Outcome MigrationError A × Database
    → (A → Run B)
    → Outcome MigrationError B × Database
continue (ok a, d) f = f a d
continue (err e, d) f = (err e, d)

infixl 5 ◌>>=◌ ◌>>◌
abbrev pub ◌>>=◌ {ℓ κ} : {A : Type ℓ} {B : Type κ} → Run A → (A → Run B) → Run B
◌>>=◌ m f d = continue (m d) f

abbrev pub ◌>>◌ {ℓ} : {B : Type ℓ} → Run (Unit {0}) → Run B → Run B
m >> k = m >>= λ _. k

abbrev pub done : Run (Unit {0})
done d = (ok tt, d)

-- A step that only reads the database
abbrev pub reading {ℓ} : {A : Type ℓ} → (Database → Outcome MigrationError A) → Run A
reading f d = (f d, d)

-- `hasHistory`, and the table that is made where there is none
unfoldable pub ensure_history : Driver → Run (Unit {0})
unfolding table_exists
ensure_history v d =
    if not v.inspects
    then (err inspect_history, d)
    else if table_exists history_name d
    then (ok tt, d)
    else if not v.counts
    then (err inspect_schema, d)
    else if not (length d.tables == 0)
    then (err (no_history (length d.tables)), d)
    else if v.creates
    then (ok tt, with_history_table d)
    else (err create_history_table, d)

-- The state after a transaction that has committed or has been rolled back
abbrev pub settled :
    Database → Outcome MigrationError Database → Outcome MigrationError (Unit {0}) × Database
settled d (ok d') = (ok tt, d')
settled d (err e) = (err e, d)

-- `errors.Join` of what a run has returned and the error of the unlock; no errors is nil
abbrev pub released :
    Driver → Outcome MigrationError (Unit {0}) × Database → List MigrationError × Database
released v (ok u, d) = ((if v.unlocks then [] else release_lock ∷ []), d)
released v (err e, d) = (e ∷ (if v.unlocks then [] else release_lock ∷ []), d)

-- What the server makes of a script: none if a statement fails.
module _ (execute : Text → Database → Option Database) (v : Driver) where
  -- INSERT INTO schema_migrations, whose primary key is the version, and the commit
  unfoldable pub record_migration : Migration → Option Database → Outcome MigrationError Database
  record_migration m none = err (apply m.name)
  record_migration m (some d) =
      if not (v.records m.name) || is_known m.version d.history
      then err (record_row m.name)
      else if v.commits m.name
      then ok (record d { history = d.history ++ m ∷ [] })
      else err (commit m.name)

  -- One transaction: an error rolls it back.
  unfoldable pub apply_migration : Migration → Run (Unit {0})
  unfolding record_migration
  apply_migration m d =
      if v.begins m.name
      then settled d (record_migration m (execute m.name d))
      else (err (begin m.name), d)

  unfoldable pub apply_all : List Migration → List Migration → Run (Unit {0})
  unfolding apply_migration
  apply_all applied [] = done
  apply_all applied (m ∷ ms) =
      (if is_known m.version applied then done else apply_migration m) >> apply_all applied ms

  -- `Migrate` from the reading of the history
  unfoldable pub migrate_prepared : List DirEntry → List Migration → Run (Unit {0})
  unfolding apply_all validate_schema read_migration_history validate_migration_history
  migrate_prepared entries ordered = do
    applied ← reading (read_migration_history v.reads)
    reading (λ d. validate_migration_history applied ordered)
    apply_all applied ordered
    reading (validate_schema v entries)

  unfoldable pub migrate_locked : List DirEntry → List Migration → Run (Unit {0})
  unfolding migrate_prepared ensure_history
  migrate_locked entries ordered = do ensure_history v; migrate_prepared entries ordered

  unfoldable pub migrate_ordered :
      List DirEntry
      → Outcome MigrationError (List Migration)
      → Database
      → List MigrationError × Database
  unfolding migrate_locked
  migrate_ordered entries (err e) d = (e ∷ [], d)
  migrate_ordered entries (ok ordered) d =
      if length ordered == 0
      then (no_migrations ∷ [], d)
      else if not v.connects
      then (acquire_connection ∷ [], d)
      else if not v.locks
      then (acquire_lock ∷ [], d)
      else released v (migrate_locked entries ordered d)

  -- `Migrate` of an open database
  unfoldable pub migrate : List DirEntry → Database → List MigrationError × Database
  unfolding migrate_ordered embedded_migrations
  migrate entries d = migrate_ordered entries (embedded_migrations entries) d
