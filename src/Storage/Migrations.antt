-- ===== src/Storage/Migrations.antt =====
-- internal/storage/db.go and internal/storage/validation.go: the migrations that the binary ships,
-- `Migrate`, the validation of the schema and `Ready`. A migration's script is SQL: what the server
-- makes of it is a parameter, as are the calls of the driver that may fail.
pub mod Schema
pub mod Runs
pub mod Files
pub mod Replays
pub mod Successes
pub mod Histories
pub mod Reruns
pub mod Resumes
pub mod Shipped
mod Tests
use costume_tree.Common.{
  ℕ, ◌-◌, Bool, true, false, not, ◌&&◌, ◌||◌, Option, none, some, List, [], ◌∷◌, ◌++◌, ◌==◌, ltb,
  leb, if◌then◌else◌, Outcome, ok, err, and_then, Text, text, text_eq, length, drop, find?, sort_by,
  ℤ, pos, negsuc, atoi,
}
use mathlib.Core.Option
use costume_tree.Storage.Database.{is_none}

-- An entry of the embedded directory.
pub record DirEntry : Type 0 where
  pub name : Text
  pub is_dir : Bool

-- `migration`, and a row of schema_migrations
pub record Migration : Type 0 where
  pub version : ℕ
  pub name : Text

pub data MigrationError : Type 0 where
  no_version_prefix invalid_version : Text → MigrationError
  duplicate_version : ℕ → MigrationError
  no_migrations acquire_connection acquire_lock release_lock ping : MigrationError
  inspect_history inspect_schema create_history_table read_history : MigrationError
  no_history unknown_version : ℕ → MigrationError
  renamed : ℕ → Text → Text → MigrationError
  begin apply record_row commit : Text → MigrationError
  history_length : ℕ → ℕ → MigrationError
  table_missing index_missing inspect_failed : Text → MigrationError
  column_missing : Text → Text → MigrationError
  -- `ErrInvalidDatabase`, wrapped with the failed step
  invalid_database : MigrationError → MigrationError

-- `strings.HasSuffix`
abbrev pub has_suffix : Text → Text → Bool
has_suffix suffix s = text_eq suffix (drop (length s - length suffix) s)

-- `parts[0]` of `strings.SplitN(name, "_", 2)`, if there are two parts
unfoldable pub before_underscore : Text → Option Text
before_underscore [] = none
before_underscore (c ∷ cs) =
    if c == 95 then some [] else Option.map (λ s. c ∷ s) (before_underscore cs)

abbrev pub has_version : ℕ → Migration → Bool
has_version version m = m.version == version

-- `_, ok := seen[version]`
abbrev pub is_known : ℕ → List Migration → Bool
is_known version ms = not (is_none (find? (has_version version) ms))

unfoldable pub add_parsed :
    Text → Option ℤ → List Migration → Outcome MigrationError (List Migration)
add_parsed name (some (pos n)) ordered =
    if n == 0
    then err (invalid_version name)
    else if is_known n ordered
    then err (duplicate_version n)
    else ok (ordered ++ record { version = n; name = name } ∷ [])
add_parsed name (some (negsuc n)) ordered = err (invalid_version name)
add_parsed name none ordered = err (invalid_version name)

unfoldable pub add_version :
    Text → Option Text → List Migration → Outcome MigrationError (List Migration)
unfolding add_parsed atoi
add_version name none ordered = err (no_version_prefix name)
add_version name (some prefix) ordered = add_parsed name (atoi prefix) ordered

abbrev pub is_script : DirEntry → Bool
is_script e = not (e.is_dir || not (has_suffix (text ".sql") e.name))

-- A round of the loop over the directory
unfoldable pub add_entry : DirEntry → List Migration → Outcome MigrationError (List Migration)
unfolding add_version before_underscore
add_entry e ordered =
    if is_script e then add_version e.name (before_underscore e.name) ordered else ok ordered

unfoldable pub collect : List DirEntry → List Migration → Outcome MigrationError (List Migration)
unfolding add_entry
collect [] ordered = ok ordered
collect (e ∷ es) ordered = and_then (add_entry e ordered) (collect es)

abbrev pub by_version : Migration → Migration → Bool
by_version a b = leb a.version b.version

unfoldable pub embedded_migrations : List DirEntry → Outcome MigrationError (List Migration)
unfolding collect
embedded_migrations entries = and_then (collect entries []) (λ ms. ok (sort_by by_version ms))

-- A recorded row against `known[version]`
abbrev pub validate_row : Migration → Option Migration → Outcome MigrationError (Unit {0})
validate_row row none = err (unknown_version row.version)
validate_row row (some expected) =
    if text_eq row.name expected.name
    then ok tt
    else err (renamed row.version row.name expected.name)

unfoldable pub validate_migration_history :
    List Migration → List Migration → Outcome MigrationError (Unit {0})
validate_migration_history [] ordered = ok tt
validate_migration_history (row ∷ rows) ordered =
    and_then (validate_row row (find? (has_version row.version) ordered))
      (λ _. validate_migration_history rows ordered)
