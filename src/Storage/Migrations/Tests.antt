-- ===== src/Storage/Migrations/Tests.antt =====
-- Runs of `Migrate` with the migrations of the repository.
use costume_tree.Common.{
  ◌≡◌, refl, Bool, true, false, Option, none, List, [], ◌∷◌, Text, text, text_eq, ok, arith,
  sort_by, count_where, All, ◌++◌,
}
use costume_tree.Storage.Migrations.{Migration, commit, has_version, embedded_migrations}
use costume_tree.Storage.Migrations.Schema.{Database, Driver, table_exists}
use costume_tree.Storage.Migrations.Runs.{migrate}
use costume_tree.Storage.Migrations.Files.{
  OncePerVersion, IsEmbedded, embedded_migrations-IsEmbedded,
}
use costume_tree.Storage.Migrations.Replays.{prepared, pending, IsReplay, migrate-IsReplay}
use costume_tree.Storage.Migrations.Histories.{migrate-records_each_once}
use costume_tree.Storage.Migrations.Reruns.{migrate-migrate}
use costume_tree.Storage.Migrations.Resumes.{steady, migrate-resumes}
use costume_tree.Storage.Migrations.Shipped.{shipped, shipped_entries, shipped-LeavesHistory}

abbrev empty_database : Database
empty_database = record { tables = []; indexes = []; history = [] }

abbrev sound : Driver
sound = record {
  connects = true;
  locks = true;
  unlocks = true;
  pings = true;
  inspects = true;
  counts = true;
  creates = true;
  reads = true;
  rereads = true;
  begins = λ _. true;
  records = λ _. true;
  commits = λ _. true;
  looks = λ _. true;
}

-- The commit of the second migration fails.
abbrev failing : Driver
failing = record sound { commits = λ name. text_eq name (text "0001_initial.sql") }

migrated : Database
unfolding migrate
migrated = (migrate shipped sound shipped_entries empty_database).1

half_migrated : Database
unfolding migrate
half_migrated = (migrate shipped failing shipped_entries empty_database).1

migrate-empty : migrate shipped sound shipped_entries empty_database ≡ ([], migrated)
unfolding migrate migrated text_eq sort_by shipped
migrate-empty = refl

migrate-failing :
    migrate shipped failing shipped_entries empty_database
    ≡ (commit (text "0002_costume_item_photos.sql") ∷ [], half_migrated)
unfolding migrate half_migrated text_eq sort_by shipped
migrate-failing = refl

migrate-half : migrate shipped sound shipped_entries half_migrated ≡ ([], migrated)
unfolding migrate half_migrated migrated text_eq sort_by shipped
migrate-half = refl

initial : Migration
initial = record { version = 1; name = text "0001_initial.sql" }

photos : Migration
photos = record { version = 2; name = text "0002_costume_item_photos.sql" }

embedded_migrations-shipped : embedded_migrations shipped_entries ≡ ok (initial ∷ photos ∷ [])
unfolding embedded_migrations initial photos text_eq sort_by
embedded_migrations-shipped = refl

embedded_migrations-IsEmbedded_example : IsEmbedded shipped_entries (initial ∷ photos ∷ [])
embedded_migrations-IsEmbedded_example =
    embedded_migrations-IsEmbedded shipped_entries (initial ∷ photos ∷ [])
      embedded_migrations-shipped

migrate-IsReplay_example :
    IsReplay shipped shipped_entries empty_database
      (migrate shipped failing shipped_entries empty_database)
migrate-IsReplay_example = migrate-IsReplay shipped failing shipped_entries empty_database

no_rows : OncePerVersion (prepared empty_database).history
unfolding table_exists
no_rows n = omega arith

migrate-records_each_once_example :
    (ms : List Migration) × (embedded_migrations shipped_entries ≡ ok ms)
    × (migrated.history
        ≡ (prepared empty_database).history ++ pending (prepared empty_database).history ms)
    × All (λ m. count_where (has_version m.version) migrated.history ≡ 1) ms
migrate-records_each_once_example =
    migrate-records_each_once shipped shipped-LeavesHistory sound shipped_entries empty_database
      migrated no_rows migrate-empty

abbrev broken : Text → Database → Option Database
broken name d = none

abbrev never : Text → Bool
never name = false

migrate-migrate_example :
    migrate broken
      (record sound { begins = never; records = never; commits = never })
      shipped_entries
      migrated
    ≡ ([], migrated)
migrate-migrate_example =
    migrate-migrate shipped shipped-LeavesHistory sound shipped_entries empty_database migrated
      broken never never never no_rows migrate-empty

migrate-resumes_example :
    migrate shipped (steady sound) shipped_entries empty_database ≡ ([], migrated)
migrate-resumes_example =
    migrate-resumes shipped shipped-LeavesHistory failing sound shipped_entries empty_database
      half_migrated migrated (commit (text "0002_costume_item_photos.sql") ∷ []) no_rows
      migrate-failing migrate-half
