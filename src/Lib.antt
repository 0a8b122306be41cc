-- ===== src/Lib.antt =====
-- A model of costume-tree, a web program that tracks the costumes of theatre productions, with the
-- theorems that make its core correct.
--
-- The program: internal/bulk parses pasted text into blocks of an actor and item types;
-- internal/storage keeps productions, actors, item types, costume items and photos in PostgreSQL
-- tables behind repositories, migrates them, answers the queries of the pages, and previews and
-- commits bulk imports of parsed blocks; internal/photos keeps the files of uploaded photos and makes
-- their smaller copies by workers; internal/web serves the pages and retains each import's preview
-- under a token until its commit; internal/config reads the settings from the environment.
--
-- The files and the code they model:
--   Common                  helpers: tests, lists, outcomes, texts, numbers, sorting
--   Bulk                    internal/bulk/import.go: Parse, ParseEntries
--   Storage/Models          internal/storage/models.go: rows, inputs, errors
--   Storage/Database        the tables of internal/storage/migrations, the query monad, the ensure
--                           functions of internal/storage/repositories.go
--   Storage/Productions, Storage/Actors, Storage/ItemTypes, Storage/Items
--                           the repositories of internal/storage/repositories.go
--   Storage/Photos          internal/storage/photos.go
--   Storage/BulkImport      internal/storage/bulk_import.go: Preview; Commit and its guards in
--                           Storage/BulkImport/Importer
--   Storage/ItemTypeSummary internal/storage/item_type_summary.go
--   Storage/Dashboard       internal/storage/dashboard_queries.go; landing_queries.go with its joins
--   Storage/Search          internal/storage/search_queries.go
--   Storage/Reports         internal/storage/reports.go
--   Storage/Migrations      internal/storage/db.go: Migrate; validation.go; the names of
--                           internal/storage/migrations in Storage/Migrations/Shipped
--   Storage/Steps           the repositories' writes as one step function, and reachable tables
--   Storage/Keeps, Frames, Lookups, Codes
--                           what queries keep; codes of items
--   Config                  internal/config/config.go: Load
--   Web/PreviewStore        bulkPreviewStore of internal/web/bulk_import.go
--   Web/CostumeItems        internal/web/costume_items.go: the handlers that create and edit an item
--                           and change its status
--   PhotoService/Uploads    internal/photos/service.go: Validate, Upload, Resolve
--   PhotoService/Queue      internal/photos/service.go: the queue of photos and its workers
-- A function or method has its source's name in snake_case, in the module of its repository
-- (costumeItemRepository.Create is Storage.Items.create). Tests run the definitions.
--
-- The model: a table is a list of rows in the order of their insertion, and a repository method a
-- function from the tables to an error or a value and new tables. An error leaves the tables as
-- they were, as the rollback of a transaction or the failure of a statement does; the read that
-- follows a write that has taken effect is part of the method, so its failure drops the write,
-- which the rows that the repositories write do not bring about. Constraints of the tables are
-- tests in the statements; a string that is no valid UTF-8 or has the character 0 is refused by the
-- repositories' writes, the filter of the items' list and the photo queue, while the texts of a search
-- and of the other reads and the names of a migration are taken to be texts. Times are numbers of nanoseconds, texts are lists of code points (an
-- invalid byte has a number above those), ids are natural numbers. The collation of ORDER BY name,
-- the database's lower, strings.ToLower, strings.EqualFold, the settings' parsers, time.Parse,
-- filepath.Clean, random tokens, the image codecs, the file system and the run of a migration's script
-- are parameters; strconv.Atoi is Common.Numbers.atoi. A sequence's value is bounded by the last
-- BIGINT. Loops are over lists; the digits of a number are written with fuel above the number, which is
-- enough, since reading them gives it back.
--
-- Not modelled: the other HTTP handlers (the bulk import's forms, actors, item types, dashboard,
-- search, and the copies, archiving and lookup of items), templates and assets; the connection pool;
-- errors of the database driver, but in Storage/Migrations and the photo queue; cancellation, but the
-- queue's; concurrency inside one transaction.
pub mod Common
pub mod Bulk
pub mod Storage
pub mod Config
pub mod PhotoService
pub mod Web
