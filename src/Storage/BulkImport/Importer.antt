-- ===== src/Storage/BulkImport/Importer.antt =====
-- `Commit` of internal/storage/bulk_import.go: its transaction, and the guard against a second one.
use costume_tree.Common.{
  ℕ, ◌+◌, Bool, true, false, not, ◌&&◌, ◌||◌, Option, none, some, List, [], ◌∷◌, ◌==◌, ltb,
  if◌then◌else◌, Outcome, ok, err, Text, text_eq, is_empty, trim_space, pos, find?,
}
use costume_tree.Storage.Models.{
  StoreError, no_rows, stale_preview, duplicate_submit, unknown_type, invalid_preview, Production,
  Actor, ItemType, CostumeItem, CreateCostumeItemInput, status_find,
}
use costume_tree.Storage.Database.{
  Store, Query, pure, fail, ◌>>=◌, ◌>>◌, guard, is_none, is_production, is_actor, is_item_type,
  is_item,
}
use costume_tree.Storage.Actors.{insert_actor}
use costume_tree.Storage.ItemTypes.{insert_item_type}
use costume_tree.Storage.Items.{allocate_code_tx, insert_item}
use costume_tree.Storage.BulkImport.{
  BulkImportPreview, BulkImportRow, Names, actor_names, bulk_import_preview_ttl, bulk_name_key,
  has_no_rows, minute, named, preview, seen, type_names,
}

-- A row that has been read, or `sql.ErrNoRows`.
unfoldable pub read_back {ℓ} : {A : Type ℓ} → Option A → Query A
unfolding pure fail
read_back none = fail no_rows
read_back (some a) = pure a

unfoldable pub read_bulk_actor : ℕ → ℕ → Query Actor
read_bulk_actor production_id id s = read_back (find? (is_actor production_id id) s.actors) s

unfoldable pub read_bulk_item_type : ℕ → ℕ → Query ItemType
read_bulk_item_type production_id id s =
    read_back (find? (is_item_type production_id id) s.item_types) s

unfoldable pub read_bulk_item : ℕ → ℕ → Query CostumeItem
read_bulk_item production_id id s = read_back (find? (is_item production_id id) s.items) s

-- The other columns have their defaults.
unfoldable pub insert_bulk_actor : ℕ → Text → ℕ → Query Actor
insert_bulk_actor production_id name now = do
  id ←
      insert_actor (record { production_id = production_id; name = name; role = []; notes = [] })
        now
  read_bulk_actor production_id id

-- The code and the ids, and the defaults of the table.
abbrev pub bulk_item_input : ℕ → ℕ → ℕ → CreateCostumeItemInput
bulk_item_input production_id actor_id item_type_id = record {
  production_id = production_id;
  actor_id = actor_id;
  item_type_id = item_type_id;
  description = [];
  status = status_find;
  progress = pos 0;
  next_action = [];
  blocker = [];
  notes = [];
}

unfoldable pub insert_bulk_item : ℕ → ℕ → ℕ → ℕ → Query CostumeItem
insert_bulk_item production_id actor_id item_type_id now = do
  code ← allocate_code_tx production_id
  id ← insert_item (bulk_item_input production_id actor_id item_type_id) code now
  read_bulk_item production_id id

-- `actorName` and `itemName` of a row of `Commit`
abbrev pub row_name : Text → Text → Text
row_name name alias =
    let trimmed = trim_space name in if is_empty trimmed then trim_space alias else trimmed

module _ (to_lower : Text → Text) (equal_fold : Text → Text → Bool) (lower : Text → Text) where
  unfoldable pub insert_bulk_item_type : ℕ → Text → ℕ → Query ItemType
  insert_bulk_item_type production_id name now = do
    id ← insert_item_type lower (record { production_id = production_id; name = name }) now
    read_bulk_item_type production_id id

  -- The actor of a name: known, or created and known from then on.
  unfoldable pub resolve_actor :
      ℕ → Text → ℕ → Names Actor → Option Actor → Query (Actor × Names Actor)
  unfolding bulk_name_key
  resolve_actor production_id name now actors (some actor) = pure (actor, actors)
  resolve_actor production_id name now actors none = do
    actor ← insert_bulk_actor production_id name now
    pure (actor, (bulk_name_key to_lower name, actor) ∷ actors)

  unfoldable pub resolve_type :
      ℕ → Bool → Text → ℕ → Names ItemType → Option ItemType → Query (ItemType × Names ItemType)
  unfolding bulk_name_key
  resolve_type production_id allow name now types (some typ) = pure (typ, types)
  resolve_type production_id false name now types none = fail (unknown_type name)
  resolve_type production_id true name now types none = do
    typ ← insert_bulk_item_type production_id name now
    pure (typ, (bulk_name_key to_lower name, typ) ∷ types)

  -- The loop of `Commit` over the rows
  unfoldable pub commit_rows :
      ℕ → Bool → ℕ → List BulkImportRow → Names Actor → Names ItemType → Query (List CostumeItem)
  unfolding bulk_name_key
  commit_rows production_id allow now [] actors types = pure []
  commit_rows production_id allow now (row ∷ rows) actors types = do
    let actor_name = row_name row.actor_name row.actor
    let item_name = row_name row.item_type_name row.item_type
    guard (not (is_empty actor_name || is_empty item_name)) invalid_preview
    (actor, actors') ←
        resolve_actor production_id actor_name now actors
          (named (bulk_name_key to_lower actor_name) actors)
    (typ, types') ←
        resolve_type production_id allow item_name now types
          (named (bulk_name_key to_lower item_name) types)
    item ← insert_bulk_item production_id actor.id typ.id now
    items ← commit_rows production_id allow now rows actors' types'
    pure (item ∷ items)

  -- The check of the production, at the row that SELECT ... FOR UPDATE has found
  unfoldable pub check_bulk_production : Text → Option Production → Query (Unit {0})
  check_bulk_production name none = fail stale_preview
  check_bulk_production name (some p) =
      guard (is_none p.archived_at && equal_fold (trim_space p.name) (trim_space name))
        stale_preview

  unfoldable pub lock_bulk_production : BulkImportPreview → Query (Unit {0})
  lock_bulk_production preview s =
      check_bulk_production preview.production_name
        (find? (is_production preview.production_id) s.productions) s

  unfoldable pub commit_scoped : BulkImportPreview → ℕ → Query (List CostumeItem)
  commit_scoped preview now s =
      commit_rows preview.production_id preview.allow_new_types now preview.rows
        (actor_names to_lower preview.production_id s) (type_names to_lower preview.production_id s)
        s

  -- The transaction of `Commit`
  unfoldable pub commit_tx : BulkImportPreview → ℕ → Query (List CostumeItem)
  commit_tx preview now = do lock_bulk_production preview; commit_scoped preview now

-- The maps that the mutex guards.
pub record Guards : Type 0 where
  pub inflight : List Text
  pub committed : List (Text × ℕ)

-- The `for` over `committed`, which drops what is older than the TTL.
abbrev pub purge : ℕ → List (Text × ℕ) → List (Text × ℕ)
purge now [] = []
purge now ((id, at) ∷ entries) =
    let rest = purge now entries in
    if ltb (at + bulk_import_preview_ttl) now then rest else (id, at) ∷ rest

abbrev pub is_committed : Text → List (Text × ℕ) → Bool
is_committed id [] = false
is_committed id ((i, at) ∷ entries) = text_eq i id || is_committed id entries

abbrev pub without : Text → List Text → List Text
without id [] = []
without id (i ∷ ids) = let rest = without id ids in if text_eq i id then rest else i ∷ rest

-- `age < -time.Minute || age > BulkImportPreviewTTL`
abbrev pub is_stale : ℕ → ℕ → Bool
is_stale created now = ltb (now + minute) created || ltb (created + bulk_import_preview_ttl) now

-- The two checks of the preview, the second at time `checked`
unfoldable pub check_preview : BulkImportPreview → Option ℕ → ℕ → Outcome StoreError (Unit {0})
check_preview preview none checked = err invalid_preview
check_preview preview (some created) checked =
    if is_empty preview.id
      || (preview.production_id == 0 || (has_no_rows preview.rows || not preview.valid))
    then err invalid_preview
    else if is_stale created checked
    then err stale_preview
    else ok tt

-- The locked section, at time `locked`: a commit that may go on is in flight.
unfoldable pub enter : Text → ℕ → Guards → Guards × Bool
enter id locked g =
    let committed = purge locked g.committed in
    if is_committed id committed || seen id g.inflight
    then (record g { committed = committed }, false)
    else (record { inflight = id ∷ g.inflight; committed = committed }, true)

-- A commit that has failed is not in flight ...
unfoldable pub leave : Text → Guards → Guards
leave id g = record g { inflight = without id g.inflight }

-- ... and one that has succeeded, at time `done`, is remembered too.
unfoldable pub record_committed : Text → ℕ → Guards → Guards
record_committed id done g = record g { committed = (id, done) ∷ g.committed }

-- The times of one call: of the check, in the locked section, in the database, and at the end.
pub record Clock : Type 0 where
  pub checked : ℕ
  pub locked : ℕ
  pub now : ℕ
  pub done : ℕ

abbrev pub Commit : Type 0
Commit = Guards × Outcome StoreError (List CostumeItem × Store)

module _ (to_lower : Text → Text) (equal_fold : Text → Text → Bool) (lower : Text → Text) where
  -- The end of `Commit`, after its transaction
  unfoldable pub commit_end :
      Text → ℕ → Guards → Outcome StoreError (List CostumeItem × Store) → Commit
  unfolding leave record_committed
  commit_end id done g (ok (items, s)) = (leave id (record_committed id done g), ok (items, s))
  commit_end id done g (err e) = (leave id g, err e)

  -- `Commit` after the locked section, which has let it go on or not
  unfoldable pub commit_entered : BulkImportPreview → Clock → Store → Guards × Bool → Commit
  unfolding commit_end commit_tx
  commit_entered preview clock s (g, false) = (g, err duplicate_submit)
  commit_entered preview clock s (g, true) =
      commit_end preview.id clock.done g (commit_tx to_lower equal_fold lower preview clock.now s)

  unfoldable pub commit_checked :
      BulkImportPreview → Clock → Guards → Store → Outcome StoreError (Unit {0}) → Commit
  unfolding commit_entered enter
  commit_checked preview clock g s (err e) = (g, err e)
  commit_checked preview clock g s (ok _) =
      commit_entered preview clock s (enter preview.id clock.locked g)

  -- `Commit`, when no other call runs in between
  unfoldable pub commit : BulkImportPreview → Clock → Guards → Store → Commit
  unfolding commit_checked check_preview
  commit preview clock g s =
      commit_checked preview clock g s (check_preview preview preview.created_at clock.checked)
