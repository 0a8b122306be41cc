-- ===== src/Storage/BulkImport.antt =====
-- `BulkImporter` of internal/storage/bulk_import.go: its data and the previews; the commits
-- are in the child Importer. `to_lower` is strings.ToLower, `equal_fold` strings.EqualFold and
-- `lower` the database's function; times are nanoseconds.
pub mod Importer
pub mod Previews
pub mod Commits
pub mod Codes
use costume_tree.Common.{
  ℕ, suc, ◌+◌, Bool, true, false, not, ◌&&◌, ◌||◌, Option, none, some, List, [], ◌∷◌, ◌++◌, ◌==◌,
  leb, ltb, if◌then◌else◌, Outcome, ok, err, Text, text_eq, is_empty, trim_space, pos, and_then,
  find?, select, sort_by,
}
use costume_tree.Bulk
use costume_tree.Storage.Models.{
  production, StoreError, not_found, no_rows, stale_preview, duplicate_submit, unknown_type,
  invalid_preview, Production, Actor, ItemType, CostumeItem, CreateCostumeItemInput, status_find,
}
use costume_tree.Storage.Database.{
  Store, Query, pure, fail, ◌>>=◌, ◌>>◌, guard, check_active, is_none, is_production, is_actor,
  is_item_type, is_item,
}
use costume_tree.Storage.Actors.{insert_actor}
use costume_tree.Storage.ItemTypes.{insert_item_type}
use costume_tree.Storage.Items.{allocate_code_tx, insert_item}

-- 10 * time.Minute and time.Minute
abbrev pub bulk_import_preview_ttl : ℕ
bulk_import_preview_ttl = 600000000000

abbrev pub minute : ℕ
minute = 60000000000

-- The values of a row's states, which are at first empty, and of its status, at first "ok".
pub data BulkState : Type 0 where
  existing new known unknown duplicate error fine unset : BulkState

pub record BulkImportRow : Type 0 where
  pub number : ℕ
  pub block : ℕ
  pub actor_line : ℕ
  pub item_line : ℕ
  pub actor_name : Text
  pub item_type_name : Text
  pub actor : Text
  pub item_type : Text
  pub actor_id : ℕ
  pub item_type_id : ℕ
  pub actor_state : BulkState
  pub item_type_state : BulkState
  pub actor_status : BulkState
  pub item_type_status : BulkState
  pub status : BulkState
  pub duplicate : Bool
  -- The item type that `Error` names.
  pub error : Option Text
  pub code : Text

-- The messages of a preview.
pub data PreviewError : Type 0 where
  nothing_pasted : PreviewError
  missing_in_block : ℕ → PreviewError
  unknown_at_line : ℕ → Text → PreviewError

pub record BulkImportPreview : Type 0 where
  pub id : Text
  pub production_id : ℕ
  pub production_name : Text
  pub allow_new_types : Bool
  -- None is the zero time.
  pub created_at : Option ℕ
  pub rows : List BulkImportRow
  pub errors : List PreviewError
  pub valid : Bool

-- A map by names: the first pair with a key counts.
abbrev pub Names {ℓ} : Type ℓ → Type ℓ
Names A = List (Text × A)

abbrev pub named {ℓ} : {A : Type ℓ} → Text → Names A → Option A
named key [] = none
named key ((k, a) ∷ names) = if text_eq k key then some a else named key names

abbrev pub add_first {ℓ} : {A : Type ℓ} → Text → A → Option A → Names A → Names A
add_first key a none names = (key, a) ∷ names
add_first key a (some b) names = names

module _ (to_lower : Text → Text) where
  unfoldable pub bulk_name_key : Text → Text
  bulk_name_key value = to_lower (trim_space value)

  -- The first actor of a name.
  unfoldable pub actor_by_name : List Actor → Names Actor → Names Actor
  unfolding bulk_name_key
  actor_by_name [] names = names
  actor_by_name (a ∷ actors) names =
      let key = bulk_name_key a.name in
      actor_by_name actors (add_first key a (named key names) names)

  -- The last item type of a name.
  unfoldable pub type_by_name : List ItemType → Names ItemType → Names ItemType
  unfolding bulk_name_key
  type_by_name [] names = names
  type_by_name (t ∷ ts) names = type_by_name ts ((bulk_name_key t.name, t) ∷ names)

-- WHERE production_id = $1 AND archived_at IS NULL ORDER BY id
abbrev pub list_bulk_actors : ℕ → Store → List Actor
list_bulk_actors production_id s =
    sort_by (λ a b. leb a.id b.id)
      (select (λ a. a.production_id == production_id && is_none a.archived_at) s.actors)

abbrev pub list_bulk_item_types : ℕ → Store → List ItemType
list_bulk_item_types production_id s =
    sort_by (λ a b. leb a.id b.id)
      (select (λ t. t.production_id == production_id && is_none t.archived_at) s.item_types)

-- What the loops of `Preview` change.
pub record PreviewState : Type 0 where
  pub seen_pairs : List Text
  pub row_number : ℕ
  pub rows : List BulkImportRow
  pub errors : List PreviewError
  pub valid : Bool

abbrev pub seen : Text → List Text → Bool
seen key [] = false
seen key (k ∷ keys) = text_eq k key || seen key keys

-- The row of an item, once its actor has been looked up
abbrev pub with_actor : Option Actor → BulkImportRow → BulkImportRow
with_actor (some a) row = record row {
  actor_name = a.name;
  actor = a.name;
  actor_id = a.id;
  actor_state = existing;
  actor_status = existing;
}
with_actor none row = record row { actor_state = new; actor_status = new }

-- ... and its item type.
abbrev pub with_type : Bool → Option ItemType → BulkImportRow → BulkImportRow
with_type allow (some t) row = record row {
  item_type_name = t.name;
  item_type = t.name;
  item_type_id = t.id;
  item_type_state = known;
  item_type_status = known;
}
with_type true none row = record row { item_type_state = new; item_type_status = new }
with_type false none row = record row {
  item_type_state = unknown;
  item_type_status = unknown;
  status = error;
  error = some row.item_type_name;
}

abbrev pub is_fine : BulkState → Bool
is_fine fine = true
is_fine _ = false

abbrev pub is_new : BulkState → Bool
is_new new = true
is_new _ = false

abbrev pub with_pair_seen : Bool → BulkImportRow → BulkImportRow
with_pair_seen true row = record row {
  duplicate = true;
  status = if is_fine row.status then duplicate else row.status;
}
with_pair_seen false row = row

abbrev pub with_new_status : BulkImportRow → BulkImportRow
with_new_status row =
    if is_fine row.status && (is_new row.actor_state || is_new row.item_type_state)
    then record row { status = new }
    else row

-- Whether the row adds an error
abbrev pub refuses : Bool → Option ItemType → Bool
refuses allow none = not allow
refuses allow (some t) = false

abbrev pub bulk_row : ℕ → ℕ → Text → Bulk.Block → Bulk.Item → Text → BulkImportRow
bulk_row number block_number actor_name block item item_name = record {
  number = number;
  block = block_number;
  actor_line = block.actor_line;
  item_line = item.line;
  actor_name = actor_name;
  item_type_name = item_name;
  actor = actor_name;
  item_type = item_name;
  actor_id = 0;
  item_type_id = 0;
  actor_state = unset;
  item_type_state = unset;
  actor_status = unset;
  item_type_status = unset;
  status = fine;
  duplicate = false;
  error = none;
  code = [];
}

abbrev pub has_no_items : List Bulk.Item → Bool
has_no_items [] = true
has_no_items (item ∷ items) = false

abbrev pub refuse : PreviewError → PreviewState → PreviewState
refuse e st = record st { errors = st.errors ++ (e ∷ []); valid = false }

module _ (to_lower : Text → Text) (allow_new_types : Bool) (actors : Names Actor)
    (types : Names ItemType) where
  -- The body of the loop over a block's items
  unfoldable pub preview_item : ℕ → Bulk.Block → Bulk.Item → PreviewState → PreviewState
  unfolding bulk_name_key
  preview_item block_number block item st =
      let actor_name = trim_space block.actor in
      let actor_key = bulk_name_key to_lower actor_name in
      let item_name = trim_space item.type in
      let typ = named (bulk_name_key to_lower item_name) types in
      let pair_key = actor_key ++ (0 ∷ bulk_name_key to_lower item_name) in
      let refused = refuses allow_new_types typ in
      let row = with_new_status (
        with_pair_seen (seen pair_key st.seen_pairs) (
          with_type allow_new_types typ (
            with_actor (named actor_key actors)
              (bulk_row (suc st.row_number) block_number actor_name block item item_name)))) in
      record {
        seen_pairs =
            if seen pair_key st.seen_pairs then st.seen_pairs else pair_key ∷ st.seen_pairs;
        row_number = suc st.row_number;
        rows = st.rows ++ (row ∷ []);
        errors =
            if refused then st.errors ++ (unknown_at_line item.line item_name ∷ []) else st.errors;
        valid = if refused then false else st.valid;
      }

  unfoldable pub preview_items : ℕ → Bulk.Block → List Bulk.Item → PreviewState → PreviewState
  preview_items block_number block [] st = st
  preview_items block_number block (item ∷ items) st =
      preview_items block_number block items (preview_item block_number block item st)

  -- The loop over the blocks; the number is of the next block, from 1.
  unfoldable pub preview_blocks : ℕ → List Bulk.Block → PreviewState → PreviewState
  unfolding preview_items preview_item
  preview_blocks block_number [] st = st
  preview_blocks block_number (block ∷ blocks) st = preview_blocks (suc block_number) blocks (
      if is_empty (trim_space block.actor) || has_no_items block.items
      then refuse (missing_in_block block_number) st
      else preview_items block_number block block.items st)

abbrev pub preview_start : PreviewState
preview_start = record { seen_pairs = []; row_number = 0; rows = []; errors = []; valid = true }

abbrev pub has_no_rows : List BulkImportRow → Bool
has_no_rows [] = true
has_no_rows (row ∷ rows) = false

-- The end of `Preview`: without rows there is nothing to import.
abbrev pub preview_end : PreviewState → PreviewState
preview_end st = if has_no_rows st.rows then refuse nothing_pasted st else st

module _ (to_lower : Text → Text) where
  abbrev pub actor_names : ℕ → Store → Names Actor
  actor_names production_id s = actor_by_name to_lower (list_bulk_actors production_id s) []

  abbrev pub type_names : ℕ → Store → Names ItemType
  type_names production_id s = type_by_name to_lower (list_bulk_item_types production_id s) []

  -- What `Preview` computes of the blocks
  unfoldable pub preview_of : Store → ℕ → List Bulk.Block → Bool → PreviewState
  unfolding preview_blocks
  preview_of s production_id [] allow = record preview_start {
    errors = nothing_pasted ∷ [];
    valid = false;
  }
  preview_of s production_id (block ∷ blocks) allow = preview_end (
      preview_blocks to_lower allow (actor_names production_id s) (type_names production_id s) 1
        (block ∷ blocks) preview_start)

  -- `Preview`, with the random id; the SELECT of `scope` has found the production or not.
  unfoldable pub preview_scope :
      Option Production → ℕ → List Bulk.Block → Bool → Text → ℕ → Query BulkImportPreview
  preview_scope none production_id blocks allow id now s = err (not_found production)
  preview_scope (some p) production_id blocks allow id now s =
      let st = preview_of s production_id blocks allow in
      elim p.archived_at [
        | some t ↦ err StoreError.archived
        | none ↦ ok (
          record {
            id = id;
            production_id = production_id;
            production_name = p.name;
            allow_new_types = allow;
            created_at = some now;
            rows = st.rows;
            errors = st.errors;
            valid = st.valid;
          },
          s,
        )
      ]

  unfoldable pub preview : ℕ → List Bulk.Block → Bool → Text → ℕ → Query BulkImportPreview
  unfolding preview_scope
  preview production_id blocks allow id now s =
      preview_scope (find? (is_production production_id) s.productions) production_id blocks allow
        id now s
