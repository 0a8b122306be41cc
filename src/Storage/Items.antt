-- ===== src/Storage/Items.antt =====
-- `costumeItemRepository` of internal/storage/repositories.go.
pub mod Creation
pub mod Changes
pub mod Listing
use costume_tree.Common.{
  ℕ, suc, ◌+◌, ◌-◌, ◌^◌, Bool, true, false, not, ◌&&◌, ◌||◌, Option, none, some, List, [], ◌∷◌,
  ◌++◌, ◌==◌, leb, ltb, if◌then◌else◌, Outcome, ok, err, Text, text, text_eq, is_empty, storable,
  find?, ℤ, pos, negsuc, pad_four, select, count_where, update_where, sort_by,
}
use costume_tree.Storage.Models.{
  costume_item, StoreError, out_of_range, constraint, CostumeItem, CreateCostumeItemInput,
  UpdateCostumeItemInput, CostumeItemFilter, status_find, status_make, status_fit,
  status_alterations, status_complete,
}
use costume_tree.Storage.Database.{
  Sequence, Store, Query, pure, fail, ◌>>=◌, ◌>>◌, guard, found, some_affected, coalesce, is_none,
  is_production, is_actor, is_item_type, is_item, ensure_production, ensure_actor, ensure_item_type,
}
use costume_tree.Storage.Productions.{has_text}

abbrev pub max_bigint : ℕ
max_bigint = 2 ^ 63 - 1

-- fmt.Sprintf("C-%04d", value)
unfoldable pub format_code : ℕ → Text
format_code value = text "C-" ++ pad_four value

abbrev pub is_sequence : ℕ → Sequence → Bool
is_sequence production_id q = q.production_id == production_id

-- The upsert of `allocateCodeTx`, at the row found.
unfoldable pub upsert_sequence : ℕ → Option Sequence → Query ℕ
upsert_sequence production_id none s = ok (
  1,
  record s {
    sequences = s.sequences ++ (record { production_id = production_id; next_value = 1 } ∷ []);
  },
)
upsert_sequence production_id (some q) s =
    if ltb q.next_value max_bigint
    then ok (
      suc q.next_value,
      record s {
        sequences =
            update_where (is_sequence production_id)
              (λ r. record r { next_value = suc r.next_value }) s.sequences;
      },
    )
    else err out_of_range

unfoldable pub next_code_value : ℕ → Query ℕ
unfolding upsert_sequence
next_code_value production_id s =
    upsert_sequence production_id (find? (is_sequence production_id) s.sequences) s

unfoldable pub allocate_code_tx : ℕ → Query Text
allocate_code_tx production_id = do
  ensure_production production_id
  value ← next_code_value production_id
  pure (format_code value)

unfoldable pub allocate_code : ℕ → Query Text
allocate_code production_id = allocate_code_tx production_id

-- CHECK (status IN (...))
abbrev pub known_status : Text → Bool
known_status status =
    text_eq status status_find
    || (text_eq status status_make
        || (text_eq status status_fit
            || (text_eq status status_alterations || text_eq status status_complete)))

-- CHECK (progress BETWEEN 0 AND 100)
abbrev pub progress_in_range : ℤ → Bool
progress_in_range (pos n) = leb n 100
progress_in_range (negsuc n) = false

abbrev pub is_full : ℤ → Bool
is_full (pos n) = n == 100
is_full (negsuc n) = false

-- The three CHECKs on status and progress.
abbrev pub workflow_ok : Text → ℤ → Bool
workflow_ok status progress =
    known_status status
    && (progress_in_range progress && (not (text_eq status status_complete) || is_full progress))

abbrev pub has_code : ℕ → Text → CostumeItem → Bool
has_code production_id code i = i.production_id == production_id && text_eq i.code code

-- The constraints on an actor and an item type of one production.
abbrev pub references_ok : ℕ → ℕ → ℕ → Store → Bool
references_ok production_id actor_id item_type_id s =
    ltb 0 (count_where (is_actor production_id actor_id) s.actors)
    && ltb 0 (count_where (is_item_type production_id item_type_id) s.item_types)

-- The strings of a statement that PostgreSQL has to take
abbrev pub texts_storable : Text → Text → Text → Text → Text → Bool
texts_storable description status next_action blocker notes =
    storable description
    && (storable status && (storable next_action && (storable blocker && storable notes)))

-- The new row, with the defaults of the table
abbrev pub item_row : CreateCostumeItemInput → Text → ℕ → ℕ → CostumeItem
item_row input code id now = record {
  id = id;
  production_id = input.production_id;
  actor_id = input.actor_id;
  item_type_id = input.item_type_id;
  code = code;
  description = input.description;
  status = input.status;
  progress = input.progress;
  next_action = input.next_action;
  blocker = input.blocker;
  notes = input.notes;
  archived_at = none;
  created_at = now;
  updated_at = now;
}

-- INSERT INTO costume_items ... RETURNING id, under the constraints of the table; its strings are
-- texts
unfoldable pub insert_item : CreateCostumeItemInput → Text → ℕ → Query ℕ
insert_item input code now s =
    if texts_storable input.description input.status input.next_action input.blocker input.notes
      && (has_text code
          && (workflow_ok input.status input.progress
              && (references_ok input.production_id input.actor_id input.item_type_id s
                  && count_where (has_code input.production_id code) s.items == 0)))
    then ok (
      s.next_item,
      record s {
        items = s.items ++ (item_row input code s.next_item now ∷ []);
        next_item = suc s.next_item;
      },
    )
    else err constraint

unfoldable pub get : ℕ → ℕ → Query CostumeItem
get production_id id s = found costume_item (find? (is_item production_id id) s.items) s

-- `if status == "" { status = StatusFind }`
abbrev pub or_find : Text → Text
or_find status = if is_empty status then status_find else status

unfoldable pub create : CreateCostumeItemInput → ℕ → Query CostumeItem
create input now = do
  let status = or_find input.status
  ensure_production input.production_id
  ensure_actor input.production_id input.actor_id
  ensure_item_type input.production_id input.item_type_id
  code ← allocate_code_tx input.production_id
  id ← insert_item (record input { status = status }) code now
  get input.production_id id

-- `CASE status WHEN ... END`
unfoldable pub status_rank : Text → ℕ
status_rank status =
    if text_eq status status_find
    then 1
    else if text_eq status status_make
    then 2
    else if text_eq status status_fit
    then 3
    else if text_eq status status_alterations
    then 4
    else if text_eq status status_complete
    then 5
    else 6

-- ORDER BY CASE status ... END, id
abbrev pub by_rank : CostumeItem → CostumeItem → Bool
by_rank a b =
    ltb (status_rank a.status) (status_rank b.status)
    || (status_rank a.status == status_rank b.status && leb a.id b.id)

-- The WHERE clause that `List` builds from a filter.
unfoldable pub matches : CostumeItemFilter → CostumeItem → Bool
matches f i =
    i.production_id == f.production_id
    && ((f.include_archived || is_none i.archived_at)
        && ((f.actor_id == 0 || i.actor_id == f.actor_id)
            && ((f.item_type_id == 0 || i.item_type_id == f.item_type_id)
                && ((is_empty f.code || text_eq i.code f.code)
                    && ((is_empty f.status || text_eq i.status f.status)
                        && ((not f.incomplete || not (text_eq i.status status_complete))
                            && (not f.blocked || has_text i.blocker)))))))

unfoldable pub list : CostumeItemFilter → Query (List CostumeItem)
unfolding matches status_rank
list filter s =
    if storable filter.code && storable filter.status
    then ok (sort_by by_rank (select (matches filter) s.items), s)
    else err constraint

-- The columns that `Update` sets. The input's `ExpectedUpdatedAt` is not among its arguments.
abbrev pub with_input : UpdateCostumeItemInput → ℕ → CostumeItem → CostumeItem
with_input input now i = record i {
  actor_id = input.actor_id;
  item_type_id = input.item_type_id;
  description = input.description;
  status = input.status;
  progress = input.progress;
  next_action = input.next_action;
  blocker = input.blocker;
  notes = input.notes;
  updated_at = now;
}

-- UPDATE costume_items SET ... WHERE production_id = $9 AND id = $10: the rows affected
unfoldable pub change_items : UpdateCostumeItemInput → ℕ → Query ℕ
change_items input now s =
    let this = is_item input.production_id input.id in
    let count = count_where this s.items in
    if not
        (texts_storable input.description input.status input.next_action input.blocker input.notes)
      || (ltb 0 count
          && not (
              workflow_ok input.status input.progress
              && references_ok input.production_id input.actor_id input.item_type_id s))
    then err constraint
    else ok (count, record s { items = update_where this (with_input input now) s.items })

unfoldable pub update : UpdateCostumeItemInput → ℕ → Query CostumeItem
update input now = do
  ensure_production input.production_id
  ensure_actor input.production_id input.actor_id
  ensure_item_type input.production_id input.item_type_id
  count ← change_items input now
  some_affected costume_item count
  get input.production_id input.id

abbrev pub archive_item_row : ℕ → CostumeItem → CostumeItem
archive_item_row now i = record i { archived_at = coalesce i.archived_at now; updated_at = now }

-- UPDATE costume_items SET archived_at = COALESCE(archived_at, CURRENT_TIMESTAMP), ...
unfoldable pub archive_items : ℕ → ℕ → ℕ → Query ℕ
archive_items production_id id now s = ok (
  count_where (is_item production_id id) s.items,
  record s { items = update_where (is_item production_id id) (archive_item_row now) s.items },
)

unfoldable pub archive : ℕ → ℕ → ℕ → Query (Unit {0})
archive production_id id now = do
  count ← archive_items production_id id now
  some_affected costume_item count
