-- ===== src/Storage/Models.antt =====
-- The rows, inputs and errors of internal/storage/models.go. Times are numbers of nanoseconds;
-- ids are the numbers that identity columns give out, from 1. A caller's negative id is, like 0,
-- an id that no row has.
use costume_tree.Common.{ℕ, Bool, Option, Text, text, ℤ}

abbrev pub status_find : Text
status_find = text "Find"

abbrev pub status_make : Text
status_make = text "Make"

abbrev pub status_fit : Text
status_fit = text "Fit"

abbrev pub status_alterations : Text
status_alterations = text "Alterations"

abbrev pub status_complete : Text
status_complete = text "Complete"

abbrev pub photo_status_pending : Text
photo_status_pending = text "pending"

abbrev pub photo_status_ready : Text
photo_status_ready = text "ready"

abbrev pub photo_status_failed : Text
photo_status_failed = text "failed"

-- What `notFound` names, and the subject of "name is required".
pub data Kind : Type 0 where
  production actor item_type costume_item costume_item_photo : Kind

pub data StoreError : Type 0 where
  -- `ErrNotFound`, wrapped with the kind
  not_found : Kind → StoreError
  -- `ErrArchived`
  archived : StoreError
  name_required : Kind → StoreError
  -- PostgreSQL refuses a statement: a CHECK, UNIQUE or FOREIGN KEY constraint or
  -- a string that is no TEXT, or a BIGINT overflow
  constraint out_of_range : StoreError
  filename_required unsafe_filename media_type_required limit_not_positive : StoreError
  -- `ErrInvalidPhotoStatus`, wrapped
  invalid_photo_status : StoreError
  -- `ErrBulkStalePreview`, `ErrBulkDuplicateSubmit`, `ErrBulkUnknownType`, `ErrBulkInvalidPreview`
  stale_preview duplicate_submit : StoreError
  unknown_type : Text → StoreError
  invalid_preview : StoreError
  -- "storage: production id is required"
  production_required : StoreError
  -- `sql.ErrNoRows`
  no_rows : StoreError

pub record Production : Type 0 where
  pub id : ℕ
  pub name : Text
  pub archived_at : Option ℕ
  pub created_at : ℕ
  pub updated_at : ℕ

pub record UpdateProductionInput : Type 0 where
  pub id : ℕ
  pub name : Text

pub record Actor : Type 0 where
  pub id : ℕ
  pub production_id : ℕ
  pub name : Text
  pub role : Text
  pub notes : Text
  pub archived_at : Option ℕ
  pub created_at : ℕ
  pub updated_at : ℕ

pub record CreateActorInput : Type 0 where
  pub production_id : ℕ
  pub name : Text
  pub role : Text
  pub notes : Text

pub record UpdateActorInput : Type 0 where
  pub production_id : ℕ
  pub id : ℕ
  pub name : Text
  pub role : Text
  pub notes : Text

pub record ItemType : Type 0 where
  pub id : ℕ
  pub production_id : ℕ
  pub name : Text
  pub archived_at : Option ℕ
  pub created_at : ℕ
  pub updated_at : ℕ

pub record CreateItemTypeInput : Type 0 where
  pub production_id : ℕ
  pub name : Text

pub record UpdateItemTypeInput : Type 0 where
  pub production_id : ℕ
  pub id : ℕ
  pub name : Text

pub record CostumeItem : Type 0 where
  pub id : ℕ
  pub production_id : ℕ
  pub actor_id : ℕ
  pub item_type_id : ℕ
  pub code : Text
  pub description : Text
  pub status : Text
  pub progress : ℤ
  pub next_action : Text
  pub blocker : Text
  pub notes : Text
  pub archived_at : Option ℕ
  pub created_at : ℕ
  pub updated_at : ℕ

pub record CreateCostumeItemInput : Type 0 where
  pub production_id : ℕ
  pub actor_id : ℕ
  pub item_type_id : ℕ
  pub description : Text
  pub status : Text
  pub progress : ℤ
  pub next_action : Text
  pub blocker : Text
  pub notes : Text

pub record UpdateCostumeItemInput : Type 0 where
  pub production_id : ℕ
  pub id : ℕ
  pub actor_id : ℕ
  pub item_type_id : ℕ
  pub description : Text
  pub status : Text
  pub progress : ℤ
  pub next_action : Text
  pub blocker : Text
  pub notes : Text
  pub expected_updated_at : Option ℕ

pub record CostumeItemFilter : Type 0 where
  pub production_id : ℕ
  pub actor_id : ℕ
  pub item_type_id : ℕ
  pub code : Text
  pub status : Text
  pub include_archived : Bool
  pub incomplete : Bool
  pub blocked : Bool

pub record CostumeItemPhoto : Type 0 where
  pub id : ℕ
  pub production_id : ℕ
  pub costume_item_id : ℕ
  pub original_name : Text
  pub display_name : Text
  pub thumbnail_name : Text
  pub media_type : Text
  pub status : Text
  pub error_message : Text
  pub created_at : ℕ
  pub updated_at : ℕ

pub record CreateCostumeItemPhotoInput : Type 0 where
  pub production_id : ℕ
  pub costume_item_id : ℕ
  pub original_name : Text
  pub display_name : Text
  pub thumbnail_name : Text
  pub media_type : Text
