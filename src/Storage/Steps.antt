-- ===== src/Storage/Steps.antt =====
-- The repositories' writes as one step function, and the stores that sequences of them reach.
pub mod Codes
use costume_tree.Common.{ℕ, ◌≡◌, [], Outcome, ok, err, Text, arith}
use costume_tree.Storage.Models.{
  StoreError, UpdateProductionInput, CreateActorInput, UpdateActorInput, CreateItemTypeInput,
  UpdateItemTypeInput, CreateCostumeItemInput, UpdateCostumeItemInput, CreateCostumeItemPhotoInput,
}
use costume_tree.Storage.Database.{Store, Query}
use costume_tree.Storage.Productions
use costume_tree.Storage.Actors
use costume_tree.Storage.ItemTypes
use costume_tree.Storage.Items
use costume_tree.Storage.Photos

-- A call of a repository method that writes.
pub data Op : Type 0 where
  create_production : Text → Op
  update_production : UpdateProductionInput → Op
  archive_production : ℕ → Op
  create_actor : CreateActorInput → Op
  update_actor : UpdateActorInput → Op
  archive_actor : ℕ → ℕ → Op
  create_item_type : CreateItemTypeInput → Op
  update_item_type : UpdateItemTypeInput → Op
  archive_item_type restore_item_type : ℕ → ℕ → Op
  allocate_code : ℕ → Op
  create_item : CreateCostumeItemInput → Op
  update_item : UpdateCostumeItemInput → Op
  archive_item : ℕ → ℕ → Op
  create_photo : CreateCostumeItemPhotoInput → Op
  mark_ready : ℕ → Op
  mark_failed : ℕ → Text → Op

-- The tables after a call, or its error.
abbrev pub tables {ℓ} : {A : Type ℓ} → Outcome StoreError (A × Store) → Outcome StoreError Store
tables (ok (a, s)) = ok s
tables (err e) = err e

unfoldable pub step : (Text → Text) → Op → ℕ → Store → Outcome StoreError Store
step lower (create_production name) now s = tables (Productions.create name now s)
step lower (update_production input) now s = tables (Productions.update input now s)
step lower (archive_production id) now s = tables (Productions.archive id now s)
step lower (create_actor input) now s = tables (Actors.create input now s)
step lower (update_actor input) now s = tables (Actors.update input now s)
step lower (archive_actor p id) now s = tables (Actors.archive p id now s)
step lower (create_item_type input) now s = tables (ItemTypes.create lower input now s)
step lower (update_item_type input) now s = tables (ItemTypes.update lower input now s)
step lower (archive_item_type p id) now s = tables (ItemTypes.archive p id now s)
step lower (restore_item_type p id) now s = tables (ItemTypes.restore lower p id now s)
step lower (allocate_code p) now s = tables (Items.allocate_code p s)
step lower (create_item input) now s = tables (Items.create input now s)
step lower (update_item input) now s = tables (Items.update input now s)
step lower (archive_item p id) now s = tables (Items.archive p id now s)
step lower (create_photo input) now s = tables (Photos.create input now s)
step lower (mark_ready id) now s = tables (Photos.mark_ready id now s)
step lower (mark_failed id message) now s = tables (Photos.mark_failed id message now s)

-- The tables that the migrations leave.
abbrev pub empty_store : Store
empty_store = record {
  productions = [];
  actors = [];
  item_types = [];
  sequences = [];
  items = [];
  photos = [];
  next_production = 1;
  next_actor = 1;
  next_item_type = 1;
  next_item = 1;
  next_photo = 1;
}

-- Reached from the fresh tables by calls that succeed (one that fails changes nothing).
pub data Reach (lower : Text → Text) : Store → Type 0 where
  fresh : Reach lower empty_store
  next :
      {s t : Store} (op : Op) (now : ℕ) → Reach lower s → step lower op now s ≡ ok t → Reach lower t
