-- ===== src/Storage/ChangeTests.antt =====
-- Runs of the updates, the archival and the listing of items, and of the photos' transitions.
use costume_tree.Common.{
  storable, All, Bool, Text, ℕ, ◌≡◌, refl, true, false, some, List, [], ◌∷◌, ok, err, text, text_eq,
  is_empty, trim_space, pos,
}
use costume_tree.Storage.Models.{
  CostumeItem, CostumeItemPhoto, UpdateCostumeItemInput, CostumeItemFilter, status_make,
  photo_status_pending, photo_status_ready, photo_status_failed, invalid_photo_status,
}
use costume_tree.Storage.Database
use costume_tree.Storage.Database.{Store}
use costume_tree.Storage.Items
use costume_tree.Storage.Items.Changes.{IsUpdated, update-IsUpdated, archive_time, archive-archive}
use costume_tree.Storage.Items.Listing.{IsListing, list-IsListing}
use costume_tree.Storage.ItemTypeSummary
use costume_tree.Storage.ItemTypeSummary.{ItemTypeSummary}
use costume_tree.Storage.ItemTypeSummary.Totals.{AddsUp, list-AddsUp}
use costume_tree.Storage.Photos
use costume_tree.Storage.Photos.Transitions.{transition-once}
use costume_tree.Storage.Tests.{hat, with_hat}

abbrev make_input : UpdateCostumeItemInput
make_input = record {
  production_id = 1;
  id = 1;
  actor_id = 1;
  item_type_id = 1;
  description = text "Blue";
  status = status_make;
  progress = pos 40;
  next_action = text "Cut";
  blocker = [];
  notes = [];
  expected_updated_at = some 4;
}

abbrev blue_hat : CostumeItem
blue_hat = Items.with_input make_input 5 hat

abbrev with_blue_hat : Store
with_blue_hat = record with_hat { items = blue_hat ∷ [] }

update-hat : Items.update make_input 5 with_hat ≡ ok (blue_hat, with_blue_hat)
unfolding Items.update Database.◌>>=◌ Database.ensure_production Database.ensure_actor
    Database.ensure_item_type Items.change_items text_eq Database.some_affected Items.get
    Database.found storable
update-hat = refl

update-IsUpdated_example : IsUpdated make_input 5 with_hat with_blue_hat blue_hat
update-IsUpdated_example = update-IsUpdated make_input 5 with_hat with_blue_hat blue_hat update-hat

abbrev archived_at_time : ℕ → Store
archived_at_time now = record with_hat {
  items = record hat { archived_at = some 6; updated_at = now } ∷ [];
}

archive-first : Items.archive 1 1 6 with_hat ≡ ok (tt, archived_at_time 6)
unfolding Items.archive Database.◌>>=◌ Items.archive_items Database.some_affected
archive-first = refl

archive-second : Items.archive 1 1 7 (archived_at_time 6) ≡ ok (tt, archived_at_time 7)
unfolding Items.archive Database.◌>>=◌ Items.archive_items Database.some_affected
archive-second = refl

archive-archive_example :
    archive_time 1 1 (archived_at_time 7) ≡ archive_time 1 1 (archived_at_time 6)
archive-archive_example =
    archive-archive 1 1 6 7 with_hat (archived_at_time 6) (archived_at_time 7) archive-first
      archive-second

abbrev all_active : CostumeItemFilter
all_active = record {
  production_id = 1;
  actor_id = 0;
  item_type_id = 0;
  code = [];
  status = [];
  include_archived = false;
  incomplete = true;
  blocked = false;
}

list-IsListing_example :
    (items : List CostumeItem) × (Items.list all_active with_hat ≡ ok (items, with_hat))
    × IsListing all_active with_hat.items items
unfolding storable
list-IsListing_example = list-IsListing all_active with_hat refl refl

abbrev photo : CostumeItemPhoto
photo = record {
  id = 1;
  production_id = 1;
  costume_item_id = 1;
  original_name = text "a.jpg";
  display_name = text "b.jpg";
  thumbnail_name = text "c.jpg";
  media_type = text "image/jpeg";
  status = photo_status_pending;
  error_message = [];
  created_at = 8;
  updated_at = 8;
}

abbrev with_photo : CostumeItemPhoto → Store
with_photo p = record with_hat { photos = p ∷ []; next_photo = 2 }

abbrev ready_photo : CostumeItemPhoto
ready_photo = Photos.with_status photo_status_ready [] 9 photo

transition-photo :
    Photos.transition 1 photo_status_ready [] 9 (with_photo photo)
    ≡ ok (ready_photo, with_photo ready_photo)
unfolding Photos.transition Database.◌>>=◌ Database.guard text_eq Photos.transition_pending
    Photos.scan_costume_item_photo Photos.validate_photo_filename is_empty trim_space
transition-photo = refl

transition-once_example :
    Photos.transition 1 photo_status_failed (text "late") 10 (with_photo ready_photo)
    ≡ err invalid_photo_status
transition-once_example =
    transition-once 1 photo_status_ready [] 9 (with_photo photo) (with_photo ready_photo)
      ready_photo photo_status_failed (text "late") 10 transition-photo

-- Texts are in the order of the table.
abbrev any_order : Text → Text → Bool
any_order s t = true

statuses-known : All (λ (i : CostumeItem). Items.known_status i.status ≡ true) with_hat.items
unfolding text_eq is_empty
statuses-known = (refl, tt)

list-AddsUp_example :
    (rows : List ItemTypeSummary) × (ItemTypeSummary.list any_order 1 with_hat
      ≡ ok (rows, with_hat))
    × All AddsUp rows
list-AddsUp_example = list-AddsUp any_order 1 with_hat statuses-known
