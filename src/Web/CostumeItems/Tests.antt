-- ===== src/Web/CostumeItems/Tests.antt =====
-- A form that is accepted, and a change of a status.
use costume_tree.Common.{
  storable, ℕ, ◌≡◌, refl, true, Option, none, some, List, [], ◌∷◌, ok, Text, text, text_eq,
  is_empty, trim_space, pos, arith, find?, if◌then◌else◌,
}
use costume_tree.Storage.Models.{
  Production, Actor, CostumeItem, CreateCostumeItemInput, status_find, status_fit, status_complete,
}
use costume_tree.Storage.Database
use costume_tree.Storage.Database.{Store, Sequence, is_item}
use costume_tree.Storage.Productions
use costume_tree.Storage.Actors
use costume_tree.Storage.ItemTypes
use costume_tree.Storage.Items
use costume_tree.Storage.Items.{known_status}
use costume_tree.Storage.Items.Creation.{created_item, with_created}
use costume_tree.Web.CostumeItems.{
  CostumeItemFormView, scope, checked_form, uploaded, create_costume_item, is_current,
  update_costume_item_status,
}
use costume_tree.Web.CostumeItems.Forms.{are_texts, IsOfForm, create_costume_item-succeeds}
use costume_tree.Web.CostumeItems.Statuses.{IsChanged, update_costume_item_status-IsStatusChange}

abbrev show : Production
show = record { id = 1; name = text "Show"; archived_at = none; created_at = 1; updated_at = 1 }

abbrev ann : Actor
ann = record {
  id = 1;
  production_id = 1;
  name = text "Ann";
  role = [];
  notes = [];
  archived_at = none;
  created_at = 2;
  updated_at = 2;
}

abbrev tables : List CostumeItem → List Sequence → Store
tables items sequences = record {
  productions = show ∷ [];
  actors = ann ∷ [];
  item_types =
      record {
        id = 1;
        production_id = 1;
        name = text "Hat";
        archived_at = none;
        created_at = 3;
        updated_at = 3;
      }
      ∷ [];
  sequences = sequences;
  items = items;
  photos = [];
  next_production = 2;
  next_actor = 2;
  next_item_type = 2;
  next_item = 8;
  next_photo = 1;
}

abbrev form : CostumeItemFormView
form = record {
  actor_id = 1;
  item_type_id = 1;
  description = text " Red ";
  status = text "Fit";
  progress = text "40";
  next_action = [];
  blocker = [];
  notes = [];
  updated_at = [];
}

abbrev input : CreateCostumeItemInput
input = record {
  production_id = 1;
  actor_id = 1;
  item_type_id = 1;
  description = text "Red";
  status = status_fit;
  progress = pos 40;
  next_action = [];
  blocker = [];
  notes = [];
}

scope-show : scope 1 1 (tables [] []) ≡ ok (show, ann)
unfolding scope Productions.get Actors.get Database.found
scope-show = refl

checked_form-form : checked_form show ann form none (tables [] []) ≡ ok input
unfolding checked_form ItemTypes.get Database.found text_eq
checked_form-form = refl

input-texts : are_texts input ≡ true
unfolding storable
input-texts = refl

create_costume_item-succeeds_example :
    IsOfForm show ann form input
    × (qs : List Sequence) × (create_costume_item 1 1 form none 9 (tables [] []) ≡ (
      ok (created_item input 9 (tables [] [])),
      uploaded none (created_item input 9 (tables [] [])) (with_created input 9 qs (tables [] [])),
    ))
create_costume_item-succeeds_example =
    create_costume_item-succeeds 1 1 form none 9 (tables [] []) show ann input scope-show
      checked_form-form input-texts (record { given = tt; distinct = tt }) tt (omega arith)

abbrev hat : CostumeItem
hat = record {
  id = 7;
  production_id = 1;
  actor_id = 1;
  item_type_id = 1;
  code = text "C-0001";
  description = [];
  status = status_find;
  progress = pos 0;
  next_action = [];
  blocker = [];
  notes = [];
  archived_at = none;
  created_at = 4;
  updated_at = 4;
}

abbrev finished_hat : CostumeItem
finished_hat = record hat { status = status_complete; progress = pos 100; updated_at = 9 }

-- The time of the form's row
abbrev parse_time : Text → Option ℕ
parse_time s = some 4

abbrev with_hat : Store
with_hat = tables (hat ∷ []) (record { production_id = 1; next_value = 1 } ∷ [])

abbrev with_finished_hat : Store
with_finished_hat = tables (finished_hat ∷ []) (record { production_id = 1; next_value = 1 } ∷ [])

status-hat :
    update_costume_item_status parse_time 1 1 7 (text "Complete") (text "4") 9 with_hat
    ≡ (ok finished_hat, with_finished_hat)
unfolding update_costume_item_status Productions.get Database.found Actors.get Items.get text_eq
    trim_space is_empty Items.update Database.◌>>=◌ Database.ensure_production Database.ensure_actor
    Database.ensure_item_type Items.change_items Database.some_affected storable
status-hat = refl

update_costume_item_status-IsStatusChange_example :
    (old : CostumeItem) × (find? (is_item 1 7) with_hat.items ≡ some old)
    × (old.archived_at ≡ none)
    × (is_current parse_time (trim_space (text "4")) old ≡ true)
    × (known_status (trim_space (text "Complete")) ≡ true)
    × (finished_hat ≡ record old {
      status = trim_space (text "Complete");
      progress =
          if text_eq (trim_space (text "Complete")) status_complete then pos 100 else old.progress;
      updated_at = 9;
    })
    × IsChanged 1 7 finished_hat with_hat with_finished_hat
update_costume_item_status-IsStatusChange_example =
    update_costume_item_status-IsStatusChange parse_time 1 1 7 (text "Complete") (text "4") 9
      with_hat with_finished_hat finished_hat status-hat
