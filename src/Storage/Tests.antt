-- ===== src/Storage/Tests.antt =====
-- Runs of the repositories of internal/storage on small tables.
use costume_tree.Common.{
  storable, ◌≡◌, refl, ap, arith, none, List, [], ◌∷◌, ok, Text, text, text_eq, is_empty,
  trim_space, sql_trim, pos, pad_four, decimal,
}
use costume_tree.Storage.Models.{CostumeItem, CreateCostumeItemInput}
use costume_tree.Storage.Database
use costume_tree.Storage.Database.{Sequence, Store}
use costume_tree.Storage.Productions
use costume_tree.Storage.Items
use costume_tree.Storage.Codes.{CodesAreValid}
use costume_tree.Storage.Steps
use costume_tree.Storage.Actors
use costume_tree.Storage.ItemTypes
use costume_tree.Storage.Steps.{
  Reach, fresh, next, create_production, create_actor, create_item_type, create_item, step,
  empty_store,
}
use costume_tree.Storage.Steps.Codes.{Reach-CodesAreValid}
use costume_tree.Storage.Items.Creation.{CanCreate, created_item, with_created, create-succeeds}

abbrev pub same_case : Text → Text
same_case s = s

-- A production, an actor and an item type.
abbrev pub wardrobe : Store
wardrobe = record empty_store {
  productions =
      record { id = 1; name = text "Show"; archived_at = none; created_at = 1; updated_at = 1 }
      ∷ [];
  actors =
      record {
        id = 1;
        production_id = 1;
        name = text "Ann";
        role = [];
        notes = [];
        archived_at = none;
        created_at = 2;
        updated_at = 2;
      }
      ∷ [];
  item_types =
      record {
        id = 1;
        production_id = 1;
        name = text "Hat";
        archived_at = none;
        created_at = 3;
        updated_at = 3;
      }
      ∷ [];
  next_production = 2;
  next_actor = 2;
  next_item_type = 2;
}

abbrev pub hat_input : CreateCostumeItemInput
hat_input = record {
  production_id = 1;
  actor_id = 1;
  item_type_id = 1;
  description = text "Red";
  status = [];
  progress = pos 0;
  next_action = [];
  blocker = [];
  notes = [];
}

wardrobe-CanCreate : CanCreate hat_input wardrobe
unfolding is_empty text_eq storable
wardrobe-CanCreate = record {
  p = record { id = 1; name = text "Show"; archived_at = none; created_at = 1; updated_at = 1 };
  production_found = refl;
  production_active = refl;
  a = record {
    id = 1;
    production_id = 1;
    name = text "Ann";
    role = [];
    notes = [];
    archived_at = none;
    created_at = 2;
    updated_at = 2;
  };
  actor_found = refl;
  actor_active = refl;
  t = record {
    id = 1;
    production_id = 1;
    name = text "Hat";
    archived_at = none;
    created_at = 3;
    updated_at = 3;
  };
  type_found = refl;
  type_active = refl;
  texts = refl;
  workflow = refl;
  codes = record { given = tt; distinct = tt };
  ids = tt;
  sequence_left = omega arith;
}

create-succeeds_example :
    (qs : List Sequence) × (Items.create hat_input 4 wardrobe
      ≡ ok (created_item hat_input 4 wardrobe, with_created hat_input 4 qs wardrobe))
create-succeeds_example = create-succeeds hat_input 4 wardrobe wardrobe-CanCreate

-- The store after "Show" and its actor and type have been created, and an item.
abbrev pub one_sequence : List Sequence
one_sequence = record { production_id = 1; next_value = 1 } ∷ []

abbrev pub hat : CostumeItem
hat = created_item hat_input 4 wardrobe

abbrev pub with_hat : Store
with_hat = with_created hat_input 4 one_sequence wardrobe

create-hat : Items.create hat_input 4 wardrobe ≡ ok (hat, with_hat)
unfolding Items.create Database.◌>>=◌ Database.ensure_production Database.ensure_actor
    Database.ensure_item_type Items.allocate_code_tx Items.next_code_value Items.insert_item
    is_empty sql_trim Items.format_code pad_four decimal text_eq Items.get Database.found storable
create-hat = refl

abbrev with_show : Store
with_show = record empty_store { productions = wardrobe.productions; next_production = 2 }

abbrev with_ann : Store
with_ann = record with_show { actors = wardrobe.actors; next_actor = 2 }

create-show : step same_case (create_production (text " Show ")) 1 empty_store ≡ ok with_show
unfolding step Productions.create Database.◌>>=◌ Database.guard is_empty trim_space
    Productions.insert_production sql_trim Productions.get Database.found storable
create-show = refl

create-ann :
    step same_case
      (create_actor (record { production_id = 1; name = text "Ann"; role = []; notes = [] }))
      2
      with_show
    ≡ ok with_ann
unfolding step Actors.create Database.◌>>=◌ Database.guard is_empty trim_space
    Database.ensure_production Actors.insert_actor sql_trim Actors.get Database.found storable
create-ann = refl

create-hats :
    step same_case (create_item_type (record { production_id = 1; name = text "Hat" })) 3 with_ann
    ≡ ok wardrobe
unfolding step ItemTypes.create Database.◌>>=◌ Database.guard is_empty trim_space
    Database.ensure_production ItemTypes.insert_item_type sql_trim ItemTypes.get Database.found
    storable
create-hats = refl

create-hat_step : step same_case (create_item hat_input) 4 wardrobe ≡ ok with_hat
unfolding step
create-hat_step = ap Steps.tables create-hat

Reach-hat : Reach same_case with_hat
Reach-hat =
    next (create_item hat_input) 4
      (next (create_item_type (record { production_id = 1; name = text "Hat" })) 3
        (next
          (create_actor (record { production_id = 1; name = text "Ann"; role = []; notes = [] })) 2
          (next (create_production (text " Show ")) 1 fresh create-show) create-ann)
        create-hats)
      create-hat_step

Reach-CodesAreValid_example : CodesAreValid with_hat.items with_hat.sequences
Reach-CodesAreValid_example = Reach-CodesAreValid same_case with_hat Reach-hat
