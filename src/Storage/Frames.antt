-- ===== src/Storage/Frames.antt =====
-- Which tables the statements that write leave alone.
use costume_tree.Common.{ℕ, ◌≡◌, ap, ok, Text, Option, none, some, arith}
use costume_tree.Storage.Models.{
  CreateActorInput, UpdateActorInput, CreateItemTypeInput, UpdateItemTypeInput,
  CreateCostumeItemPhotoInput, CostumeItemPhoto,
}
use costume_tree.Storage.Database.{Store, Query, fail}
use costume_tree.Storage.Lookups.{Reads-scan_photo}
use costume_tree.Storage.Productions.{insert_production, rename_productions, archive_productions}
use costume_tree.Storage.Actors.{insert_actor, change_actors, archive_actors}
use costume_tree.Storage.ItemTypes.{
  archive_item_types, insert_item_type, rename_item_types, restore_item_types,
}
use costume_tree.Storage.Photos.{insert_photo, not_pending, transition_row, transition_pending}

-- The items and the code sequences are the same.
abbrev pub SameItems : Store → Store → Type 0
SameItems s t = (t.items ≡ s.items) × (t.sequences ≡ s.sequences)

pub record KeepsItems {ℓ} {A : Type ℓ} (m : Query A) : Type ℓ where
  pub at : (s : Store) (a : A) (t : Store) → m s ≡ ok (a, t) → SameItems s t

pub insert_production-KeepsItems : (name : Text) (now : ℕ) → KeepsItems (insert_production name now)
unfolding insert_production
insert_production-KeepsItems name now = record { at = λ s a t e. ground arith }

pub rename_productions-KeepsItems :
    (id : ℕ) (name : Text) (now : ℕ) → KeepsItems (rename_productions id name now)
unfolding rename_productions
rename_productions-KeepsItems id name now = record { at = λ s a t e. ground arith }

pub archive_productions-KeepsItems : (id now : ℕ) → KeepsItems (archive_productions id now)
unfolding archive_productions
archive_productions-KeepsItems id now = record { at = λ s a t e. ground arith }

pub insert_actor-KeepsItems : (i : CreateActorInput) (now : ℕ) → KeepsItems (insert_actor i now)
unfolding insert_actor
insert_actor-KeepsItems i now = record { at = λ s a t e. ground arith }

pub change_actors-KeepsItems :
    (i : UpdateActorInput) (name : Text) (now : ℕ) → KeepsItems (change_actors i name now)
unfolding change_actors
change_actors-KeepsItems i name now = record { at = λ s a t e. ground arith }

pub archive_actors-KeepsItems : (p id now : ℕ) → KeepsItems (archive_actors p id now)
unfolding archive_actors
archive_actors-KeepsItems p id now = record { at = λ s a t e. ground arith }

pub archive_item_types-KeepsItems : (p id now : ℕ) → KeepsItems (archive_item_types p id now)
unfolding archive_item_types
archive_item_types-KeepsItems p id now = record { at = λ s a t e. ground arith }

pub insert_photo-KeepsItems :
    (i : CreateCostumeItemPhotoInput) (now : ℕ) → KeepsItems (insert_photo i now)
unfolding insert_photo
insert_photo-KeepsItems i now = record { at = λ s a t e. ground arith }

module _ (lower : Text → Text) where
  pub insert_item_type-KeepsItems :
      (i : CreateItemTypeInput) (now : ℕ) → KeepsItems (insert_item_type lower i now)
  unfolding insert_item_type
  insert_item_type-KeepsItems i now = record { at = λ s a t e. ground arith }

  pub rename_item_types-KeepsItems :
      (i : UpdateItemTypeInput) (name : Text) (now : ℕ)
      → KeepsItems (rename_item_types lower i name now)
  unfolding rename_item_types
  rename_item_types-KeepsItems i name now = record { at = λ s a t e. ground arith }

  pub restore_item_types-KeepsItems :
      (p id now : ℕ) → KeepsItems (restore_item_types lower p id now)
  unfolding restore_item_types
  restore_item_types-KeepsItems p id now = record { at = λ s a t e. ground arith }

pub not_pending-ne-ok :
    (o : Option CostumeItemPhoto) (s : Store) (a : CostumeItemPhoto) (t : Store)
    → ¬ (not_pending o s ≡ ok (a, t))
unfolding not_pending fail
not_pending-ne-ok none s a t = λ e. cc
not_pending-ne-ok (some p) s a t = λ e. cc

transition_row-SameItems :
    (id : ℕ) (status message : Text) (now : ℕ) (o : Option CostumeItemPhoto) (s : Store)
    (a : CostumeItemPhoto) (t : Store)
    → transition_row id status message now o s ≡ ok (a, t)
    → SameItems s t
unfolding transition_row
transition_row-SameItems id status message now (some p) s a t e =
    let same = (Reads-scan_photo _).same _ a t e in
    (ap (λ r. r.items) same, ap (λ r. r.sequences) same)
transition_row-SameItems id status message now none s a t e = absurd (not_pending-ne-ok _ s a t e)

pub transition_pending-KeepsItems :
    (id : ℕ) (status message : Text) (now : ℕ)
    → KeepsItems (transition_pending id status message now)
unfolding transition_pending
transition_pending-KeepsItems id status message now = record {
  at = λ s a t e. transition_row-SameItems id status message now _ s a t e;
}

pub ruleset frame_rules = (
  insert_production-KeepsItems, rename_productions-KeepsItems, archive_productions-KeepsItems,
  insert_actor-KeepsItems, change_actors-KeepsItems, archive_actors-KeepsItems,
  archive_item_types-KeepsItems, insert_photo-KeepsItems, insert_item_type-KeepsItems,
  rename_item_types-KeepsItems, restore_item_types-KeepsItems, transition_pending-KeepsItems,
)
