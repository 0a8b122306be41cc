-- ===== src/Web/CostumeItems.antt =====
-- The handlers that change costume items (internal/web/costume_items.go), from the ids and the form of
-- a readable POST on: what they check and what they ask of the repositories. The repositories and the
-- photo service are set. The pages that they render are not modelled; the photo of a form is a
-- parameter, and so is time.Parse.
pub mod Forms
pub mod Statuses
mod Tests
use costume_tree.Common.{
  ℕ, Bool, true, false, not, ◌&&◌, ◌||◌, Option, none, some, List, [], ◌∷◌, ◌++◌, ◌==◌, ltb, leb,
  if◌then◌else◌, Outcome, ok, err, and_then, Text, text, text_eq, is_empty, trim_space, ℤ, pos,
  negsuc, atoi,
}
use costume_tree.Storage.Models.{
  StoreError, archived, Production, Actor, ItemType, CostumeItem, CreateCostumeItemInput,
  UpdateCostumeItemInput, status_find, status_complete,
}
use costume_tree.Storage.Database.{Store, is_none}
use costume_tree.Storage.Productions
use costume_tree.Storage.Actors
use costume_tree.Storage.ItemTypes
use costume_tree.Storage.Items
use costume_tree.Storage.Items.{known_status, is_full}

-- The fields of a form that an error may name.
pub data Field : Type 0 where
  actor_field status_field progress_field item_type_field updated_at_field photo_field : Field

pub data WebError : Type 0 where
  repository : StoreError → WebError
  production_archived actor_archived item_not_found : WebError
  form_errors : List Field → WebError
  invalid_status changed_elsewhere : WebError

-- The values of a form; an id that is missing or no number is 0. Negative ids are not modelled.
pub record CostumeItemFormView : Type 0 where
  pub actor_id : ℕ
  pub item_type_id : ℕ
  pub description : Text
  pub status : Text
  pub progress : Text
  pub next_action : Text
  pub blocker : Text
  pub notes : Text
  pub updated_at : Text

-- What the file of a form answers: whether `Validate` accepts it, and what `Upload` makes of the
-- tables. A failure of `Upload` only changes the page.
pub record FormPhoto : Type 0 where
  pub valid : Bool
  pub upload : CostumeItem → Store → Store

-- A handler may have changed the tables before it fails.
abbrev pub Handled {ℓ} : Type ℓ → Type ℓ
Handled A = Outcome WebError A × Store

abbrev pub read_by {ℓ} : {A : Type ℓ} → Outcome StoreError (A × Store) → Outcome WebError A
read_by (ok (a, s)) = ok a
read_by (err e) = err (repository e)

infixl 5 ◌>>=◌ ◌>>◌
abbrev ◌>>=◌ {ℓ κ} :
    {A : Type ℓ} {B : Type κ} → Outcome WebError A → (A → Outcome WebError B) → Outcome WebError B
m >>= f = and_then m f

abbrev ◌>>◌ {ℓ} :
    {B : Type ℓ} → Outcome WebError (Unit {0}) → Outcome WebError B → Outcome WebError B
m >> k = and_then m (λ _. k)

abbrev pub check : Bool → WebError → Outcome WebError (Unit {0})
check true e = ok tt
check false e = err e

-- `scope` with repositories that are set
unfoldable pub scope : ℕ → ℕ → Store → Outcome WebError (Production × Actor)
scope production_id actor_id s = do
  production ← read_by (Productions.get production_id s)
  check (is_none production.archived_at) production_archived
  actor ← read_by (Actors.get production_id actor_id s)
  check (is_none actor.archived_at) actor_archived
  ok (production, actor)

unfoldable pub scoped_item : ℕ → ℕ → ℕ → Store → Outcome WebError (Production × Actor × CostumeItem)
unfolding scope
scoped_item production_id actor_id item_id s = do
  (production, actor) ← scope production_id actor_id s
  item ← read_by (Items.get production_id item_id s)
  check (item.production_id == production_id && item.actor_id == actor_id) item_not_found
  ok (production, actor, item)

-- `containsStatus`: the statuses of the list are those of the table's CHECK
abbrev pub contains_status : Text → Bool
contains_status status = known_status status

abbrev pub valid_progress : Option ℤ → Bool
valid_progress none = false
valid_progress (some (pos n)) = leb n 100
valid_progress (some (negsuc n)) = false

abbrev pub progress_or_zero : Option ℤ → ℤ
progress_or_zero (some (pos n)) = if leb n 100 then pos n else pos 0
progress_or_zero (some (negsuc n)) = pos 0
progress_or_zero none = pos 0

-- `progressText`
abbrev pub progress_text : Text → Text
progress_text s = if is_empty (trim_space s) then text "0" else trim_space s

-- The lookup of the item type: an error, or an archived type
abbrev pub is_active_type : Outcome StoreError (ItemType × Store) → Bool
is_active_type (ok (t, s)) = is_none t.archived_at
is_active_type (err e) = false

abbrev pub error_if : Bool → Field → List Field
error_if true f = f ∷ []
error_if false f = []

-- The input of `validateForm`
unfoldable pub form_input : Production → Actor → CostumeItemFormView → CreateCostumeItemInput
unfolding atoi trim_space is_empty
form_input production actor form = record {
  production_id = production.id;
  actor_id = actor.id;
  item_type_id = form.item_type_id;
  description = trim_space form.description;
  status = if is_empty (trim_space form.status) then status_find else trim_space form.status;
  progress = progress_or_zero (atoi (progress_text form.progress));
  next_action = trim_space form.next_action;
  blocker = trim_space form.blocker;
  notes = form.notes;
}

-- The fields with an error in `validateForm`, in the order of the tests; `progress` may stand twice
unfoldable pub form_field_errors : Production → Actor → CostumeItemFormView → Store → List Field
unfolding form_input
form_field_errors production actor form s =
    let input = form_input production actor form in
    error_if (not (form.actor_id == 0) && not (form.actor_id == actor.id)) actor_field
    ++ (error_if (not (contains_status input.status)) status_field
        ++ (error_if (not (valid_progress (atoi (progress_text form.progress)))) progress_field
            ++ (error_if (text_eq input.status status_complete && not (is_full input.progress))
                  progress_field
                ++ error_if
                    (input.item_type_id == 0
                      || not (is_active_type (ItemTypes.get production.id input.item_type_id s)))
                    item_type_field)))

-- `if photo != nil` before the write
abbrev pub photo_errors : Option FormPhoto → List Field
photo_errors none = []
photo_errors (some photo) = error_if (not photo.valid) photo_field

-- `len(model.Form.Errors) == 0`
abbrev pub accepted : List Field → Outcome WebError (Unit {0})
accepted [] = ok tt
accepted (f ∷ fs) = err (form_errors (f ∷ fs))

unfoldable pub checked_form :
    Production
    → Actor
    → CostumeItemFormView
    → Option FormPhoto
    → Store
    → Outcome WebError CreateCostumeItemInput
unfolding form_input form_field_errors
checked_form production actor form photo s = do
  accepted (form_field_errors production actor form s ++ photo_errors photo)
  ok (form_input production actor form)

-- The upload after the write
abbrev pub uploaded : Option FormPhoto → CostumeItem → Store → Store
uploaded none item s = s
uploaded (some photo) item s = photo.upload item s

abbrev pub written :
    Option FormPhoto → Store → Outcome StoreError (CostumeItem × Store) → Handled CostumeItem
written photo s (ok (item, t)) = (ok item, uploaded photo item t)
written photo s (err e) = (err (repository e), s)

abbrev pub then_write {ℓ} :
    {A : Type ℓ} → Outcome WebError A → (A → Handled CostumeItem) → Store → Handled CostumeItem
then_write (ok a) f s = f a
then_write (err e) f s = (err e, s)

-- `CreateCostumeItem` of a POST
unfoldable pub create_costume_item :
    ℕ → ℕ → CostumeItemFormView → Option FormPhoto → ℕ → Store → Handled CostumeItem
unfolding scope checked_form
create_costume_item production_id actor_id form photo now s =
    then_write
      (do
        (production, actor) ← scope production_id actor_id s
        checked_form production actor form photo s)
      (λ input. written photo s (Items.create input now s)) s

module _ (parse_time : Text → Option ℕ) where
  -- `sameTimestamp`
  abbrev pub same_timestamp : Option ℕ → ℕ → Bool
  same_timestamp none expected = false
  same_timestamp (some t) expected = t == expected

  -- The form was made from this row
  abbrev pub is_current : Text → CostumeItem → Bool
  is_current updated_at item =
      not (is_empty updated_at) && same_timestamp (parse_time updated_at) item.updated_at

  abbrev pub update_of : ℕ → CostumeItem → Actor → CreateCostumeItemInput → UpdateCostumeItemInput
  update_of production_id item actor input = record {
    production_id = production_id;
    id = item.id;
    actor_id = actor.id;
    item_type_id = input.item_type_id;
    description = input.description;
    status = input.status;
    progress = input.progress;
    next_action = input.next_action;
    blocker = input.blocker;
    notes = input.notes;
    expected_updated_at = some item.updated_at;
  }

  -- The form's `updated_at`, or else its `updatedAt`
  unfoldable pub edited_at : CostumeItemFormView → Text → Text
  unfolding is_empty
  edited_at form other = if is_empty form.updated_at then other else form.updated_at

  -- `EditCostumeItem` of a POST
  unfoldable pub edit_costume_item :
      ℕ → ℕ → ℕ → CostumeItemFormView → Text → Option FormPhoto → ℕ → Store → Handled CostumeItem
  unfolding scoped_item checked_form edited_at
  edit_costume_item production_id actor_id item_id form other photo now s =
      then_write
        (do
          (production, actor, item) ← scoped_item production_id actor_id item_id s
          check (is_none item.archived_at) (repository archived)
          check (is_current (edited_at form other) item) (form_errors (updated_at_field ∷ []))
          input ← checked_form production actor form photo s
          ok (update_of production_id item actor input))
        (λ input. written photo s (Items.update input now s)) s

  -- The update of `UpdateCostumeItemStatus`: the row with another status
  abbrev pub status_update : ℕ → CostumeItem → Actor → Text → UpdateCostumeItemInput
  status_update production_id item actor status = record {
    production_id = production_id;
    id = item.id;
    actor_id = actor.id;
    item_type_id = item.item_type_id;
    description = item.description;
    status = status;
    progress = if text_eq status status_complete then pos 100 else item.progress;
    next_action = item.next_action;
    blocker = item.blocker;
    notes = item.notes;
    expected_updated_at = some item.updated_at;
  }

  -- `UpdateCostumeItemStatus` of a POST
  unfoldable pub update_costume_item_status :
      ℕ → ℕ → ℕ → Text → Text → ℕ → Store → Handled CostumeItem
  unfolding scoped_item
  update_costume_item_status production_id actor_id item_id status updated_at now s =
      then_write
        (do
          (production, actor, item) ← scoped_item production_id actor_id item_id s
          check (is_none item.archived_at) (repository archived)
          check (contains_status (trim_space status)) invalid_status
          check (is_current (trim_space updated_at) item) changed_elsewhere
          ok (status_update production_id item actor (trim_space status)))
        (λ input. written none s (Items.update input now s)) s
