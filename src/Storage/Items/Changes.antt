-- ===== src/Storage/Items/Changes.antt =====
-- `Update` and `Archive` of costume items, internal/storage/repositories.go.
use costume_tree.Common.{
  ℕ, ◌≡◌, refl, sym, ap, ◌∙◌, subst, inl, inr, true, false, not, ◌&&◌, ◌||◌, ◌==◌, Option, none,
  some, ok, arith, ltb, find?, find?-update_where, update_where, count_where, Bool-cases,
}
use mathlib.Core.Option
use costume_tree.Storage.Models.{CostumeItem, UpdateCostumeItemInput, costume_item, Kind}
use costume_tree.Storage.Database.{
  Store, is_item, found, fail, pure, guard, some_affected, coalesce, ensure_production,
  ensure_actor, ensure_item_type,
}
use costume_tree.Storage.Keeps.{
  >>=-eq-ok, Reads-ensure_production, Reads-ensure_actor, Reads-ensure_item_type,
}
use costume_tree.Storage.Items.{
  texts_storable, with_input, change_items, update, archive_item_row, archive_items, archive, get,
  workflow_ok, references_ok,
}

found-ok {ℓ} :
    {A : Type ℓ} (k : Kind) (o : Option A) (s t : Store) (a : A)
    → found k o s ≡ ok (a, t)
    → (o ≡ some a) × (t ≡ s)
unfolding found fail pure
found-ok k none s t a e = cc
found-ok k (some b) s t a e = let same : b ≡ a = cc in (ap some same, cc)

-- The row after an update, column by column.
abbrev pub updated_item : UpdateCostumeItemInput → ℕ → CostumeItem → CostumeItem
updated_item input now old = record {
  id = old.id;
  production_id = old.production_id;
  actor_id = input.actor_id;
  item_type_id = input.item_type_id;
  code = old.code;
  description = input.description;
  status = input.status;
  progress = input.progress;
  next_action = input.next_action;
  blocker = input.blocker;
  notes = input.notes;
  archived_at = old.archived_at;
  created_at = old.created_at;
  updated_at = now;
}

-- What an update that succeeds has done, at a row that was there.
pub record IsUpdated (input : UpdateCostumeItemInput) (now : ℕ) (s t : Store) (item : CostumeItem)
    : Type 0 where
  pub old : CostumeItem
  pub was_there : find? (is_item input.production_id input.id) s.items ≡ some old
  pub result : item ≡ updated_item input now old
  pub tables : t ≡ record s {
    items = update_where (is_item input.production_id input.id) (updated_item input now) s.items;
  }
  pub workflow : workflow_ok input.status input.progress ≡ true
  pub references : references_ok input.production_id input.actor_id input.item_type_id s ≡ true

change_items-ok :
    (input : UpdateCostumeItemInput) (now : ℕ) (s t : Store) (count : ℕ)
    → change_items input now s ≡ ok (count, t)
    → (count ≡ count_where (is_item input.production_id input.id) s.items)
      × (t ≡ record s {
        items = update_where (is_item input.production_id input.id) (with_input input now) s.items;
      })
      × ((not (
              texts_storable input.description input.status input.next_action input.blocker
                input.notes)
            || (ltb 0 (count_where (is_item input.production_id input.id) s.items)
                && not (
                    workflow_ok input.status input.progress
                    && references_ok input.production_id input.actor_id input.item_type_id s)))
          ≡ false)
unfolding change_items
change_items-ok input now s t count e =
    elim (Bool-cases (
      not
        (texts_storable input.description input.status input.next_action input.blocker input.notes)
      || (ltb 0 (count_where (is_item input.production_id input.id) s.items)
          && not (
              workflow_ok input.status input.progress
              && references_ok input.production_id input.actor_id input.item_type_id s)))) [
                | inl h ↦ let no = rw h at e in cc
                | inr h ↦ let made = rw h at e in (cc, cc, h)
              ]

some_affected-ok :
    (k : Kind) (count : ℕ) (s t : Store)
    → some_affected k count s ≡ ok (tt, t)
    → (ltb 0 count ≡ true) × (t ≡ s)
unfolding some_affected guard fail pure
some_affected-ok k count s t e = elim (Bool-cases (count == 0)) [
  | inl h ↦ let no = rw h at e in cc
  | inr h ↦ let yes' = rw h at e in (ground arith, cc)
]

-- The row that an update finds is the old one, changed.
map-some :
    (f : CostumeItem → CostumeItem) (o : Option CostumeItem) (i : CostumeItem)
    → Option.map f o ≡ some i
    → (old : CostumeItem) × (o ≡ some old) × (i ≡ f old)
map-some f none i e = cc
map-some f (some old) i e = (old, refl, cc)

get-changed :
    (p id : ℕ) (f : CostumeItem → CostumeItem) (s r t : Store) (item : CostumeItem)
    → ((i : CostumeItem) → is_item p id (f i) ≡ is_item p id i)
    → r.items ≡ update_where (is_item p id) f s.items
    → get p id r ≡ ok (item, t)
    → (t ≡ r) × (old : CostumeItem) × (find? (is_item p id) s.items ≡ some old) × (item ≡ f old)
unfolding get
get-changed p id f s r t item keeps items e =
    let (there, same) = found-ok costume_item (find? (is_item p id) r.items) r t item e in
    let mapped : Option.map f (find? (is_item p id) s.items) ≡ some item =
      sym (ap (find? (is_item p id)) items ∙ find?-update_where (is_item p id) f s.items keeps)
      ∙ there in
    let (old, was_there, result) = map-some f _ item mapped in (same, old, was_there, result)

-- An update that succeeds has found the item in its production, has set the columns of the input
-- and the time and no other (the code, the creation and the archive time stay), both in the item
-- returned and in the rows of that id, and changes no other row and no other table. The new status and progress satisfy the table's checks, and the actor and the item
-- type are of the same production.
pub update-IsUpdated :
    (input : UpdateCostumeItemInput) (now : ℕ) (s t : Store) (item : CostumeItem)
    → update input now s ≡ ok (item, t)
    → IsUpdated input now s t item
unfolding update
update-IsUpdated input now s t item e =
    let p = input.production_id in
    let (u₁, s₁, e₁, f₁) = >>=-eq-ok (ensure_production p) _ s e in
    let (u₂, s₂, e₂, f₂) = >>=-eq-ok (ensure_actor p input.actor_id) _ s₁ f₁ in
    let (u₃, s₃, e₃, f₃) = >>=-eq-ok (ensure_item_type p input.item_type_id) _ s₂ f₂ in
    let (count, r, e₄, f₄) = >>=-eq-ok (change_items input now) _ s₃ f₃ in
    let (u₅, r', e₅, f₅) = >>=-eq-ok (some_affected costume_item count) _ r f₄ in
    let here : s₃ ≡ s =
      (Reads-ensure_item_type p input.item_type_id).same s₂ u₃ s₃ e₃
      ∙ (Reads-ensure_actor p input.actor_id).same s₁ u₂ s₂ e₂
      ∙ (Reads-ensure_production p).same s u₁ s₁ e₁ in
    let (counted, changed, checked) =
      change_items-ok input now s r count
        (subst (λ x. change_items input now x ≡ ok (count, r)) here e₄) in
    let (positive, same) = some_affected-ok costume_item count r r' e₅ in
    let items : r'.items ≡ update_where (is_item p input.id) (with_input input now) s.items =
      ap (λ x. x.items) (same ∙ changed) in
    let (same', old, was_there, result) =
      get-changed p input.id (with_input input now) s r' t item (λ i. refl) items f₅ in
    let some_there : ltb 0 (count_where (is_item p input.id) s.items) ≡ true =
      subst (λ n. ltb 0 n ≡ true) counted positive in
    record {
      old = old;
      was_there = was_there;
      result = result;
      tables = same' ∙ same ∙ changed;
      workflow = ground arith;
      references = ground arith;
    }

-- What an archival that succeeds has done.
archive-ok :
    (p id now : ℕ) (s t : Store)
    → archive p id now s ≡ ok (tt, t)
    → t.items ≡ update_where (is_item p id) (archive_item_row now) s.items
unfolding archive archive_items
archive-ok p id now s t e =
    let (count, r, e₁, e₂) = >>=-eq-ok (archive_items p id now) _ s e in
    let (positive, same) = some_affected-ok costume_item count r t e₂ in
    let made : r.items ≡ update_where (is_item p id) (archive_item_row now) s.items = cc in
    ap (λ x. x.items) same ∙ made

-- The time of archival of the item, if it is there.
abbrev pub archive_time : ℕ → ℕ → Store → Option (Option ℕ)
archive_time p id s = Option.map (λ (i : CostumeItem). i.archived_at) (find? (is_item p id) s.items)

archive-archive_time :
    (p id now : ℕ) (s t : Store)
    → archive p id now s ≡ ok (tt, t)
    → archive_time p id t ≡ Option.map (λ time. coalesce time now) (archive_time p id s)
archive-archive_time p id now s t e =
    ap (Option.map (λ (i : CostumeItem). i.archived_at)) (
      ap (find? (is_item p id)) (archive-ok p id now s t e)
      ∙ find?-update_where (is_item p id) (archive_item_row now) s.items (λ i. refl))
    ∙ mapped (find? (is_item p id) s.items)
  where
    mapped :
        (o : Option CostumeItem)
        → Option.map (λ (i : CostumeItem). i.archived_at) (Option.map (archive_item_row now) o)
          ≡ Option.map
              (λ time. coalesce time now)
              (Option.map (λ (i : CostumeItem). i.archived_at) o)
    mapped none = refl
    mapped (some i) = refl

coalesce_twice :
    (o : Option (Option ℕ)) (now later : ℕ)
    → Option.map (λ time. coalesce time later) (Option.map (λ time. coalesce time now) o)
      ≡ Option.map (λ time. coalesce time now) o
coalesce_twice none now later = refl
coalesce_twice (some none) now later = refl
coalesce_twice (some (some time)) now later = refl

-- Archiving an item that has been archived keeps the first time of archival: after two archivals
-- that succeed, the item has the time that it had after the first.
pub archive-archive :
    (p id now later : ℕ) (s t u : Store)
    → archive p id now s ≡ ok (tt, t)
    → archive p id later t ≡ ok (tt, u)
    → archive_time p id u ≡ archive_time p id t
archive-archive p id now later s t u e f =
    let first = archive-archive_time p id now s t e in
    archive-archive_time p id later t u f
    ∙ ap (Option.map (λ time. coalesce time later)) first
    ∙ coalesce_twice (archive_time p id s) now later
    ∙ sym first
