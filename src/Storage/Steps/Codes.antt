-- ===== src/Storage/Steps/Codes.antt =====
-- The codes stay valid in every store that the repositories' writes reach.
use costume_tree.Common.{ℕ, ◌≡◌, sym, ap, ◌∙◌, subst, inl, inr, ok, Text, Outcome-cases}
use costume_tree.Storage.Models.{
  UpdateProductionInput, CreateActorInput, UpdateActorInput, CreateItemTypeInput,
  UpdateItemTypeInput, CreateCostumeItemInput, UpdateCostumeItemInput, CreateCostumeItemPhotoInput,
}
use costume_tree.Storage.Database.{
  Store, Query, pure, ◌>>=◌, ensure_production, ensure_actor, ensure_item_type,
}
use costume_tree.Storage.Keeps.{
  Keeps, Keeps-bind, Keeps-Reads, >>=-eq-ok, Reads-ensure_production, Reads-ensure_actor,
  Reads-ensure_item_type,
}
use costume_tree.Storage.Lookups.{lookup_rules, Reads-get_item}
use costume_tree.Storage.Frames.{frame_rules}
use costume_tree.Storage.Codes.{
  CodeInv, CodesAreValid, IsNextValue, Keeps-KeepsItems, change_items-CodeInv,
  archive_items-CodeInv, next_code_value-IsNextValue, next_code_value-CodeInv, insert_item-CodeInv,
}
use costume_tree.Storage.Productions
use costume_tree.Storage.Actors
use costume_tree.Storage.ItemTypes
use costume_tree.Storage.Items
use costume_tree.Storage.Photos
use costume_tree.Storage.Steps.{
  tables, Op, create_production, update_production, archive_production, create_actor, update_actor,
  archive_actor, create_item_type, update_item_type, archive_item_type, restore_item_type,
  allocate_code, create_item, update_item, archive_item, create_photo, mark_ready, mark_failed,
  step, Reach, fresh, next,
}

ruleset code_rules = (lookup_rules, Keeps-KeepsItems, frame_rules)

create_production-CodeInv : (name : Text) (now : ℕ) → Keeps CodeInv (Productions.create name now)
unfolding Productions.create
create_production-CodeInv name now = search code_rules depth 9

update_production-CodeInv :
    (input : UpdateProductionInput) (now : ℕ) → Keeps CodeInv (Productions.update input now)
unfolding Productions.update
update_production-CodeInv input now = search code_rules depth 9

archive_production-CodeInv : (id now : ℕ) → Keeps CodeInv (Productions.archive id now)
unfolding Productions.archive
archive_production-CodeInv id now = search code_rules depth 9

create_actor-CodeInv :
    (input : CreateActorInput) (now : ℕ) → Keeps CodeInv (Actors.create input now)
unfolding Actors.create
create_actor-CodeInv input now = search code_rules depth 9

update_actor-CodeInv :
    (input : UpdateActorInput) (now : ℕ) → Keeps CodeInv (Actors.update input now)
unfolding Actors.update
update_actor-CodeInv input now = search code_rules depth 9

archive_actor-CodeInv : (p id now : ℕ) → Keeps CodeInv (Actors.archive p id now)
unfolding Actors.archive
archive_actor-CodeInv p id now = search code_rules depth 9

create_item_type-CodeInv :
    (lower : Text → Text) (input : CreateItemTypeInput) (now : ℕ)
    → Keeps CodeInv (ItemTypes.create lower input now)
unfolding ItemTypes.create
create_item_type-CodeInv lower input now = search code_rules depth 9

update_item_type-CodeInv :
    (lower : Text → Text) (input : UpdateItemTypeInput) (now : ℕ)
    → Keeps CodeInv (ItemTypes.update lower input now)
unfolding ItemTypes.update
update_item_type-CodeInv lower input now = search code_rules depth 9

archive_item_type-CodeInv : (p id now : ℕ) → Keeps CodeInv (ItemTypes.archive p id now)
unfolding ItemTypes.archive
archive_item_type-CodeInv p id now = search code_rules depth 9

restore_item_type-CodeInv :
    (lower : Text → Text) (p id now : ℕ) → Keeps CodeInv (ItemTypes.restore lower p id now)
unfolding ItemTypes.restore
restore_item_type-CodeInv lower p id now = search code_rules depth 9

update_item-CodeInv :
    (input : UpdateCostumeItemInput) (now : ℕ) → Keeps CodeInv (Items.update input now)
unfolding Items.update
update_item-CodeInv input now = search (code_rules, change_items-CodeInv) depth 9

archive_item-CodeInv : (p id now : ℕ) → Keeps CodeInv (Items.archive p id now)
unfolding Items.archive
archive_item-CodeInv p id now = search (code_rules, archive_items-CodeInv)

create_photo-CodeInv :
    (input : CreateCostumeItemPhotoInput) (now : ℕ) → Keeps CodeInv (Photos.create input now)
unfolding Photos.create
create_photo-CodeInv input now = search code_rules depth 9

transition-CodeInv :
    (id : ℕ) (status message : Text) (now : ℕ)
    → Keeps CodeInv (Photos.transition id status message now)
unfolding Photos.transition
transition-CodeInv id status message now = search code_rules depth 9

mark_ready-CodeInv : (id now : ℕ) → Keeps CodeInv (Photos.mark_ready id now)
unfolding Photos.mark_ready
mark_ready-CodeInv id now = transition-CodeInv id _ _ now

mark_failed-CodeInv :
    (id : ℕ) (message : Text) (now : ℕ) → Keeps CodeInv (Photos.mark_failed id message now)
unfolding Photos.mark_failed
mark_failed-CodeInv id message now = transition-CodeInv id _ _ now

-- What an allocation gives: the code of the next value, and the sequence moved on to it.
pub allocate_code_tx-IsNextValue :
    (p : ℕ) (s : Store) (code : Text) (t : Store)
    → Items.allocate_code_tx p s ≡ ok (code, t)
    → (value : ℕ) × (code ≡ Items.format_code value) × IsNextValue p s value t
unfolding Items.allocate_code_tx pure
allocate_code_tx-IsNextValue p s code t e =
    let (u, r, e₁, e₂) = >>=-eq-ok (ensure_production p) _ s e in
    let (value, r', e₃, e₄) = >>=-eq-ok (Items.next_code_value p) _ r e₂ in
    let same = (Reads-ensure_production p).same s u r e₁ in
    (
      value,
      cc,
      subst (λ x. IsNextValue p s value x) (cc)
          (next_code_value-IsNextValue p s value r' (ap (Items.next_code_value p) (sym same) ∙ e₃)),
    )

allocate_code-CodeInv : (p : ℕ) → Keeps CodeInv (Items.allocate_code p)
unfolding Items.allocate_code
allocate_code-CodeInv p = record {
  at = λ s code t h e.
      let (value, c, n) = allocate_code_tx-IsNextValue p s code t e in
      next_code_value-CodeInv p s value t h n;
}

-- An allocation and the insertion of an item with its code.
allocate_and_insert-CodeInv :
    (input : CreateCostumeItemInput) (now : ℕ)
    → Keeps CodeInv (do
      code ← Items.allocate_code_tx input.production_id
      id ← Items.insert_item input code now
      Items.get input.production_id id)
allocate_and_insert-CodeInv input now = record {
  at = λ s a t h e.
      let (code, r, e₁, e₂) = >>=-eq-ok (Items.allocate_code_tx input.production_id) _ s e in
      let (value, c, n) = allocate_code_tx-IsNextValue input.production_id s code r e₁ in
      let (id, r', e₃, e₄) = >>=-eq-ok (Items.insert_item input code now) _ r e₂ in
      subst CodeInv (sym ((Reads-get_item input.production_id id).same r' a t e₄)) (
        insert_item-CodeInv input now value s r id r' h n
          (ap (λ x. Items.insert_item input x now r) (sym c) ∙ e₃));
}

create_item-CodeInv :
    (input : CreateCostumeItemInput) (now : ℕ) → Keeps CodeInv (Items.create input now)
unfolding Items.create
create_item-CodeInv input now =
    let kept =
      allocate_and_insert-CodeInv (record input { status = Items.or_find input.status }) now in
    let p = input.production_id in
    Keeps-bind (ensure_production p) _ (Keeps-Reads _ (Reads-ensure_production p)) (λ _.
      Keeps-bind (ensure_actor p input.actor_id) _
        (Keeps-Reads _ (Reads-ensure_actor p input.actor_id))
        (λ _.
          Keeps-bind (ensure_item_type p input.item_type_id) _
            (Keeps-Reads _ (Reads-ensure_item_type p input.item_type_id)) (λ _. kept)))

module _ {A : Type 0} where
  tables-CodeInv :
      (m : Query A) (s t : Store) → Keeps CodeInv m → CodeInv s → tables (m s) ≡ ok t → CodeInv t
  tables-CodeInv m s t k h e = elim (Outcome-cases (m s)) [
    | inl ((a, r), o) ↦ let same : r ≡ t = cc in subst CodeInv same (k.at s a r h o)
    | inr (x, o) ↦ cc
  ]

-- A step that succeeds keeps the codes valid.
pub step-CodeInv :
    (lower : Text → Text) (op : Op) (now : ℕ) (s t : Store)
    → CodeInv s
    → step lower op now s ≡ ok t
    → CodeInv t
unfolding step
step-CodeInv lower (create_production name) now s t =
    tables-CodeInv _ s t (create_production-CodeInv name now)
step-CodeInv lower (update_production input) now s t =
    tables-CodeInv _ s t (update_production-CodeInv input now)
step-CodeInv lower (archive_production id) now s t =
    tables-CodeInv _ s t (archive_production-CodeInv id now)
step-CodeInv lower (create_actor input) now s t =
    tables-CodeInv _ s t (create_actor-CodeInv input now)
step-CodeInv lower (update_actor input) now s t =
    tables-CodeInv _ s t (update_actor-CodeInv input now)
step-CodeInv lower (archive_actor p id) now s t =
    tables-CodeInv _ s t (archive_actor-CodeInv p id now)
step-CodeInv lower (create_item_type input) now s t =
    tables-CodeInv _ s t (create_item_type-CodeInv lower input now)
step-CodeInv lower (update_item_type input) now s t =
    tables-CodeInv _ s t (update_item_type-CodeInv lower input now)
step-CodeInv lower (archive_item_type p id) now s t =
    tables-CodeInv _ s t (archive_item_type-CodeInv p id now)
step-CodeInv lower (restore_item_type p id) now s t =
    tables-CodeInv _ s t (restore_item_type-CodeInv lower p id now)
step-CodeInv lower (allocate_code p) now s t = tables-CodeInv _ s t (allocate_code-CodeInv p)
step-CodeInv lower (create_item input) now s t =
    tables-CodeInv _ s t (create_item-CodeInv input now)
step-CodeInv lower (update_item input) now s t =
    tables-CodeInv _ s t (update_item-CodeInv input now)
step-CodeInv lower (archive_item p id) now s t =
    tables-CodeInv _ s t (archive_item-CodeInv p id now)
step-CodeInv lower (create_photo input) now s t =
    tables-CodeInv _ s t (create_photo-CodeInv input now)
step-CodeInv lower (mark_ready id) now s t = tables-CodeInv _ s t (mark_ready-CodeInv id now)
step-CodeInv lower (mark_failed id message) now s t =
    tables-CodeInv _ s t (mark_failed-CodeInv id message now)

-- In every store that calls of the repositories' writing methods reach, each item has a code
-- C-<value> that its production's sequence has given out, and no two items of a production, the
-- archived ones included, have the same code.
pub Reach-CodesAreValid :
    (lower : Text → Text) (s : Store) → Reach lower s → CodesAreValid s.items s.sequences
Reach-CodesAreValid lower s fresh = record { given = tt; distinct = tt }
Reach-CodesAreValid lower t (next {s} op now r e) =
    step-CodeInv lower op now s t (Reach-CodesAreValid lower s r) e
