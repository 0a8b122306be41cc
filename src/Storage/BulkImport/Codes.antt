-- ===== src/Storage/BulkImport/Codes.antt =====
-- A bulk import keeps the codes valid, and creates one item for each row.
use costume_tree.Common.{
  ℕ, ◌≡◌, sym, ap, ◌∙◌, subst, Bool, true, false, Option, none, some, List, [], ◌∷◌, ok, Text,
}
use costume_tree.Storage.Models.{Production, Actor, ItemType, CostumeItem}
use costume_tree.Storage.Database.{Store}
use costume_tree.Storage.Keeps.{
  Keeps, Keeps-bind, Keeps-Reads, Reads, Reads-pure, Reads-fail, Reads-guard, >>=-eq-ok,
  keeps_rules,
}
use costume_tree.Storage.Frames.{frame_rules}
use costume_tree.Storage.Items.{allocate_code_tx, insert_item}
use costume_tree.Storage.Codes.{CodesAreValid, CodeInv, Keeps-KeepsItems, insert_item-CodeInv}
use costume_tree.Storage.Steps.Codes.{allocate_code_tx-IsNextValue}
use costume_tree.Storage.BulkImport.{BulkImportRow, BulkImportPreview, Names}
use costume_tree.Storage.BulkImport.Importer.{
  read_back, read_bulk_actor, read_bulk_item_type, read_bulk_item, insert_bulk_actor,
  insert_bulk_item, insert_bulk_item_type, bulk_item_input, resolve_actor, resolve_type,
  commit_rows, check_bulk_production, lock_bulk_production, commit_scoped, commit_tx,
}

Reads-read_back {ℓ} : {A : Type ℓ} (o : Option A) → Reads (read_back o)
unfolding read_back
Reads-read_back none = Reads-fail _
Reads-read_back (some a) = Reads-pure a

Reads-read_bulk_actor : (p id : ℕ) → Reads (read_bulk_actor p id)
unfolding read_bulk_actor
Reads-read_bulk_actor p id = record { same = λ s a t. (Reads-read_back _).same s a t }

Reads-read_bulk_item_type : (p id : ℕ) → Reads (read_bulk_item_type p id)
unfolding read_bulk_item_type
Reads-read_bulk_item_type p id = record { same = λ s a t. (Reads-read_back _).same s a t }

Reads-read_bulk_item : (p id : ℕ) → Reads (read_bulk_item p id)
unfolding read_bulk_item
Reads-read_bulk_item p id = record { same = λ s a t. (Reads-read_back _).same s a t }

ruleset bulk_rules = (
  keeps_rules, Keeps-KeepsItems, frame_rules, Reads-read_bulk_actor, Reads-read_bulk_item_type,
  Reads-read_bulk_item,
)

insert_bulk_actor-CodeInv :
    (p : ℕ) (name : Text) (now : ℕ) → Keeps CodeInv (insert_bulk_actor p name now)
unfolding insert_bulk_actor
insert_bulk_actor-CodeInv p name now = search bulk_rules

insert_bulk_item-CodeInv :
    (p actor_id item_type_id now : ℕ) → Keeps CodeInv (insert_bulk_item p actor_id item_type_id now)
unfolding insert_bulk_item
insert_bulk_item-CodeInv p actor_id item_type_id now = record {
  at = λ s a t h e.
      let (code, r, e₁, e₂) = >>=-eq-ok (allocate_code_tx p) _ s e in
      let (value, c, n) = allocate_code_tx-IsNextValue p s code r e₁ in
      let input = bulk_item_input p actor_id item_type_id in
      let (id, r', e₃, e₄) = >>=-eq-ok (insert_item input code now) _ r e₂ in
      subst CodeInv (sym ((Reads-read_bulk_item p id).same r' a t e₄)) (
        insert_item-CodeInv input now value s r id r' h n
          (ap (λ x. insert_item input x now r) (sym c) ∙ e₃));
}

module _ (to_lower : Text → Text) (equal_fold : Text → Text → Bool) (lower : Text → Text) where
  insert_bulk_item_type-CodeInv :
      (p : ℕ) (name : Text) (now : ℕ)
      → Keeps CodeInv (insert_bulk_item_type to_lower equal_fold lower p name now)
  unfolding insert_bulk_item_type
  insert_bulk_item_type-CodeInv p name now = search bulk_rules

  resolve_actor-CodeInv :
      (p : ℕ) (name : Text) (now : ℕ) (names : Names Actor) (o : Option Actor)
      → Keeps CodeInv (resolve_actor to_lower equal_fold lower p name now names o)
  unfolding resolve_actor
  resolve_actor-CodeInv p name now names (some a) = search bulk_rules
  resolve_actor-CodeInv p name now names none = search (bulk_rules, insert_bulk_actor-CodeInv)

  resolve_type-CodeInv :
      (p : ℕ) (allow : Bool) (name : Text) (now : ℕ) (names : Names ItemType) (o : Option ItemType)
      → Keeps CodeInv (resolve_type to_lower equal_fold lower p allow name now names o)
  unfolding resolve_type
  resolve_type-CodeInv p allow name now names (some a) = search bulk_rules
  resolve_type-CodeInv p false name now names none = search bulk_rules
  resolve_type-CodeInv p true name now names none =
      search (bulk_rules, insert_bulk_item_type-CodeInv)

  commit_rows-CodeInv :
      (p : ℕ) (allow : Bool) (now : ℕ) (rows : List BulkImportRow) (actors : Names Actor)
      (types : Names ItemType)
      → Keeps CodeInv (commit_rows to_lower equal_fold lower p allow now rows actors types)
  unfolding commit_rows
  commit_rows-CodeInv p allow now [] actors types = search bulk_rules
  commit_rows-CodeInv p allow now (row ∷ rows) actors types =
      let rest = commit_rows-CodeInv p allow now rows in
      Keeps-bind _ _ (Keeps-Reads _ (Reads-guard _ _)) (λ _.
        Keeps-bind _ _ (resolve_actor-CodeInv p _ now actors _) (λ (actor, actors').
          Keeps-bind _ _ (resolve_type-CodeInv p allow _ now types _) (λ (typ, types').
            Keeps-bind _ _ (insert_bulk_item-CodeInv p _ _ now) (λ item.
              Keeps-bind _ _ (rest actors' types') (λ items. Keeps-Reads _ (Reads-pure _))))))

  Reads-check_bulk_production :
      (name : Text) (o : Option Production)
      → Reads (check_bulk_production to_lower equal_fold lower name o)
  unfolding check_bulk_production
  Reads-check_bulk_production name none = Reads-fail _
  Reads-check_bulk_production name (some p) = Reads-guard _ _

  pub Reads-lock_bulk_production :
      (preview : BulkImportPreview) → Reads (lock_bulk_production to_lower equal_fold lower preview)
  unfolding lock_bulk_production
  Reads-lock_bulk_production preview = record {
    same = λ s a t. (Reads-check_bulk_production _ _).same s a t;
  }

  commit_scoped-CodeInv :
      (preview : BulkImportPreview) (now : ℕ)
      → Keeps CodeInv (commit_scoped to_lower equal_fold lower preview now)
  unfolding commit_scoped
  commit_scoped-CodeInv preview now = record {
    at = λ s a t. (commit_rows-CodeInv _ _ now preview.rows _ _).at s a t;
  }

  -- A bulk import that succeeds keeps the codes valid: each new item has a code that its
  -- production's sequence has given out, and no item of the production, old or new, has the same.
  pub commit_tx-CodesAreValid :
      (preview : BulkImportPreview) (now : ℕ) (s t : Store) (items : List CostumeItem)
      → CodesAreValid s.items s.sequences
      → commit_tx to_lower equal_fold lower preview now s ≡ ok (items, t)
      → CodesAreValid t.items t.sequences
  unfolding commit_tx
  commit_tx-CodesAreValid preview now s t items =
      (Keeps-bind _ _ (Keeps-Reads _ (Reads-lock_bulk_production preview))
          (λ _. commit_scoped-CodeInv preview now)).at
        s items t
