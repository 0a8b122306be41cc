-- ===== src/Web/CostumeItems/Statuses.antt =====
-- What a change of an item's status from the actor's list does to the item.
use costume_tree.Common.{
  ℕ, ◌≡◌, refl, sym, subst, ap, ◌∙◌, update_where, find?-update_where, inl, inr, true, ◌&&◌, Option,
  none, some, ◌==◌, if◌then◌else◌, Outcome, ok, err, and_then-eq-ok, Outcome-cases, Text, text_eq,
  trim_space, pos, arith, find?, find?-sound,
}
use mathlib.Core.Option
use costume_tree.Storage.Models.{
  costume_item, StoreError, archived, Production, Actor, CostumeItem, UpdateCostumeItemInput,
  status_complete,
}
use costume_tree.Storage.Database.{Store, is_none, found, is_actor, is_item}
use costume_tree.Storage.Items
use costume_tree.Storage.Items.{known_status}
use costume_tree.Storage.Items.Changes.{IsUpdated, updated_item, update-IsUpdated}
use costume_tree.Web.CostumeItems.{
  WebError, repository, item_not_found, invalid_status, changed_elsewhere, check, read_by, scope,
  scoped_item, then_write, written, is_current, status_update, contains_status,
  update_costume_item_status,
}
use costume_tree.Web.CostumeItems.Forms.{check-ok, active, found-row, IsScope, scope-IsScope}

-- An item in its scope.
pub record IsScopedItem (production_id actor_id item_id : ℕ) (s : Store) (p : Production)
    (a : Actor) (i : CostumeItem) : Type 0 where
  pub scoped : IsScope production_id actor_id s p a
  pub item_found : find? (is_item production_id item_id) s.items ≡ some i
  pub of_actor : i.actor_id ≡ a.id

scoped_item-IsScopedItem :
    (production_id actor_id item_id : ℕ) (s : Store) (p : Production) (a : Actor) (i : CostumeItem)
    → scoped_item production_id actor_id item_id s ≡ ok (p, a, i)
    → IsScopedItem production_id actor_id item_id s p a i
unfolding scoped_item Items.get
scoped_item-IsScopedItem production_id actor_id item_id s p a i h =
    let ((p', a'), q₁, h₁) = and_then-eq-ok (scope production_id actor_id s) _ h in
    let (i', q₂, h₂) =
      and_then-eq-ok
        (read_by (found costume_item (find? (is_item production_id item_id) s.items) s)) _ h₁ in
    let (u, q₃, h₃) =
      and_then-eq-ok
        (check (i'.production_id == production_id && i'.actor_id == actor_id) item_not_found) _
        h₂ in
    let same_p : p' ≡ p = cc in
    let same_a : a' ≡ a = cc in
    let same_i : i' ≡ i = cc in
    let scoped = scope-IsScope production_id actor_id s p' a' q₁ in
    let belongs = check-ok _ _ q₃ in
    let this = find?-sound (is_actor production_id actor_id) s.actors scoped.actor_found in
    let owner : i'.actor_id ≡ a'.id = ground arith in
    record {
      scoped =
          subst (λ k. IsScope production_id actor_id s k a) same_p
            (subst (IsScope production_id actor_id s p') same_a scoped);
      item_found = found-row costume_item _ s q₂ ∙ ap (λ k. some k) same_i;
      of_actor =
          ap (λ (k : CostumeItem). k.actor_id) (sym same_i)
          ∙ owner
          ∙ ap (λ (k : Actor). k.id) same_a;
    }

pair_item : (i j : CostumeItem) (o : Outcome WebError CostumeItem) → o ≡ ok i → o ≡ ok j → i ≡ j
pair_item i j o h k = cc

pair_ok :
    (i j : CostumeItem) (r t : Store) (o : Outcome StoreError (CostumeItem × Store)) (s : Store)
    → o ≡ ok (i, r)
    → written none s (ok (i, r)) ≡ (ok j, t)
    → o ≡ ok (j, t)
pair_ok i j r t o s q h =
    let same_item : i ≡ j = pair_item i j _ refl (ap (λ p. p.0) h) in
    q ∙ ap (λ k. ok (k, r)) same_item ∙ ap (λ k. ok (j, k)) (ap (λ p. p.1) h)

then_write-ok :
    (o : Outcome WebError UpdateCostumeItemInput) (now : ℕ) (s t : Store) (item : CostumeItem)
    → then_write o (λ input. written none s (Items.update input now s)) s ≡ (ok item, t)
    → (input : UpdateCostumeItemInput) × (o ≡ ok input) × (Items.update input now s ≡ ok (item, t))
then_write-ok (err e) now s t item h = cc
then_write-ok (ok input) now s t item h = elim (Outcome-cases (Items.update input now s)) [
  | inr (e, q) ↦ let bad = rw q at h in cc
  | inl ((i, r), q) ↦ (input, refl, pair_ok i item r t _ s q (rw q at h))
]

input_ok :
    (i j : UpdateCostumeItemInput) (o : Outcome WebError UpdateCostumeItemInput)
    → o ≡ ok i
    → o ≡ ok j
    → i ≡ j
input_ok i j o h k = cc

item_some : (i j : CostumeItem) → some i ≡ some j → i ≡ j
item_some i j h = cc

-- The row `k` with all columns of `item` but those that an update leaves alone.
abbrev pub with_columns : CostumeItem → CostumeItem → CostumeItem
with_columns item k = record item {
  id = k.id;
  production_id = k.production_id;
  code = k.code;
  archived_at = k.archived_at;
  created_at = k.created_at;
}

-- The table after a change: the item is found under its id, its rows have its columns, and every other
-- row and every other table is as before.
pub record IsChanged (production_id item_id : ℕ) (item : CostumeItem) (s t : Store) : Type 0 where
  pub found_after : find? (is_item production_id item_id) t.items ≡ some item
  pub tables : t ≡ record s {
    items = update_where (is_item production_id item_id) (with_columns item) s.items;
  }

IsUpdated-IsChanged :
    (input : UpdateCostumeItemInput) (now : ℕ) (s t : Store) (item : CostumeItem)
    → IsUpdated input now s t item
    → IsChanged input.production_id input.id item s t
IsUpdated-IsChanged input now s t item up =
    let this = is_item input.production_id input.id in
    record {
      found_after =
          ap (λ (k : Store). find? this k.items) up.tables
          ∙ find?-update_where this (updated_item input now) s.items (λ i. refl)
          ∙ ap (Option.map (updated_item input now)) up.was_there
          ∙ ap some (sym up.result);
      tables =
          up.tables
          ∙ ap (λ i. record s { items = update_where this (with_columns i) s.items })
              (sym up.result);
    }

module _ (parse_time : Text → Option ℕ) where
  -- A change of the status that succeeds has found the item, not archived and with the time of the
  -- form, and a status of the list. The item that it returns has the new status, the time and, for
  -- Complete, the progress 100, and is the old one else. The table has that item under the id, with
  -- its columns in every row of the id; no other row and no other table changes.
  pub update_costume_item_status-IsStatusChange :
      (production_id actor_id item_id : ℕ) (status updated_at : Text) (now : ℕ) (s t : Store)
      (item : CostumeItem)
      → update_costume_item_status parse_time production_id actor_id item_id status updated_at now s
        ≡ (ok item, t)
      → (old : CostumeItem) × (find? (is_item production_id item_id) s.items ≡ some old)
        × (old.archived_at ≡ none)
        × (is_current parse_time (trim_space updated_at) old ≡ true)
        × (known_status (trim_space status) ≡ true)
        × (item ≡ record old {
          status = trim_space status;
          progress = if text_eq (trim_space status) status_complete then pos 100 else old.progress;
          updated_at = now;
        })
        × IsChanged production_id item_id item s t
  unfolding update_costume_item_status
  update_costume_item_status-IsStatusChange production_id actor_id item_id status updated_at now s t
        item h =
      let (input, made, done) = then_write-ok _ now s t item h in
      let ((p, a, i), q₁, m₁) =
        and_then-eq-ok (scoped_item production_id actor_id item_id s) _ made in
      let (u₂, q₂, m₂) =
        and_then-eq-ok (check (is_none i.archived_at) (repository archived)) _ m₁ in
      let (u₃, q₃, m₃) =
        and_then-eq-ok (check (contains_status (trim_space status)) invalid_status) _ m₂ in
      let (u₄, q₄, m₄) =
        and_then-eq-ok (check (is_current parse_time (trim_space updated_at) i) changed_elsewhere) _
          m₃ in
      let scoped = scoped_item-IsScopedItem production_id actor_id item_id s p a i q₁ in
      let asked : status_update parse_time production_id i a (trim_space status) ≡ input =
        input_ok _ _ _ refl m₄ in
      let up = update-IsUpdated input now s t item done in
      let this = find?-sound (is_item production_id item_id) s.items scoped.item_found in
      let id : i.id ≡ item_id = ground arith in
      let there : find? (is_item production_id i.id) s.items ≡ some up.old =
        subst
          (λ (k : UpdateCostumeItemInput).
            find? (is_item k.production_id k.id) s.items ≡ some up.old)
          (sym asked) up.was_there in
      let same : up.old ≡ i =
        item_some _ _
          (sym there ∙ ap (λ k. find? (is_item production_id k) s.items) id ∙ scoped.item_found) in
      (
        i,
        scoped.item_found,
        active _ (check-ok _ _ q₂),
        check-ok _ _ q₄,
        check-ok _ _ q₃,
        up.result
            ∙ ap (λ k. updated_item k now up.old) (sym asked)
            ∙ ap
                (λ k.
                  updated_item (status_update parse_time production_id i a (trim_space status)) now
                    k)
                same
            ∙ ap
                (λ k. record i {
                  actor_id = k;
                  status = trim_space status;
                  progress =
                      if text_eq (trim_space status) status_complete then pos 100 else i.progress;
                  updated_at = now;
                })
                (sym scoped.of_actor),
        subst (λ k. IsChanged production_id k item s t) id
            (subst (λ (k : UpdateCostumeItemInput). IsChanged k.production_id k.id item s t)
              (sym asked) (IsUpdated-IsChanged input now s t item up)),
      )
