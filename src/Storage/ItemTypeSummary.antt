-- ===== src/Storage/ItemTypeSummary.antt =====
-- internal/storage/item_type_summary.go: the status counts of a production's item types. `name_le` is
-- the collation of ORDER BY.
pub mod Totals
use costume_tree.Common.{
  ℕ, ◌+◌, Bool, true, false, not, ◌&&◌, ◌||◌, List, [], ◌∷◌, ◌==◌, ltb, leb, if◌then◌else◌, Outcome,
  ok, Text, text_eq, select, count_where, sort_by, map,
}
use costume_tree.Storage.Models.{
  Actor, ItemType, CostumeItem, status_find, status_make, status_fit, status_alterations,
  status_complete,
}
use costume_tree.Storage.Database.{Store, Query, is_none}
use costume_tree.Storage.Productions.{has_text}

pub record ItemTypeSummary : Type 0 where
  pub item_type_id : ℕ
  pub item_type_name : Text
  pub total : ℕ
  pub find : ℕ
  pub make : ℕ
  pub fit : ℕ
  pub alterations : ℕ
  pub complete : ℕ
  pub blocked : ℕ

-- An actor that the join keeps
abbrev pub is_active_actor : CostumeItem → Actor → Bool
is_active_actor i a =
    a.production_id == i.production_id && (a.id == i.actor_id && is_none a.archived_at)

-- The items that are joined to an item type. An actor's id is unique, so an item is joined to one
-- actor at most.
abbrev pub of_type : Store → ItemType → List CostumeItem
of_type s t =
    select
      (λ i.
        i.production_id == t.production_id
        && (i.item_type_id == t.id
            && (is_none i.archived_at && ltb 0 (count_where (is_active_actor i) s.actors))))
      s.items

-- SUM(CASE WHEN status = ... THEN 1 ELSE 0 END)
abbrev pub with_status : Text → List CostumeItem → ℕ
with_status status items = count_where (λ i. text_eq i.status status) items

abbrev pub summary_of : ItemType → List CostumeItem → ItemTypeSummary
summary_of t items = record {
  item_type_id = t.id;
  item_type_name = t.name;
  total = count_where (λ i. true) items;
  find = with_status status_find items;
  make = with_status status_make items;
  fit = with_status status_fit items;
  alterations = with_status status_alterations items;
  complete = with_status status_complete items;
  blocked = count_where (λ i. has_text i.blocker) items;
}

module _ (name_le : Text → Text → Bool) where
  -- ORDER BY item_types.name, item_types.id
  abbrev pub by_name : ItemType → ItemType → Bool
  by_name a b = if text_eq a.name b.name then leb a.id b.id else name_le a.name b.name

  -- The groups: the active types with an item
  abbrev pub represented : ℕ → Store → ItemType → Bool
  represented production_id s t =
      t.production_id == production_id
      && (is_none t.archived_at && ltb 0 (count_where (λ i. true) (of_type s t)))

  unfoldable pub list : ℕ → Query (List ItemTypeSummary)
  list production_id s = ok (
    map (λ t. summary_of t (of_type s t))
        (sort_by by_name (select (represented production_id s) s.item_types)),
    s,
  )
