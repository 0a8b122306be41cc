-- ===== src/Storage/Reports.antt =====
-- internal/storage/reports.go: the counts by item type and the accessories of a report. `name_le` is
-- the collation of ORDER BY, `lower` the database's function.
pub mod Counts
mod Tests
use costume_tree.Common.{
  ℕ, Bool, true, false, not, ◌&&◌, ◌||◌, Option, none, some, List, [], ◌∷◌, ◌==◌, ltb, leb,
  if◌then◌else◌, Outcome, ok, err, Text, text, text_eq, is_empty, trim_space, sql_trim, find?,
  select, count_where, sort_by, map,
}
use costume_tree.Storage.Models.{StoreError, production_required, Actor, ItemType, CostumeItem}
use costume_tree.Storage.Database.{Store, Query, is_none, is_actor, is_item_type}
use costume_tree.Storage.ItemTypeSummary.{of_type}

pub record ReportFilter : Type 0 where
  pub production_id : ℕ
  pub status : Text

pub record ReportCategory : Type 0 where
  pub item_type_id : ℕ
  pub item_type_name : Text
  pub count : ℕ

pub record ReportAccessory : Type 0 where
  pub code : Text
  pub description : Text
  pub actor_name : Text

pub record FilteredReport : Type 0 where
  pub categories : List ReportCategory
  pub accessories : List ReportAccessory

-- The status clause: none for a blank status
abbrev pub has_status : Text → CostumeItem → Bool
has_status status i = is_empty (trim_space status) || text_eq i.status (trim_space status)

abbrev pub counted_items : Text → Store → ItemType → List CostumeItem
counted_items status s t = select (has_status status) (of_type s t)

abbrev pub category_of : Text → Store → ItemType → ReportCategory
category_of status s t = record {
  item_type_id = t.id;
  item_type_name = t.name;
  count = count_where (λ i. true) (counted_items status s t);
}

-- The row of an item that is joined to an active item type and an active actor.
abbrev pub accessory_row :
    (ItemType → Bool)
    → CostumeItem
    → Option ItemType
    → Option Actor
    → List ReportAccessory
    → List ReportAccessory
accessory_row is_accessory i (some t) (some a) rows =
    if is_none t.archived_at && (is_none a.archived_at && is_accessory t)
    then record { code = i.code; description = i.description; actor_name = a.name } ∷ rows
    else rows
accessory_row is_accessory i _ _ rows = rows

unfoldable pub accessory_rows : (ItemType → Bool) → Store → List CostumeItem → List ReportAccessory
accessory_rows is_accessory s [] = []
accessory_rows is_accessory s (i ∷ items) =
    accessory_row is_accessory i (find? (is_item_type i.production_id i.item_type_id) s.item_types)
      (find? (is_actor i.production_id i.actor_id) s.actors) (accessory_rows is_accessory s items)

-- ORDER BY costume_items.id
abbrev pub by_id : CostumeItem → CostumeItem → Bool
by_id a b = leb a.id b.id

module _ (name_le : Text → Text → Bool) (lower : Text → Text) where
  -- ORDER BY item_types.name, item_types.id
  abbrev pub by_name : ItemType → ItemType → Bool
  by_name a b = if text_eq a.name b.name then leb a.id b.id else name_le a.name b.name

  -- The groups: the active types with an item that counts
  abbrev pub has_category : ReportFilter → Store → ItemType → Bool
  has_category f s t =
      t.production_id == f.production_id
      && (is_none t.archived_at && ltb 0 (count_where (λ i. true) (counted_items f.status s t)))

  abbrev pub is_accessory_type : ItemType → Bool
  is_accessory_type t = text_eq (lower (sql_trim t.name)) (text "accessories")

  unfoldable pub categories : ReportFilter → Store → List ReportCategory
  categories f s =
      map (category_of f.status s) (sort_by by_name (select (has_category f s) s.item_types))

  unfoldable pub accessories : ReportFilter → Store → List ReportAccessory
  unfolding accessory_rows
  accessories f s = accessory_rows is_accessory_type s (
      sort_by by_id (
        select
          (λ i.
            i.production_id == f.production_id && (is_none i.archived_at && has_status f.status i))
          s.items))

  unfoldable pub generate : ReportFilter → Query FilteredReport
  unfolding categories accessories
  generate f s =
      if f.production_id == 0
      then err production_required
      else ok (record { categories = categories f s; accessories = accessories f s }, s)
