-- ===== src/Storage/Search.antt =====
-- internal/storage/search_queries.go: the search over a production's items, page by page. `to_upper`
-- and `to_lower` are strings.ToUpper and strings.ToLower, `lower` is the database's function.
pub mod Pages
mod Tests
use costume_tree.Common.{
  ℕ, ◌+◌, Bool, true, false, not, ◌&&◌, ◌||◌, Option, none, some, List, [], ◌∷◌, ◌==◌, ltb,
  if◌then◌else◌, Outcome, ok, err, Text, text_eq, is_empty, trim_space, map, find?, select, sort_by,
  take, drop, ℤ, pos, negsuc, leb_ℤ,
}
use costume_tree.Storage.Models.{
  StoreError, production_required, Actor, ItemType, CostumeItem, status_complete,
}
use costume_tree.Storage.Database.{Store, Query, is_none, is_actor, is_item_type}
use costume_tree.Storage.Productions.{has_text}
use costume_tree.Storage.Items.{status_rank}

pub record ItemSearchFilter : Type 0 where
  pub production_id : ℕ
  pub code : Text
  pub actor_id : ℕ
  pub item_type_id : ℕ
  pub status : Text
  pub blocked : Bool
  pub incomplete : Bool
  pub min_progress : Option ℤ
  pub max_progress : Option ℤ
  pub text : Text
  pub include_archived : Bool
  pub limit : ℤ
  pub offset : ℤ

-- The columns that are scanned; the aliases ItemID, ActorName and ItemType repeat three of them.
pub record ItemSearchResult : Type 0 where
  pub id : ℕ
  pub code : Text
  pub actor : Text
  pub role : Text
  pub type : Text
  pub description : Text
  pub status : Text
  pub progress : ℤ
  pub next_action : Text
  pub blocker : Text

-- A row of the join. Ids are unique, so an item is joined to one actor and one item type at most.
pub record Joined : Type 0 where
  pub item : CostumeItem
  pub actor : Actor
  pub type : ItemType

abbrev pub join_row : CostumeItem → Option Actor → Option ItemType → List Joined → List Joined
join_row i (some a) (some t) rows = record { item = i; actor = a; type = t } ∷ rows
join_row i _ _ rows = rows

unfoldable pub join_rows : Store → List CostumeItem → List Joined
join_rows s [] = []
join_rows s (i ∷ items) =
    join_row i (find? (is_actor i.production_id i.actor_id) s.actors)
      (find? (is_item_type i.production_id i.item_type_id) s.item_types) (join_rows s items)

abbrev pub default_limit : ℕ
default_limit = 50

abbrev pub max_limit : ℕ
max_limit = 100

-- The limit that is used
unfoldable pub page_limit : ℤ → ℕ
page_limit (negsuc n) = default_limit
page_limit (pos n) = if n == 0 then default_limit else if ltb max_limit n then max_limit else n

unfoldable pub page_offset : ℤ → ℕ
page_offset (negsuc n) = 0
page_offset (pos n) = n

-- `strpos(s, t) > 0`, for a `t` that is not empty
abbrev pub starts_with : Text → Text → Bool
starts_with s [] = true
starts_with [] (c ∷ t) = false
starts_with (d ∷ s) (c ∷ t) = d == c && starts_with s t

abbrev pub occurs : Text → Text → Bool
occurs t [] = is_empty t
occurs t (d ∷ s) = starts_with (d ∷ s) t || occurs t s

abbrev pub at_least : Option ℤ → ℤ → Bool
at_least none p = true
at_least (some m) p = leb_ℤ m p

abbrev pub at_most : Option ℤ → ℤ → Bool
at_most none p = true
at_most (some m) p = leb_ℤ p m

-- ORDER BY CASE ci.status ... END, ci.id
abbrev pub by_rank : Joined → Joined → Bool
by_rank a b =
    ltb (status_rank a.item.status) (status_rank b.item.status)
    || (status_rank a.item.status == status_rank b.item.status && not (ltb b.item.id a.item.id))

abbrev pub result_of : Joined → ItemSearchResult
result_of r = record {
  id = r.item.id;
  code = r.item.code;
  actor = r.actor.name;
  role = r.actor.role;
  type = r.type.name;
  description = r.item.description;
  status = r.item.status;
  progress = r.item.progress;
  next_action = r.item.next_action;
  blocker = r.item.blocker;
}

module _ (to_upper to_lower lower : Text → Text) where
  -- `normalizeSearchCode`
  abbrev pub normalize_search_code : Text → Text
  normalize_search_code value = to_upper (trim_space value)

  -- The condition on the search text
  abbrev pub has_search_text : Text → Joined → Bool
  has_search_text t r =
      is_empty t
      || (occurs t (lower r.actor.name)
          || (occurs t (lower r.actor.role)
              || (occurs t (lower r.type.name) || occurs t (lower r.item.description))))

  -- The WHERE clause that `Search` builds from a filter
  unfoldable pub matches : ItemSearchFilter → Joined → Bool
  matches f r =
      let code = normalize_search_code f.code in
      let status = trim_space f.status in
      r.item.production_id == f.production_id
      && ((f.include_archived || (is_none r.item.archived_at && is_none r.actor.archived_at))
          && ((is_empty code || text_eq r.item.code code)
              && ((f.actor_id == 0 || r.item.actor_id == f.actor_id)
                  && ((f.item_type_id == 0 || r.item.item_type_id == f.item_type_id)
                      && ((is_empty status || text_eq r.item.status status)
                          && ((not f.blocked || has_text r.item.blocker)
                              && ((not f.incomplete || not (text_eq r.item.status status_complete))
                                  && (at_least f.min_progress r.item.progress
                                      && (at_most f.max_progress r.item.progress
                                          && has_search_text (to_lower (trim_space f.text))
                                              r)))))))))

  -- All rows that match, in order
  unfoldable pub matching : ItemSearchFilter → Store → List Joined
  unfolding matches status_rank
  matching f s = sort_by by_rank (select (matches f) (join_rows s s.items))

  unfoldable pub search_items : ItemSearchFilter → Query (List ItemSearchResult)
  search_items f s =
      if f.production_id == 0
      then err production_required
      else ok (
        map result_of (take (page_limit f.limit) (drop (page_offset f.offset) (matching f s))),
        s,
      )
