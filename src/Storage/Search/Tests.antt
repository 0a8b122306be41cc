-- ===== src/Storage/Search/Tests.antt =====
-- A search in a small production.
use costume_tree.Common.{
  ◌*◌, pad_four, decimal, ◌≤◌, ◌≡◌, refl, false, none, [], ◌∷◌, map, ok, text, is_empty, trim_space,
  sort_by, length, All, arith, pos,
}
use costume_tree.Storage.Items
use costume_tree.Storage.Search
use costume_tree.Storage.Search.{ItemSearchFilter, ItemSearchResult, result_of}
use costume_tree.Storage.Search.Pages.{IsFound, search_items-IsFound, collect, collect-matching}
use costume_tree.Storage.Tests.{same_case, with_hat}

abbrev any_hat : ItemSearchFilter
any_hat = record {
  production_id = 1;
  code = [];
  actor_id = 0;
  item_type_id = 0;
  status = [];
  blocked = false;
  incomplete = false;
  min_progress = none;
  max_progress = none;
  text = text "Red";
  include_archived = false;
  limit = pos 10;
  offset = pos 0;
}

abbrev hat_result : ItemSearchResult
hat_result = record {
  id = 1;
  code = text "C-0001";
  actor = text "Ann";
  role = [];
  type = text "Hat";
  description = text "Red";
  status = text "Find";
  progress = pos 0;
  next_action = [];
  blocker = [];
}

search-hat :
    Search.search_items same_case same_case same_case any_hat with_hat
    ≡ ok (hat_result ∷ [], with_hat)
unfolding Search.search_items Search.page_limit Search.page_offset Search.matching sort_by
    Search.join_rows is_empty trim_space Items.format_code pad_four decimal
search-hat = refl

search_items-IsFound_example :
    (length (hat_result ∷ []) ≤ 100)
    × (with_hat ≡ with_hat)
    × All (IsFound same_case same_case same_case any_hat with_hat) (hat_result ∷ [])
search_items-IsFound_example =
    search_items-IsFound same_case same_case same_case any_hat with_hat with_hat (hat_result ∷ [])
      search-hat

one_match : length (Search.matching same_case same_case same_case any_hat with_hat) ≤ 2 * 1
unfolding Search.matching sort_by Search.join_rows is_empty trim_space Items.format_code pad_four
    decimal
one_match = omega arith

collect-matching_example :
    collect same_case same_case same_case any_hat 1 2 0 with_hat
    ≡ ok (map result_of (Search.matching same_case same_case same_case any_hat with_hat))
collect-matching_example =
    collect-matching same_case same_case same_case any_hat 1 2 with_hat (omega arith) (omega arith)
      (omega arith) one_match
