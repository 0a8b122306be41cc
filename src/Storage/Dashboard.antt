-- ===== src/Storage/Dashboard.antt =====
-- internal/storage/dashboard_queries.go and landing_queries.go: the aggregates of a production's
-- dashboard and of the directory of productions. `lower_le` compares names as ORDER BY lower(name)
-- does, `equal_lower` tells when it does not tell them apart; `percent` is the label of an average.
pub mod Totals
pub mod Directory
mod Tests
use costume_tree.Common.{
  ℕ, suc, ◌+◌, ◌-◌, Bool, true, false, not, ◌&&◌, ◌||◌, Option, none, some, List, [], ◌∷◌, ◌++◌,
  ◌==◌, ltb, leb, if◌then◌else◌, Outcome, ok, Text, text_eq, length, select, count_where, sort_by,
  map, flat_map, ℤ, pos, ◌+ℤ◌,
}
use costume_tree.Storage.Models.{
  Production, Actor, CostumeItem, status_find, status_make, status_fit, status_alterations,
  status_complete,
}
use costume_tree.Storage.Database.{Store, Query, is_none}
use costume_tree.Storage.Productions.{has_text}

pub record ProductionKpis : Type 0 where
  pub total_active_pieces : ℕ
  pub find : ℕ
  pub make : ℕ
  pub fit : ℕ
  pub alterations : ℕ
  pub complete : ℕ
  pub blocked : ℕ
  pub incomplete : ℕ

-- AVG of some numbers, exactly, where the source has it as a float64.
pub record Average : Type 0 where
  pub sum : ℤ
  pub count : ℕ

pub record ActorSummary : Type 0 where
  pub id : ℕ
  pub production_id : ℕ
  pub name : Text
  pub role : Text
  pub active_items : ℕ
  pub find : ℕ
  pub make : ℕ
  pub fit : ℕ
  pub alterations : ℕ
  pub complete : ℕ
  pub blocked : ℕ
  pub incomplete : ℕ
  pub completion : Option Average
  pub completion_label : Text

pub record ProductionDirectoryEntry : Type 0 where
  pub id : ℕ
  pub name : Text
  pub actor_count : ℕ
  pub piece_count : ℕ
  pub blocked_count : ℕ

-- FROM actors a ... WHERE a.production_id = $6 AND a.archived_at IS NULL
abbrev pub active_actors : Store → ℕ → List Actor
active_actors s production_id =
    select (λ a. a.production_id == production_id && is_none a.archived_at) s.actors

-- LEFT JOIN costume_items ci ON ...: the items of an actor. An actor without one has a row of NULLs,
-- which the counts leave out.
abbrev pub items_of : Store → Actor → List CostumeItem
items_of s a =
    select
      (λ i. i.production_id == a.production_id && (i.actor_id == a.id && is_none i.archived_at))
      s.items

-- The items of the join.
abbrev pub joined_items : Store → ℕ → List CostumeItem
joined_items s production_id = flat_map (items_of s) (active_actors s production_id)

abbrev pub any_item : CostumeItem → Bool
any_item i = true

abbrev pub has_status : Text → CostumeItem → Bool
has_status status i = text_eq i.status status

abbrev pub is_blocked : CostumeItem → Bool
is_blocked i = has_text i.blocker

unfoldable pub production_kpis : ℕ → Query ProductionKpis
production_kpis production_id s =
    let items = joined_items s production_id in
    let total = count_where any_item items in
    let done = count_where (has_status status_complete) items in
    ok (
      record {
        total_active_pieces = total;
        find = count_where (has_status status_find) items;
        make = count_where (has_status status_make) items;
        fit = count_where (has_status status_fit) items;
        alterations = count_where (has_status status_alterations) items;
        complete = done;
        blocked = count_where is_blocked items;
        incomplete = total - done;
      },
      s,
    )

abbrev pub progress_sum : List CostumeItem → ℤ
progress_sum [] = pos 0
progress_sum (i ∷ items) = i.progress +ℤ progress_sum items

-- AVG(ci.progress), NULL of no item
abbrev pub average : List CostumeItem → Option Average
average [] = none
average (i ∷ items) =
    some (record { sum = progress_sum (i ∷ items); count = count_where any_item (i ∷ items) })

module _ (percent : Average → Text) where
  -- `if average.Valid`
  abbrev pub label_of : Option Average → Text
  label_of none = []
  label_of (some a) = percent a

  -- A row of `ActorSummaries`
  abbrev pub actor_summary : Actor → List CostumeItem → ActorSummary
  actor_summary a items =
      let total = count_where any_item items in
      let done = count_where (has_status status_complete) items in
      record {
        id = a.id;
        production_id = a.production_id;
        name = a.name;
        role = a.role;
        active_items = total;
        find = count_where (has_status status_find) items;
        make = count_where (has_status status_make) items;
        fit = count_where (has_status status_fit) items;
        alterations = count_where (has_status status_alterations) items;
        complete = done;
        blocked = count_where is_blocked items;
        incomplete = total - done;
        completion = average items;
        completion_label = label_of (average items);
      }

  module _ (lower_le : Text → Text → Bool) (equal_lower : Text → Text → Bool) where
    -- ORDER BY lower(a.name), a.id
    abbrev pub by_lower_name : Actor → Actor → Bool
    by_lower_name a b = if equal_lower a.name b.name then leb a.id b.id else lower_le a.name b.name

    unfoldable pub actor_summaries : ℕ → Query (List ActorSummary)
    actor_summaries production_id s = ok (
      map (λ a. actor_summary a (items_of s a))
          (sort_by by_lower_name (active_actors s production_id)),
      s,
    )

-- LEFT JOIN: the matches, or one row of NULLs
abbrev pub left_join {ℓ} : {A : Type ℓ} → List A → List (Option A)
left_join [] = none ∷ []
left_join (x ∷ xs) = map some (x ∷ xs)

-- A row of the directory's join: the columns of an actor and of an item, or NULLs
abbrev pub JoinedRow : Type 0
JoinedRow = Option Actor × Option CostumeItem

-- ON a.production_id = p.id AND a.archived_at IS NULL
abbrev pub directory_actors : Store → Production → List Actor
directory_actors s p = select (λ a. a.production_id == p.id && is_none a.archived_at) s.actors

-- ON ci.production_id = p.id AND ci.actor_id = a.id AND ci.archived_at IS NULL
abbrev pub directory_items : Store → Production → Option Actor → List CostumeItem
directory_items s p none = []
directory_items s p (some a) =
    select (λ i. i.production_id == p.id && (i.actor_id == a.id && is_none i.archived_at)) s.items

abbrev pub rows_of_actor : Store → Production → Option Actor → List JoinedRow
rows_of_actor s p a = map (λ i. (a, i)) (left_join (directory_items s p a))

-- The rows of a production's group
abbrev pub directory_rows : Store → Production → List JoinedRow
directory_rows s p = flat_map (rows_of_actor s p) (left_join (directory_actors s p))

-- The values of a.id that are not NULL
abbrev pub actor_ids : List JoinedRow → List ℕ
actor_ids [] = []
actor_ids ((none, i) ∷ rows) = actor_ids rows
actor_ids ((some a, i) ∷ rows) = a.id ∷ actor_ids rows

-- COUNT(DISTINCT ...)
abbrev pub count_distinct : List ℕ → ℕ
count_distinct [] = 0
count_distinct (n ∷ ns) =
    if ltb 0 (count_where (λ m. m == n) ns) then count_distinct ns else suc (count_distinct ns)

-- COUNT(ci.id)
abbrev pub has_item : JoinedRow → Bool
has_item (a, none) = false
has_item (a, some i) = true

-- CASE WHEN length(trim(ci.blocker)) > 0
abbrev pub has_blocked_item : JoinedRow → Bool
has_blocked_item (a, none) = false
has_blocked_item (a, some i) = is_blocked i

module _ (lower_le : Text → Text → Bool) (equal_lower : Text → Text → Bool) where
  -- ORDER BY lower(p.name), p.id
  abbrev pub by_production_name : Production → Production → Bool
  by_production_name a b =
      if equal_lower a.name b.name then leb a.id b.id else lower_le a.name b.name

  -- A row of the directory
  abbrev pub directory_entry : Store → Production → ProductionDirectoryEntry
  directory_entry s p =
      let rows = directory_rows s p in
      record {
        id = p.id;
        name = p.name;
        actor_count = count_distinct (actor_ids rows);
        piece_count = count_where has_item rows;
        blocked_count = count_where has_blocked_item rows;
      }

  unfoldable pub production_directory : Query (List ProductionDirectoryEntry)
  production_directory s = ok (
    map (directory_entry s)
        (sort_by by_production_name (select (λ p. is_none p.archived_at) s.productions)),
    s,
  )
