-- ===== src/Storage/Dashboard/Totals.antt =====
-- The dashboard's rollup and its rows agree.
use costume_tree.Common.{
  ℕ, ◌+◌, ◌-◌, ◌≡◌, refl, sym, ◌∙◌, Bool, not, List, [], ◌∷◌, ok, Text, arith, count_where, sort_by,
  map, sum_by, sum_by-sort_by, count_where-flat_map,
}
use costume_tree.Storage.Models.{Actor, CostumeItem, status_complete}
use costume_tree.Storage.Database.{Store}
use costume_tree.Storage.Dashboard.{
  ProductionKpis, ActorSummary, Average, active_actors, items_of, joined_items, any_item,
  has_status, production_kpis, actor_summary, by_lower_name, actor_summaries,
}

-- A rollup that is the sum of the actors' rows, column by column.
pub record IsSumOf (k : ProductionKpis) (rows : List ActorSummary) : Type 0 where
  pub total : k.total_active_pieces ≡ sum_by (λ (r : ActorSummary). r.active_items) rows
  pub find : k.find ≡ sum_by (λ (r : ActorSummary). r.find) rows
  pub make : k.make ≡ sum_by (λ (r : ActorSummary). r.make) rows
  pub fit : k.fit ≡ sum_by (λ (r : ActorSummary). r.fit) rows
  pub alterations : k.alterations ≡ sum_by (λ (r : ActorSummary). r.alterations) rows
  pub complete : k.complete ≡ sum_by (λ (r : ActorSummary). r.complete) rows
  pub blocked : k.blocked ≡ sum_by (λ (r : ActorSummary). r.blocked) rows
  pub incomplete : k.incomplete ≡ sum_by (λ (r : ActorSummary). r.incomplete) rows

count_where-not :
    (p : CostumeItem → Bool) (items : List CostumeItem)
    → count_where any_item items ≡ count_where p items + count_where (λ i. not (p i)) items
count_where-not p [] = refl
count_where-not p (i ∷ items) = ground (arith, count_where-not p items)

module _ (percent : Average → Text) (lower_le : Text → Text → Bool)
    (equal_lower : Text → Text → Bool) (production_id : ℕ) (s : Store) where
  abbrev pub summaries : List ActorSummary
  summaries =
      map (λ a. actor_summary percent a (items_of s a))
        (sort_by (by_lower_name percent lower_le equal_lower) (active_actors s production_id))

  -- A column that counts the items of an actor sums up to the count of the joined items.
  sum_by-summaries :
      (column : ActorSummary → ℕ) (p : CostumeItem → Bool)
      → ((a : Actor) (items : List CostumeItem)
          → column (actor_summary percent a items) ≡ count_where p items)
      → count_where p (joined_items s production_id) ≡ sum_by column summaries
  sum_by-summaries column p same =
      count_where-flat_map p (items_of s) (active_actors s production_id)
      ∙ sym (
          sum_by-sort_by (λ a. count_where p (items_of s a))
            (by_lower_name percent lower_le equal_lower) (active_actors s production_id))
      ∙ sum_by-same
          (sort_by (by_lower_name percent lower_le equal_lower) (active_actors s production_id))
    where
      sum_by-same :
          (actors : List Actor)
          → sum_by (λ a. count_where p (items_of s a)) actors
            ≡ sum_by column (map (λ a. actor_summary percent a (items_of s a)) actors)
      sum_by-same [] = refl
      sum_by-same (a ∷ actors) = omega (arith, same a (items_of s a), sum_by-same actors)

  -- The rollup of a production and the rows of its actors are computed without an error or a change
  -- of the tables, and each count of the rollup is the sum of that count over the rows.
  pub production_kpis-IsSumOf :
      (k : ProductionKpis) × (rows : List ActorSummary) × (production_kpis production_id s
        ≡ ok (k, s))
      × (actor_summaries percent lower_le equal_lower production_id s ≡ ok (rows, s))
      × IsSumOf k rows
  unfolding production_kpis actor_summaries
  production_kpis-IsSumOf = (
    _,
    summaries,
    refl,
    refl,
    record {
      total = sum_by-summaries (λ r. r.active_items) any_item (λ a items. refl);
      find = sum_by-summaries (λ r. r.find) _ (λ a items. refl);
      make = sum_by-summaries (λ r. r.make) _ (λ a items. refl);
      fit = sum_by-summaries (λ r. r.fit) _ (λ a items. refl);
      alterations = sum_by-summaries (λ r. r.alterations) _ (λ a items. refl);
      complete = sum_by-summaries (λ r. r.complete) _ (λ a items. refl);
      blocked = sum_by-summaries (λ r. r.blocked) _ (λ a items. refl);
      incomplete =
          left_over (joined_items s production_id)
          ∙ sum_by-summaries (λ r. r.incomplete) (λ i. not (has_status status_complete i))
              (λ a items. left_over items);
    },
  )
    where
      left_over :
          (items : List CostumeItem)
          → count_where any_item items - count_where (has_status status_complete) items
            ≡ count_where (λ i. not (has_status status_complete i)) items
      left_over items = omega (arith, count_where-not (has_status status_complete) items)
