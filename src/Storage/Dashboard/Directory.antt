-- ===== src/Storage/Dashboard/Directory.antt =====
-- The directory of productions says what the dashboards say.
use costume_tree.Common.{
  ℕ, suc, ◌+◌, ◌≡◌, refl, sym, ap, ◌∙◌, ap₂, inl, inr, Bool, true, false, ◌&&◌, ◌==◌, ltb, Option,
  none, some, List, [], ◌∷◌, ◌++◌, ok, Text, arith, All, length, select, count_where,
  count_where-append, sort_by, map, flat_map, sum_by-map, sum_by-sort_by, length-sum_by, Bool-cases,
}
use costume_tree.Storage.Models.{Actor, CostumeItem, Production}
use costume_tree.Storage.Database.{Store, is_none}
use costume_tree.Storage.Dashboard.{
  ProductionKpis, ActorSummary, ProductionDirectoryEntry, Average, JoinedRow, active_actors,
  items_of, any_item, is_blocked, left_join, directory_actors, directory_items, rows_of_actor,
  actor_ids, count_distinct, has_item, has_blocked_item, production_kpis, actor_summary,
  by_lower_name, actor_summaries, directory_entry, production_directory,
}
use costume_tree.Storage.Dashboard.Totals.{summaries}

-- An entry that says of its production what the dashboard says.
pub record AgreesWithDashboard (percent : Average → Text)
    (lower_le equal_lower : Text → Text → Bool) (s : Store) (e : ProductionDirectoryEntry)
    : Type 0 where
  pub kpis : ProductionKpis
  pub rows : List ActorSummary
  pub rollup : production_kpis e.id s ≡ ok (kpis, s)
  pub summaries : actor_summaries percent lower_le equal_lower e.id s ≡ ok (rows, s)
  pub pieces : e.piece_count ≡ kpis.total_active_pieces
  pub blocked : e.blocked_count ≡ kpis.blocked
  pub actors : e.actor_count ≡ length rows

-- The primary key of the actors
abbrev pub IdsDiffer : List Actor → Type 0
IdsDiffer [] = Unit {0}
IdsDiffer (a ∷ actors) = All (λ (b : Actor). (b.id == a.id) ≡ false) actors × IdsDiffer actors

All-select {ℓ κ} :
    {A : Type ℓ} (P : A → Type κ) (p : A → Bool) (xs : List A) → All P xs → All P (select p xs)
All-select P p [] h = tt
All-select P p (x ∷ xs) h = elim (Bool-cases (p x)) [
  | inl e ↦ rw e (h.0, All-select P p xs h.1)
  | inr e ↦ rw e (All-select P p xs h.1)
]

IdsDiffer-select :
    (p : Actor → Bool) (actors : List Actor) → IdsDiffer actors → IdsDiffer (select p actors)
IdsDiffer-select p [] h = tt
IdsDiffer-select p (a ∷ actors) h = elim (Bool-cases (p a)) [
  | inl e ↦ rw e (All-select _ p actors h.0, IdsDiffer-select p actors h.1)
  | inr e ↦ rw e (IdsDiffer-select p actors h.1)
]

module _ (s : Store) (p : Production) where
  -- The rows of some actors
  abbrev rows_of : List Actor → List JoinedRow
  rows_of actors = flat_map (rows_of_actor s p) (map some actors)

  abbrev pairs : Actor → List (Option CostumeItem) → List JoinedRow
  pairs a is = map (λ i. (some a, i)) is

  -- Counts of the joined items are counts of the rows that have an item.
  counts_rows :
      (q : CostumeItem → Bool) (r : JoinedRow → Bool)
      → ((a : Option Actor) (i : CostumeItem) → r (a, some i) ≡ q i)
      → ((a : Option Actor) → r (a, none) ≡ false)
      → (a : Actor) (is : List CostumeItem)
      → count_where r (pairs a (left_join is)) ≡ count_where q is
  counts_rows q r some_row no_row a [] = rw (no_row (some a)) refl
  counts_rows q r some_row no_row a (i ∷ is) = some_rows (i ∷ is)
    where
      some_rows : (is : List CostumeItem) → count_where r (pairs a (map some is)) ≡ count_where q is
      some_rows [] = refl
      some_rows (j ∷ js) = ground (arith, some_row (some a) j, some_rows js)

  -- An actor of the production has the same items under both joins.
  same_items :
      (a : Actor) (items : List CostumeItem)
      → (a.production_id == p.id) ≡ true
      → select (λ i. i.production_id == p.id && (i.actor_id == a.id && is_none i.archived_at)) items
        ≡ select
            (λ i.
              i.production_id == a.production_id && (i.actor_id == a.id && is_none i.archived_at))
            items
  same_items a items h =
      ap
        (λ n.
          select
            (λ (i : CostumeItem).
              i.production_id == n && (i.actor_id == a.id && is_none i.archived_at))
            items)
        (ground (arith, h))

  counts :
      (q : CostumeItem → Bool) (r : JoinedRow → Bool)
      → ((a : Option Actor) (i : CostumeItem) → r (a, some i) ≡ q i)
      → ((a : Option Actor) → r (a, none) ≡ false)
      → (actors : List Actor) → All (λ (a : Actor). (a.production_id == p.id) ≡ true) actors
      → count_where r (rows_of actors) ≡ count_where q (flat_map (items_of s) actors)
  counts q r some_row no_row [] h = refl
  counts q r some_row no_row (a ∷ actors) h =
      count_where-append r (rows_of_actor s p (some a)) (rows_of actors)
      ∙ ap₂ (λ m n. m + n)
          (counts_rows q r some_row no_row a (directory_items s p (some a))
            ∙ ap (count_where q) (same_items a s.items h.0))
          (counts q r some_row no_row actors h.1)
      ∙ sym (count_where-append q (items_of s a) (flat_map (items_of s) actors))

  -- A block of rows of one actor counts once.
  distinct_block :
      (a : Actor) (i : Option CostumeItem) (is : List (Option CostumeItem)) (rest : List JoinedRow)
      → count_where (λ m. m == a.id) (actor_ids rest) ≡ 0
      → count_distinct (actor_ids (pairs a (i ∷ is) ++ rest))
        ≡ suc (count_distinct (actor_ids rest))
  distinct_block a i [] rest h = rw h refl
  distinct_block a i (j ∷ is) rest h =
      let again : ltb 0 (count_where (λ m. m == a.id) (actor_ids (pairs a (j ∷ is) ++ rest)))
          ≡ true =
        ground arith in
      rw again (distinct_block a j is rest h)

  absent :
      (n : ℕ) (a : Actor) (is : List (Option CostumeItem)) (rest : List JoinedRow)
      → (a.id == n) ≡ false
      → count_where (λ m. m == n) (actor_ids rest) ≡ 0
      → count_where (λ m. m == n) (actor_ids (pairs a is ++ rest)) ≡ 0
  absent n a [] rest e h = h
  absent n a (i ∷ is) rest e h = rw e (omega (arith, absent n a is rest e h))

  absent_rows :
      (n : ℕ) (actors : List Actor)
      → All (λ (b : Actor). (b.id == n) ≡ false) actors
      → count_where (λ m. m == n) (actor_ids (rows_of actors)) ≡ 0
  absent_rows n [] h = refl
  absent_rows n (a ∷ actors) h =
      absent n a (left_join (directory_items s p (some a))) (rows_of actors) h.0
        (absent_rows n actors h.1)

  distinct_joined :
      (a : Actor) (is : List CostumeItem) (rest : List JoinedRow)
      → count_where (λ m. m == a.id) (actor_ids rest) ≡ 0
      → count_distinct (actor_ids (pairs a (left_join is) ++ rest))
        ≡ suc (count_distinct (actor_ids rest))
  distinct_joined a [] rest h = distinct_block a none [] rest h
  distinct_joined a (i ∷ is) rest h = distinct_block a (some i) (map some is) rest h

  distinct_actors :
      (actors : List Actor)
      → IdsDiffer actors
      → count_distinct (actor_ids (rows_of actors)) ≡ length actors
  distinct_actors [] h = refl
  distinct_actors (a ∷ actors) h =
      distinct_joined a (directory_items s p (some a)) (rows_of actors)
        (absent_rows a.id actors h.0)
      ∙ ap suc (distinct_actors actors h.1)

  -- A production without an active actor has one row of NULLs, which no column counts.
  joined_count :
      (r : JoinedRow → Bool)
      → ((a : Option Actor) → r (a, none) ≡ false)
      → (actors : List Actor)
      → count_where r (flat_map (rows_of_actor s p) (left_join actors))
        ≡ count_where r (rows_of actors)
  joined_count r no_row [] = rw (no_row none) refl
  joined_count r no_row (a ∷ actors) = refl

  joined_distinct :
      (actors : List Actor)
      → count_distinct (actor_ids (flat_map (rows_of_actor s p) (left_join actors)))
        ≡ count_distinct (actor_ids (rows_of actors))
  joined_distinct [] = refl
  joined_distinct (a ∷ actors) = refl

  of_production :
      (actors : List Actor)
      → All
          (λ (a : Actor). (a.production_id == p.id) ≡ true)
          (select (λ a. a.production_id == p.id && is_none a.archived_at) actors)
  of_production [] = tt
  of_production (a ∷ actors) =
      elim (Bool-cases (a.production_id == p.id && is_none a.archived_at)) [
        | inl e ↦ rw e (ground (arith, e), of_production actors)
        | inr e ↦ rw e (of_production actors)
      ]

module _ (percent : Average → Text) (lower_le equal_lower : Text → Text → Bool) where
  length-summaries :
      (s : Store) (production_id : ℕ)
      → length (active_actors s production_id)
        ≡ length (summaries percent lower_le equal_lower production_id s)
  length-summaries s production_id =
      let actors = active_actors s production_id in
      let le = by_lower_name percent lower_le equal_lower in
      length-sum_by actors
      ∙ sym (sum_by-sort_by (λ a. 1) le actors)
      ∙ sym (sum_by-map (λ r. 1) (λ a. actor_summary percent a (items_of s a)) (sort_by le actors))
      ∙ sym (length-sum_by (summaries percent lower_le equal_lower production_id s))

  directory_entry-Agrees :
      (s : Store) (p : Production)
      → IdsDiffer s.actors
      → AgreesWithDashboard percent lower_le equal_lower s
          (directory_entry lower_le equal_lower s p)
  unfolding production_kpis actor_summaries
  directory_entry-Agrees s p unique =
      let actors = directory_actors s p in
      record {
        kpis = _;
        rows = summaries percent lower_le equal_lower p.id s;
        rollup = refl;
        summaries = refl;
        pieces =
            joined_count s p has_item (λ a. refl) actors
            ∙ counts s p any_item has_item (λ a i. refl) (λ a. refl) actors
                (of_production s p s.actors);
        blocked =
            joined_count s p has_blocked_item (λ a. refl) actors
            ∙ counts s p is_blocked has_blocked_item (λ a i. refl) (λ a. refl) actors
                (of_production s p s.actors);
        actors =
            joined_distinct s p actors
            ∙ distinct_actors s p actors (IdsDiffer-select _ s.actors unique)
            ∙ length-summaries s p.id;
      }

  All-entries :
      (s : Store) (ps : List Production)
      → IdsDiffer s.actors
      → All
          (AgreesWithDashboard percent lower_le equal_lower s)
          (map (directory_entry lower_le equal_lower s) ps)
  All-entries s [] unique = tt
  All-entries s (p ∷ ps) unique = (directory_entry-Agrees s p unique, All-entries s ps unique)

  -- If the ids of the actors differ, the directory is computed without an error or a change of the
  -- tables, and each entry has the pieces and the blocked pieces of its production's dashboard, and as
  -- many actors as it has rows.
  pub production_directory-AgreesWithDashboard :
      (s : Store)
      → IdsDiffer s.actors
      → (entries : List ProductionDirectoryEntry) × (production_directory lower_le equal_lower s
          ≡ ok (entries, s))
        × All (AgreesWithDashboard percent lower_le equal_lower s) entries
  unfolding production_directory
  production_directory-AgreesWithDashboard s unique = (_, refl, All-entries s _ unique)
