-- ===== src/Storage/Reports/Counts.antt =====
-- The counts of internal/storage/reports.go against those of the item type summary.
use costume_tree.Common.{
  ℕ, ◌+◌, ◌≡◌, refl, sym, ap, ◌∙◌, inl, inr, Bool, true, ◌&&◌, List, [], ◌∷◌, map, ok, Text,
  is_empty, trim_space, arith, All, ltb, ◌==◌, count_where, select, sort_by, sum_by, sum_by-map,
  sum_by-sort_by, Bool-cases,
}
use mathlib.Core.Path.{fun_ext}
use costume_tree.Storage.Models.{
  ItemType, status_find, status_make, status_fit, status_alterations, status_complete,
}
use costume_tree.Storage.Database.{Store, is_none}
use costume_tree.Storage.ItemTypeSummary
use costume_tree.Storage.ItemTypeSummary.{
  ItemTypeSummary, of_type, with_status, summary_of, represented,
}
use costume_tree.Storage.ItemTypeSummary.Totals.{IsKnown, statuses-total, select-keeps}
use costume_tree.Storage.Reports.{
  ReportFilter, ReportCategory, FilteredReport, has_status, counted_items, category_of, by_name,
  has_category, categories, generate,
}

module _ {ℓ} {A : Type ℓ} where
  count_where-select :
      (p : A → Bool) (xs : List A) → count_where (λ x. true) (select p xs) ≡ count_where p xs
  count_where-select p [] = refl
  count_where-select p (x ∷ xs) = elim (Bool-cases (p x)) [
    | inl h ↦ rw h (ap (λ n. 1 + n) (count_where-select p xs))
    | inr h ↦ rw h (omega (arith, count_where-select p xs))
  ]

  select_all : (p : A → Bool) (xs : List A) → ((x : A) → p x ≡ true) → select p xs ≡ xs
  select_all p [] h = refl
  select_all p (x ∷ xs) h = rw (h x) (ap (λ ys. x ∷ ys) (select_all p xs h))

  -- Elements without a contribution may be left out of a sum.
  sum_by-select :
      (f : A → ℕ) (p q : A → Bool) (xs : List A)
      → ((x : A) → q x ≡ (p x && ltb 0 (f x)))
      → sum_by f (select q xs) ≡ sum_by f (select p xs)
  sum_by-select f p q [] h = refl
  sum_by-select f p q (x ∷ xs) h = ground (arith, h x, sum_by-select f p q xs h)

  sum_by_same : (f g : A → ℕ) (xs : List A) → ((x : A) → f x ≡ g x) → sum_by f xs ≡ sum_by g xs
  sum_by_same f g [] h = refl
  sum_by_same f g (x ∷ xs) h = omega (arith, h x, sum_by_same f g xs h)

-- The category of a summary row.
abbrev pub of_summary : ItemTypeSummary → ReportCategory
of_summary r = record {
  item_type_id = r.item_type_id;
  item_type_name = r.item_type_name;
  count = r.total;
}

module _ (name_le : Text → Text → Bool) (lower : Text → Text) where
  counted_items_all :
      (status : Text) (s : Store) (t : ItemType)
      → is_empty (trim_space status) ≡ true
      → counted_items status s t ≡ of_type s t
  counted_items_all status s t h = select_all (has_status status) (of_type s t) (λ i. rw h refl)

  -- A report with a blank status has the categories of the item type summary: the same types in the
  -- same order, each with the total of its row.
  pub generate-eq-summary :
      (f : ReportFilter) (s t : Store) (report : FilteredReport)
      → is_empty (trim_space f.status) ≡ true
      → generate name_le lower f s ≡ ok (report, t)
      → (rows : List ItemTypeSummary) × (ItemTypeSummary.list name_le f.production_id s
          ≡ ok (rows, s))
        × (report.categories ≡ map of_summary rows)
  unfolding generate ItemTypeSummary.list categories
  generate-eq-summary f s t report blank e = elim (Bool-cases (f.production_id == 0)) [
    | inl h ↦ let no = rw h at e in cc
    | inr h ↦
        let made = rw h at e in
        let same : categories name_le lower f s ≡ report.categories = cc in
        (
          map (λ t. summary_of t (of_type s t))
              (sort_by (by_name name_le lower)
                (select (represented name_le f.production_id s) s.item_types)),
          refl,
          sym same ∙ as_summary,
        )
  ]
    where
      mapped :
          (ts : List ItemType)
          → map (category_of f.status s) ts
            ≡ map of_summary (map (λ t. summary_of t (of_type s t)) ts)
      mapped [] = refl
      mapped (t ∷ ts) = ground (arith, counted_items_all f.status s t blank, mapped ts)

      same_types : has_category name_le lower f s ≡ represented name_le f.production_id s
      same_types = fun_ext (λ t.
          ap
            (λ items.
              t.production_id == f.production_id
              && (is_none t.archived_at && ltb 0 (count_where (λ i. true) items)))
            (counted_items_all f.status s t blank))

      as_summary :
          categories name_le lower f s
          ≡ map of_summary (
              map
                (λ t. summary_of t (of_type s t))
                (sort_by
                  (by_name name_le lower)
                  (select (represented name_le f.production_id s) s.item_types)))
      as_summary =
          mapped _
          ∙ ap
              (λ p. map of_summary (
                map (λ t. summary_of t (of_type s t))
                  (sort_by (by_name name_le lower) (select p s.item_types))))
              same_types

  -- What a report with a status counts.
  total_of-eq :
      (p : ℕ) (status : Text) (s : Store)
      → sum_by
          (λ (c : ReportCategory). c.count)
          (categories name_le lower (record { production_id = p; status = status }) s)
        ≡ sum_by
            (λ t. count_where (has_status status) (of_type s t))
            (select (λ t. t.production_id == p && is_none t.archived_at) s.item_types)
  unfolding categories
  total_of-eq p status s =
      let f : ReportFilter = record { production_id = p; status = status } in
      let counts = λ (t : ItemType). count_where (λ i. true) (counted_items status s t) in
      sum_by-map (λ (c : ReportCategory). c.count) (category_of status s) _
      ∙ sum_by-sort_by counts (by_name name_le lower) _
      ∙ sum_by-select counts (λ t. t.production_id == p && is_none t.archived_at)
          (has_category name_le lower f s) s.item_types (λ t. ground arith)
      ∙ sum_by_same counts _ _ (λ t. count_where-select (has_status status) (of_type s t))

  -- All pieces that a report counts.
  abbrev pub total_of : ℕ → Text → Store → ℕ
  total_of p status s =
      sum_by (λ (c : ReportCategory). c.count)
        (categories name_le lower (record { production_id = p; status = status }) s)

  -- If every item in the table has one of the five statuses, as the table's CHECK demands, the counts
  -- of the five reports by status add up to the count of the report without a status.
  pub total_of-statuses :
      (p : ℕ) (s : Store)
      → All IsKnown s.items
      → total_of p status_find s
          + total_of p status_make s
          + total_of p status_fit s
          + total_of p status_alterations s
          + total_of p status_complete s
        ≡ total_of p [] s
  unfolding trim_space is_empty
  total_of-statuses p s h =
      let types = select (λ t. t.production_id == p && is_none t.archived_at) s.item_types in
      let sum = five_sums types in
      omega (
        arith,
        total_of-eq p status_find s,
        total_of-eq p status_make s,
        total_of-eq p status_fit s,
        total_of-eq p status_alterations s,
        total_of-eq p status_complete s,
        total_of-eq p [] s,
        sum,
      )
    where
      five_sums :
          (types : List ItemType)
          → sum_by (λ t. count_where (has_status status_find) (of_type s t)) types
              + sum_by (λ t. count_where (has_status status_make) (of_type s t)) types
              + sum_by (λ t. count_where (has_status status_fit) (of_type s t)) types
              + sum_by (λ t. count_where (has_status status_alterations) (of_type s t)) types
              + sum_by (λ t. count_where (has_status status_complete) (of_type s t)) types
            ≡ sum_by (λ t. count_where (has_status []) (of_type s t)) types
      five_sums [] = refl
      five_sums (t ∷ types) =
          omega (
            arith,
            statuses-total (of_type s t) (select-keeps IsKnown _ s.items h),
            five_sums types,
          )
