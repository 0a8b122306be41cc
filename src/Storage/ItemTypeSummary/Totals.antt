-- ===== src/Storage/ItemTypeSummary/Totals.antt =====
-- The counts of internal/storage/item_type_summary.go add up.
use costume_tree.Common.{
  ℕ, ◌+◌, ◌≤◌, ◌<◌, ◌≡◌, refl, inl, inr, Bool, true, List, [], ◌∷◌, ok, Text, text_eq, arith, All,
  All-map, ltb, count_where, select, sort_by, sort_by-All, map, Bool-cases, sym, subst, text_eq_iff,
  ltb→lt, if◌then◌else◌,
}
use costume_tree.Storage.Models.{
  CostumeItem, ItemType, status_find, status_make, status_fit, status_alterations, status_complete,
}
use costume_tree.Storage.Database.{Store}
use costume_tree.Storage.Items.{known_status}
use costume_tree.Storage.ItemTypeSummary.{
  ItemTypeSummary, of_type, with_status, summary_of, by_name, represented, list,
}

-- The counts of a summary: its statuses make up the total, which is positive.
pub record AddsUp (r : ItemTypeSummary) : Type 0 where
  pub positive : 0 < r.total
  pub statuses : r.find + r.make + r.fit + r.alterations + r.complete ≡ r.total
  pub blocked : r.blocked ≤ r.total

-- 1 for the status of a row, else 0
abbrev one_if : Text → Text → ℕ
one_if status s = if text_eq s status then 1 else 0

abbrev sum_of_statuses : Text → ℕ
sum_of_statuses s =
    one_if status_find s
    + one_if status_make s
    + one_if status_fit s
    + one_if status_alterations s
    + one_if status_complete s

-- A known status is counted once.
one_status : (s : Text) → known_status s ≡ true → sum_of_statuses s ≡ 1
unfolding text_eq
one_status s h = elim (Bool-cases (text_eq s status_find)) [
  | inl e ↦ is_one s status_find e refl
  | inr e₁ ↦ elim (Bool-cases (text_eq s status_make)) [
    | inl e ↦ is_one s status_make e refl
    | inr e₂ ↦ elim (Bool-cases (text_eq s status_fit)) [
      | inl e ↦ is_one s status_fit e refl
      | inr e₃ ↦ elim (Bool-cases (text_eq s status_alterations)) [
        | inl e ↦ is_one s status_alterations e refl
        | inr e₄ ↦ is_one s status_complete (rw (e₁, e₂, e₃, e₄) at h) refl
      ]
    ]
  ]
]
  where
    is_one :
        (s status : Text)
        → text_eq s status ≡ true
        → sum_of_statuses status ≡ 1
        → sum_of_statuses s ≡ 1
    is_one s status e h = subst (λ x. sum_of_statuses x ≡ 1) (sym ((text_eq_iff s status).0 e)) h

abbrev pub IsKnown : CostumeItem → Type 0
IsKnown i = known_status i.status ≡ true

pub statuses-total :
    (items : List CostumeItem)
    → All IsKnown items
    → with_status status_find items
        + with_status status_make items
        + with_status status_fit items
        + with_status status_alterations items
        + with_status status_complete items
      ≡ count_where (λ i. true) items
statuses-total [] h = refl
statuses-total (i ∷ items) h = omega (arith, one_status i.status h.0, statuses-total items h.1)

count_where-le :
    (p : CostumeItem → Bool) (items : List CostumeItem)
    → count_where p items ≤ count_where (λ i. true) items
count_where-le p [] = omega arith
count_where-le p (i ∷ items) = ground (arith, count_where-le p items)

pub select-keeps {ℓ κ} :
    {A : Type ℓ} (P : A → Type κ) (p : A → Bool) (xs : List A) → All P xs → All P (select p xs)
select-keeps P p [] h = tt
select-keeps P p (x ∷ xs) h = elim (Bool-cases (p x)) [
  | inl e ↦ rw e (h.0, select-keeps P p xs h.1)
  | inr e ↦ rw e (select-keeps P p xs h.1)
]

select-All {ℓ} : {A : Type ℓ} (p : A → Bool) (xs : List A) → All (λ x. p x ≡ true) (select p xs)
select-All p [] = tt
select-All p (x ∷ xs) = elim (Bool-cases (p x)) [
  | inl h ↦ rw h (h, select-All p xs)
  | inr h ↦ rw h (select-All p xs)
]

summary_of-AddsUp :
    (production_id : ℕ) (s : Store) (t : ItemType)
    → All IsKnown s.items
    → ltb 0 (count_where (λ i. true) (of_type s t)) ≡ true
    → AddsUp (summary_of t (of_type s t))
summary_of-AddsUp production_id s t h e = record {
  positive = ltb→lt _ _ e;
  statuses = statuses-total (of_type s t) (select-keeps IsKnown _ s.items h);
  blocked = count_where-le _ (of_type s t);
}

All-mapped {ℓ κ μ} :
    {A : Type ℓ} {B : Type κ} (P : B → Type μ) (f : A → B) (xs : List A)
    → All (λ x. P (f x)) xs
    → All P (map f xs)
All-mapped P f [] h = tt
All-mapped P f (x ∷ xs) h = (h.0, All-mapped P f xs h.1)

-- If every item in the table has one of the five statuses, as the table's CHECK demands, the summary
-- of a production never fails or changes a table, and in each of its rows the five status counts
-- add up to the total, the total is positive, and at most that many items are blocked.
pub list-AddsUp :
    (name_le : Text → Text → Bool) (production_id : ℕ) (s : Store)
    → All (λ (i : CostumeItem). known_status i.status ≡ true) s.items
    → (rows : List ItemTypeSummary) × (list name_le production_id s ≡ ok (rows, s))
      × All AddsUp rows
unfolding list
list-AddsUp name_le production_id s h = (
  map (λ t. summary_of t (of_type s t))
      (sort_by (by_name name_le) (select (represented name_le production_id s) s.item_types)),
  refl,
  All-mapped AddsUp _ _ (
      sort_by-All (by_name name_le) _ _ (
        All-map _ _ _ (λ t e. summary_of-AddsUp production_id s t h (ground arith))
          (select-All (represented name_le production_id s) s.item_types))),
)
