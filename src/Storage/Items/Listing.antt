-- ===== src/Storage/Items/Listing.antt =====
-- `List` of costume items, internal/storage/repositories.go.
use costume_tree.Common.{
  ℕ, suc, ◌≡◌, ◌≢◌, ◌↔◌, ◌∙◌, sym, refl, Bool, true, false, not, ◌&&◌, ◌||◌, ◌==◌, leb, ltb,
  if◌then◌else◌, List, [], ◌∷◌, ok, arith, All-map, is_empty_iff, is_empty-false, Option, none,
  some, select, sort_by, IsSorted, sort_by-perm, sort_by-IsSorted, Text, text, text_eq, text_eq_iff,
  is_empty, storable, sql_trim,
}
use mathlib.Core.List.{Perm}
use costume_tree.Storage.Models.{CostumeItem, CostumeItemFilter, status_complete}
use costume_tree.Storage.Database.{Store, is_none}
use costume_tree.Storage.Items.{by_rank, status_rank, matches, list}

by_rank_trans : (a b c : CostumeItem) → by_rank a b ≡ true → by_rank b c ≡ true → by_rank a c ≡ true
by_rank_trans a b c h k = ground arith

by_rank-total : (a b : CostumeItem) → by_rank a b ≡ false → by_rank b a ≡ true
by_rank-total a b h = ground arith

-- What a filter asks of an item: an id of 0 and an empty text ask nothing.
pub record IsWanted (filter : CostumeItemFilter) (i : CostumeItem) : Type 0 where
  pub scoped : i.production_id ≡ filter.production_id
  pub active : filter.include_archived ≡ false → i.archived_at ≡ none
  pub of_actor : filter.actor_id ≢ 0 → i.actor_id ≡ filter.actor_id
  pub of_type : filter.item_type_id ≢ 0 → i.item_type_id ≡ filter.item_type_id
  pub coded : filter.code ≢ [] → i.code ≡ filter.code
  pub in_status : filter.status ≢ [] → i.status ≡ filter.status
  pub incomplete : filter.incomplete ≡ true → i.status ≢ status_complete
  pub blocked : filter.blocked ≡ true → sql_trim i.blocker ≢ []

-- The order of the work.
abbrev pub stages : List Text
stages = text "Find" ∷ text "Make" ∷ text "Fit" ∷ text "Alterations" ∷ text "Complete" ∷ []

-- The place of a status in a list, the list's length if it is not there.
abbrev pub place : List Text → Text → ℕ
place [] status = 0
place (stage ∷ rest) status = if text_eq status stage then 0 else suc (place rest status)

abbrev pub by_stage : CostumeItem → CostumeItem → Bool
by_stage a b =
    ltb (place stages a.status) (place stages b.status)
    || (place stages a.status == place stages b.status && leb a.id b.id)

-- What a listing gives: the items of the rows that a test picks, which picks those that the filter asks
-- for.
pub record IsListing (filter : CostumeItemFilter) (rows items : List CostumeItem) : Type 0 where
  pub picks : CostumeItem → Bool
  pub picks_iff : (i : CostumeItem) → picks i ≡ true ↔ IsWanted filter i
  pub complete : Perm items (select picks rows)
  pub sorted : IsSorted by_stage items

status_rank-place : (status : Text) → status_rank status ≡ suc (place stages status)
unfolding status_rank
status_rank-place status = ground arith

by_place :
    (r q m n : ℕ) (c : Bool)
    → r ≡ suc m
    → q ≡ suc n
    → (ltb r q || (r == q && c)) ≡ (ltb m n || (m == n && c))
by_place r q m n c e f = ground arith

by_rank-stage : (a b : CostumeItem) → by_rank a b ≡ true → by_stage a b ≡ true
by_rank-stage a b h =
    sym (by_place _ _ _ _ (leb a.id b.id) (status_rank-place a.status) (status_rank-place b.status))
    ∙ h

IsSorted-stage : (items : List CostumeItem) → IsSorted by_rank items → IsSorted by_stage items
IsSorted-stage [] h = tt
IsSorted-stage (i ∷ items) h =
    (All-map _ _ items (λ j k. by_rank-stage i j k) h.0, IsSorted-stage items h.1)

pub is_none_iff : (o : Option ℕ) → is_none o ≡ true ↔ (o ≡ none)
is_none_iff none = (λ h. refl, λ h. refl)
is_none_iff (some n) = (λ h. cc, λ h. cc)

is_empty-ne : (s : Text) → is_empty s ≡ false → s ≢ []
is_empty-ne s h e = let empty : is_empty s ≡ true = (is_empty_iff s).1 e in cc

or_intro : (b c : Bool) → (b ≡ false → c ≡ true) → (b || c) ≡ true
or_intro true c h = refl
or_intro false c h = h refl

pub or_elim : (b c : Bool) → (b || c) ≡ true → b ≡ false → c ≡ true
or_elim b c h k = ground arith

matches-IsWanted :
    (filter : CostumeItemFilter) (i : CostumeItem) → matches filter i ≡ true → IsWanted filter i
unfolding matches
matches-IsWanted filter i h = record {
  scoped = ground arith;
  active = λ a. (is_none_iff i.archived_at).0 (ground arith);
  of_actor = λ a. ground arith;
  of_type = λ a. ground arith;
  coded = λ a.
      (text_eq_iff i.code filter.code).0
        (or_elim (is_empty filter.code) _ (ground arith) (is_empty-false _ a));
  in_status = λ a.
      (text_eq_iff i.status filter.status).0
        (or_elim (is_empty filter.status) _ (ground arith) (is_empty-false _ a));
  incomplete = λ a e.
      let is : text_eq i.status status_complete ≡ true = (text_eq_iff _ _).1 e in ground arith;
  blocked =
      λ a e. let is : is_empty (sql_trim i.blocker) ≡ true = (is_empty_iff _).1 e in ground arith;
}

all_of :
    (b c d e f g h k : Bool)
    → b ≡ true
    → c ≡ true
    → d ≡ true
    → e ≡ true
    → f ≡ true
    → g ≡ true
    → h ≡ true
    → k ≡ true
    → (b && (c && (d && (e && (f && (g && (h && k))))))) ≡ true
all_of b c d e f g h k p₁ p₂ p₃ p₄ p₅ p₆ p₇ p₈ = ground arith

IsWanted-matches :
    (filter : CostumeItemFilter) (i : CostumeItem) → IsWanted filter i → matches filter i ≡ true
unfolding matches
IsWanted-matches filter i w =
    all_of _ _ _ _ _ _ _ _ (ground (arith, w.scoped))
      (or_intro filter.include_archived _ (λ a. (is_none_iff i.archived_at).1 (w.active a)))
      (or_intro (filter.actor_id == 0) _
        (λ a. let same : i.actor_id ≡ filter.actor_id = w.of_actor (ground arith) in ground arith))
      (or_intro (filter.item_type_id == 0) _ (λ a.
        let same : i.item_type_id ≡ filter.item_type_id = w.of_type (ground arith) in ground arith))
      (or_intro _ _ (λ a. (text_eq_iff _ _).1 (w.coded (is_empty-ne _ a))))
      (or_intro _ _ (λ a. (text_eq_iff _ _).1 (w.in_status (is_empty-ne _ a))))
      (or_intro (not filter.incomplete) _ (λ a.
        left_out (text_eq i.status status_complete)
          (λ t. w.incomplete (ground arith) ((text_eq_iff _ _).0 t))))
      (or_intro (not filter.blocked) _ (λ a.
        left_out (is_empty (sql_trim i.blocker))
          (λ t. w.blocked (ground arith) ((is_empty_iff _).0 t))))
  where
    left_out : (b : Bool) → ¬ (b ≡ true) → not b ≡ true
    left_out b h = ground arith

-- `List` of a filter whose code and status are texts of the database succeeds and changes nothing: it
-- gives the rows that the filter asks for, each as often as the table has it, in the order of the
-- stages of the work and then by id.
pub list-IsListing :
    (filter : CostumeItemFilter) (s : Store)
    → storable filter.code ≡ true
    → storable filter.status ≡ true
    → (items : List CostumeItem) × (list filter s ≡ ok (items, s)) × IsListing filter s.items items
unfolding list
list-IsListing filter s c t = (
  sort_by by_rank (select (matches filter) s.items),
  rw (c, t) refl,
  record {
    picks = matches filter;
    picks_iff = λ i. (matches-IsWanted filter i, IsWanted-matches filter i);
    complete = sort_by-perm by_rank _;
    sorted = IsSorted-stage _ (sort_by-IsSorted by_rank by_rank_trans by_rank-total _);
  },
)
