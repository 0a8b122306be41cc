-- ===== src/Storage/Search/Pages.antt =====
-- The pages of internal/storage/search_queries.go: bounded, of one production, and complete.
use costume_tree.Common.{
  ℕ, zero, suc, ◌+◌, ◌*◌, ◌≤◌, ◌<◌, ◌≡◌, ◌≢◌, refl, sym, ap, ◌∙◌, subst, inl, inr, Bool, true,
  false, List, [], ◌∷◌, ◌++◌, map, Outcome, ok, and_then, Text, arith, All, length, select,
  sort_by-All, take, drop, length-take-le, take_add, drop_add, take_all, ◌==◌, Bool-cases, ℤ, pos,
  negsuc, Option, none, some, find?, leb_ℤ, text_eq, text_eq_iff, is_empty, is_empty_iff,
  is_empty-false, sql_trim, trim_space,
}
use mathlib.Core.List.{map-append, Mem, mem-cons_self, mem-cons_of_mem}
use costume_tree.Storage.Models.{StoreError, Actor, ItemType, CostumeItem, status_complete}
use costume_tree.Storage.Items.Listing.{is_none_iff, or_elim}
use costume_tree.Storage.Search
use costume_tree.Storage.Database.{Store, is_actor, is_item_type}
use costume_tree.Storage.Search.{
  ItemSearchFilter, ItemSearchResult, Joined, page_limit, page_offset, max_limit, join_row,
  join_rows, by_rank, result_of, matches, matching, search_items,
}

-- The limit is from 1 to 100 whatever is asked for, and is what is asked for within that range.
page_limit_bounds : (n : ℤ) → (0 < page_limit n) × (page_limit n ≤ max_limit)
unfolding page_limit
page_limit_bounds (pos n) = ground arith
page_limit_bounds (negsuc n) = (omega arith, omega arith)

page_limit-pos : (n : ℕ) → 0 < n → n ≤ max_limit → page_limit (pos n) ≡ n
unfolding page_limit
page_limit-pos n p h = ground arith

module _ {ℓ κ} {A : Type ℓ} (P : A → Type κ) where
  All-take : (n : ℕ) (xs : List A) → All P xs → All P (take n xs)
  All-take zero xs h = tt
  All-take (suc n) [] h = tt
  All-take (suc n) (x ∷ xs) h = (h.0, All-take n xs h.1)

  All-drop : (n : ℕ) (xs : List A) → All P xs → All P (drop n xs)
  All-drop zero xs h = h
  All-drop (suc n) [] h = tt
  All-drop (suc n) (x ∷ xs) h = All-drop n xs h.1

length-map {ℓ κ} :
    {A : Type ℓ} {B : Type κ} (f : A → B) (xs : List A) → length (map f xs) ≡ length xs
length-map f [] = refl
length-map f (x ∷ xs) = ap suc (length-map f xs)

-- The joined rows stand for an item of the table, its actor and its type.
pub record IsJoined (s : Store) (r : Joined) : Type 0 where
  pub listed : Mem r.item s.items
  pub actor_found : find? (is_actor r.item.production_id r.item.actor_id) s.actors ≡ some r.actor
  pub type_found :
      find? (is_item_type r.item.production_id r.item.item_type_id) s.item_types ≡ some r.type

IsJoined-join_rows :
    (s : Store) (items : List CostumeItem)
    → ((i : CostumeItem) → Mem i items → Mem i s.items)
    → All (IsJoined s) (join_rows s items)
unfolding join_rows
IsJoined-join_rows s [] inside = tt
IsJoined-join_rows s (i ∷ items) inside =
    joined (IsJoined-join_rows s items (λ j m. inside j (mem-cons_of_mem i m)))
      (find? (is_actor i.production_id i.actor_id) s.actors)
      (find? (is_item_type i.production_id i.item_type_id) s.item_types) refl refl
  where
    joined :
        All (IsJoined s) (join_rows s items)
        → (a : Option Actor) (t : Option ItemType)
        → find? (is_actor i.production_id i.actor_id) s.actors ≡ a
        → find? (is_item_type i.production_id i.item_type_id) s.item_types ≡ t
        → All (IsJoined s) (join_row i a t (join_rows s items))
    joined rest (some a) (some t) e f =
        (record { listed = inside i mem-cons_self; actor_found = e; type_found = f }, rest)
    joined rest (some a) none e f = rest
    joined rest none t e f = rest

select-Both {ℓ κ} :
    {A : Type ℓ} (P : A → Type κ) (p : A → Bool) (xs : List A)
    → All P xs
    → All (λ x. P x × (p x ≡ true)) (select p xs)
select-Both P p [] h = tt
select-Both P p (x ∷ xs) h = elim (Bool-cases (p x)) [
  | inl e ↦ rw e ((h.0, e), select-Both P p xs h.1)
  | inr e ↦ rw e (select-Both P p xs h.1)
]

module _ (to_upper to_lower lower : Text → Text) where
  -- A result that an item of the table has, with its actor and its type, which the filter asks for: an
  -- id of 0 and an empty text ask nothing.
  pub record IsFound (f : ItemSearchFilter) (s : Store) (result : ItemSearchResult) : Type 0 where
    pub item : CostumeItem
    pub actor : Actor
    pub type : ItemType
    pub listed : Mem item s.items
    pub actor_found : find? (is_actor item.production_id item.actor_id) s.actors ≡ some actor
    pub type_found :
        find? (is_item_type item.production_id item.item_type_id) s.item_types ≡ some type
    pub columns : result ≡ record {
      id = item.id;
      code = item.code;
      actor = actor.name;
      role = actor.role;
      type = type.name;
      description = item.description;
      status = item.status;
      progress = item.progress;
      next_action = item.next_action;
      blocker = item.blocker;
    }
    pub scoped : item.production_id ≡ f.production_id
    pub active : f.include_archived ≡ false → (item.archived_at ≡ none) × (actor.archived_at ≡ none)
    pub of_actor : f.actor_id ≢ 0 → item.actor_id ≡ f.actor_id
    pub of_type : f.item_type_id ≢ 0 → item.item_type_id ≡ f.item_type_id
    pub coded : to_upper (trim_space f.code) ≢ [] → item.code ≡ to_upper (trim_space f.code)
    pub in_status : trim_space f.status ≢ [] → item.status ≡ trim_space f.status
    pub incomplete : f.incomplete ≡ true → item.status ≢ status_complete
    pub blocked : f.blocked ≡ true → sql_trim item.blocker ≢ []
    pub at_least : (m : ℤ) → f.min_progress ≡ some m → leb_ℤ m item.progress ≡ true
    pub at_most : (m : ℤ) → f.max_progress ≡ some m → leb_ℤ item.progress m ≡ true

  matches-IsFound :
      (f : ItemSearchFilter) (s : Store) (r : Joined)
      → IsJoined s r
      → matches to_upper to_lower lower f r ≡ true
      → IsFound f s (result_of r)
  unfolding matches
  matches-IsFound f s r j h = record {
    item = r.item;
    actor = r.actor;
    type = r.type;
    listed = j.listed;
    actor_found = j.actor_found;
    type_found = j.type_found;
    columns = refl;
    scoped = ground arith;
    active = λ a. (
      (is_none_iff r.item.archived_at).0 (ground arith),
      (is_none_iff r.actor.archived_at).0 (ground arith),
    );
    of_actor = λ a. ground arith;
    of_type = λ a. ground arith;
    coded = λ a.
        (text_eq_iff _ _).0
          (or_elim (is_empty (to_upper (trim_space f.code))) _ (ground arith) (is_empty-false _ a));
    in_status = λ a.
        (text_eq_iff _ _).0
          (or_elim (is_empty (trim_space f.status)) _ (ground arith) (is_empty-false _ a));
    incomplete = λ a e.
        let is : text_eq r.item.status status_complete ≡ true = (text_eq_iff _ _).1 e in
        ground arith;
    blocked = λ a e.
        let is : is_empty (sql_trim r.item.blocker) ≡ true = (is_empty_iff _).1 e in ground arith;
    at_least = λ m e.
        let bound : Search.at_least f.min_progress r.item.progress ≡ true = ground arith in
        subst (λ o. Search.at_least o r.item.progress ≡ true) e bound;
    at_most = λ m e.
        let bound : Search.at_most f.max_progress r.item.progress ≡ true = ground arith in
        subst (λ o. Search.at_most o r.item.progress ≡ true) e bound;
  }

  IsFound-rows :
      (f : ItemSearchFilter) (s : Store) (rows : List Joined)
      → All (λ r. IsJoined s r × (matches to_upper to_lower lower f r ≡ true)) rows
      → All (IsFound f s) (map result_of rows)
  IsFound-rows f s [] h = tt
  IsFound-rows f s (r ∷ rows) h = (matches-IsFound f s r h.0.0 h.0.1, IsFound-rows f s rows h.1)

  matching-All :
      (f : ItemSearchFilter) (s : Store)
      → All
          (λ r. IsJoined s r × (matches to_upper to_lower lower f r ≡ true))
          (matching to_upper to_lower lower f s)
  unfolding matching
  matching-All f s = sort_by-All by_rank _ _ (
      select-Both (IsJoined s) (matches to_upper to_lower lower f) _
        (IsJoined-join_rows s s.items (λ i m. m)))

  -- A search that succeeds changes nothing and gives at most 100 results, whatever limit is asked
  -- for. Each has the columns of an item of the table and of its actor and item type. That item is
  -- of the filter's production, it and its actor are not archived unless the filter asks for those, and
  -- it has the actor, item type, code, status, progress, blocker and incompleteness that are asked for.
  pub search_items-IsFound :
      (f : ItemSearchFilter) (s t : Store) (rows : List ItemSearchResult)
      → search_items to_upper to_lower lower f s ≡ ok (rows, t)
      → (length rows ≤ 100) × (t ≡ s) × All (IsFound f s) rows
  unfolding search_items
  search_items-IsFound f s t rows e = elim (Bool-cases (f.production_id == 0)) [
    | inl h ↦ let no = rw h at e in cc
    | inr h ↦
        let made = rw h at e in
        let page =
          take (page_limit f.limit)
            (drop (page_offset f.offset) (matching to_upper to_lower lower f s)) in
        let same : map result_of page ≡ rows = cc in
        let bound : length (map result_of page) ≤ 100 = omega (
          arith,
          length-map result_of page,
          length-take-le (page_limit f.limit)
              (drop (page_offset f.offset) (matching to_upper to_lower lower f s)),
          page_limit_bounds f.limit,
        ) in
        (
          subst (λ r. length r ≤ 100) same bound,
          cc,
          subst (All (IsFound f s)) same (
              IsFound-rows f s page (
                All-take _ (page_limit f.limit) _
                  (All-drop _ (page_offset f.offset) _ (matching-All f s)))),
        )
  ]

  -- The results of some pages of a size, one after the other, from an offset on.
  pub collect : ItemSearchFilter → ℕ → ℕ → ℕ → Store → Outcome StoreError (List ItemSearchResult)
  collect f size zero offset s = ok []
  collect f size (suc pages) offset s =
      and_then
        (search_items to_upper to_lower lower (record f { limit = pos size; offset = pos offset })
          s)
        (λ (rows, t). and_then (collect f size pages (offset + size) t) (λ rest. ok (rows ++ rest)))

  page-eq :
      (f : ItemSearchFilter) (size offset : ℕ) (s : Store)
      → (f.production_id == 0) ≡ false
      → 0 < size
      → size ≤ 100
      → search_items to_upper to_lower lower (record f { limit = pos size; offset = pos offset }) s
        ≡ ok (map result_of (take size (drop offset (matching to_upper to_lower lower f s))), s)
  unfolding search_items page_offset matching matches
  page-eq f size offset s h p b = rw (h, page_limit-pos size p b) refl

  collect-take :
      (f : ItemSearchFilter) (size pages offset : ℕ) (s : Store)
      → (f.production_id == 0) ≡ false
      → 0 < size
      → size ≤ 100
      → collect f size pages offset s
        ≡ ok (
            map result_of
              (take (pages * size) (drop offset (matching to_upper to_lower lower f s))))
  unfolding collect
  collect-take f size zero offset s h p b =
      let none_left : 0 ≡ 0 * size = omega arith in
      ap (λ n. ok (map result_of (take n (drop offset (matching to_upper to_lower lower f s)))))
        none_left
  collect-take f size (suc pages) offset s h p b =
      let rows = matching to_upper to_lower lower f s in
      rw (page-eq f size offset s h p b, collect-take f size pages (offset + size) s h p b)
        (ap ok (
          sym (
            ap (map result_of) (
              take_add size (pages * size) (suc pages * size) (drop offset rows) (grind arith)
              ∙ ap (λ r. take size (drop offset rows) ++ take (pages * size) r)
                  (sym (drop_add offset size (offset + size) rows refl)))
            ∙ map-append result_of _ _)))

  -- The pages of a size from 1 to 100, taken one after the other from the first, give every row
  -- that matches, once and in order, if there are enough of them.
  pub collect-matching :
      (f : ItemSearchFilter) (size pages : ℕ) (s : Store)
      → f.production_id ≢ 0
      → 0 < size
      → size ≤ 100
      → length (matching to_upper to_lower lower f s) ≤ pages * size
      → collect f size pages 0 s ≡ ok (map result_of (matching to_upper to_lower lower f s))
  collect-matching f size pages s ne p b enough =
      collect-take f size pages 0 s (ground arith) p b
      ∙ ap (λ rows. ok (map result_of rows))
          (take_all (pages * size) (matching to_upper to_lower lower f s) enough)
