-- ===== src/Storage/Items/Creation.antt =====
-- `Create` of costume items, internal/storage/repositories.go: it succeeds where it should.
use costume_tree.Common.{
  ℕ, suc, ◌<◌, ◌≡◌, refl, ap, ◌∙◌, inl, inr, Bool, true, false, not, Option, none, some, List, [],
  ◌∷◌, ◌++◌, ok, text_eq, arith, ltb, All, All-map, find?, find?-append, count_where,
  count_where-find?, update_where, Bool-cases, text_eq_iff, sql_trim-cons,
}
use costume_tree.Storage.Models.{Production, Actor, ItemType, CostumeItem, CreateCostumeItemInput}
use costume_tree.Storage.Database.{
  Sequence, Store, check_active, is_production, is_actor, is_item_type, is_item, found, pure,
  ensure_production, ensure_actor, ensure_item_type,
}
use costume_tree.Storage.Keeps.{>>=-ok}
use costume_tree.Storage.Productions.{has_text}
use costume_tree.Storage.Codes.{CodesAreValid, HasCode, sequence_value, fresh_code}
use costume_tree.Storage.Items.{
  max_bigint, format_code, is_sequence, upsert_sequence, next_code_value, allocate_code_tx,
  texts_storable, workflow_ok, has_code, insert_item, get, or_find, create,
}

module _ {ℓ} {A : Type ℓ} where
  counted :
      (p : A → Bool) (xs : List A) {x : A} → find? p xs ≡ some x → ltb 0 (count_where p xs) ≡ true
  counted p xs e = elim (Bool-cases (ltb 0 (count_where p xs))) [
    | inl h ↦ h
    | inr h ↦ let none_found : find? p xs ≡ none = (count_where-find? p xs).0 (ground arith) in cc
  ]

  count_where-none : (p : A → Bool) (xs : List A) → All (λ x. p x ≡ false) xs → count_where p xs ≡ 0
  count_where-none p [] h = refl
  count_where-none p (x ∷ xs) h = rw h.0 (omega (arith, count_where-none p xs h.1))

  find?-none : (p : A → Bool) (xs : List A) → All (λ x. p x ≡ false) xs → find? p xs ≡ none
  find?-none p [] h = refl
  find?-none p (x ∷ xs) h = rw h.0 (find?-none p xs h.1)

-- The sequence below the last BIGINT gives its next value.
next_code_value-succeeds :
    (p : ℕ) (s : Store)
    → sequence_value s.sequences p < max_bigint
    → (qs : List Sequence) × (next_code_value p s
        ≡ ok (suc (sequence_value s.sequences p), record s { sequences = qs }))
unfolding next_code_value upsert_sequence
next_code_value-succeeds p s h = from (find? (is_sequence p) s.sequences) refl
  where
    from :
        (o : Option Sequence)
        → find? (is_sequence p) s.sequences ≡ o
        → (qs : List Sequence) × (upsert_sequence p (find? (is_sequence p) s.sequences) s
            ≡ ok (suc (sequence_value s.sequences p), record s { sequences = qs }))
    from none e = (s.sequences ++ (record { production_id = p; next_value = 1 } ∷ []), rw e refl)
    from (some q) e =
        let below : ltb q.next_value max_bigint ≡ true = ground arith in
        (
          update_where (is_sequence p) (λ r. record r { next_value = suc r.next_value })
              s.sequences,
          rw (e, below) refl,
        )

-- No item has a code above those given.
has_code-fresh :
    (p value : ℕ) (items : List CostumeItem) (qs : List Sequence)
    → sequence_value qs p < value
    → All (HasCode qs) items
    → count_where (has_code p (format_code value)) items ≡ 0
has_code-fresh p value items qs lt h =
    count_where-none _ items (All-map _ _ items (λ i c. different i c) h)
  where
    different : (i : CostumeItem) → HasCode qs i → has_code p (format_code value) i ≡ false
    different i c = elim (Bool-cases (has_code p (format_code value) i)) [
      | inl e ↦
          let same_production : i.production_id ≡ p = ground arith in
          let same_text : text_eq i.code (format_code value) ≡ true = ground arith in
          absurd (fresh_code p value qs i lt c same_production ((text_eq_iff _ _).0 same_text))
      | inr e ↦ e
    ]

format_code-has_text : (value : ℕ) → has_text (format_code value) ≡ true
unfolding format_code
format_code-has_text value = ap not (sql_trim-cons b'C' _ refl)

ensure_production-active :
    (id : ℕ) (s : Store) (p : Production)
    → find? (is_production id) s.productions ≡ some p
    → p.archived_at ≡ none
    → ensure_production id s ≡ ok (tt, s)
unfolding ensure_production check_active pure
ensure_production-active id s p e a = rw (e, a) refl

ensure_actor-active :
    (production_id id : ℕ) (s : Store) (a : Actor)
    → find? (is_actor production_id id) s.actors ≡ some a
    → a.archived_at ≡ none
    → ensure_actor production_id id s ≡ ok (tt, s)
unfolding ensure_actor check_active pure
ensure_actor-active production_id id s a e h = rw (e, h) refl

ensure_item_type-active :
    (production_id id : ℕ) (s : Store) (t : ItemType)
    → find? (is_item_type production_id id) s.item_types ≡ some t
    → t.archived_at ≡ none
    → ensure_item_type production_id id s ≡ ok (tt, s)
unfolding ensure_item_type check_active pure
ensure_item_type-active production_id id s t e h = rw (e, h) refl

-- What a creation needs of the tables: the rows that the input names are there and active, the
-- codes and ids are below the next ones, and the sequence has a value left.
pub record CanCreate (input : CreateCostumeItemInput) (s : Store) : Type 0 where
  pub p : Production
  pub production_found : find? (is_production input.production_id) s.productions ≡ some p
  pub production_active : p.archived_at ≡ none
  pub a : Actor
  pub actor_found : find? (is_actor input.production_id input.actor_id) s.actors ≡ some a
  pub actor_active : a.archived_at ≡ none
  pub t : ItemType
  pub type_found : find? (is_item_type input.production_id input.item_type_id) s.item_types ≡ some t
  pub type_active : t.archived_at ≡ none
  pub texts :
      texts_storable input.description
        (or_find input.status)
        input.next_action
        input.blocker
        input.notes
      ≡ true
  pub workflow : workflow_ok (or_find input.status) input.progress ≡ true
  pub codes : CodesAreValid s.items s.sequences
  pub ids : All (λ (i : CostumeItem). i.id < s.next_item) s.items
  pub sequence_left : sequence_value s.sequences input.production_id < max_bigint

-- The item that a creation makes, column by column.
abbrev pub created_item : CreateCostumeItemInput → ℕ → Store → CostumeItem
created_item input now s = record {
  id = s.next_item;
  production_id = input.production_id;
  actor_id = input.actor_id;
  item_type_id = input.item_type_id;
  code = format_code (suc (sequence_value s.sequences input.production_id));
  description = input.description;
  status = or_find input.status;
  progress = input.progress;
  next_action = input.next_action;
  blocker = input.blocker;
  notes = input.notes;
  archived_at = none;
  created_at = now;
  updated_at = now;
}

-- The tables after it.
abbrev pub with_created : CreateCostumeItemInput → ℕ → List Sequence → Store → Store
with_created input now qs s = record s {
  sequences = qs;
  items = s.items ++ created_item input now s ∷ [];
  next_item = suc s.next_item;
}

insert_item-succeeds :
    (input : CreateCostumeItemInput) (now : ℕ) (s : Store) (qs : List Sequence)
    → CanCreate input s
    → insert_item
        (record input { status = or_find input.status })
        (format_code (suc (sequence_value s.sequences input.production_id)))
        now
        (record s { sequences = qs })
      ≡ ok (s.next_item, with_created input now qs s)
unfolding insert_item
insert_item-succeeds input now s qs c =
    let value = suc (sequence_value s.sequences input.production_id) in
    rw
      (
        c.texts,
        format_code-has_text value,
        c.workflow,
        counted _ s.actors c.actor_found,
        counted _ s.item_types c.type_found,
        has_code-fresh input.production_id value s.items s.sequences (omega arith) c.codes.given,
      )
      refl

get-created :
    (input : CreateCostumeItemInput) (now : ℕ) (s : Store) (qs : List Sequence)
    → CanCreate input s
    → get input.production_id s.next_item (with_created input now qs s)
      ≡ ok (created_item input now s, with_created input now qs s)
unfolding get found pure
get-created input now s qs c =
    let absent =
      find?-none (is_item input.production_id s.next_item) s.items
        (All-map _ _ s.items (λ i lt. ground arith) c.ids) in
    let own : is_item input.production_id s.next_item (created_item input now s) ≡ true =
      ground arith in
    let there =
      find?-append (is_item input.production_id s.next_item) s.items (created_item input now s ∷ [])
        absent in
    rw (there, own) refl

allocate_code_tx-succeeds :
    (p : ℕ) (s : Store) (row : Production)
    → find? (is_production p) s.productions ≡ some row
    → row.archived_at ≡ none
    → sequence_value s.sequences p < max_bigint
    → (qs : List Sequence) × (allocate_code_tx p s
        ≡ ok (format_code (suc (sequence_value s.sequences p)), record s { sequences = qs }))
unfolding allocate_code_tx pure
allocate_code_tx-succeeds p s row e a lt =
    let (qs, next) = next_code_value-succeeds p s lt in
    (
      qs,
      >>=-ok (ensure_production p) _ s (ensure_production-active p s row e a)
          ∙ >>=-ok (next_code_value p) _ s next,
    )

-- If the production, the actor and the item type are there and not archived, the input's strings are
-- texts of the database, the status (with Find for the empty one) and the progress satisfy the
-- table's checks, the codes are valid, the ids are
-- below the next one and the sequence is not exhausted, then `Create` succeeds. It returns the
-- item with the input's fields and the production's next code, appends that item to the table, and
-- of the other columns and tables it changes only the sequences and the next id.
pub create-succeeds :
    (input : CreateCostumeItemInput) (now : ℕ) (s : Store)
    → CanCreate input s
    → (qs : List Sequence) × (create input now s
        ≡ ok (created_item input now s, with_created input now qs s))
unfolding create
create-succeeds input now s c =
    let p = input.production_id in
    let (qs, allocated) =
      allocate_code_tx-succeeds p s c.p c.production_found c.production_active c.sequence_left in
    (
      qs,
      >>=-ok (ensure_production p) _ s
            (ensure_production-active p s c.p c.production_found c.production_active)
          ∙ >>=-ok (ensure_actor p input.actor_id) _ s
              (ensure_actor-active p input.actor_id s c.a c.actor_found c.actor_active)
          ∙ >>=-ok (ensure_item_type p input.item_type_id) _ s
              (ensure_item_type-active p input.item_type_id s c.t c.type_found c.type_active)
          ∙ >>=-ok (allocate_code_tx p) _ s allocated
          ∙ >>=-ok (insert_item _ _ now) _ (record s { sequences = qs })
              (insert_item-succeeds input now s qs c)
          ∙ get-created input now s qs c,
    )
