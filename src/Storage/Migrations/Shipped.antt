-- ===== src/Storage/Migrations/Shipped.antt =====
-- The scripts of internal/storage/migrations as the statements that they consist of: the names of the
-- tables, columns and indexes. The rows and constraints are those of Storage.Database.
use costume_tree.Common.{
  ◌≡◌, refl, ap, ◌∙◌, inl, inr, Bool, false, not, Option, none, some, List, [], ◌∷◌, ◌++◌, arith,
  Bool-cases, Option-cases, subst, Text, text, text_eq, find?, All, if◌then◌else◌,
}
use costume_tree.Storage.Database.{is_none}
use costume_tree.Storage.Migrations.{DirEntry}
use costume_tree.Storage.Migrations.Schema.{Database, Table, named, table_exists, history_name}
use costume_tree.Storage.Migrations.Histories.{LeavesHistory}

pub data Statement : Type 0 where
  create_table : Text → List Text → Statement
  create_index : Text → Statement

-- A statement fails if its table or index exists.
unfoldable pub run_statement : Statement → Database → Option Database
unfolding table_exists
run_statement (create_table name columns) d =
    if table_exists name d
    then none
    else some (record d { tables = d.tables ++ record { name = name; columns = columns } ∷ [] })
run_statement (create_index name) d =
    if not (is_none (find? (text_eq name) d.indexes))
    then none
    else some (record d { indexes = d.indexes ++ name ∷ [] })

abbrev pub after : Option Database → (Database → Option Database) → Option Database
after none f = none
after (some d) f = f d

unfoldable pub run_statements : List Statement → Database → Option Database
unfolding run_statement
run_statements [] d = some d
run_statements (x ∷ xs) d = after (run_statement x d) (run_statements xs)

unfoldable pub initial_script : List Statement
initial_script =
    create_table (text "productions")
      (text "id" ∷ text "name" ∷ text "archived_at" ∷ text "created_at" ∷ text "updated_at" ∷ [])
    ∷ create_table (text "actors") (
        text "id"
        ∷ text "production_id"
        ∷ text "name"
        ∷ text "role"
        ∷ text "notes"
        ∷ text "archived_at"
        ∷ text "created_at"
        ∷ text "updated_at"
        ∷ [])
    ∷ create_table (text "item_types") (
        text "id"
        ∷ text "production_id"
        ∷ text "name"
        ∷ text "archived_at"
        ∷ text "created_at"
        ∷ text "updated_at"
        ∷ [])
    ∷ create_table (text "production_item_sequences")
        (text "production_id" ∷ text "next_value" ∷ [])
    ∷ create_table (text "costume_items") (
        text "id"
        ∷ text "production_id"
        ∷ text "actor_id"
        ∷ text "item_type_id"
        ∷ text "code"
        ∷ text "description"
        ∷ text "status"
        ∷ text "progress"
        ∷ text "next_action"
        ∷ text "blocker"
        ∷ text "notes"
        ∷ text "archived_at"
        ∷ text "created_at"
        ∷ text "updated_at"
        ∷ [])
    ∷ create_index (text "idx_productions_active")
    ∷ create_index (text "idx_actors_production_active")
    ∷ create_index (text "idx_item_types_active_name")
    ∷ create_index (text "idx_item_types_production_active")
    ∷ create_index (text "idx_costume_items_production_active")
    ∷ create_index (text "idx_costume_items_actor_active")
    ∷ create_index (text "idx_costume_items_type_active")
    ∷ create_index (text "idx_costume_items_status_active")
    ∷ create_index (text "idx_costume_items_code")
    ∷ []

unfoldable pub photos_script : List Statement
photos_script =
    create_table (text "costume_item_photos") (
      text "id"
      ∷ text "production_id"
      ∷ text "costume_item_id"
      ∷ text "original_name"
      ∷ text "display_name"
      ∷ text "thumbnail_name"
      ∷ text "media_type"
      ∷ text "status"
      ∷ text "error_message"
      ∷ text "created_at"
      ∷ text "updated_at"
      ∷ [])
    ∷ create_index (text "idx_costume_item_photos_item")
    ∷ create_index (text "idx_costume_item_photos_pending")
    ∷ []

-- The embedded directory
abbrev pub shipped_entries : List DirEntry
shipped_entries =
    record { name = text "0001_initial.sql"; is_dir = false }
    ∷ record { name = text "0002_costume_item_photos.sql"; is_dir = false }
    ∷ []

unfoldable pub shipped : Text → Database → Option Database
unfolding run_statements initial_script photos_script text_eq
shipped name d =
    if text_eq name (text "0001_initial.sql")
    then run_statements initial_script d
    else if text_eq name (text "0002_costume_item_photos.sql")
    then run_statements photos_script d
    else none

-- The statement is not about the table schema_migrations.
abbrev IsApart : Statement → Type 0
IsApart (create_table name columns) = text_eq name history_name ≡ false
IsApart (create_index name) = Unit

find?-snoc :
    (p : Table → Bool) (ts : List Table) (t : Table)
    → p t ≡ false
    → find? p (ts ++ t ∷ []) ≡ find? p ts
find?-snoc p [] t h = rw h refl
find?-snoc p (x ∷ ts) t h = ground (arith, find?-snoc p ts t h)

-- What a script leaves alone.
abbrev Leaves : Database → Database → Type 0
Leaves d d' =
    (d'.history ≡ d.history) × (table_exists history_name d' ≡ table_exists history_name d)

some_injective {ℓ} : {A : Type ℓ} {a b : A} → some a ≡ some b → a ≡ b
some_injective h = cc

run_statement-Leaves :
    (x : Statement) (d d' : Database) → IsApart x → run_statement x d ≡ some d' → Leaves d d'
unfolding run_statement
run_statement-Leaves (create_table name columns) d d' apart h =
    elim (Bool-cases (table_exists name d)) [
      | inl t ↦ let bad = rw t at h in cc
      | inr t ↦
          subst (Leaves d) (some_injective (rw t at h))
            (refl, ap (λ o. not (is_none o)) (find?-snoc (named history_name) d.tables _ apart))
    ]
run_statement-Leaves (create_index name) d d' apart h =
    elim (Bool-cases (not (is_none (find? (text_eq name) d.indexes)))) [
      | inl t ↦ let bad = rw t at h in cc
      | inr t ↦ subst (Leaves d) (some_injective (rw t at h)) (refl, refl)
    ]

run_statements-Leaves :
    (xs : List Statement) (d d' : Database)
    → All IsApart xs
    → run_statements xs d ≡ some d'
    → Leaves d d'
unfolding run_statements
run_statements-Leaves [] d d' apart h = subst (Leaves d) (some_injective h) (refl, refl)
run_statements-Leaves (x ∷ xs) d d' apart h = elim (Option-cases (run_statement x d)) [
  | inl e ↦ let bad = rw e at h in cc
  | inr (d1, e) ↦
      let (history, table) = run_statement-Leaves x d d1 apart.0 e in
      let (history', table') = run_statements-Leaves xs d1 d' apart.1 (rw e at h) in
      (history' ∙ history, table' ∙ table)
]

pub shipped-LeavesHistory : LeavesHistory shipped
unfolding shipped
shipped-LeavesHistory name d d' h = elim (Bool-cases (text_eq name (text "0001_initial.sql"))) [
  | inl e ↦
      run_statements-Leaves initial_script d d'
        (
          refl,
          (refl, (refl, (refl, (refl, (tt, (tt, (tt, (tt, (tt, (tt, (tt, (tt, (tt, tt))))))))))))),
        )
        (rw e at h)
  | inr e ↦ elim (Bool-cases (text_eq name (text "0002_costume_item_photos.sql"))) [
    | inl f ↦ run_statements-Leaves photos_script d d' (refl, (tt, (tt, tt))) (rw (e, f) at h)
    | inr f ↦ let bad = rw (e, f) at h in cc
  ]
]
