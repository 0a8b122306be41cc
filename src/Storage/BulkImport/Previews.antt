-- ===== src/Storage/BulkImport/Previews.antt =====
-- What `Preview` of internal/storage/bulk_import.go computes of the blocks.
use costume_tree.Common.{
  ℕ, suc, ◌≡◌, ◌↔◌, refl, sym, inl, inr, Bool, true, false, ◌||◌, Option, none, some, List, [], ◌∷◌,
  ◌++◌, ok, Text, is_empty, trim_space, arith, All, All-append, Bool-cases, Option-cases,
  if◌then◌else◌,
}
use costume_tree.Bulk
use costume_tree.Storage.Models.{Production, Actor, ItemType}
use costume_tree.Storage.Database.{Store}
use costume_tree.Storage.BulkImport.{
  BulkImportRow, BulkImportPreview, PreviewState, PreviewError, nothing_pasted, missing_in_block,
  Names, named, bulk_name_key, with_actor, with_type, with_pair_seen, with_new_status, refuses,
  seen, bulk_row, preview_item, preview_items, has_no_items, has_no_rows, refuse, preview_blocks,
  preview_start, preview_end, preview_of, preview_scope, preview,
}

-- The rows are numbered on from a number, up to a last one.
abbrev pub Numbered : ℕ → List BulkImportRow → ℕ → Type 0
Numbered n [] last = n ≡ last
Numbered n (row ∷ rows) last = (row.number ≡ suc n) × Numbered (suc n) rows last

Numbered-append :
    (n last : ℕ) (rows : List BulkImportRow) (row : BulkImportRow)
    → Numbered n rows last
    → row.number ≡ suc last
    → Numbered n (rows ++ row ∷ []) (suc last)
Numbered-append n last [] row h e = (omega arith, omega arith)
Numbered-append n last (r ∷ rows) row h e = (h.0, Numbered-append (suc n) last rows row h.1 e)

-- What the state of the loops says of itself.
pub record IsConsistent (rows : List BulkImportRow) (number : ℕ) (errors : List PreviewError)
    (valid : Bool) : Type 0 where
  pub valid_iff : (valid ≡ true) ↔ (errors ≡ [])
  pub numbered : Numbered 0 rows number
  pub no_error : valid ≡ true → All (λ (row : BulkImportRow). row.error ≡ none) rows

abbrev Consistent : PreviewState → Type 0
Consistent st = IsConsistent st.rows st.row_number st.errors st.valid

append-ne-nil : (errors : List PreviewError) (e : PreviewError) → ¬ (errors ++ e ∷ [] ≡ [])
append-ne-nil [] e = λ h. cc
append-ne-nil (x ∷ errors) e = λ h. cc

refuse-Consistent :
    (e : PreviewError) (st : PreviewState) → Consistent st → Consistent (refuse e st)
refuse-Consistent e st c = record {
  valid_iff = (λ h. cc, λ h. absurd (append-ne-nil st.errors e h));
  numbered = c.numbered;
  no_error = λ h. cc;
}

chosen-Consistent :
    (b : Bool) (st st' : PreviewState)
    → Consistent st
    → Consistent st'
    → Consistent (if b then st else st')
chosen-Consistent true st st' c c' = c
chosen-Consistent false st st' c c' = c'

-- A row's steps keep its number, and only an unknown type gives it an error.
finish : Bool → Bool → Option ItemType → Option Actor → BulkImportRow → BulkImportRow
finish again allow typ actor row =
    with_new_status (with_pair_seen again (with_type allow typ (with_actor actor row)))

finish-number :
    (again allow : Bool) (typ : Option ItemType) (actor : Option Actor) (row : BulkImportRow)
    → (finish again allow typ actor row).number ≡ row.number
unfolding finish
finish-number again allow typ actor row = ground arith

finish-error :
    (again allow : Bool) (typ : Option ItemType) (actor : Option Actor) (row : BulkImportRow)
    → refuses allow typ ≡ false
    → row.error ≡ none
    → (finish again allow typ actor row).error ≡ none
unfolding finish
finish-error again allow typ actor row r e = ground arith

module _ (to_lower : Text → Text) (allow : Bool) (actors : Names Actor)
    (types : Names ItemType) where
  preview_item-Consistent :
      (n : ℕ) (block : Bulk.Block) (item : Bulk.Item) (st : PreviewState)
      → Consistent st
      → Consistent (preview_item to_lower allow actors types n block item st)
  unfolding preview_item finish
  preview_item-Consistent n block item st c =
      let name = trim_space item.type in
      let actor_key = bulk_name_key to_lower (trim_space block.actor) in
      let typ = named (bulk_name_key to_lower name) types in
      let again = seen (actor_key ++ (0 ∷ bulk_name_key to_lower name)) st.seen_pairs in
      let row = bulk_row (suc st.row_number) n (trim_space block.actor) block item name in
      let number = finish-number again allow typ (named actor_key actors) row in
      let error = finish-error again allow typ (named actor_key actors) row in
      elim (Bool-cases (refuses allow typ)) [
        | inl r ↦ rw r (record {
          valid_iff = (λ h. cc, λ h. absurd (append-ne-nil st.errors _ h));
          numbered = Numbered-append 0 st.row_number st.rows _ c.numbered number;
          no_error = λ h. cc;
        })
        | inr r ↦ rw r (record {
          valid_iff = c.valid_iff;
          numbered = Numbered-append 0 st.row_number st.rows _ c.numbered number;
          no_error = λ h. All-append _ st.rows _ (c.no_error h) (error r refl, tt);
        })
      ]

  preview_items-Consistent :
      (n : ℕ) (block : Bulk.Block) (items : List Bulk.Item) (st : PreviewState)
      → Consistent st
      → Consistent (preview_items to_lower allow actors types n block items st)
  unfolding preview_items
  preview_items-Consistent n block [] st c = c
  preview_items-Consistent n block (item ∷ items) st c =
      preview_items-Consistent n block items _ (preview_item-Consistent n block item st c)

  preview_blocks-Consistent :
      (n : ℕ) (blocks : List Bulk.Block) (st : PreviewState)
      → Consistent st
      → Consistent (preview_blocks to_lower allow actors types n blocks st)
  unfolding preview_blocks
  preview_blocks-Consistent n [] st c = c
  preview_blocks-Consistent n (block ∷ blocks) st c = preview_blocks-Consistent (suc n) blocks _ (
      chosen-Consistent (is_empty (trim_space block.actor) || has_no_items block.items) _ _
        (refuse-Consistent (missing_in_block n) st c)
        (preview_items-Consistent n block block.items st c))

preview_end-Consistent : (st : PreviewState) → Consistent st → Consistent (preview_end st)
preview_end-Consistent st c =
    chosen-Consistent (has_no_rows st.rows) _ _ (refuse-Consistent nothing_pasted st c) c

preview_of-Consistent :
    (to_lower : Text → Text) (s : Store) (p : ℕ) (blocks : List Bulk.Block) (allow : Bool)
    → Consistent (preview_of to_lower s p blocks allow)
unfolding preview_of
preview_of-Consistent to_lower s p [] allow =
    refuse-Consistent nothing_pasted preview_start
      (record { valid_iff = (λ _. refl, λ _. refl); numbered = refl; no_error = λ _. tt })
preview_of-Consistent to_lower s p (block ∷ blocks) allow = preview_end-Consistent _ (
    preview_blocks-Consistent to_lower allow _ _ 1 (block ∷ blocks) preview_start
      (record { valid_iff = (λ _. refl, λ _. refl); numbered = refl; no_error = λ _. tt }))

preview_scope-Consistent :
    (to_lower : Text → Text) (o : Option Production) (p : ℕ) (blocks : List Bulk.Block)
    (allow : Bool) (id : Text) (now : ℕ) (s t : Store) (v : BulkImportPreview)
    → preview_scope to_lower o p blocks allow id now s ≡ ok (v, t)
    → (number : ℕ) × IsConsistent v.rows number v.errors v.valid × (t ≡ s)
unfolding preview_scope
preview_scope-Consistent to_lower none p blocks allow id now s t v e = cc
preview_scope-Consistent to_lower (some q) p blocks allow id now s t v e =
    elim (Option-cases q.archived_at) [
      | inl o ↦
          let made = rw o at e in
          let rows : (preview_of to_lower s p blocks allow).rows ≡ v.rows = cc in
          let errors : (preview_of to_lower s p blocks allow).errors ≡ v.errors = cc in
          let valid : (preview_of to_lower s p blocks allow).valid ≡ v.valid = cc in
          (
            (preview_of to_lower s p blocks allow).row_number,
            rw (sym rows, sym errors, sym valid) (preview_of-Consistent to_lower s p blocks allow),
            cc,
          )
      | inr (x, o) ↦ let no = rw o at e in cc
    ]

-- A preview is valid exactly if it has no message; its rows are numbered from 1 in order; the
-- rows of a valid one carry no error; and a preview writes nothing.
pub preview-IsConsistent :
    (to_lower : Text → Text) (p : ℕ) (blocks : List Bulk.Block) (allow : Bool) (id : Text) (now : ℕ)
    (s t : Store) (v : BulkImportPreview)
    → preview to_lower p blocks allow id now s ≡ ok (v, t)
    → (number : ℕ) × IsConsistent v.rows number v.errors v.valid × (t ≡ s)
unfolding preview
preview-IsConsistent to_lower p blocks allow id now s t v =
    preview_scope-Consistent to_lower _ p blocks allow id now s t v
