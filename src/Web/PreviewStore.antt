-- ===== src/Web/PreviewStore.antt =====
-- `bulkPreviewStore` of internal/web/bulk_import.go: the retained previews by their random tokens.
-- Times are nanoseconds; a map is an association list whose first pair with a key counts.
pub mod Tokens
use costume_tree.Common.{
  ℕ, ◌+◌, Bool, true, false, not, ◌&&◌, Option, none, some, List, [], ◌∷◌, ◌==◌, ltb, leb,
  if◌then◌else◌, Text, text_eq, is_empty,
}
use costume_tree.Storage.BulkImport.{BulkImportPreview, bulk_import_preview_ttl}

pub record BulkPreviewEntry : Type 0 where
  pub preview : BulkImportPreview
  pub session : Text
  pub expires : ℕ
  pub consumed : Bool

pub record BulkPreviewStore : Type 0 where
  pub entries : List (Text × BulkPreviewEntry)
  pub used : List (Text × ℕ)

abbrev pub entry_of {ℓ} : {A : Type ℓ} → Text → List (Text × A) → Option A
entry_of token [] = none
entry_of token ((t, a) ∷ entries) = if text_eq t token then some a else entry_of token entries

-- `delete` of a key
abbrev pub delete_key {ℓ} : {A : Type ℓ} → Text → List (Text × A) → List (Text × A)
delete_key token [] = []
delete_key token ((t, a) ∷ entries) =
    let rest = delete_key token entries in if text_eq t token then rest else (t, a) ∷ rest

-- The entries that expire later
abbrev pub prune_entries : ℕ → List (Text × BulkPreviewEntry) → List (Text × BulkPreviewEntry)
prune_entries now [] = []
prune_entries now ((t, e) ∷ entries) =
    let rest = prune_entries now entries in if ltb now e.expires then (t, e) ∷ rest else rest

-- The used tokens that are not older than the TTL
abbrev pub prune_used : ℕ → List (Text × ℕ) → List (Text × ℕ)
prune_used now [] = []
prune_used now ((t, at) ∷ used) =
    let rest = prune_used now used in
    if ltb (at + bulk_import_preview_ttl) now then rest else (t, at) ∷ rest

abbrev pub prune : ℕ → BulkPreviewStore → BulkPreviewStore
prune now s = record { entries = prune_entries now s.entries; used = prune_used now s.used }

-- What `get` returns.
pub data Lookup : Type 0 where
  retained : BulkImportPreview → Lookup
  missing duplicate_submit stale_preview other_session : Lookup

-- `put`, with the random token
unfoldable pub put : Text → BulkImportPreview → Text → ℕ → BulkPreviewStore → BulkPreviewStore
put token preview session now s =
    let pruned = prune now s in
    let entry : BulkPreviewEntry = record {
      preview = preview;
      session = session;
      expires = now + bulk_import_preview_ttl;
      consumed = false;
    } in
    record pruned { entries = (token, entry) ∷ delete_key token pruned.entries }

-- The end of `get`, at the entry found and at the time when the token was used
unfoldable pub get_entry : Option BulkPreviewEntry → Option ℕ → ℕ → Text → Lookup
get_entry none none production_id session = missing
get_entry none (some at) production_id session = duplicate_submit
get_entry (some e) used production_id session =
    if not (e.preview.production_id == production_id)
    then stale_preview
    else if not (is_empty e.session) && not (text_eq e.session session)
    then other_session
    else retained e.preview

unfoldable pub get : Text → ℕ → Text → ℕ → BulkPreviewStore → Lookup × BulkPreviewStore
unfolding get_entry
get token production_id session now s =
    let pruned = prune now s in
    (
      get_entry (entry_of token pruned.entries) (entry_of token pruned.used) production_id session,
      pruned,
    )

unfoldable pub consume_entry :
    Text → ℕ → Option BulkPreviewEntry → BulkPreviewStore → BulkPreviewStore
consume_entry token now none s = s
consume_entry token now (some e) s = record {
  entries = delete_key token s.entries;
  used = (token, now) ∷ delete_key token s.used;
}

unfoldable pub consume : Text → ℕ → BulkPreviewStore → BulkPreviewStore
unfolding consume_entry
consume token now s = consume_entry token now (entry_of token s.entries) s
