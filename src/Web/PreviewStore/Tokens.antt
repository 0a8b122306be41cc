-- ===== src/Web/PreviewStore/Tokens.antt =====
-- Which tokens of internal/web/bulk_import.go's preview store give a preview.
use costume_tree.Common.{
  ℕ, ◌≡◌, ◌≢◌, refl, sym, ap, ◌∙◌, inl, inr, false, Option, none, some, List, [], ◌∷◌, ltb, Text,
  text_eq, Bool-cases, Option-cases,
}
use costume_tree.Storage.BulkImport.{BulkImportPreview}
use costume_tree.Web.PreviewStore.{
  BulkPreviewEntry, BulkPreviewStore, entry_of, delete_key, prune_entries, prune_used, retained,
  put, get_entry, get, consume_entry, consume,
}

module _ {ℓ} {A : Type ℓ} where
  entry_of-delete_key :
      (token : Text) (entries : List (Text × A)) → entry_of token (delete_key token entries) ≡ none
  entry_of-delete_key token [] = refl
  entry_of-delete_key token ((t, a) ∷ entries) = elim (Bool-cases (text_eq t token)) [
    | inl h ↦ rw h (entry_of-delete_key token entries)
    | inr h ↦ rw (h, h) (entry_of-delete_key token entries)
  ]

  entry_of-delete_other :
      (token other : Text) (entries : List (Text × A))
      → entry_of token entries ≡ none
      → entry_of token (delete_key other entries) ≡ none
  entry_of-delete_other token other [] h = refl
  entry_of-delete_other token other ((t, a) ∷ entries) h = elim (Bool-cases (text_eq t token)) [
    | inl e ↦ let no = rw e at h in cc
    | inr e ↦
        let rest = entry_of-delete_other token other entries (rw e at h) in
        elim (Bool-cases (text_eq t other)) [ inl d ↦ rw d rest | inr d ↦ rw (d, e) rest ]
  ]

prune_entries-none :
    (token : Text) (now : ℕ) (entries : List (Text × BulkPreviewEntry))
    → entry_of token entries ≡ none
    → entry_of token (prune_entries now entries) ≡ none
prune_entries-none token now [] h = refl
prune_entries-none token now ((t, e) ∷ entries) h = elim (Bool-cases (text_eq t token)) [
  | inl d ↦ let no = rw d at h in cc
  | inr d ↦
      let rest = prune_entries-none token now entries (rw d at h) in
      elim (Bool-cases (ltb now e.expires)) [ inl k ↦ rw (k, d) rest | inr k ↦ rw k rest ]
]

-- What the handlers do to the store with other tokens, or with this one but `put`.
pub data Uses : Text → BulkPreviewStore → BulkPreviewStore → Type 0 where
  unused : {token : Text} {s : BulkPreviewStore} → Uses token s s
  gets :
      {token : Text} {s t : BulkPreviewStore} (other : Text) (production_id : ℕ) (session : Text)
      (now : ℕ)
      → Uses token s t
      → Uses token s (get other production_id session now t).1
  consumes :
      {token : Text} {s t : BulkPreviewStore} (other : Text) (now : ℕ)
      → Uses token s t
      → Uses token s (consume other now t)
  puts :
      {token : Text} {s t : BulkPreviewStore} (other : Text) (preview : BulkImportPreview)
      (session : Text) (now : ℕ)
      → text_eq other token ≡ false
      → Uses token s t
      → Uses token s (put other preview session now t)

consume_entry-none :
    (token other : Text) (now : ℕ) (o : Option BulkPreviewEntry) (s : BulkPreviewStore)
    → entry_of token s.entries ≡ none
    → entry_of token (consume_entry other now o s).entries ≡ none
unfolding consume_entry
consume_entry-none token other now none s h = h
consume_entry-none token other now (some e) s h = entry_of-delete_other token other s.entries h

-- A token without an entry stays without one.
Uses-none :
    {s t : BulkPreviewStore} (token : Text)
    → Uses token s t
    → entry_of token s.entries ≡ none
    → entry_of token t.entries ≡ none
unfolding get consume put
Uses-none token unused h = h
Uses-none token (gets {t} other p session now u) h =
    prune_entries-none token now t.entries (Uses-none token u h)
Uses-none token (consumes {t} other now u) h =
    consume_entry-none token other now (entry_of other t.entries) t (Uses-none token u h)
Uses-none token (puts {t} other preview session now d u) h = rw d (
    entry_of-delete_other token other _
      (prune_entries-none token now t.entries (Uses-none token u h)))

consume-none :
    (token : Text) (now : ℕ) (s : BulkPreviewStore)
    → entry_of token (consume token now s).entries ≡ none
unfolding consume consume_entry
consume-none token now s = elim (Option-cases (entry_of token s.entries)) [
  | inl o ↦ rw o o
  | inr (e, o) ↦ rw o (entry_of-delete_key token s.entries)
]

get_entry-none :
    (o : Option ℕ) (p : ℕ) (session : Text) (preview : BulkImportPreview)
    → get_entry none o p session ≢ retained preview
unfolding get_entry
get_entry-none none p session preview = λ e. cc
get_entry-none (some at) p session preview = λ e. cc

-- Once a token has been consumed, `get` never returns a preview for it again, whatever calls with
-- it or with other tokens come in between, unless `put` gives the same token out anew.
pub consume-get :
    (token : Text) (now later p : ℕ) (session : Text) (s t : BulkPreviewStore)
    (preview : BulkImportPreview)
    → Uses token (consume token now s) t
    → (get token p session later t).0 ≢ retained preview
unfolding get
consume-get token now later p session s t preview u =
    let absent =
      prune_entries-none token later t.entries (Uses-none token u (consume-none token now s)) in
    λ e.
      get_entry-none _ p session preview (
        sym (ap (λ o. get_entry o (entry_of token (prune_used later t.used)) p session) absent) ∙ e)
