-- ===== src/Storage/BulkImport/Commits.antt =====
-- At most one commit of a preview succeeds, whatever calls of `Commit` in internal/storage/bulk_import.go
-- run in between: the guards' sections as steps in any order.
use costume_tree.Common.{
  ℕ, ◌+◌, ◌≤◌, ◌<◌, ◌≡◌, ◌⊎◌, refl, sym, ap, subst, inl, inr, Bool, true, false, not, ◌||◌, ◌==◌,
  Option, none, some, List, [], ◌∷◌, Outcome, ok, err, Text, text_eq, is_empty, arith, ltb,
  Bool-cases, Outcome-cases, text_eq_iff,
}
use costume_tree.Storage.Models.{StoreError, duplicate_submit, stale_preview, CostumeItem}
use costume_tree.Storage.Database.{Store}
use costume_tree.Storage.BulkImport.{
  BulkImportPreview, bulk_import_preview_ttl, minute, seen, has_no_rows,
}
use costume_tree.Storage.BulkImport.Importer.{
  Guards, Clock, Commit, purge, is_committed, enter, leave, record_committed, is_stale,
  check_preview, commit, commit_checked, commit_entered, commit_end, commit_tx,
}

-- The commit of a preview at a time is in the map.
abbrev pub Remembered : Text → ℕ → List (Text × ℕ) → Type 0
Remembered id at [] = ⊥
Remembered id at (entry ∷ entries) = (entry ≡ (id, at)) ⊎ Remembered id at entries

purge-Remembered :
    (id : Text) (at now : ℕ) (entries : List (Text × ℕ))
    → now ≤ at + bulk_import_preview_ttl
    → Remembered id at entries
    → Remembered id at (purge now entries)
purge-Remembered id at now [] h r = r
purge-Remembered id at now ((i, a) ∷ entries) h (inl e) =
    let same : a ≡ at = cc in
    let kept : ltb (a + bulk_import_preview_ttl) now ≡ false = ground arith in rw kept (inl e)
purge-Remembered id at now ((i, a) ∷ entries) h (inr r) =
    let rest = purge-Remembered id at now entries h r in
    elim (Bool-cases (ltb (a + bulk_import_preview_ttl) now)) [
      | inl e ↦ rw e rest
      | inr e ↦ rw e (inr rest)
    ]

Remembered-is_committed :
    (id : Text) (at : ℕ) (entries : List (Text × ℕ))
    → Remembered id at entries
    → is_committed id entries ≡ true
Remembered-is_committed id at [] r = absurd r
Remembered-is_committed id at ((i, a) ∷ entries) (inl e) =
    let same : i ≡ id = cc in let eq : text_eq i id ≡ true = (text_eq_iff i id).1 same in rw eq refl
Remembered-is_committed id at ((i, a) ∷ entries) (inr r) =
    ground (arith, Remembered-is_committed id at entries r)

-- What calls of `Commit` do to the guards after a time: their locked sections in any order.
pub data Calls : ℕ → Guards → ℕ → Guards → Type 0 where
  idle : {m : ℕ} {g : Guards} → Calls m g m g
  entered :
      {m n : ℕ} {g h : Guards} (id : Text) (locked : ℕ)
      → Calls m g n h
      → n ≤ locked
      → Calls m g locked (enter id locked h).0
  left : {m n : ℕ} {g h : Guards} (id : Text) → Calls m g n h → Calls m g n (leave id h)
  recorded :
      {m n : ℕ} {g h : Guards} (id : Text) (done : ℕ)
      → Calls m g n h
      → Calls m g n (record_committed id done h)

-- The commit is remembered for as long as the TTL.
abbrev Known : Text → ℕ → ℕ → Guards → Type 0
Known id at now g = (at + bulk_import_preview_ttl < now) ⊎ Remembered id at g.committed

enter-committed :
    (id : Text) (locked : ℕ) (g : Guards)
    → (enter id locked g).0.committed ≡ purge locked g.committed
unfolding enter
enter-committed id locked g = ground arith

Calls-Known :
    {m n : ℕ} {g h : Guards} (id : Text) (at : ℕ)
    → Calls m g n h
    → Known id at m g
    → Known id at n h
unfolding leave record_committed
Calls-Known id at idle k = k
Calls-Known id at (entered {h} i locked c le) k = elim (Calls-Known id at c k) [
  | inl old ↦ inl (omega arith)
  | inr r ↦ elim (Bool-cases (ltb (at + bulk_import_preview_ttl) locked)) [
    | inl e ↦ inl (ground arith)
    | inr e ↦ inr (
        subst (Remembered id at) (sym (enter-committed i locked h))
          (purge-Remembered id at locked h.committed (ground arith) r))
  ]
]
Calls-Known id at (left i c) k = Calls-Known id at c k
Calls-Known id at (recorded i done c) k = elim (Calls-Known id at c k) [
  | inl old ↦ inl old
  | inr r ↦ inr (inr r)
]

-- What the checks of a preview have passed.
record Passed (preview : BulkImportPreview) (checked : ℕ) : Type 0 where
  created : ℕ
  is_created : preview.created_at ≡ some created
  well_formed :
      (is_empty preview.id
        || (preview.production_id == 0 || (has_no_rows preview.rows || not preview.valid)))
      ≡ false
  in_time : is_stale created checked ≡ false

check_preview-Passed :
    (preview : BulkImportPreview) (created : Option ℕ) (checked : ℕ)
    → preview.created_at ≡ created
    → check_preview preview created checked ≡ ok tt
    → Passed preview checked
unfolding check_preview
check_preview-Passed preview none checked c e = cc
check_preview-Passed preview (some created) checked c e = record {
  created = created;
  is_created = c;
  well_formed = ground arith;
  in_time = ground arith;
}

-- A committed preview is not let in again within the TTL.
enter-refuses :
    (id : Text) (at locked : ℕ) (g : Guards)
    → locked ≤ at + bulk_import_preview_ttl
    → Remembered id at g.committed
    → (enter id locked g).1 ≡ false
unfolding enter
enter-refuses id at locked g h r =
    let back =
      Remembered-is_committed id at (purge locked g.committed)
        (purge-Remembered id at locked g.committed h r) in
    rw back refl

module _ (to_lower : Text → Text) (equal_fold : Text → Text → Bool) (lower : Text → Text) where
  abbrev pub outcome_of : Commit → Outcome StoreError (List CostumeItem × Store)
  outcome_of c = c.1

  -- A commit that succeeds has passed the checks and is remembered.
  commit_entered-ok :
      (preview : BulkImportPreview) (clock : Clock) (s : Store) (entered : Guards × Bool)
      (g' : Guards) (r : List CostumeItem × Store)
      → commit_entered to_lower equal_fold lower preview clock s entered ≡ (g', ok r)
      → Remembered preview.id clock.done g'.committed
  unfolding commit_entered commit_end leave record_committed
  commit_entered-ok preview clock s (g, false) g' r e =
      let no : outcome_of (g, err duplicate_submit) ≡ ok r = ap (λ c. c.1) e in cc
  commit_entered-ok preview clock s (g, true) g' r e =
      elim (Outcome-cases (commit_tx to_lower equal_fold lower preview clock.now s)) [
        | inl ((items, t), o) ↦
            let guards : (preview.id, clock.done) ∷ g.committed ≡ g'.committed =
              ap (λ c. c.0.committed) (rw o at e) in
            subst (Remembered preview.id clock.done) guards (inl refl)
        | inr (x, o) ↦ let no : err x ≡ ok r = ap (λ c. c.1) (rw o at e) in cc
      ]

  commit-Passed :
      (preview : BulkImportPreview) (clock : Clock) (g g' : Guards) (s : Store)
      (r : List CostumeItem × Store)
      → commit to_lower equal_fold lower preview clock g s ≡ (g', ok r)
      → Passed preview clock.checked × Remembered preview.id clock.done g'.committed
  unfolding commit commit_checked
  commit-Passed preview clock g g' s r e =
      elim (Outcome-cases (check_preview preview preview.created_at clock.checked)) [
        | inl (u, o) ↦ (
          check_preview-Passed preview preview.created_at clock.checked refl o,
          commit_entered-ok preview clock s (enter preview.id clock.locked g) g' r (rw o at e),
        )
        | inr (x, o) ↦ let no : err x ≡ ok r = ap (λ c. c.1) (rw o at e) in cc
      ]

  -- After a commit of a preview has succeeded, no later commit of the same preview does, whatever
  -- locked sections of other calls run in between: it is refused as a duplicate or as stale. The
  -- preview was made before the first commit ended, and the second waits for the lock no longer
  -- than the preview had waited for that end.
  pub commit-once :
      (preview : BulkImportPreview) (first second : Clock) (g g' h : Guards) (s t : Store)
      (r : List CostumeItem × Store) (created m : ℕ)
      → commit to_lower equal_fold lower preview first g s ≡ (g', ok r)
      → Calls first.done g' m h
      → m ≤ second.locked
      → preview.created_at ≡ some created
      → created ≤ first.done
      → second.locked + created ≤ second.checked + first.done
      → (outcome_of (commit to_lower equal_fold lower preview second h t) ≡ err duplicate_submit)
        ⊎ (outcome_of (commit to_lower equal_fold lower preview second h t) ≡ err stale_preview)
  unfolding commit commit_checked check_preview commit_entered
      costume_tree.Storage.BulkImport.Importer.lock_bulk_production
      costume_tree.Storage.BulkImport.Importer.commit_scoped
  commit-once preview first second g g' h s t r created m e calls le c b w =
      let (p, remembered) = commit-Passed preview first g g' s r e in
      let same : p.created ≡ created = cc in
      elim (Bool-cases (is_stale created second.checked)) [
        | inl stale ↦ inr (rw (c, p.well_formed, stale) refl)
        | inr fresh ↦
            let in_time : second.checked ≤ created + bulk_import_preview_ttl = ground arith in
            let refused : (enter preview.id second.locked h).1 ≡ false =
              elim (Calls-Known preview.id first.done calls (inr remembered)) [
                | inl old ↦ absurd (omega arith)
                | inr known ↦
                    enter-refuses preview.id first.done second.locked h (omega arith) known
              ] in
            inl (
              rw (c, p.well_formed, fresh)
                (refused_duplicate preview second t (enter preview.id second.locked h) refused))
      ]
    where
      refused_duplicate :
          (preview : BulkImportPreview) (clock : Clock) (s : Store) (entered : Guards × Bool)
          → entered.1 ≡ false
          → outcome_of (commit_entered to_lower equal_fold lower preview clock s entered)
            ≡ err duplicate_submit
      refused_duplicate preview clock s (g, false) e = refl
      refused_duplicate preview clock s (g, true) e = cc
