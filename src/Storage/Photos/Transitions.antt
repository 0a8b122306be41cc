-- ===== src/Storage/Photos/Transitions.antt =====
-- The life of a photo's status in internal/storage/photos.go: from pending to ready or failed, once.
use costume_tree.Common.{
  ℕ, ◌≡◌, refl, ap, ◌∙◌, subst, inl, inr, Bool, true, false, not, Option, none, some, List, [], ◌∷◌,
  ok, err, Text, text_eq, arith, find?, update_where, Bool-cases,
}
use costume_tree.Storage.Models.{
  CostumeItemPhoto, StoreError, invalid_photo_status, photo_status_pending,
}
use costume_tree.Storage.Database.{Store, guard, fail, pure, ◌>>=◌}
use costume_tree.Storage.Keeps.{>>=-eq-ok}
use costume_tree.Storage.Lookups.{Reads-scan_photo}
use costume_tree.Storage.Frames.{not_pending-ne-ok}
use costume_tree.Storage.Photos.{
  is_photo, is_pending, is_pending_photo, with_status, known_photo_status, not_pending,
  transition_row, transition_pending, transition,
}

module _ (id : ℕ) (status message : Text) (now : ℕ) where
  abbrev pub changed : List CostumeItemPhoto → List CostumeItemPhoto
  changed photos = update_where (is_pending_photo id) (with_status status message now) photos

  -- Rows that left the pending status are not found as pending.
  find?-changed_pending :
      (photos : List CostumeItemPhoto)
      → text_eq status photo_status_pending ≡ false
      → find? (is_pending_photo id) (changed photos) ≡ none
  find?-changed_pending [] h = refl
  find?-changed_pending (p ∷ photos) h = elim (Bool-cases (is_pending_photo id p)) [
    | inl e ↦ rw (e, h) (ground (arith, find?-changed_pending photos h))
    | inr e ↦ rw (e, e) (find?-changed_pending photos h)
  ]

  -- A photo is still found by its id.
  find?-changed :
      (photos : List CostumeItemPhoto) {q : CostumeItemPhoto}
      → find? (is_pending_photo id) photos ≡ some q
      → (p : CostumeItemPhoto) × (find? (is_photo id) (changed photos) ≡ some p)
  find?-changed [] e = cc
  find?-changed (p ∷ photos) e = elim (Bool-cases (is_photo id p)) [
    | inl h ↦ elim (Bool-cases (is_pending p)) [
      | inl k ↦ (with_status status message now p, rw (h, k, h) refl)
      | inr k ↦ (p, rw (h, k, h) refl)
    ]
    | inr h ↦ let (r, found) = find?-changed photos (rw h at e) in (r, rw (h, h) found)
  ]

pub guard-ok :
    (b : Bool) (x : StoreError) (s t : Store) → guard b x s ≡ ok (tt, t) → (b ≡ true) × (t ≡ s)
unfolding guard pure fail
guard-ok true x s t e = (refl, cc)
guard-ok false x s t e = cc

-- A transition that succeeds, taken apart.
pub record Transition (id : ℕ) (status message : Text) (now : ℕ) (s t : Store) : Type 0 where
  pub photo : CostumeItemPhoto
  pub was_pending : find? (is_pending_photo id) s.photos ≡ some photo
  pub is_known : known_photo_status status ≡ true
  pub not_pending : text_eq status photo_status_pending ≡ false
  pub result : t ≡ record s { photos = changed id status message now s.photos }

transition_row-ok :
    (id : ℕ) (status message : Text) (now : ℕ) (o : Option CostumeItemPhoto) (s t : Store)
    (a : CostumeItemPhoto)
    → transition_row id status message now o s ≡ ok (a, t)
    → (photo : CostumeItemPhoto) × (o ≡ some photo)
      × (t ≡ record s { photos = changed id status message now s.photos })
unfolding transition_row
transition_row-ok id status message now (some p) s t a e =
    (p, refl, (Reads-scan_photo _).same _ a t e)
transition_row-ok id status message now none s t a e = absurd (not_pending-ne-ok _ s a t e)

pub transition-ok :
    (id : ℕ) (status message : Text) (now : ℕ) (s t : Store) (a : CostumeItemPhoto)
    → transition id status message now s ≡ ok (a, t)
    → Transition id status message now s t
unfolding transition transition_pending
transition-ok id status message now s t a e =
    let (u, r, e₁, e₂) = >>=-eq-ok (guard (known_photo_status status) invalid_photo_status) _ s e in
    let (v, r', e₃, e₄) =
      >>=-eq-ok (guard (not (text_eq status photo_status_pending)) invalid_photo_status) _ r e₂ in
    let (known, same) = guard-ok _ _ s r e₁ in
    let (other, same') = guard-ok _ _ r r' e₃ in
    let here : r' ≡ s = same' ∙ same in
    let (p, found, result) =
      transition_row-ok id status message now (find? (is_pending_photo id) s.photos) s t a
        (subst (λ x. transition_pending id status message now x ≡ ok (a, t)) here e₄) in
    record {
      photo = p;
      was_pending = found;
      is_known = known;
      not_pending = ground arith;
      result = result;
    }

-- A transition of a photo that is there and not pending is refused.
transition-refused :
    (id : ℕ) (status message : Text) (now : ℕ) (s : Store) (p : CostumeItemPhoto)
    → find? (is_pending_photo id) s.photos ≡ none
    → find? (is_photo id) s.photos ≡ some p
    → transition id status message now s ≡ err invalid_photo_status
unfolding transition transition_pending transition_row not_pending guard pure fail ◌>>=◌
transition-refused id status message now s p none_pending there =
    elim (Bool-cases (known_photo_status status)) [
      | inl k ↦ elim (Bool-cases (text_eq status photo_status_pending)) [
        | inl e ↦ rw (k, e) refl
        | inr e ↦ rw (k, e, none_pending) (ap (λ o. not_pending o s) there)
      ]
      | inr k ↦ rw k refl
    ]

-- A photo changes its status once: after a transition of a photo has succeeded, each further
-- transition of it, to whatever status, is refused with the invalid status error.
pub transition-once :
    (id : ℕ) (status message : Text) (now : ℕ) (s t : Store) (a : CostumeItemPhoto)
    (status' message' : Text) (now' : ℕ)
    → transition id status message now s ≡ ok (a, t)
    → transition id status' message' now' t ≡ err invalid_photo_status
transition-once id status message now s t a status' message' now' e =
    let made = transition-ok id status message now s t a e in
    let photos : t.photos ≡ changed id status message now s.photos =
      ap (λ r. r.photos) made.result in
    let (p, there) = find?-changed id status message now s.photos made.was_pending in
    transition-refused id status' message' now' t p
      (rw photos (find?-changed_pending id status message now s.photos made.not_pending))
      (rw photos there)
