-- ===== src/PhotoService/Uploads/Variants.antt =====
-- The files that `Resolve` gives out.
use costume_tree.Common.{
  ℕ, ◌≡◌, refl, sym, ap, ◌∙◌, subst, ◌⊎◌, inl, inr, ok, Text, text, text_eq_iff, arith,
  Outcome-cases, and_then-eq-ok,
}
use costume_tree.Storage.Models.{CostumeItemPhoto, photo_status_ready}
use costume_tree.Storage.Database.{Store}
use costume_tree.Storage.Photos
use costume_tree.PhotoService.Uploads.{
  FileState, regular, irregular, missing, unreadable, variant_name, with_file, resolve,
}

-- The name of a variant: a derivative only of a photo that is ready.
abbrev pub IsVariant : CostumeItemPhoto → Text → Text → Type 0
IsVariant photo variant name =
    ((variant ≡ text "original") × (name ≡ photo.original_name))
    ⊎ ((photo.status ≡ photo_status_ready)
        × (((variant ≡ text "display") × (name ≡ photo.display_name))
            ⊎ ((variant ≡ text "thumbnail") × (name ≡ photo.thumbnail_name))))

variant_name-IsVariant :
    (photo : CostumeItemPhoto) (variant name : Text)
    → variant_name photo variant ≡ ok name
    → IsVariant photo variant name
unfolding variant_name
variant_name-IsVariant photo variant name e = ground (
  arith,
  text_eq_iff variant (text "original"),
  text_eq_iff variant (text "display"),
  text_eq_iff variant (text "thumbnail"),
  text_eq_iff photo.status photo_status_ready,
)

with_file-ok :
    (name : Text) (f : FileState) {file : Text}
    → with_file name f ≡ ok file
    → (f ≡ regular) × (file ≡ name)
with_file-ok name regular e = (refl, cc)
with_file-ok name irregular e = cc
with_file-ok name missing e = cc
with_file-ok name unreadable e = cc

-- `Resolve` gives out a photo that the repository has found in the scope of the production and the
-- item, with a regular file: the original, or a derivative if the photo is ready.
pub resolve-IsVariant :
    (stat : Text → FileState) (production_id item_id photo_id : ℕ) (variant : Text) (s : Store)
    (photo : CostumeItemPhoto) (file : Text)
    → resolve stat production_id item_id photo_id variant s ≡ ok (photo, file)
    → ((t : Store) × (Photos.get production_id item_id photo_id s ≡ ok (photo, t)))
      × (stat file ≡ regular)
      × IsVariant photo variant file
unfolding resolve
resolve-IsVariant stat production_id item_id photo_id variant s photo file e =
    elim (Outcome-cases (Photos.get production_id item_id photo_id s)) [
      | inr (x, q) ↦ let bad = rw q at e in cc
      | inl ((p, t), q) ↦
          let (name, named, e₁) = and_then-eq-ok (variant_name p variant) _ (rw q at e) in
          let (kept, there, e₂) = and_then-eq-ok (with_file name (stat name)) _ e₁ in
          let (is_regular, same) = with_file-ok name (stat name) there in
          let same_photo : p ≡ photo = cc in
          let same_file : name ≡ file = sym same ∙ (cc) in
          (
            (t, q ∙ ap (λ k. ok (k, t)) same_photo),
            subst (λ k. stat k ≡ regular) same_file is_regular,
            subst (λ k. IsVariant k variant file) same_photo
                (subst (IsVariant p variant) same_file
                  (variant_name-IsVariant p variant name named)),
          )
    ]
