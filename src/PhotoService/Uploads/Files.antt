-- ===== src/PhotoService/Uploads/Files.antt =====
-- The files that an upload leaves in the directory.
use costume_tree.Common.{
  ℕ, ◌≡◌, refl, ap, ◌∙◌, subst, ◌⊎◌, inl, inr, Bool, true, false, not, ◌&&◌, ◌||◌, Option, none,
  some, List, [], ◌∷◌, ◌++◌, ◌==◌, Outcome, ok, err, Text, text_eq, text_eq_iff, is_empty,
  trim_space, arith, All, select, Bool-cases,
}
use costume_tree.Storage.Models.{
  StoreError, CostumeItem, CostumeItemPhoto, CreateCostumeItemPhotoInput,
}
use costume_tree.Storage.Database.{Store}
use costume_tree.Storage.Photos
use costume_tree.Storage.Photos.{has_separator}
use costume_tree.PhotoService.Uploads.{
  FileHeader, UploadDetails, PhotoError, save_original, repository, not_started, Disk, Surroundings,
  base_of, tried, try_bases, available_base, eight_draws, original_name, created, with_stray,
  upload_named, named, upload_inspected, inspect_upload, upload,
}

-- `strings.HasPrefix`
abbrev pub starts_with : Text → Text → Bool
starts_with [] s = true
starts_with (p ∷ ps) [] = false
starts_with (p ∷ ps) (c ∷ cs) = p == c && starts_with ps cs

-- A pattern without a match tells that no file's name begins with the base.
abbrev pub GlobFinds : (Text → List Text → Option (List Text)) → Type 0
GlobFinds matches =
    (base : Text) (files : List Text)
    → matches base files ≡ some []
    → All (λ f. starts_with base f ≡ false) files

starts_with-append : (base rest : Text) → starts_with base (base ++ rest) ≡ true
starts_with-append [] rest = refl
starts_with-append (c ∷ cs) rest = ground (arith, starts_with-append cs rest)

-- A name that begins with such a base is new.
new_name :
    (base rest : Text) (files : List Text)
    → All (λ f. starts_with base f ≡ false) files
    → All (λ f. text_eq f (base ++ rest) ≡ false) files
new_name base rest [] h = tt
new_name base rest (f ∷ files) h = (differs, new_name base rest files h.1)
  where
    differs : text_eq f (base ++ rest) ≡ false
    differs = elim (Bool-cases (text_eq f (base ++ rest))) [
      | inr e ↦ e
      | inl e ↦
          let same : f ≡ base ++ rest = (text_eq_iff f (base ++ rest)).0 e in
          let begins : starts_with base f ≡ true =
            ap (starts_with base) same ∙ starts_with-append base rest in
          absurd (ground (arith, h.0))
    ]

select-new :
    (name : Text) (files : List Text)
    → All (λ f. text_eq f name ≡ false) files
    → select (λ f. not (text_eq f name)) files ≡ files
select-new name [] h = refl
select-new name (f ∷ files) h = rw (h.0) (ap (λ k. f ∷ k) (select-new name files h.1))

tried-ok :
    (matches : Text → Option (List Text)) (tried_base : Text) (o : Option (List Text))
    (rest : Outcome PhotoError Text) {base : Text}
    → matches tried_base ≡ o
    → (rest ≡ ok base → matches base ≡ some [])
    → tried tried_base o rest ≡ ok base
    → matches base ≡ some []
tried-ok matches b none rest q k e = cc
tried-ok matches b (some []) rest {base} q k e =
    let same : b ≡ base = cc in subst (λ b. matches b ≡ some []) same q
tried-ok matches b (some (name ∷ names)) rest q k e = k e

-- The base that is chosen has no match.
try_bases-ok :
    (matches : Text → Option (List Text)) (code : Text) (tries : List (Option (Text × Text)))
    {base : Text}
    → try_bases matches code tries ≡ ok base
    → matches base ≡ some []
unfolding try_bases
try_bases-ok matches code [] e = cc
try_bases-ok matches code (none ∷ tries) e = cc
try_bases-ok matches code (some t ∷ tries) {base} e =
    tried-ok matches (base_of code t) (matches (base_of code t)) (try_bases matches code tries) refl
      (try_bases-ok matches code tries) e

available_base-ok :
    (matches : Text → Option (List Text)) (code : Text) (tries : List (Option (Text × Text)))
    {base : Text}
    → available_base matches code tries ≡ ok base
    → matches base ≡ some []
unfolding available_base
available_base-ok matches code tries e =
    elim (Bool-cases (is_empty (trim_space code) || has_separator (trim_space code))) [
      | inl u ↦ let bad = rw u at e in cc
      | inr u ↦ try_bases-ok matches (trim_space code) tries (rw u at e)
    ]

-- A file that stays since it could not be removed.
abbrev pub CannotRemove : Surroundings → Text → Type 0
CannotRemove around name =
    (around.removes name ≡ false)
    ⊎ ((path : Text) × (around.saves path ≡ false) × (around.stray path ≡ some name))

-- What an upload may leave: the disk as it was, with an error; with an error, one file more that could
-- not be removed; or one file more, under a name that no file had, and the photo that the repository
-- has created with that name.
abbrev pub IsSettled : Surroundings → ℕ → Disk → Outcome PhotoError CostumeItemPhoto × Disk → Type 0
IsSettled around now d p =
    ((e : PhotoError) × (p ≡ (err e, d)))
    ⊎ ((e : PhotoError) × (name : Text) × (p ≡ (err e, record d { files = name ∷ d.files }))
        × CannotRemove around name)
    ⊎ ((photo : CostumeItemPhoto) × (input : CreateCostumeItemPhotoInput) × (p.0 ≡ ok photo)
        × (Photos.create input now d.store ≡ ok (photo, p.1.store))
        × (p.1.files ≡ input.original_name ∷ d.files)
        × All (λ f. text_eq f input.original_name ≡ false) d.files)

module _ (lower : Text → Text) (around : Surroundings) (finds : GlobFinds around.matches) where
  created-IsSettled :
      (input : CreateCostumeItemPhotoInput) (now : ℕ) (d : Disk)
      (o : Outcome StoreError (CostumeItemPhoto × Store))
      → Photos.create input now d.store ≡ o
      → All (λ f. text_eq f input.original_name ≡ false) d.files
      → IsSettled around now d
          (created (around.removes input.original_name) d input.original_name o)
  created-IsSettled input now d (ok (photo, t)) q new = inr (inr (photo, input, refl, q, refl, new))
  created-IsSettled input now d (err e) q new =
      let itself : text_eq input.original_name input.original_name ≡ true =
        (text_eq_iff _ _).1 refl in
      let left : select (λ f. not (text_eq f input.original_name)) (input.original_name ∷ d.files)
          ≡ d.files =
        rw itself (select-new input.original_name d.files new) in
      elim (Bool-cases (around.removes input.original_name)) [
        | inl r ↦ rw r (
            inl (repository e, ap (λ files. (err (repository e), record d { files = files })) left))
        | inr r ↦ rw r (inr (inl (repository e, input.original_name, refl, inl r)))
      ]

  stray-IsSettled :
      (path : Text) (now : ℕ) (d : Disk)
      → around.saves path ≡ false
      → (o : Option Text) → around.stray path ≡ o
      → IsSettled around now d (err save_original, record d { files = with_stray o d.files })
  stray-IsSettled path now d s none q = inl (save_original, refl)
  stray-IsSettled path now d s (some name) q =
      inr (inl (save_original, name, refl, inr (path, s, q)))

  upload_named-IsSettled :
      (item : CostumeItem) (details : UploadDetails) (now : ℕ) (base : Text) (d : Disk)
      → around.matches base d.files ≡ some []
      → IsSettled around now d (upload_named around item details now base d)
  unfolding upload_named
  upload_named-IsSettled item details now base d free =
      elim (Bool-cases (around.saves (original_name base details))) [
        | inr s ↦ rw s (stray-IsSettled _ now d s _ refl)
        | inl s ↦ rw s (
            created-IsSettled _ now d _ refl
              (new_name base details.extension d.files (finds base d.files free)))
      ]

  named-IsSettled :
      (o : Outcome PhotoError Text) (item : CostumeItem) (details : UploadDetails) (now : ℕ)
      (d : Disk)
      → ((base : Text) → o ≡ ok base → around.matches base d.files ≡ some [])
      → IsSettled around now d (named o (upload_named around item details now) d)
  named-IsSettled (err e) item details now d free = inl (e, refl)
  named-IsSettled (ok base) item details now d free =
      upload_named-IsSettled item details now base d (free base refl)

  upload_inspected-IsSettled :
      (started : Bool) (item : CostumeItem) (now : ℕ) (o : Outcome PhotoError UploadDetails)
      (d : Disk)
      → IsSettled around now d (upload_inspected around started item now o d)
  unfolding upload_inspected
  upload_inspected-IsSettled started item now (err e) d = inl (e, refl)
  upload_inspected-IsSettled false item now (ok details) d = inl (not_started, refl)
  upload_inspected-IsSettled true item now (ok details) d =
      named-IsSettled _ item details now d (λ base.
        available_base-ok (λ base. around.matches base d.files) item.code (eight_draws around.draw))

  -- Where a pattern without a match tells that no file's name begins with the base, an upload either
  -- returns an error and leaves the tables as they were, and the directory too but for one file at most
  -- that could not be removed; or it creates the photo's row and one file, whose name is the row's and
  -- which no file had.
  pub upload-IsSettled :
      (started : Bool) (item : CostumeItem) (header : Option FileHeader) (now : ℕ) (d : Disk)
      → IsSettled around now d (upload lower around started item header now d)
  unfolding upload
  upload-IsSettled started item header now d =
      upload_inspected-IsSettled started item now (inspect_upload lower header) d
