-- ===== src/PhotoService/Uploads.antt =====
-- `Validate`, `Upload` and `Resolve` of internal/photos/service.go. What the image decoder, the random
-- source, the clock and the file system answer are parameters.
pub mod Images
pub mod Files
pub mod Variants
mod Tests
use costume_tree.Common.{
  ℕ, zero, suc, ◌/◌, ◌+◌, ◌*◌, ◌^◌, Bool, true, false, not, ◌&&◌, ◌||◌, Option, none, some, List,
  [], ◌∷◌, ◌++◌, ◌==◌, ltb, leb, if◌then◌else◌, Outcome, ok, err, and_then, Text, text, text_eq,
  is_empty, trim_space, select,
}
use costume_tree.Storage.Models.{
  StoreError, CostumeItem, CostumeItemPhoto, CreateCostumeItemPhotoInput, photo_status_ready,
}
use costume_tree.Storage.Database.{Store}
use costume_tree.Storage.Photos
use costume_tree.Storage.Photos.{has_separator}

abbrev pub max_upload_bytes : ℕ
max_upload_bytes = 20 * 2 ^ 20

abbrev pub max_decoded_pixels : ℕ
max_decoded_pixels = 60000000

abbrev pub max_decoded_dimension : ℕ
max_decoded_dimension = 16384

abbrev pub display_max : ℕ
display_max = 1200

abbrev pub thumbnail_max : ℕ
thumbnail_max = 320

pub data PhotoError : Type 0 where
  too_large image_dimensions unsupported_image not_ready not_started : PhotoError
  open_upload read_upload close_upload reopen_upload unsafe_code random_source glob_failed
        no_unique_name :
      PhotoError
  save_original inspect_file photo_not_found : PhotoError
  repository : StoreError → PhotoError

-- What `image.DecodeConfig` tells of a file; a dimension that is not positive is 0.
pub record ImageConfig : Type 0 where
  pub width : ℕ
  pub height : ℕ
  pub format : Text

-- An upload: its declared size, the bytes that a read up to the limit and one more yields, and the
-- decoded configuration; it is opened and closed for each of the two. `none` is an error of the call.
pub record FileHeader : Type 0 where
  pub filename : Text
  pub size : ℕ
  pub opens : Bool
  pub read : Option ℕ
  pub closes : Bool
  pub reopens : Bool
  pub recloses : Bool
  pub decoded : Option ImageConfig

pub record UploadDetails : Type 0 where
  pub extension : Text
  pub media_type : Text

-- `filepath.Ext`: the text from the last point of the last element
unfoldable pub extension_from : Text → Text → Text
extension_from found [] = found
extension_from found (c ∷ cs) =
    extension_from (if c == b'.' then c ∷ cs else if c == b'/' then [] else found) cs

-- The switch over the format
unfoldable pub details_of : Text → Text → Outcome PhotoError UploadDetails
details_of format extension =
    if text_eq format (text "jpeg")
    then ok (record {
      extension =
          if text_eq extension (text ".jpg") || text_eq extension (text ".jpeg")
          then extension
          else text ".jpg";
      media_type = text "image/jpeg";
    })
    else if text_eq format (text "png")
    then ok (record { extension = text ".png"; media_type = text "image/png" })
    else if text_eq format (text "gif")
    then ok (record { extension = text ".gif"; media_type = text "image/gif" })
    else err unsupported_image

abbrev pub bad_dimensions : ImageConfig → Bool
bad_dimensions c =
    (c.width == 0 || c.height == 0)
    || (ltb max_decoded_dimension c.width
        || (ltb max_decoded_dimension c.height || ltb (max_decoded_pixels / c.height) c.width))

infixl 5 ◌>>=◌ ◌>>◌
abbrev ◌>>=◌ {ℓ κ} :
    {A : Type ℓ} {B : Type κ}
    → Outcome PhotoError A
    → (A → Outcome PhotoError B)
    → Outcome PhotoError B
m >>= f = and_then m f

abbrev ◌>>◌ {ℓ} :
    {B : Type ℓ} → Outcome PhotoError (Unit {0}) → Outcome PhotoError B → Outcome PhotoError B
m >> k = and_then m (λ _. k)

abbrev pub check : Bool → PhotoError → Outcome PhotoError (Unit {0})
check true e = ok tt
check false e = err e

abbrev pub present {ℓ} : {A : Type ℓ} → PhotoError → Option A → Outcome PhotoError A
present e none = err e
present e (some a) = ok a

module _ (lower : Text → Text) where
  unfoldable pub inspect_upload : Option FileHeader → Outcome PhotoError UploadDetails
  unfolding details_of extension_from
  inspect_upload none = err unsupported_image
  inspect_upload (some h) = do
    check (not (h.size == 0)) unsupported_image
    check (leb h.size max_upload_bytes) too_large
    check h.opens open_upload
    count ← present read_upload h.read
    check h.closes close_upload
    check (leb count max_upload_bytes) too_large
    check h.reopens reopen_upload
    c ← present unsupported_image h.decoded
    check h.recloses close_upload
    check (not (bad_dimensions c)) image_dimensions
    details_of c.format (lower (extension_from [] h.filename))

-- A try of `availableBase`: the stamp and the random suffix, none if the random source fails
abbrev pub base_of : Text → Text × Text → Text
base_of code (stamp, suffix) = code ++ text "-" ++ stamp ++ text "-" ++ suffix

abbrev pub tried : Text → Option (List Text) → Outcome PhotoError Text → Outcome PhotoError Text
tried base none rest = err glob_failed
tried base (some []) rest = ok base
tried base (some (name ∷ names)) rest = rest

-- The loop over the tries; `matches` is `filepath.Glob` of the base in the directory, none on an error.
unfoldable pub try_bases :
    (Text → Option (List Text)) → Text → List (Option (Text × Text)) → Outcome PhotoError Text
try_bases matches code [] = err no_unique_name
try_bases matches code (none ∷ tries) = err random_source
try_bases matches code (some t ∷ tries) =
    tried (base_of code t) (matches (base_of code t)) (try_bases matches code tries)

-- `filepath.Base(code) != code` of a code that is not empty needs a slash in it.
unfoldable pub available_base :
    (Text → Option (List Text)) → Text → List (Option (Text × Text)) → Outcome PhotoError Text
unfolding try_bases
available_base matches code tries =
    if is_empty (trim_space code) || has_separator (trim_space code)
    then err unsafe_code
    else try_bases matches (trim_space code) tries

abbrev pub original_name : Text → UploadDetails → Text
original_name base d = base ++ d.extension

abbrev pub display_name : Text → UploadDetails → Text
display_name base d = base ++ text "-display" ++ d.extension

abbrev pub thumbnail_name : Text → UploadDetails → Text
thumbnail_name base d = base ++ text "-thumb" ++ d.extension

-- The tables and the names of the files in the directory.
pub record Disk : Type 0 where
  pub store : Store
  pub files : List Text

-- After `Create`: an error removes the original, if `os.Remove` can, whose error is dropped.
abbrev pub created :
    Bool
    → Disk
    → Text
    → Outcome StoreError (CostumeItemPhoto × Store)
    → Outcome PhotoError CostumeItemPhoto × Disk
created removes d original (ok (photo, t)) =
    (ok photo, record { store = t; files = original ∷ d.files })
created removes d original (err e) = (
  err (repository e),
  record d {
    files =
        if removes
        then select (λ f. not (text_eq f original)) (original ∷ d.files)
        else original ∷ d.files;
  },
)

-- What the surroundings of an upload answer: `saves` is `copyUploadAtomically` to a path, `stray` the
-- temporary file that it leaves if it fails and cannot remove it, `removes` is `os.Remove`.
pub record Surroundings : Type 0 where
  pub matches : Text → List Text → Option (List Text)
  pub draw : ℕ → Option (Text × Text)
  pub saves : Text → Bool
  pub stray : Text → Option Text
  pub removes : Text → Bool

abbrev pub with_stray : Option Text → List Text → List Text
with_stray none files = files
with_stray (some name) files = name ∷ files

abbrev pub eight_draws : (ℕ → Option (Text × Text)) → List (Option (Text × Text))
eight_draws draw = draw 0 ∷ draw 1 ∷ draw 2 ∷ draw 3 ∷ draw 4 ∷ draw 5 ∷ draw 6 ∷ draw 7 ∷ []

-- `Upload` from the names on
unfoldable pub upload_named :
    Surroundings
    → CostumeItem
    → UploadDetails
    → ℕ
    → Text
    → Disk
    → Outcome PhotoError CostumeItemPhoto × Disk
upload_named around item details now base d =
    if around.saves (original_name base details)
    then created (around.removes (original_name base details)) d (original_name base details) (
        Photos.create
          (record {
            production_id = item.production_id;
            costume_item_id = item.id;
            original_name = original_name base details;
            display_name = display_name base details;
            thumbnail_name = thumbnail_name base details;
            media_type = details.media_type;
          })
          now d.store)
    else (
      err save_original,
      record d { files = with_stray (around.stray (original_name base details)) d.files },
    )

abbrev pub named :
    Outcome PhotoError Text
    → (Text → Disk → Outcome PhotoError CostumeItemPhoto × Disk)
    → Disk
    → Outcome PhotoError CostumeItemPhoto × Disk
named (ok base) f d = f base d
named (err e) f d = (err e, d)

unfoldable pub upload_inspected :
    Surroundings
    → Bool
    → CostumeItem
    → ℕ
    → Outcome PhotoError UploadDetails
    → Disk
    → Outcome PhotoError CostumeItemPhoto × Disk
unfolding available_base upload_named
upload_inspected around started item now (err e) d = (err e, d)
upload_inspected around started item now (ok details) d =
    if not started
    then (err not_started, d)
    else named
        (available_base (λ base. around.matches base d.files) item.code (eight_draws around.draw))
        (upload_named around item details now) d

-- `Upload`, up to its `notify`
unfoldable pub upload :
    (Text → Text)
    → Surroundings
    → Bool
    → CostumeItem
    → Option FileHeader
    → ℕ
    → Disk
    → Outcome PhotoError CostumeItemPhoto × Disk
unfolding upload_inspected inspect_upload
upload lower around started item header now d =
    upload_inspected around started item now (inspect_upload lower header) d

-- What `os.Stat` tells of a path.
pub data FileState : Type 0 where
  regular irregular missing unreadable : FileState

abbrev pub ready_name : CostumeItemPhoto → Text → Outcome PhotoError Text
ready_name photo name = if text_eq photo.status photo_status_ready then ok name else err not_ready

-- The switch over the variant
unfoldable pub variant_name : CostumeItemPhoto → Text → Outcome PhotoError Text
variant_name photo variant =
    if text_eq variant (text "original")
    then ok photo.original_name
    else if text_eq variant (text "display")
    then ready_name photo photo.display_name
    else if text_eq variant (text "thumbnail")
    then ready_name photo photo.thumbnail_name
    else err photo_not_found

abbrev pub with_file : Text → FileState → Outcome PhotoError Text
with_file name regular = ok name
with_file name irregular = err photo_not_found
with_file name missing = err photo_not_found
with_file name unreadable = err inspect_file

abbrev pub resolved :
    (Text → FileState)
    → Text
    → Outcome StoreError (CostumeItemPhoto × Store)
    → Outcome PhotoError (CostumeItemPhoto × Text)
resolved stat variant (err e) = err (repository e)
resolved stat variant (ok (photo, t)) = do
  name ← variant_name photo variant
  file ← with_file name (stat name)
  ok (photo, file)

-- `Resolve`; the file's name stands for its path in the directory.
unfoldable pub resolve :
    (Text → FileState) → ℕ → ℕ → ℕ → Text → Store → Outcome PhotoError (CostumeItemPhoto × Text)
unfolding variant_name
resolve stat production_id item_id photo_id variant s =
    resolved stat variant (Photos.get production_id item_id photo_id s)

-- What `fit` asks of the imaging library: the image, or a resizing, 0 for the side that follows.
pub data Fit : Type 0 where
  clone : Fit
  resize : ℕ → ℕ → Fit

unfoldable pub fit : ℕ → ℕ → ℕ → Fit
fit width height maximum =
    if leb width maximum && leb height maximum
    then clone
    else if leb height width
    then resize maximum 0
    else resize 0 maximum
