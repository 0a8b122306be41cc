-- ===== src/PhotoService/Uploads/Images.antt =====
-- The bounds of the images that an upload may have.
use costume_tree.Common.{
  ℕ, ◌*◌, ◌/◌, ◌≤◌, ◌<◌, ◌≡◌, refl, ◌⊎◌, Bool, true, false, not, Option, none, some, ok,
  and_then-eq-ok, Text, text, text_eq_iff, arith, leb, ◌==◌,
}
use costume_tree.PhotoService.Uploads.{
  FileHeader, ImageConfig, UploadDetails, PhotoError, max_upload_bytes, max_decoded_pixels,
  max_decoded_dimension, bad_dimensions, unsupported_image, too_large, open_upload, read_upload,
  close_upload, reopen_upload, image_dimensions, check, present, details_of, inspect_upload,
}

check-ok : (b : Bool) (e : PhotoError) {u : Unit {0}} → check b e ≡ ok u → b ≡ true
check-ok true e h = refl
check-ok false e h = cc

present-ok {ℓ} :
    {A : Type ℓ} (e : PhotoError) (o : Option A) {a : A} → present e o ≡ ok a → o ≡ some a
present-ok e none h = cc
present-ok e (some a) h = cc

pixels : (w h : ℕ) → 0 < h → w ≤ max_decoded_pixels / h → w * h ≤ max_decoded_pixels
pixels w h pos le = grind arith

-- The media types, each with its format and its extensions.
abbrev pub HasMediaType : Text → UploadDetails → Type 0
HasMediaType format d =
    ((format ≡ text "jpeg")
      × (d.media_type ≡ text "image/jpeg")
      × ((d.extension ≡ text ".jpg") ⊎ (d.extension ≡ text ".jpeg")))
    ⊎ (((format ≡ text "png") × (d.media_type ≡ text "image/png") × (d.extension ≡ text ".png"))
        ⊎ ((format ≡ text "gif") × (d.media_type ≡ text "image/gif") × (d.extension ≡ text ".gif")))

details_of-HasMediaType :
    (format extension : Text) (d : UploadDetails)
    → details_of format extension ≡ ok d
    → HasMediaType format d
unfolding details_of
details_of-HasMediaType format extension d e = ground (
  arith,
  text_eq_iff format (text "jpeg"),
  text_eq_iff format (text "png"),
  text_eq_iff format (text "gif"),
  text_eq_iff extension (text ".jpg"),
  text_eq_iff extension (text ".jpeg"),
)

-- What an accepted upload is: an image within the bounds of bytes, sides and pixels, with the media
-- type of its format.
pub record IsAccepted (h : FileHeader) (d : UploadDetails) : Type 0 where
  pub config : ImageConfig
  pub decodes : h.decoded ≡ some config
  pub size_bounds : (0 < h.size) × (h.size ≤ max_upload_bytes)
  pub width_bounds : (0 < config.width) × (config.width ≤ max_decoded_dimension)
  pub height_bounds : (0 < config.height) × (config.height ≤ max_decoded_dimension)
  pub has_media_type : HasMediaType config.format d
  pub pixel_bound : config.width * config.height ≤ max_decoded_pixels

-- An upload that is accepted has at most 20 MiB and an image that decodes, with sides between 1 and
-- 16384, at most 60 million pixels, and the media type and extension that belong to its format.
pub inspect_upload-IsAccepted :
    (lower : Text → Text) (h : FileHeader) (d : UploadDetails)
    → inspect_upload lower (some h) ≡ ok d
    → IsAccepted h d
unfolding inspect_upload
inspect_upload-IsAccepted lower h d e =
    let (u₁, size, e₁) = and_then-eq-ok (check (not (h.size == 0)) unsupported_image) _ e in
    let (u₂, small, e₂) = and_then-eq-ok (check (leb h.size max_upload_bytes) too_large) _ e₁ in
    let (u₃, opened, e₃) = and_then-eq-ok (check h.opens open_upload) _ e₂ in
    let (count, was_read, e₄) = and_then-eq-ok (present read_upload h.read) _ e₃ in
    let (u₅, closed, e₅) = and_then-eq-ok (check h.closes close_upload) _ e₄ in
    let (u₆, bounded, e₆) = and_then-eq-ok (check (leb count max_upload_bytes) too_large) _ e₅ in
    let (u₉, reopened, e₉) = and_then-eq-ok (check h.reopens reopen_upload) _ e₆ in
    let (c, decoded, e₇) = and_then-eq-ok (present unsupported_image h.decoded) _ e₉ in
    let (u₀, reclosed, e₀) = and_then-eq-ok (check h.recloses close_upload) _ e₇ in
    let (u₈, good, e₈) = and_then-eq-ok (check (not (bad_dimensions c)) image_dimensions) _ e₀ in
    let positive = check-ok (not (h.size == 0)) unsupported_image size in
    let within = check-ok (leb h.size max_upload_bytes) too_large small in
    let dimensions = check-ok (not (bad_dimensions c)) image_dimensions good in
    let height : 0 < c.height = ground arith in
    record {
      config = c;
      decodes = present-ok unsupported_image h.decoded decoded;
      size_bounds = ground arith;
      width_bounds = ground arith;
      height_bounds = ground arith;
      has_media_type = details_of-HasMediaType c.format _ d e₈;
      pixel_bound = pixels c.width c.height height (ground arith);
    }
