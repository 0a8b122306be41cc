-- ===== src/Storage/Photos.antt =====
-- `costumeItemPhotoRepository` of internal/storage/photos.go.
pub mod Transitions
use costume_tree.Common.{
  ℕ, zero, suc, ◌+◌, Bool, true, false, not, ◌&&◌, ◌||◌, Option, none, some, List, [], ◌∷◌, ◌++◌,
  ◌==◌, leb, ltb, if◌then◌else◌, Outcome, ok, err, Text, text, text_eq, is_empty, storable,
  trim_space, find?, select, take, count_where, update_where, sort_by,
}
use costume_tree.Storage.Models.{
  costume_item_photo, StoreError, not_found, constraint, filename_required, unsafe_filename,
  media_type_required, limit_not_positive, invalid_photo_status, CostumeItem, CostumeItemPhoto,
  CreateCostumeItemPhotoInput, photo_status_pending, photo_status_ready, photo_status_failed,
}
use costume_tree.Storage.Database.{
  Store, Query, pure, fail, ◌>>=◌, ◌>>◌, guard, found, is_item, ensure_production,
  ensure_costume_item_for_photo,
}
use costume_tree.Storage.Productions.{has_text}

abbrev pub contains : ℕ → Text → Bool
contains c [] = false
contains c (d ∷ s) = c == d || contains c s

-- `strings.ContainsAny(name, "/\\\\")`: a slash or a backslash
abbrev pub has_separator : Text → Bool
has_separator name = contains b'/' name || contains b'\\' name

-- `validatePhotoFilename`. On a name that is not empty, `filepath.IsAbs` and
-- `filepath.Base(name) != name` (of a name other than "." and "..") need a slash in the name, so the
-- test for separators stands for both.
unfoldable pub validate_photo_filename : Text → Query (Unit {0})
validate_photo_filename name = do
  guard (not (is_empty (trim_space name))) filename_required
  guard
      (not (
        text_eq name (text ".")
        || (text_eq name (text "..") || (has_separator name || contains 0 name))))
      unsafe_filename

abbrev pub known_photo_status : Text → Bool
known_photo_status status =
    text_eq status photo_status_pending
    || (text_eq status photo_status_ready || text_eq status photo_status_failed)

-- `validatePhotoStatus`
abbrev pub validate_photo_status : Text → Query (Unit {0})
validate_photo_status status = guard (known_photo_status status) invalid_photo_status

unfoldable pub validate_photo_input :
    CreateCostumeItemPhotoInput → Query CreateCostumeItemPhotoInput
validate_photo_input input = do
  validate_photo_filename input.original_name
  validate_photo_filename input.display_name
  validate_photo_filename input.thumbnail_name
  let media_type = trim_space input.media_type
  guard (not (is_empty media_type)) media_type_required
  pure (record input { media_type = media_type })

-- `scanCostumeItemPhoto`, on a row that has been read
unfoldable pub scan_costume_item_photo : CostumeItemPhoto → Query CostumeItemPhoto
scan_costume_item_photo photo = do
  validate_photo_filename photo.original_name
  validate_photo_filename photo.display_name
  validate_photo_filename photo.thumbnail_name
  guard (not (is_empty (trim_space photo.media_type))) media_type_required
  validate_photo_status photo.status
  pure photo

-- The CHECK on a file name.
abbrev pub filename_ok : Text → Bool
filename_ok name =
    has_text name
    && (not (text_eq name (text ".") || text_eq name (text "..")) && not (has_separator name))

abbrev pub photo_texts_storable : Text → Text → Text → Text → Bool
photo_texts_storable original display thumbnail media =
    storable original && (storable display && (storable thumbnail && storable media))

-- INSERT INTO costume_item_photos ... RETURNING id, under the constraints of the table
unfoldable pub insert_photo : CreateCostumeItemPhotoInput → ℕ → Query ℕ
insert_photo input now s =
    let row : CostumeItemPhoto = record {
      id = s.next_photo;
      production_id = input.production_id;
      costume_item_id = input.costume_item_id;
      original_name = input.original_name;
      display_name = input.display_name;
      thumbnail_name = input.thumbnail_name;
      media_type = input.media_type;
      status = photo_status_pending;
      error_message = [];
      created_at = now;
      updated_at = now;
    } in
    if photo_texts_storable input.original_name input.display_name input.thumbnail_name
        input.media_type
      && (filename_ok input.original_name
          && (filename_ok input.display_name
              && (filename_ok input.thumbnail_name
                  && (has_text input.media_type
                      && ltb 0 (
                          count_where (is_item input.production_id input.costume_item_id)
                            s.items)))))
    then ok
        (s.next_photo, record s { photos = s.photos ++ (row ∷ []); next_photo = suc s.next_photo })
    else err constraint

abbrev pub is_photo : ℕ → CostumeItemPhoto → Bool
is_photo id p = p.id == id

-- A SELECT of one row
unfoldable pub read_photo : (CostumeItemPhoto → Bool) → Query CostumeItemPhoto
read_photo p s = found costume_item_photo (find? p s.photos) s

unfoldable pub create : CreateCostumeItemPhotoInput → ℕ → Query CostumeItemPhoto
create raw now = do
  input ← validate_photo_input raw
  ensure_production input.production_id
  ensure_costume_item_for_photo input.production_id input.costume_item_id
  id ← insert_photo input now
  photo ← read_photo (is_photo id)
  scan_costume_item_photo photo

unfoldable pub get : ℕ → ℕ → ℕ → Query CostumeItemPhoto
get production_id costume_item_id id = do
  photo ← read_photo (λ p.
      p.production_id == production_id && (p.costume_item_id == costume_item_id && is_photo id p))
  scan_costume_item_photo photo

-- ORDER BY created_at, id
abbrev pub by_age : CostumeItemPhoto → CostumeItemPhoto → Bool
by_age a b = ltb a.created_at b.created_at || (a.created_at == b.created_at && leb a.id b.id)

-- The loop of `listCostumeItemPhotos` over the rows
unfoldable pub scan_all : List CostumeItemPhoto → Query (List CostumeItemPhoto)
scan_all [] = pure []
scan_all (row ∷ rows) = do
  photo ← scan_costume_item_photo row
  photos ← scan_all rows
  pure (photo ∷ photos)

unfoldable pub list : ℕ → ℕ → Query (List CostumeItemPhoto)
unfolding scan_all
list production_id costume_item_id s =
    scan_all
      (sort_by by_age (
        select (λ p. p.production_id == production_id && p.costume_item_id == costume_item_id)
          s.photos))
      s

abbrev pub is_ready : CostumeItemPhoto → Bool
is_ready p = text_eq p.status photo_status_ready

abbrev pub is_pending : CostumeItemPhoto → Bool
is_pending p = text_eq p.status photo_status_pending

-- The subquery: the oldest ready photo of the item of a photo
abbrev first_ready : List CostumeItemPhoto → CostumeItemPhoto → Option CostumeItemPhoto
first_ready photos p =
    find? (λ _. true)
      (sort_by by_age (
        select
          (λ c.
            c.production_id == p.production_id
            && (c.costume_item_id == p.costume_item_id && is_ready c))
          photos))

abbrev is_same_photo : CostumeItemPhoto → Option CostumeItemPhoto → Bool
is_same_photo p none = false
is_same_photo p (some c) = p.id == c.id

-- ORDER BY p.costume_item_id
abbrev by_item : CostumeItemPhoto → CostumeItemPhoto → Bool
by_item a b = leb a.costume_item_id b.costume_item_id

unfoldable pub list_first_ready_by_actor : ℕ → ℕ → Query (List CostumeItemPhoto)
unfolding scan_all
list_first_ready_by_actor production_id actor_id s =
    let of_actor = λ (p : CostumeItemPhoto). ltb 0 (
      count_where (λ i. is_item p.production_id p.costume_item_id i && i.actor_id == actor_id)
        s.items) in
    scan_all
      (sort_by by_item (
        select
          (λ p.
            p.production_id == production_id
            && (of_actor p && (is_ready p && is_same_photo p (first_ready s.photos p))))
          s.photos))
      s

-- LIMIT $1
unfoldable pub read_pending : ℕ → Query (List CostumeItemPhoto)
read_pending limit s = scan_all (take limit (sort_by by_age (select is_pending s.photos))) s

unfoldable pub list_pending : ℕ → Query (List CostumeItemPhoto)
unfolding scan_all
list_pending limit = do guard (not (limit == 0)) limit_not_positive; read_pending limit

-- WHERE id = $3 AND status = $4, with `PhotoStatusPending`
abbrev pub is_pending_photo : ℕ → CostumeItemPhoto → Bool
is_pending_photo id p = is_photo id p && is_pending p

abbrev pub with_status : Text → Text → ℕ → CostumeItemPhoto → CostumeItemPhoto
with_status status message now p = record p {
  status = status;
  error_message = message;
  updated_at = now;
}

-- After an UPDATE without a row, the second query tells a missing photo from one that is not pending.
unfoldable pub not_pending : Option CostumeItemPhoto → Query CostumeItemPhoto
unfolding fail
not_pending none = fail (not_found costume_item_photo)
not_pending (some p) = fail invalid_photo_status

-- After the UPDATE ... RETURNING of `transition`, at the row that it found.
unfoldable pub transition_row :
    ℕ → Text → Text → ℕ → Option CostumeItemPhoto → Query CostumeItemPhoto
unfolding not_pending
transition_row id status message now (some p) s =
    scan_costume_item_photo (with_status status message now p) (record s {
      photos = update_where (is_pending_photo id) (with_status status message now) s.photos;
    })
transition_row id status message now none s = not_pending (find? (is_photo id) s.photos) s

unfoldable pub transition_pending : ℕ → Text → Text → ℕ → Query CostumeItemPhoto
unfolding transition_row
transition_pending id status message now s =
    transition_row id status message now (find? (is_pending_photo id) s.photos) s

unfoldable pub transition : ℕ → Text → Text → ℕ → Query CostumeItemPhoto
transition id status message now = do
  validate_photo_status status
  guard (not (text_eq status photo_status_pending)) invalid_photo_status
  transition_pending id status message now

unfoldable pub mark_ready : ℕ → ℕ → Query CostumeItemPhoto
mark_ready id now = transition id photo_status_ready [] now

unfoldable pub mark_failed : ℕ → Text → ℕ → Query CostumeItemPhoto
mark_failed id message now = transition id photo_status_failed message now
