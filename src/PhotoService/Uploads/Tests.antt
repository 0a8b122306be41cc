-- ===== src/PhotoService/Uploads/Tests.antt =====
-- An upload and its files.
use costume_tree.Common.{
  false, storable, ◌≡◌, refl, true, Option, none, some, List, [], ◌∷◌, ok, Text, text, text_eq,
  is_empty, trim_space, sql_trim, arith, inl, inr, select, Bool-cases, pos, if◌then◌else◌,
}
use costume_tree.Storage.Models.{CostumeItem, CostumeItemPhoto, status_find, photo_status_pending}
use costume_tree.Storage.Database.{
  Store, guard, found, ensure_production, ensure_costume_item_for_photo, ◌>>=◌,
}
use costume_tree.Storage.Photos
use costume_tree.PhotoService.Uploads.{
  FileHeader, UploadDetails, Disk, Surroundings, FileState, regular, missing, inspect_upload,
  upload, resolve,
}
use costume_tree.PhotoService.Uploads.Images.{IsAccepted, inspect_upload-IsAccepted}
use costume_tree.PhotoService.Uploads.Files.{starts_with, GlobFinds, IsSettled, upload-IsSettled}
use costume_tree.PhotoService.Uploads.Variants.{IsVariant, resolve-IsVariant}

-- The files are in lower case.
abbrev same_case : Text → Text
same_case s = s

abbrev header : FileHeader
header = record {
  filename = text "red hat.jpeg";
  size = 9000;
  opens = true;
  read = some 9000;
  closes = true;
  reopens = true;
  recloses = true;
  decoded = some (record { width = 4000; height = 3000; format = text "jpeg" });
}

abbrev details : UploadDetails
details = record { extension = text ".jpeg"; media_type = text "image/jpeg" }

inspect_upload-header : inspect_upload same_case (some header) ≡ ok details
unfolding inspect_upload text_eq
inspect_upload-header = refl

inspect_upload-IsAccepted_example : IsAccepted header details
inspect_upload-IsAccepted_example =
    inspect_upload-IsAccepted same_case header details inspect_upload-header

-- The names in a directory that begin with the base.
abbrev matches : Text → List Text → Option (List Text)
matches base files = some (select (starts_with base) files)

matches-GlobFinds : GlobFinds matches
matches-GlobFinds base [] h = tt
matches-GlobFinds base (f ∷ files) h = elim (Bool-cases (starts_with base f)) [
  | inl e ↦ absurd (ground arith)
  | inr e ↦ (e, matches-GlobFinds base files (ground arith))
]

abbrev around : Surroundings
around = record {
  matches = matches;
  draw = λ n. some (text "20260101T120000.000", text "0a1b2c3d");
  saves = λ name. true;
  stray = λ path. some (text ".original-1");
  removes = λ path. false;
}

abbrev hat : CostumeItem
hat = record {
  id = 1;
  production_id = 1;
  actor_id = 1;
  item_type_id = 1;
  code = text "C-0001";
  description = [];
  status = status_find;
  progress = pos 0;
  next_action = [];
  blocker = [];
  notes = [];
  archived_at = none;
  created_at = 4;
  updated_at = 4;
}

abbrev with_photos : List CostumeItemPhoto → Store
with_photos photos = record {
  productions =
      record { id = 1; name = text "Hamlet"; archived_at = none; created_at = 1; updated_at = 1 }
      ∷ [];
  actors = [];
  item_types = [];
  sequences = [];
  items = hat ∷ [];
  photos = photos;
  next_production = 2;
  next_actor = 2;
  next_item_type = 2;
  next_item = 2;
  next_photo = 7;
}

abbrev disk : Disk
disk = record { store = with_photos []; files = text "old.jpg" ∷ [] }

upload-IsSettled_example :
    IsSettled around 5 disk (upload same_case around true hat (some header) 5 disk)
upload-IsSettled_example =
    upload-IsSettled same_case around matches-GlobFinds true hat (some header) 5 disk

abbrev photo : CostumeItemPhoto
photo = record {
  id = 7;
  production_id = 1;
  costume_item_id = 1;
  original_name = text "a.jpg";
  display_name = text "b.jpg";
  thumbnail_name = text "c.jpg";
  media_type = text "image/jpeg";
  status = photo_status_pending;
  error_message = [];
  created_at = 5;
  updated_at = 5;
}

abbrev stat : Text → FileState
stat name = if text_eq name (text "a.jpg") then regular else missing

resolve-photo :
    resolve stat 1 1 7 (text "original") (with_photos (photo ∷ [])) ≡ ok (photo, text "a.jpg")
unfolding resolve Photos.get ◌>>=◌ Photos.read_photo found Photos.scan_costume_item_photo
    Photos.validate_photo_filename guard is_empty trim_space text_eq
resolve-photo = refl

resolve-IsVariant_example :
    ((t : Store) × (Photos.get 1 1 7 (with_photos (photo ∷ [])) ≡ ok (photo, t)))
    × (stat (text "a.jpg") ≡ regular)
    × IsVariant photo (text "original") (text "a.jpg")
unfolding text_eq
resolve-IsVariant_example =
    resolve-IsVariant stat 1 1 7 (text "original") (with_photos (photo ∷ [])) photo (text "a.jpg")
      resolve-photo

-- The upload that the witness is about succeeds.
upload-hat :
    (upload same_case around true hat (some header) 5 disk).1.files
    ≡ text "C-0001-20260101T120000.000-0a1b2c3d.jpeg" ∷ text "old.jpg" ∷ []
unfolding upload text_eq is_empty trim_space Photos.create ◌>>=◌ Photos.validate_photo_input
    Photos.validate_photo_filename guard ensure_production ensure_costume_item_for_photo
    Photos.insert_photo sql_trim Photos.read_photo found Photos.scan_costume_item_photo storable
upload-hat = refl
