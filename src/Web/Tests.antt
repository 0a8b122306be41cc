-- ===== src/Web/Tests.antt =====
-- A run of the preview store of internal/web/bulk_import.go.
use costume_tree.Common.{◌≡◌, ◌≢◌, refl, true, false, some, [], text, text_eq, is_empty}
use costume_tree.Storage.BulkImport.{BulkImportPreview}
use costume_tree.Web.PreviewStore.{BulkPreviewStore, retained, get, put, consume}
use costume_tree.Web.PreviewStore.Tokens.{Uses, unused, puts, consume-get}

abbrev kept : BulkImportPreview
kept = record {
  id = text "a1";
  production_id = 1;
  production_name = text "Show";
  allow_new_types = false;
  created_at = some 4;
  rows = [];
  errors = [];
  valid = true;
}

abbrev empty_previews : BulkPreviewStore
empty_previews = record { entries = []; used = [] }

abbrev one_preview : BulkPreviewStore
one_preview = put (text "t1") kept (text "me") 5 empty_previews

get-put : (get (text "t1") 1 (text "me") 6 one_preview).0 ≡ retained kept
unfolding get put text_eq is_empty
get-put = refl

other_put :
    Uses
      (text "t1")
      (consume (text "t1") 6 one_preview)
      (put (text "t2") kept (text "me") 7 (consume (text "t1") 6 one_preview))
unfolding text_eq
other_put = puts (text "t2") kept (text "me") 7 refl unused

consume-get_example :
    (get
      (text "t1")
      1
      (text "me")
      8
      (put (text "t2") kept (text "me") 7 (consume (text "t1") 6 one_preview))).0
    ≢ retained kept
consume-get_example =
    consume-get (text "t1") 6 8 1 (text "me") one_preview
      (put (text "t2") kept (text "me") 7 (consume (text "t1") 6 one_preview)) kept other_put
