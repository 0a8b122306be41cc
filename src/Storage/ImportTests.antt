-- ===== src/Storage/ImportTests.antt =====
-- Runs of a preview of a bulk import and of its commits.
use costume_tree.Common.{
  storable, ℕ, ◌≡◌, ◌⊎◌, refl, ap, arith, Bool, true, false, none, some, List, [], ◌∷◌, ok, err,
  Text, text, text_eq, is_empty, sql_trim, trim_space, pad_four, decimal, sort_by,
}
use costume_tree.Bulk.{Block}
use costume_tree.Storage.Models.{CostumeItem, duplicate_submit, stale_preview}
use costume_tree.Storage.Database
use costume_tree.Storage.Database.{Store}
use costume_tree.Storage.Items
use costume_tree.Storage.Codes.{CodesAreValid}
use costume_tree.Storage.BulkImport
use costume_tree.Storage.BulkImport.Importer
use costume_tree.Storage.BulkImport.{BulkImportRow, BulkImportPreview, existing, known, fine}
use costume_tree.Storage.BulkImport.Importer.{Clock, Guards, Commit}
use costume_tree.Storage.BulkImport.Previews.{IsConsistent, preview-IsConsistent}
use costume_tree.Storage.BulkImport.Codes.{commit_tx-CodesAreValid}
use costume_tree.Storage.BulkImport.Commits.{idle, outcome_of, commit-once}
use costume_tree.Storage.Tests.{same_case, wardrobe, hat, with_hat}

abbrev same_text : Text → Text → Bool
same_text s t = true

abbrev pasted : List Block
pasted =
    record {
      actor = text "Ann";
      actor_line = 1;
      items = record { type = text "Hat"; line = 2 } ∷ [];
      start_line = 1;
      end_line = 2;
    }
    ∷ []

abbrev row : BulkImportRow
row = record {
  number = 1;
  block = 1;
  actor_line = 1;
  item_line = 2;
  actor_name = text "Ann";
  item_type_name = text "Hat";
  actor = text "Ann";
  item_type = text "Hat";
  actor_id = 1;
  item_type_id = 1;
  actor_state = existing;
  item_type_state = known;
  actor_status = existing;
  item_type_status = known;
  status = fine;
  duplicate = false;
  error = none;
  code = [];
}

abbrev hat_preview : BulkImportPreview
hat_preview = record {
  id = text "a1";
  production_id = 1;
  production_name = text "Show";
  allow_new_types = false;
  created_at = some 4;
  rows = row ∷ [];
  errors = [];
  valid = true;
}

preview-hat :
    BulkImport.preview same_case 1 pasted false (text "a1") 4 wardrobe ≡ ok (hat_preview, wardrobe)
unfolding BulkImport.preview BulkImport.preview_of is_empty trim_space BulkImport.type_by_name
    sort_by text_eq BulkImport.actor_by_name
preview-hat = refl

preview-IsConsistent_example :
    (number : ℕ) × IsConsistent hat_preview.rows number hat_preview.errors hat_preview.valid
    × (wardrobe ≡ wardrobe)
preview-IsConsistent_example =
    preview-IsConsistent same_case 1 pasted false (text "a1") 4 wardrobe wardrobe hat_preview
      preview-hat

abbrev imported : CostumeItem
imported = record hat { description = []; created_at = 6; updated_at = 6 }

abbrev with_imported : Store
with_imported = record with_hat { items = imported ∷ [] }

commit_tx-hat :
    Importer.commit_tx same_case same_text same_case hat_preview 6 wardrobe
    ≡ ok (imported ∷ [], with_imported)
unfolding Importer.commit_tx Database.◌>>=◌ Importer.lock_bulk_production
    Importer.check_bulk_production Database.guard Importer.commit_scoped Importer.commit_rows
    is_empty trim_space Importer.resolve_actor BulkImport.actor_by_name sort_by text_eq
    Importer.resolve_type BulkImport.type_by_name Importer.insert_bulk_item Items.allocate_code_tx
    Database.ensure_production decimal pad_four sql_trim Items.format_code Items.insert_item
    Items.next_code_value Importer.read_bulk_item Importer.read_back storable
commit_tx-hat = refl

commit_tx-CodesAreValid_example : CodesAreValid with_imported.items with_imported.sequences
commit_tx-CodesAreValid_example =
    commit_tx-CodesAreValid same_case same_text same_case hat_preview 6 wardrobe with_imported
      (imported ∷ []) (record { given = tt; distinct = tt }) commit_tx-hat

abbrev no_calls : Guards
no_calls = record { inflight = []; committed = [] }

abbrev first_time : Clock
first_time = record { checked = 5; locked = 5; now = 6; done = 7 }

abbrev second_time : Clock
second_time = record { checked = 8; locked = 9; now = 9; done = 9 }

abbrev committed_hat : Guards
committed_hat = record { inflight = []; committed = (text "a1", 7) ∷ [] }

abbrev entered_hat : Guards
entered_hat = record { inflight = text "a1" ∷ []; committed = [] }

commit-hat :
    Importer.commit same_case same_text same_case hat_preview first_time no_calls wardrobe
    ≡ (committed_hat, ok (imported ∷ [], with_imported))
unfolding Importer.commit is_empty text_eq
commit-hat =
    ap (Importer.commit_end same_case same_text same_case (text "a1") 7 entered_hat) commit_tx-hat

commit-once_example :
    (outcome_of same_case same_text same_case (
        Importer.commit same_case same_text same_case hat_preview second_time committed_hat
          with_imported)
      ≡ err duplicate_submit)
    ⊎ (outcome_of same_case same_text same_case (
          Importer.commit same_case same_text same_case hat_preview second_time committed_hat
            with_imported)
        ≡ err stale_preview)
commit-once_example =
    commit-once same_case same_text same_case hat_preview first_time second_time no_calls
      committed_hat committed_hat wardrobe with_imported (imported ∷ [], with_imported) 4 7
      commit-hat idle (omega arith) refl (omega arith) (omega arith)
