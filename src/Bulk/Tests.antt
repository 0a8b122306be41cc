-- ===== src/Bulk/Tests.antt =====
-- Runs of `Parse` of internal/bulk/import.go.
use costume_tree.Common.{
  ◌≡◌, ◌≢◌, refl, ◌↔◌, true, List, [], ◌∷◌, ok, err, Text, text, trim_space, is_empty, valid_utf8,
  All, map,
}
use costume_tree.Bulk.{
  Block, ParseError, incomplete_block, parse, unwrap, err_empty_input, source_lines,
}
use costume_tree.Bulk.Paragraphs.{described, parse-eq-described}
use costume_tree.Bulk.Source.{all_blank, parse-err_empty_input, parse-IsSourceBlock, IsSourceBlock}
use costume_tree.Bulk.RoundTrip.{IsGroup, values, join_lines, document, parse-document}

abbrev groups : List (List Text)
groups = (text "Ann" ∷ text "Hat" ∷ text "Coat" ∷ []) ∷ (text "Bob" ∷ text "Belt" ∷ []) ∷ []

abbrev sample : Text
sample = join_lines (document groups)

abbrev sample_blocks : List Block
sample_blocks =
    record {
      actor = text "Ann";
      actor_line = 1;
      items = record { type = text "Hat"; line = 2 } ∷ record { type = text "Coat"; line = 3 } ∷ [];
      start_line = 1;
      end_line = 3;
    }
    ∷ record {
      actor = text "Bob";
      actor_line = 5;
      items = record { type = text "Belt"; line = 6 } ∷ [];
      start_line = 5;
      end_line = 6;
    }
    ∷ []

parse-sample : parse sample ≡ ok sample_blocks
unfolding parse is_empty trim_space valid_utf8
parse-sample = refl

-- An actor without items is refused at its line.
parse-actor_alone :
    parse (join_lines (text "Ann" ∷ [] ∷ []))
    ≡ err (record { line = 1; message = incomplete_block })
unfolding parse is_empty trim_space valid_utf8
parse-actor_alone = refl

parse-eq-described_example : parse sample ≡ described (source_lines sample)
parse-eq-described_example = parse-eq-described sample

parse-IsSourceBlock_example :
    (sample_blocks ≢ []) × All (IsSourceBlock (source_lines sample)) sample_blocks
parse-IsSourceBlock_example = parse-IsSourceBlock sample parse-sample

parse-err_empty_input_example :
    ((e : ParseError) × (parse (text " ") ≡ err e) × (unwrap e ≡ err_empty_input))
    ↔ (all_blank (source_lines (text " ")) ≡ true)
parse-err_empty_input_example = parse-err_empty_input (text " ")

groups-IsGroup : All IsGroup groups
unfolding trim_space is_empty valid_utf8
groups-IsGroup = (
  (
    record { trimmed = refl; not_empty = refl; valid = refl; one_line = refl },
    (
      record { trimmed = refl; not_empty = refl; valid = refl; one_line = refl },
      (record { trimmed = refl; not_empty = refl; valid = refl; one_line = refl }, tt),
    ),
  ),
  (
    (
      record { trimmed = refl; not_empty = refl; valid = refl; one_line = refl },
      (record { trimmed = refl; not_empty = refl; valid = refl; one_line = refl }, tt),
    ),
    tt,
  ),
)

parse-document_example :
    (bs : List Block) × (parse (join_lines (document groups)) ≡ ok bs) × (map values bs ≡ groups)
parse-document_example =
    parse-document (text "Ann" ∷ text "Hat" ∷ text "Coat" ∷ [])
      ((text "Bob" ∷ text "Belt" ∷ []) ∷ []) groups-IsGroup
