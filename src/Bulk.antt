-- ===== src/Bulk.antt =====
-- Package `bulk` (internal/bulk/import.go): its data types, `Parse` and `ParseEntries`.
pub mod Paragraphs
pub mod Source
pub mod RoundTrip
mod Tests
use costume_tree.Common.{
  ℕ, ◌+◌, suc, Bool, true, false, not, ◌&&◌, Option, none, some, List, [], ◌∷◌, ◌++◌, map, ◌==◌,
  if◌then◌else◌, Outcome, ok, err, and_then, Text, is_empty, valid_utf8, trim_space,
}

pub record Item : Type 0 where
  pub type : Text
  pub line : ℕ

pub record Entry : Type 0 where
  pub actor : Text
  pub item_type : Text
  pub actor_line : ℕ
  pub item_line : ℕ
  pub block : ℕ

pub record Block : Type 0 where
  pub actor : Text
  pub actor_line : ℕ
  pub items : List Item
  pub start_line : ℕ
  pub end_line : ℕ

-- The three messages of a `ParseError`.
pub data Message : Type 0 where
  incomplete_block invalid_utf8 empty_input : Message

pub record ParseError : Type 0 where
  pub line : ℕ
  pub message : Message

-- What `ParseError.Unwrap` gives.
pub data ErrorClass : Type 0 where
  err_empty_input err_malformed : ErrorClass

unfoldable pub unwrap : ParseError → ErrorClass
unwrap e = if e.line == 0 then err_empty_input else err_malformed

abbrev pub lf : ℕ
lf = 10

abbrev pub cr : ℕ
cr = 13

starts_with_lf : Text → Bool
starts_with_lf [] = false
starts_with_lf (c ∷ cs) = c == lf

-- `strings.ReplaceAll(input, "\r\n", "\n")`: a CR in front of an LF is dropped.
crlf_to_lf : Text → Text
unfolding starts_with_lf
crlf_to_lf [] = []
crlf_to_lf (c ∷ cs) =
    let rest = crlf_to_lf cs in if c == cr && starts_with_lf cs then rest else c ∷ rest

-- `strings.ReplaceAll(input, "\r", "\n")`
cr_to_lf : Text → Text
cr_to_lf = map (λ c. if c == cr then lf else c)

-- The symbol goes to the front of the first line.
onto_first : ℕ → List Text → List Text
onto_first c [] = (c ∷ []) ∷ []
onto_first c (l ∷ ls) = (c ∷ l) ∷ ls

-- `strings.Split(input, "\n")`
split_lines : Text → List Text
unfolding onto_first
split_lines [] = [] ∷ []
split_lines (c ∷ cs) = let rest = split_lines cs in if c == lf then [] ∷ rest else onto_first c rest

pub source_lines : Text → List Text
source_lines input = split_lines (cr_to_lf (crlf_to_lf input))

-- The variables `current` and `blocks` of `Parse`.
pub record ParserState : Type 0 where
  pub current : Option Block
  pub blocks : List Block

-- The closure `flush`, at a block with these items.
flush_block : List Item → Block → List Block → Outcome ParseError ParserState
flush_block [] b blocks = err (record { line = b.actor_line; message = incomplete_block })
flush_block (i ∷ is) b blocks = ok (record { current = none; blocks = blocks ++ (b ∷ []) })

flush_current : Option Block → List Block → Outcome ParseError ParserState
unfolding flush_block
flush_current none blocks = ok (record { current = none; blocks = blocks })
flush_current (some b) blocks = flush_block b.items b blocks

flush : ParserState → Outcome ParseError ParserState
unfolding flush_current
flush s = flush_current s.current s.blocks

-- A value that is no blank line opens a block, or is an item of the open one.
add_value : ℕ → Text → Option Block → Block
add_value line value none = record {
  actor = value;
  actor_line = line;
  items = [];
  start_line = line;
  end_line = line;
}
add_value line value (some b) = record b {
  items = b.items ++ (record { type = value; line = line } ∷ []);
  end_line = line;
}

-- One round of the loop over the lines.
step_line : ℕ → Text → ParserState → Outcome ParseError ParserState
unfolding flush add_value
step_line line raw s =
    let value = trim_space raw in
    if is_empty value
    then flush s
    else if not (valid_utf8 value)
    then err (record { line = line; message = invalid_utf8 })
    else ok (record s { current = some (add_value line value s.current) })

run_lines : ℕ → List Text → ParserState → Outcome ParseError ParserState
run_lines line [] s = ok s
run_lines line (raw ∷ lines) s = and_then (step_line line raw s) (run_lines (suc line) lines)

-- `if len(blocks) == 0`
pub some_blocks : List Block → Outcome ParseError (List Block)
some_blocks [] = err (record { line = 0; message = empty_input })
some_blocks (b ∷ bs) = ok (b ∷ bs)

abbrev start : ParserState
start = record { current = none; blocks = [] }

-- From the lines on, to the end of `Parse`.
parse_lines : List Text → Outcome ParseError (List Block)
unfolding run_lines step_line some_blocks flush
parse_lines lines =
    and_then (run_lines 1 lines start) (λ s. and_then (flush s) (λ t. some_blocks t.blocks))

unfoldable pub parse : Text → Outcome ParseError (List Block)
unfolding source_lines crlf_to_lf cr_to_lf split_lines parse_lines
parse input = parse_lines (source_lines input)

-- The inner loop of `ParseEntries`.
entries_of : ℕ → Block → List Entry
entries_of number b =
    map
      (λ i. record {
        actor = b.actor;
        item_type = i.type;
        actor_line = b.actor_line;
        item_line = i.line;
        block = number;
      })
      b.items

entries_from : ℕ → List Block → List Entry
unfolding entries_of
entries_from number [] = []
entries_from number (b ∷ bs) = entries_of number b ++ entries_from (suc number) bs

unfoldable pub parse_entries : Text → Outcome ParseError (List Entry)
unfolding parse entries_from
parse_entries input = and_then (parse input) (λ bs. ok (entries_from 1 bs))
