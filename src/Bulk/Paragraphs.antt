-- ===== src/Bulk/Paragraphs.antt =====
-- An independent description of the import format: the non-blank lines fall into paragraphs, each
-- paragraph is checked as a whole, and `Parse` gives what the checks give, in order.
use mathlib.Core.List.{append-nil, append_assoc}
use costume_tree.Common.{
  ℕ, suc, Bool, true, false, ◌≡◌, refl, sym, ap, ◌∙◌, inl, inr, Option, none, some, List, [], ◌∷◌,
  ◌++◌, if◌then◌else◌, Bool-cases, Outcome, ok, err, and_then, Text, is_empty, valid_utf8,
  trim_space, arith,
}
use costume_tree.Bulk.{
  Item, Block, ParseError, incomplete_block, invalid_utf8, ParserState, flush, add_value, step_line,
  run_lines, some_blocks, start, source_lines, parse,
}

-- Non-blank lines that follow each other, with their numbers.
abbrev pub Paragraph : Type 0
Paragraph = List Item

abbrev pub blank : Text → Bool
blank raw = is_empty (trim_space raw)

-- A paragraph in front of others, unless it has no line.
abbrev pub close : Paragraph → List Paragraph → List Paragraph
close [] rest = rest
close (i ∷ p) rest = (i ∷ p) ∷ rest

-- The lines at the front that belong to a paragraph begun before, and the paragraphs behind them.
unfoldable pub runs : ℕ → List Text → Paragraph × List Paragraph
runs n [] = ([], [])
runs n (raw ∷ lines) =
    let later = runs (suc n) lines in
    if blank raw
    then ([], close later.0 later.1)
    else ((record { type = trim_space raw; line = n }) ∷ later.0, later.1)

unfoldable pub paragraphs : List Text → List Paragraph
paragraphs lines = close (runs 1 lines).0 (runs 1 lines).1

-- The first line of a paragraph that is no valid UTF-8.
abbrev pub check_utf8 : Paragraph → Outcome ParseError (Unit {0})
check_utf8 [] = ok tt
check_utf8 (i ∷ p) =
    if valid_utf8 i.type
    then check_utf8 p
    else err (record { line = i.line; message = invalid_utf8 })

abbrev pub last_line : ℕ → List Item → ℕ
last_line n [] = n
last_line n (i ∷ is) = last_line i.line is

-- The first line names the actor, the others the item types.
abbrev pub block_of : Item → List Item → Block
block_of a is = record {
  actor = a.type;
  actor_line = a.line;
  items = is;
  start_line = a.line;
  end_line = last_line a.line is;
}

abbrev pub has_items : Item → List Item → Outcome ParseError Block
has_items a [] = err (record { line = a.line; message = incomplete_block })
has_items a (i ∷ is) = ok (block_of a (i ∷ is))

abbrev pub check_paragraph : Item → List Item → Outcome ParseError Block
check_paragraph a is = and_then (check_utf8 (a ∷ is)) (λ _. has_items a is)

-- The blocks of all paragraphs, or the error of the first bad one.
abbrev pub check_paragraphs : List Paragraph → Outcome ParseError (List Block)
check_paragraphs [] = ok []
check_paragraphs ([] ∷ ps) = check_paragraphs ps
check_paragraphs ((a ∷ is) ∷ ps) =
    and_then (check_paragraph a is) (λ b. and_then (check_paragraphs ps) (λ bs. ok (b ∷ bs)))

unfoldable pub described : List Text → Outcome ParseError (List Block)
described lines = and_then (check_paragraphs (paragraphs lines)) some_blocks

-- The variable `current` of the parser that has read a paragraph so far.
abbrev open_block : Paragraph → Option Block
open_block [] = none
open_block (a ∷ is) = some (block_of a is)

abbrev state : Paragraph → List Block → ParserState
state p bs = record { current = open_block p; blocks = bs }

abbrev run_to_end : ℕ → List Text → ParserState → Outcome ParseError (List Block)
run_to_end n lines s = and_then (run_lines n lines s) (λ s'. and_then (flush s') (λ t. ok t.blocks))

abbrev onto : List Block → Outcome ParseError (List Block) → Outcome ParseError (List Block)
onto bs m = and_then m (λ new. ok (bs ++ new))

last_line-append : (n : ℕ) (is : List Item) (i : Item) → last_line n (is ++ i ∷ []) ≡ i.line
last_line-append n [] i = refl
last_line-append n (x ∷ is) i = last_line-append x.line is i

check_utf8-append : (p q : Paragraph) → check_utf8 p ≡ ok tt → check_utf8 (p ++ q) ≡ check_utf8 q
check_utf8-append [] q h = refl
check_utf8-append (i ∷ p) q h = elim (Bool-cases (valid_utf8 i.type)) [
  | inl v ↦ rw v (check_utf8-append p q (rw v at h))
  | inr v ↦ ground arith
]

add_value-open :
    (n : ℕ) (v : Text) (p : Paragraph)
    → some (add_value n v (open_block p)) ≡ open_block (p ++ record { type = v; line = n } ∷ [])
unfolding add_value
add_value-open n v [] = refl
add_value-open n v (a ∷ is) = ap some (
    ap
      (λ (m : ℕ). record {
        actor = a.type;
        actor_line = a.line;
        items = is ++ record { type = v; line = n } ∷ [];
        start_line = a.line;
        end_line = m;
      })
      (sym (last_line-append a.line is (record { type = v; line = n }))))

-- A paragraph that is closed by a blank line or the end is checked, and its block appended.
flush-state :
    (a : Item) (is : List Item) (bs : List Block)
    → flush (state (a ∷ is) bs)
      ≡ and_then (has_items a is) (λ b. ok (record { current = none; blocks = bs ++ (b ∷ []) }))
unfolding flush
flush-state a [] bs = refl
flush-state a (i ∷ is) bs = refl

step_line-blank :
    (n : ℕ) (raw : Text) (s : ParserState) → blank raw ≡ true → step_line n raw s ≡ flush s
unfolding step_line
step_line-blank n raw s h = rw h

step_line-value :
    (n : ℕ) (raw : Text) (p : Paragraph) (bs : List Block)
    → blank raw ≡ false
    → valid_utf8 (trim_space raw) ≡ true
    → step_line n raw (state p bs)
      ≡ ok (state (p ++ record { type = trim_space raw; line = n } ∷ []) bs)
unfolding step_line
step_line-value n raw p bs h v =
    rw (h, v)
      (ap (λ (b : Option Block). ok (record { current = b; blocks = bs }))
        (add_value-open n (trim_space raw) p))

step_line-invalid :
    (n : ℕ) (raw : Text) (s : ParserState)
    → blank raw ≡ false
    → valid_utf8 (trim_space raw) ≡ false
    → step_line n raw s ≡ err (record { line = n; message = invalid_utf8 })
unfolding step_line
step_line-invalid n raw s h v = rw (h, v)

onto-onto :
    (bs : List Block) (b : Block) (m : Outcome ParseError (List Block))
    → onto (bs ++ (b ∷ [])) m ≡ onto bs (and_then m (λ new. ok (b ∷ new)))
onto-onto bs b (ok new) = ap ok (append_assoc bs (b ∷ []) new)
onto-onto bs b (err e) = refl

-- After a closed paragraph the loop goes on with no open block.
run_to_end-flush :
    (n : ℕ) (lines : List Text) (a : Item) (is : List Item) (bs : List Block) (ps : List Paragraph)
    → check_utf8 (a ∷ is) ≡ ok tt
    → ((cs : List Block) → run_to_end n lines (state [] cs) ≡ onto cs (check_paragraphs ps))
    → and_then
        (and_then (flush (state (a ∷ is) bs)) (run_lines n lines))
        (λ s'. and_then (flush s') (λ t. ok t.blocks))
      ≡ onto bs (check_paragraphs ((a ∷ is) ∷ ps))
run_to_end-flush n lines a [] bs ps h ih = rw (flush-state, h)
run_to_end-flush n lines a (i ∷ is) bs ps h ih =
    rw (flush-state, h)
      (ih (bs ++ (block_of a (i ∷ is) ∷ []))
        ∙ onto-onto bs (block_of a (i ∷ is)) (check_paragraphs ps))

end-flush :
    (a : Item) (is : List Item) (bs : List Block)
    → check_utf8 (a ∷ is) ≡ ok tt
    → and_then (flush (state (a ∷ is) bs)) (λ t. ok t.blocks)
      ≡ onto bs (check_paragraphs ((a ∷ (is ++ [])) ∷ []))
end-flush a [] bs h = rw (flush-state, h)
end-flush a (i ∷ is) bs h = rw (flush-state, append-nil, h)

run_to_end-blank :
    (n : ℕ) (lines : List Text) (p : Paragraph) (bs : List Block) (ps : List Paragraph)
    → check_utf8 p ≡ ok tt
    → ((cs : List Block) → run_to_end n lines (state [] cs) ≡ onto cs (check_paragraphs ps))
    → and_then
        (and_then (flush (state p bs)) (run_lines n lines))
        (λ s'. and_then (flush s') (λ t. ok t.blocks))
      ≡ onto bs (check_paragraphs (close (p ++ []) ps))
run_to_end-blank n lines [] bs ps h ih = unfold flush in ih bs
run_to_end-blank n lines (a ∷ is) bs ps h ih =
    run_to_end-flush n lines a is bs ps h ih ∙ rw append-nil

check_paragraphs-invalid :
    (p : Paragraph) (i : Item) (q : List Item) (ps : List Paragraph)
    → check_utf8 p ≡ ok tt
    → valid_utf8 i.type ≡ false
    → check_paragraphs (close (p ++ i ∷ q) ps)
      ≡ err (record { line = i.line; message = invalid_utf8 })
check_paragraphs-invalid [] i q ps h v = rw v
check_paragraphs-invalid (a ∷ is) i q ps h v =
    let bad : check_utf8 (a ∷ (is ++ i ∷ q))
        ≡ err (record { line = i.line; message = invalid_utf8 }) =
      check_utf8-append (a ∷ is) (i ∷ q) h ∙ rw v in
    rw bad

pub runs-blank :
    (n : ℕ) (raw : Text) (lines : List Text)
    → blank raw ≡ true
    → runs n (raw ∷ lines) ≡ ([], close (runs (suc n) lines).0 (runs (suc n) lines).1)
unfolding runs
runs-blank n raw lines b = rw b

pub runs-value :
    (n : ℕ) (raw : Text) (lines : List Text)
    → blank raw ≡ false
    → runs n (raw ∷ lines) ≡ (
      record { type = trim_space raw; line = n } ∷ (runs (suc n) lines).0,
      (runs (suc n) lines).1,
    )
unfolding runs
runs-value n raw lines b = rw b

run_to_end-runs :
    (n : ℕ) (lines : List Text) (p : Paragraph) (bs : List Block)
    → check_utf8 p ≡ ok tt
    → run_to_end n lines (state p bs)
      ≡ onto bs (check_paragraphs (close (p ++ (runs n lines).0) (runs n lines).1))
unfolding run_lines
run_to_end-runs n [] [] bs h = unfold runs flush in ap ok (sym (append-nil bs))
run_to_end-runs n [] (a ∷ is) bs h = unfold runs in end-flush a is bs h
run_to_end-runs n (raw ∷ lines) p bs h = elim (Bool-cases (blank raw)) [
  | inl b ↦
      rw (step_line-blank n raw (state p bs) b, runs-blank n raw lines b)
        (run_to_end-blank (suc n) lines p bs (close (runs (suc n) lines).0 (runs (suc n) lines).1) h
          (λ cs. run_to_end-runs (suc n) lines [] cs refl))
  | inr b ↦ elim (Bool-cases (valid_utf8 (trim_space raw))) [
    | inl v ↦
        rw (step_line-value n raw p bs b v, runs-value n raw lines b)
          (run_to_end-runs (suc n) lines (p ++ record { type = trim_space raw; line = n } ∷ []) bs
              (check_utf8-append p _ h ∙ rw v)
            ∙ rw (
                append_assoc p (record { type = trim_space raw; line = n } ∷ [])
                  (runs (suc n) lines).0))
    | inr v ↦
        rw (step_line-invalid n raw (state p bs) b v, runs-value n raw lines b)
          (rw (
            check_paragraphs-invalid p (record { type = trim_space raw; line = n })
              (runs (suc n) lines).0 (runs (suc n) lines).1 h v))
  ]
]

flush-some_blocks :
    (s : Outcome ParseError ParserState)
    → and_then s (λ t. some_blocks t.blocks) ≡ and_then (and_then s (λ t. ok t.blocks)) some_blocks
flush-some_blocks (ok t) = refl
flush-some_blocks (err e) = refl

end-some_blocks :
    (m : Outcome ParseError ParserState)
    → and_then m (λ s. and_then (flush s) (λ t. some_blocks t.blocks))
      ≡ and_then (and_then m (λ s. and_then (flush s) (λ t. ok t.blocks))) some_blocks
end-some_blocks (ok s) = flush-some_blocks (flush s)
end-some_blocks (err e) = refl

onto-nil : (m : Outcome ParseError (List Block)) → onto [] m ≡ m
onto-nil (ok bs) = refl
onto-nil (err e) = refl

-- For every input, `Parse` accepts or refuses, with the same blocks or the same error, as the
-- description by paragraphs of the input's lines.
pub parse-eq-described : (input : Text) → parse input ≡ described (source_lines input)
unfolding parse described paragraphs
parse-eq-described input =
    end-some_blocks (run_lines 1 (source_lines input) start)
    ∙ ap (λ m. and_then m some_blocks)
        (run_to_end-runs 1 (source_lines input) [] [] refl ∙ onto-nil _)
