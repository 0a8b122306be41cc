-- ===== src/Bulk/RoundTrip.antt =====
-- A document of paragraphs, written with one empty line between them, is parsed back.
use mathlib.Core.List.{append-nil}
use costume_tree.Common.{
  ℕ, suc, Bool, true, false, not, ◌&&◌, ◌≡◌, ◌≢◌, refl, sym, ap, ap₂, ◌∙◌, List, [], ◌∷◌, ◌++◌, map,
  ◌==◌, ok, Text, is_empty, valid_utf8, trim_space, arith, All, All-map, All-append,
}
use costume_tree.Bulk.{
  Block, lf, cr, crlf_to_lf, cr_to_lf, split_lines, some_blocks, source_lines, parse,
}
use costume_tree.Bulk.Paragraphs.{
  Paragraph, blank, close, runs, runs-blank, paragraphs, check_utf8, block_of, check_paragraphs,
  described, parse-eq-described,
}

-- No line end in the text.
abbrev pub plain : Text → Bool
plain [] = true
plain (c ∷ cs) = (not (c == cr) && not (c == lf)) && plain cs

-- A value as `Parse` returns it, that can stand on a line.
pub record IsValue (v : Text) : Type 0 where
  pub trimmed : trim_space v ≡ v
  pub not_empty : is_empty v ≡ false
  pub valid : valid_utf8 v ≡ true
  pub one_line : plain v ≡ true

-- An actor and at least one item type.
abbrev pub IsGroup : List Text → Type 0
IsGroup (a ∷ i ∷ is) = All IsValue (a ∷ i ∷ is)
IsGroup _ = ⊥

-- The lines joined by LF.
abbrev pub join_lines : List Text → Text
join_lines [] = []
join_lines (l ∷ []) = l
join_lines (l ∷ k ∷ ls) = l ++ lf ∷ join_lines (k ∷ ls)

-- The groups with an empty line between two.
abbrev pub document : List (List Text) → List Text
document [] = []
document (g ∷ []) = g
document (g ∷ h ∷ gs) = g ++ [] ∷ document (h ∷ gs)

abbrev pub values : Block → List Text
values b = b.actor ∷ map (λ i. i.type) b.items

split_lines-plain :
    (l rest : Text) → plain l ≡ true → split_lines (l ++ lf ∷ rest) ≡ l ∷ split_lines rest
unfolding split_lines
split_lines-plain [] rest h = refl
split_lines-plain (c ∷ cs) rest h = ground (arith, split_lines-plain cs rest)

split_lines-last : (l : Text) → plain l ≡ true → split_lines l ≡ l ∷ []
unfolding split_lines
split_lines-last [] h = refl
split_lines-last (c ∷ cs) h = ground (arith, split_lines-last cs)

abbrev no_cr : Text → Bool
no_cr [] = true
no_cr (c ∷ cs) = not (c == cr) && no_cr cs

no_cr-append : (s t : Text) → plain s ≡ true → no_cr t ≡ true → no_cr (s ++ t) ≡ true
no_cr-append [] t h k = k
no_cr-append (c ∷ s) t h k = ground (arith, no_cr-append s t)

no_cr-join_lines : (ls : List Text) → All (λ l. plain l ≡ true) ls → no_cr (join_lines ls) ≡ true
no_cr-join_lines [] h = refl
no_cr-join_lines (l ∷ []) h = rw (← append-nil l) (no_cr-append l [] h.0 refl)
no_cr-join_lines (l ∷ k ∷ ls) h =
    no_cr-append l (lf ∷ join_lines (k ∷ ls)) h.0 (no_cr-join_lines (k ∷ ls) h.1)

crlf_to_lf-no_cr : (s : Text) → no_cr s ≡ true → crlf_to_lf s ≡ s
unfolding crlf_to_lf
crlf_to_lf-no_cr [] h = refl
crlf_to_lf-no_cr (c ∷ cs) h = ground (arith, crlf_to_lf-no_cr cs)

cr_to_lf-no_cr : (s : Text) → no_cr s ≡ true → cr_to_lf s ≡ s
unfolding cr_to_lf
cr_to_lf-no_cr [] h = refl
cr_to_lf-no_cr (c ∷ cs) h = ground (arith, cr_to_lf-no_cr cs)

split_lines-join_lines :
    (l : Text) (ls : List Text)
    → All (λ k. plain k ≡ true) (l ∷ ls)
    → split_lines (join_lines (l ∷ ls)) ≡ l ∷ ls
split_lines-join_lines l [] h = split_lines-last l h.0
split_lines-join_lines l (k ∷ ls) h =
    split_lines-plain l (join_lines (k ∷ ls)) h.0 ∙ ap (◌∷◌ l) (split_lines-join_lines k ls h.1)

-- Lines without line ends are the lines of their text.
source_lines-join_lines :
    (ls : List Text) → ls ≢ [] → All (λ k. plain k ≡ true) ls → source_lines (join_lines ls) ≡ ls
source_lines-join_lines [] ne h = absurd (ne refl)
source_lines-join_lines (l ∷ ls) ne h =
    let clean = no_cr-join_lines (l ∷ ls) h in
    unfold source_lines in
    ap (λ t. split_lines (cr_to_lf t)) (crlf_to_lf-no_cr _ clean)
    ∙ ap split_lines (cr_to_lf-no_cr _ clean)
    ∙ split_lines-join_lines l ls h

-- The items of a group whose first line has number `n`, and the number of the line behind it.
abbrev numbered : ℕ → List Text → Paragraph
numbered n [] = []
numbered n (v ∷ vs) = record { type = v; line = n } ∷ numbered (suc n) vs

abbrev after : ℕ → List Text → ℕ
after n [] = n
after n (v ∷ vs) = after (suc n) vs

abbrev all_numbered : ℕ → List (List Text) → List Paragraph
all_numbered n [] = []
all_numbered n (g ∷ gs) = numbered n g ∷ all_numbered (suc (after n g)) gs

blank_nil : blank [] ≡ true
unfolding trim_space is_empty
blank_nil = refl

blank_value : (v : Text) → IsValue v → blank v ≡ false
blank_value v h = rw h.trimmed h.not_empty

IsGroup-All : (g : List Text) → IsGroup g → All IsValue g
IsGroup-All [] h = absurd h
IsGroup-All (a ∷ []) h = absurd h
IsGroup-All (a ∷ i ∷ is) h = h

close-numbered :
    (n : ℕ) (g : List Text) (ps : List Paragraph)
    → IsGroup g
    → close (numbered n g) ps ≡ numbered n g ∷ ps
close-numbered n [] ps h = absurd h
close-numbered n (a ∷ is) ps h = refl

runs-group :
    (n : ℕ) (g rest : List Text)
    → All IsValue g
    → runs n (g ++ rest) ≡ (numbered n g ++ (runs (after n g) rest).0, (runs (after n g) rest).1)
unfolding runs
runs-group n [] rest h = refl
runs-group n (v ∷ vs) rest h = rw (blank_value v h.0, h.0.trimmed, runs-group (suc n) vs rest h.1)

runs-document :
    (n : ℕ) (g : List Text) (gs : List (List Text))
    → All IsGroup (g ∷ gs)
    → runs n (document (g ∷ gs)) ≡ (numbered n g, all_numbered (suc (after n g)) gs)
runs-document n g [] h =
    ap (runs n) (sym (append-nil g))
    ∙ runs-group n g [] (IsGroup-All g h.0)
    ∙ (unfold runs in rw append-nil)
runs-document n g (k ∷ gs) h =
    runs-group n g ([] ∷ document (k ∷ gs)) (IsGroup-All g h.0)
    ∙ rw (
      runs-blank (after n g) [] (document (k ∷ gs)) blank_nil,
      runs-document (suc (after n g)) k gs h.1,
      close-numbered (suc (after n g)) k _ h.1.0,
      append-nil,
    )

check_utf8-numbered : (n : ℕ) (g : List Text) → All IsValue g → check_utf8 (numbered n g) ≡ ok tt
check_utf8-numbered n [] h = refl
check_utf8-numbered n (v ∷ vs) h = rw h.0.valid (check_utf8-numbered (suc n) vs h.1)

types-numbered : (n : ℕ) (g : List Text) → map (λ i. i.type) (numbered n g) ≡ g
types-numbered n [] = refl
types-numbered n (v ∷ vs) = ap (◌∷◌ v) (types-numbered (suc n) vs)

some_blocks-map :
    (bs : List Block) {g : List Text} {gs : List (List Text)}
    → map values bs ≡ g ∷ gs
    → some_blocks bs ≡ ok bs
unfolding some_blocks
some_blocks-map [] e = cc
some_blocks-map (b ∷ bs) e = refl

-- The checks accept numbered groups, and give their values back.
check_paragraphs-numbered :
    (n : ℕ) (gs : List (List Text))
    → All IsGroup gs
    → (bs : List Block) × (check_paragraphs (all_numbered n gs) ≡ ok bs) × (map values bs ≡ gs)
check_paragraphs-numbered n [] h = ([], refl, refl)
check_paragraphs-numbered n ([] ∷ gs) h = absurd h.0
check_paragraphs-numbered n ((a ∷ []) ∷ gs) h = absurd h.0
check_paragraphs-numbered n ((a ∷ i ∷ is) ∷ gs) h =
    let g = a ∷ i ∷ is in
    let (bs, e, same) = check_paragraphs-numbered (suc (after n g)) gs h.1 in
    (
      block_of (record { type = a; line = n }) (numbered (suc n) (i ∷ is)) ∷ bs,
      rw (check_utf8-numbered n g h.0, e),
      ap₂ ◌∷◌ (types-numbered n g) same,
    )

document-ne-nil : (g : List Text) (gs : List (List Text)) → IsGroup g → document (g ∷ gs) ≢ []
document-ne-nil [] gs h = absurd h
document-ne-nil (a ∷ is) [] h = λ e. cc
document-ne-nil (a ∷ is) (k ∷ gs) h = λ e. cc

document-plain : (gs : List (List Text)) → All IsGroup gs → All (λ l. plain l ≡ true) (document gs)
document-plain [] h = tt
document-plain (g ∷ []) h =
    All-map IsValue (λ l. plain l ≡ true) g (λ v c. c.one_line) (IsGroup-All g h.0)
document-plain (g ∷ k ∷ gs) h =
    All-append (λ l. plain l ≡ true) g ([] ∷ document (k ∷ gs))
      (All-map IsValue (λ l. plain l ≡ true) g (λ v c. c.one_line) (IsGroup-All g h.0))
      (refl, document-plain (k ∷ gs) h.1)

-- A document of at least one group, each of an actor and at least one item type that are values on
-- one line, is accepted by `Parse`, which returns the actors and item types group by group.
pub parse-document :
    (g : List Text) (gs : List (List Text))
    → All IsGroup (g ∷ gs)
    → (bs : List Block) × (parse (join_lines (document (g ∷ gs))) ≡ ok bs)
      × (map values bs ≡ g ∷ gs)
parse-document g gs h =
    let lines = document (g ∷ gs) in
    let (bs, e, same) = check_paragraphs-numbered 1 (g ∷ gs) h in
    let seen =
      source_lines-join_lines lines (document-ne-nil g gs h.0) (document-plain (g ∷ gs) h) in
    (
      bs,
      parse-eq-described (join_lines lines)
          ∙ ap described seen
          ∙ unfold described paragraphs in
            rw (runs-document 1 g gs h, close-numbered 1 g _ h.0, e) (some_blocks-map bs same),
      same,
    )
