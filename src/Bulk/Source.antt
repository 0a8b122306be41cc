-- ===== src/Bulk/Source.antt =====
-- Where the blocks and errors of `Parse` stand in the source lines.
use costume_tree.Common.{
  ℕ, suc, ◌-◌, ◌≤◌, ◌<◌, Bool, true, false, ◌≡◌, ◌≢◌, refl, subst, sym, ap, ◌∙◌, ◌&&◌,
  Outcome-cases, &&_split, inl, inr, ◌↔◌, some, List, [], ◌∷◌, Bool-cases, Outcome, ok, err,
  and_then-eq-ok, Text, is_empty_iff, valid_utf8, trim_space, arith, All, All-map, get_elem?,
}
use costume_tree.Bulk.{
  Item, Block, ParseError, invalid_utf8, empty_input, err_empty_input, unwrap, some_blocks,
  source_lines, parse,
}
use costume_tree.Bulk.Paragraphs.{
  Paragraph, blank, close, runs, runs-blank, runs-value, paragraphs, check_utf8, last_line,
  block_of, has_items, check_paragraph, check_paragraphs, described, parse-eq-described,
}

-- The item is line `i.line` of the lines numbered from `n`: its trimmed value, which is not empty.
pub record IsLine (n : ℕ) (lines : List Text) (i : Item) : Type 0 where
  pub raw : Text
  pub from : n ≤ i.line
  pub found : get_elem? lines (i.line - n) ≡ some raw
  pub trimmed : trim_space raw ≡ i.type
  pub some_value : i.type ≢ []

-- Line numbers that grow, from one that they exceed.
abbrev pub Grows : ℕ → List Item → Type 0
Grows n [] = Unit
Grows n (i ∷ is) = (n < i.line) × Grows i.line is

IsLine-later :
    (n : ℕ) (raw : Text) (lines : List Text) (i : Item)
    → IsLine (suc n) lines i
    → IsLine n (raw ∷ lines) i
IsLine-later n raw lines i h = record {
  raw = h.raw;
  from = omega (arith, h.from);
  found = let e : i.line - n ≡ suc (i.line - suc n) = omega (arith, h.from) in rw e h.found;
  trimmed = h.trimmed;
  some_value = h.some_value;
}

IsLine-here :
    (n : ℕ) (raw : Text) (lines : List Text)
    → blank raw ≡ false
    → IsLine n (raw ∷ lines) (record { type = trim_space raw; line = n })
IsLine-here n raw lines b = record {
  raw = raw;
  from = omega arith;
  found = let e : n - n ≡ 0 = omega arith in rw e;
  trimmed = refl;
  some_value = λ e. cc (b, (is_empty_iff (trim_space raw)).1 e);
}

abbrev Placed : ℕ → List Text → Paragraph → Type 0
Placed n lines = All (IsLine n lines)

All-close {κ} :
    (P : Paragraph → Type κ) (p : Paragraph) (ps : List Paragraph)
    → P p
    → All P ps
    → All P (close p ps)
All-close P [] ps h hs = hs
All-close P (i ∷ p) ps h hs = (h, hs)

Placed-later :
    (n : ℕ) (raw : Text) (lines : List Text) (p : Paragraph)
    → Placed (suc n) lines p
    → Placed n (raw ∷ lines) p
Placed-later n raw lines p =
    All-map (IsLine (suc n) lines) (IsLine n (raw ∷ lines)) p (IsLine-later n raw lines)

runs-Placed :
    (n : ℕ) (lines : List Text)
    → Placed n lines (runs n lines).0 × All (Placed n lines) (runs n lines).1
unfolding runs
runs-Placed n [] = (tt, tt)
runs-Placed n (raw ∷ lines) =
    let (front, behind) = runs-Placed (suc n) lines in
    let later = Placed-later n raw lines in
    let others = All-map (Placed (suc n) lines) (Placed n (raw ∷ lines)) _ later behind in
    elim (Bool-cases (blank raw)) [
      | inl b ↦ rw b (tt, All-close (Placed n (raw ∷ lines)) _ _ (later _ front) others)
      | inr b ↦ rw b ((IsLine-here n raw lines b, later _ front), others)
    ]

-- The line numbers of a paragraph follow each other.
abbrev Consecutive : ℕ → Paragraph → Type 0
Consecutive n [] = Unit
Consecutive n (i ∷ p) = (i.line ≡ n) × Consecutive (suc n) p

abbrev IsRun : Paragraph → Type 0
IsRun p = (n : ℕ) × Consecutive n p

runs-IsRun :
    (n : ℕ) (lines : List Text) → Consecutive n (runs n lines).0 × All IsRun (runs n lines).1
unfolding runs
runs-IsRun n [] = (tt, tt)
runs-IsRun n (raw ∷ lines) =
    let (front, behind) = runs-IsRun (suc n) lines in
    elim (Bool-cases (blank raw)) [
      | inl b ↦ rw b (tt, All-close IsRun _ _ (suc n, front) behind)
      | inr b ↦ rw b ((refl, front), behind)
    ]

-- A block that stands in the source: the actor and each item type are what is left of their lines
-- without surrounding space, on lines that follow each other from the first to the last.
pub record IsSourceBlock (lines : List Text) (b : Block) : Type 0 where
  pub actor_is_line : IsLine 1 lines (record { type = b.actor; line = b.actor_line })
  pub items_are_lines : All (IsLine 1 lines) b.items
  pub has_item : b.items ≢ []
  pub consecutive : Consecutive (suc b.actor_line) b.items
  pub starts : b.start_line ≡ b.actor_line
  pub ends : b.end_line ≡ last_line b.actor_line b.items

check_paragraph-IsSourceBlock :
    (lines : List Text) (a : Item) (is : List Item) {b : Block}
    → Placed 1 lines (a ∷ is)
    → IsRun (a ∷ is)
    → check_paragraph a is ≡ ok b
    → IsSourceBlock lines b
check_paragraph-IsSourceBlock lines a is h r e =
    let (_, _, e') = and_then-eq-ok (check_utf8 (a ∷ is)) (λ _. has_items a is) e in
    has_items-IsSourceBlock is h r e'
  where
    has_items-IsSourceBlock :
        (js : List Item) {c : Block}
        → Placed 1 lines (a ∷ js)
        → IsRun (a ∷ js)
        → has_items a js ≡ ok c
        → IsSourceBlock lines c
    has_items-IsSourceBlock [] h r e = cc
    has_items-IsSourceBlock (j ∷ js) {c} h r e =
        let e' : block_of a (j ∷ js) ≡ c = cc in
        subst (IsSourceBlock lines) e' (record {
          actor_is_line = h.0;
          items_are_lines = h.1;
          has_item = λ q. cc;
          consecutive = rw (r.1.0) r.1.1;
          starts = refl;
          ends = refl;
        })

check_paragraphs-IsSourceBlock :
    (lines : List Text) (ps : List Paragraph) {bs : List Block}
    → All (Placed 1 lines) ps
    → All IsRun ps
    → check_paragraphs ps ≡ ok bs
    → All (IsSourceBlock lines) bs
check_paragraphs-IsSourceBlock lines [] {bs} h r e =
    let none_left : [] ≡ bs = cc in subst (All (IsSourceBlock lines)) none_left tt
check_paragraphs-IsSourceBlock lines ([] ∷ ps) h r e =
    check_paragraphs-IsSourceBlock lines ps h.1 r.1 e
check_paragraphs-IsSourceBlock lines ((a ∷ is) ∷ ps) {bs} h r e =
    let (b, eb, e') = and_then-eq-ok (check_paragraph a is) _ e in
    let (cs, ec, e'') = and_then-eq-ok (check_paragraphs ps) (λ cs. ok (b ∷ cs)) e' in
    let same : b ∷ cs ≡ bs = cc in
    subst (All (IsSourceBlock lines)) same (
      check_paragraph-IsSourceBlock lines a is h.0 r.0 eb,
      check_paragraphs-IsSourceBlock lines ps h.1 r.1 ec,
    )

some_blocks-eq-ok :
    (bs : List Block) {cs : List Block} → some_blocks bs ≡ ok cs → (bs ≡ cs) × (cs ≢ [])
unfolding some_blocks
some_blocks-eq-ok [] e = cc
some_blocks-eq-ok (b ∷ bs) {cs} e = let same : b ∷ bs ≡ cs = cc in (same, λ q. cc)

-- Whatever `Parse` accepts is not empty, and each block of it stands in the source lines: its actor
-- and its item types (at least one) are the trimmed, non-empty values of the lines that it names,
-- those lines follow each other, and it starts at the actor's line and ends at the last item's.
pub parse-IsSourceBlock :
    (input : Text) {bs : List Block}
    → parse input ≡ ok bs
    → (bs ≢ []) × All (IsSourceBlock (source_lines input)) bs
unfolding described paragraphs
parse-IsSourceBlock input {bs} e =
    let lines = source_lines input in
    let ps = paragraphs lines in
    let (cs, checked, e') =
      and_then-eq-ok (check_paragraphs ps) some_blocks (sym (parse-eq-described input) ∙ e) in
    let (same, ne) = some_blocks-eq-ok cs e' in
    let placed = runs-Placed 1 lines in
    let run = runs-IsRun 1 lines in
    (
      ne,
      subst (All (IsSourceBlock lines)) same (
          check_paragraphs-IsSourceBlock lines ps (All-close (Placed 1 lines) _ _ placed.0 placed.1)
            (All-close IsRun _ _ (1, run.0) run.1) checked),
    )

check_utf8-line :
    (lines : List Text) (p : Paragraph) {e : ParseError}
    → Placed 1 lines p
    → check_utf8 p ≡ err e
    → e.line ≢ 0
check_utf8-line lines [] h q = cc
check_utf8-line lines (i ∷ p) {e} h q = elim (Bool-cases (valid_utf8 i.type)) [
  | inl v ↦ check_utf8-line lines p h.1 (rw v at q)
  | inr v ↦
      let bad : Outcome ParseError (Unit {0}) =
        err (record { line = i.line; message = invalid_utf8 }) in
      let at_line : bad ≡ err e = rw v at q in λ z. ground (arith, h.0.from, at_line)
]

check_paragraph-line :
    (lines : List Text) (a : Item) (is : List Item) {e : ParseError}
    → Placed 1 lines (a ∷ is)
    → check_paragraph a is ≡ err e
    → e.line ≢ 0
check_paragraph-line lines a is {e} h q = elim (Outcome-cases (check_utf8 (a ∷ is))) [
  | inl (u, v) ↦ no_item is (rw v at q)
  | inr (e', v) ↦
      let same : e' ≡ e = cc (rw v at q) in
      subst (λ x. x.line ≢ 0) same (check_utf8-line lines (a ∷ is) h v)
]
  where
    no_item : (js : List Item) → has_items a js ≡ err e → e.line ≢ 0
    no_item [] q = λ z. ground (arith, h.0.from, q)
    no_item (j ∷ js) q = cc

check_paragraphs-line :
    (lines : List Text) (ps : List Paragraph) {e : ParseError}
    → All (Placed 1 lines) ps
    → check_paragraphs ps ≡ err e
    → e.line ≢ 0
check_paragraphs-line lines [] h q = cc
check_paragraphs-line lines ([] ∷ ps) h q = check_paragraphs-line lines ps h.1 q
check_paragraphs-line lines ((a ∷ is) ∷ ps) {e} h q = elim (Outcome-cases (check_paragraph a is)) [
  | inr (e', v) ↦
      let same : e' ≡ e = cc (rw v at q) in
      subst (λ x. x.line ≢ 0) same (check_paragraph-line lines a is h.0 v)
  | inl (b, v) ↦ elim (Outcome-cases (check_paragraphs ps)) [
    | inl (bs, w) ↦ cc (q, v, w)
    | inr (e', w) ↦
        let same : e' ≡ e = cc (rw (v, w) at q) in
        subst (λ x. x.line ≢ 0) same (check_paragraphs-line lines ps h.1 w)
  ]
]

abbrev pub all_blank : List Text → Bool
all_blank [] = true
all_blank (l ∷ ls) = blank l && all_blank ls

runs-all_blank : (n : ℕ) (lines : List Text) → all_blank lines ≡ true → runs n lines ≡ ([], [])
unfolding runs
runs-all_blank n [] h = refl
runs-all_blank n (raw ∷ lines) h =
    let (b, bs) = &&_split (blank raw) (all_blank lines) h in
    rw (b, runs-all_blank (suc n) lines bs)

no_block-all_blank :
    (n : ℕ) (lines : List Text)
    → check_paragraphs (close (runs n lines).0 (runs n lines).1) ≡ ok []
    → all_blank lines ≡ true
no_block-all_blank n [] e = refl
no_block-all_blank n (raw ∷ lines) e = elim (Bool-cases (blank raw)) [
  | inl b ↦ rw (b, no_block-all_blank (suc n) lines (rw (runs-blank n raw lines b) at e))
  | inr b ↦ absurd (
      some_block _ (runs (suc n) lines).0 (runs (suc n) lines).1
        (rw (runs-value n raw lines b) at e))
]
  where
    some_block :
        (a : Item) (is : List Item) (ps : List Paragraph) → check_paragraphs ((a ∷ is) ∷ ps) ≢ ok []
    some_block a is ps e =
        let (b, _, e') = and_then-eq-ok (check_paragraph a is) _ e in
        let (cs, _, e'') = and_then-eq-ok (check_paragraphs ps) (λ cs. ok (b ∷ cs)) e' in cc

err-all_blank :
    (lines : List Text) {e : ParseError}
    → described lines ≡ err e
    → unwrap e ≡ err_empty_input
    → all_blank lines ≡ true
unfolding described paragraphs unwrap some_blocks
err-all_blank lines {e} q z = elim (Outcome-cases (check_paragraphs (paragraphs lines))) [
  | inl (bs, v) ↦ no_block-all_blank 1 lines (v ∙ ap ok (none_left bs (rw v at q)))
  | inr (e', v) ↦
      let same : e' ≡ e = cc (rw v at q) in
      let placed = runs-Placed 1 lines in
      absurd (
        check_paragraphs-line lines (paragraphs lines)
          (All-close (Placed 1 lines) _ _ placed.0 placed.1) (v ∙ ap err same) (ground (arith, z)))
]
  where
    none_left : (bs : List Block) → some_blocks bs ≡ err e → bs ≡ []
    none_left [] q = refl
    none_left (b ∷ bs) q = cc

described-all_blank :
    (lines : List Text)
    → all_blank lines ≡ true
    → described lines ≡ err (record { line = 0; message = empty_input })
unfolding described paragraphs some_blocks
described-all_blank lines h = rw (runs-all_blank 1 lines h)

-- `Parse` fails with an error that is classified as empty input exactly when every source line is
-- blank.
pub parse-err_empty_input :
    (input : Text)
    → ((e : ParseError) × (parse input ≡ err e) × (unwrap e ≡ err_empty_input))
      ↔ (all_blank (source_lines input) ≡ true)
unfolding unwrap
parse-err_empty_input input =
    let lines = source_lines input in
    (
      λ h. err-all_blank lines (sym (parse-eq-described input) ∙ h.1) h.2,
      λ h. (
        record { line = 0; message = empty_input },
        parse-eq-described input ∙ described-all_blank lines h,
        refl,
      ),
    )
