-- ===== src/Storage/Codes.antt =====
-- The codes of costume items: every code has been given out by the sequence of its production, and
-- no two items of a production have the same.
use costume_tree.Common.{
  ℕ, suc, ◌≤◌, ◌<◌, ◌≡◌, ◌≢◌, refl, sym, ap, inl, inr, ◌∙◌, Bool, true, false, if◌then◌else◌,
  Option, none, some, Option-cases, List, [], ◌∷◌, ◌++◌, ok, arith, All, All-append, All-map,
  All-update_where, find?, update_where, find?-append, find?-append_some, find?-update_where,
  find?-update_where_other, pad_four-injective,
}
use mathlib.Core.Option
use native.Mathlib.Decide.{ℕ_discrete}
use costume_tree.Storage.Models.{CostumeItem, CreateCostumeItemInput, UpdateCostumeItemInput}
use costume_tree.Storage.Database.{Sequence, Store, Query, is_item}
use costume_tree.Storage.Keeps.{Keeps}
use costume_tree.Storage.Frames.{KeepsItems}
use costume_tree.Storage.Items.{
  format_code, is_sequence, with_input, archive_item_row, item_row, upsert_sequence,
  next_code_value, insert_item, change_items, archive_items,
}

-- The last value that a production's sequence has given; 0 before the first.
abbrev value_of : Option Sequence → ℕ
value_of none = 0
value_of (some q) = q.next_value

abbrev pub sequence_value : List Sequence → ℕ → ℕ
sequence_value qs p = value_of (find? (is_sequence p) qs)

-- The item's code has been given out.
pub record HasCode (qs : List Sequence) (i : CostumeItem) : Type 0 where
  pub value : ℕ
  pub is_code : i.code ≡ format_code value
  pub given : value ≤ sequence_value qs i.production_id
  pub positive : 0 < value

abbrev pub CodeDiffers : CostumeItem → CostumeItem → Type 0
CodeDiffers i j = j.production_id ≡ i.production_id → j.code ≢ i.code

abbrev pub DistinctCodes : List CostumeItem → Type 0
DistinctCodes [] = Unit
DistinctCodes (i ∷ is) = All (CodeDiffers i) is × DistinctCodes is

pub record CodesAreValid (items : List CostumeItem) (qs : List Sequence) : Type 0 where
  pub given : All (HasCode qs) items
  pub distinct : DistinctCodes items

abbrev pub CodeInv : Store → Type 0
CodeInv s = CodesAreValid s.items s.sequences

pub format_code-injective : (m n : ℕ) → format_code m ≡ format_code n → m ≡ n
unfolding format_code
format_code-injective m n e = pad_four-injective m n (cc e)

-- What the upsert gives: the next value, in the sequence of its production and no other.
pub record IsNextValue (p : ℕ) (s : Store) (value : ℕ) (t : Store) : Type 0 where
  pub is_next : value ≡ suc (sequence_value s.sequences p)
  pub same_items : t.items ≡ s.items
  pub now_given : sequence_value t.sequences p ≡ value
  pub others : (q : ℕ) → q ≢ p → sequence_value t.sequences q ≡ sequence_value s.sequences q

abbrev first_value : ℕ → Sequence
first_value p = record { production_id = p; next_value = 1 }

abbrev bump : Sequence → Sequence
bump r = record r { next_value = suc r.next_value }

sequence_value-append :
    (p : ℕ) (qs : List Sequence)
    → find? (is_sequence p) qs ≡ none
    → sequence_value (qs ++ first_value p ∷ []) p ≡ 1
sequence_value-append p qs o =
    ap value_of (find?-append (is_sequence p) qs (first_value p ∷ []) o) ∙ ground arith

sequence_value-append_ne :
    (p r : ℕ) (qs : List Sequence)
    → r ≢ p
    → sequence_value (qs ++ first_value p ∷ []) r ≡ sequence_value qs r
sequence_value-append_ne p r qs ne = elim (Option-cases (find? (is_sequence r) qs)) [
  | inl o ↦ ap value_of (find?-append (is_sequence r) qs (first_value p ∷ []) o) ∙ ground (arith, o)
  | inr (q, o) ↦ ap value_of (find?-append_some (is_sequence r) qs (first_value p ∷ []) o ∙ sym o)
]

sequence_value-bump :
    (p : ℕ) (qs : List Sequence) {q : Sequence}
    → find? (is_sequence p) qs ≡ some q
    → sequence_value (update_where (is_sequence p) bump qs) p ≡ suc q.next_value
sequence_value-bump p qs o =
    ap value_of (find?-update_where (is_sequence p) bump qs (λ r. refl) ∙ ap (Option.map bump) o)

sequence_value-bump_ne :
    (p r : ℕ) (qs : List Sequence)
    → r ≢ p
    → sequence_value (update_where (is_sequence p) bump qs) r ≡ sequence_value qs r
sequence_value-bump_ne p r qs ne =
    ap value_of
      (find?-update_where_other (is_sequence r) (is_sequence p) bump qs (λ x h. ground arith))

upsert_sequence-IsNextValue :
    (p : ℕ) (s : Store) (o : Option Sequence) (value : ℕ) (t : Store)
    → find? (is_sequence p) s.sequences ≡ o
    → upsert_sequence p o s ≡ ok (value, t)
    → IsNextValue p s value t
unfolding upsert_sequence
upsert_sequence-IsNextValue p s none value t o e =
    let seqs : t.sequences ≡ s.sequences ++ first_value p ∷ [] = ground arith in
    let one : value ≡ 1 = ground arith in
    record {
      is_next = one ∙ ap (λ x. suc (value_of x)) (sym o);
      same_items = ground arith;
      now_given = rw seqs (sequence_value-append p s.sequences o ∙ sym one);
      others = λ r ne. rw seqs (sequence_value-append_ne p r s.sequences ne);
    }
upsert_sequence-IsNextValue p s (some q) value t o e =
    let seqs : t.sequences ≡ update_where (is_sequence p) bump s.sequences = ground arith in
    let next : value ≡ suc q.next_value = ground arith in
    record {
      is_next = next ∙ ap (λ x. suc (value_of x)) (sym o);
      same_items = ground arith;
      now_given = rw seqs (sequence_value-bump p s.sequences o ∙ sym next);
      others = λ r ne. rw seqs (sequence_value-bump_ne p r s.sequences ne);
    }

pub next_code_value-IsNextValue :
    (p : ℕ) (s : Store) (value : ℕ) (t : Store)
    → next_code_value p s ≡ ok (value, t)
    → IsNextValue p s value t
unfolding next_code_value
next_code_value-IsNextValue p s value t = upsert_sequence-IsNextValue p s _ value t refl

-- Codes that were given stay given after the next value of a production.
HasCode-next :
    {p : ℕ} {s t : Store} {value : ℕ} (i : CostumeItem)
    → IsNextValue p s value t
    → HasCode s.sequences i
    → HasCode t.sequences i
HasCode-next {p} {s} {t} i n h = record {
  value = h.value;
  is_code = h.is_code;
  given = elim (ℕ_discrete i.production_id p) [
    | yes e ↦ rw (e, n.now_given) (omega (arith, rw e at h.given, n.is_next))
    | no ne ↦ rw (n.others i.production_id ne) h.given
  ];
  positive = h.positive;
}

pub next_code_value-CodeInv :
    (p : ℕ) (s : Store) (value : ℕ) (t : Store) → CodeInv s → IsNextValue p s value t → CodeInv t
next_code_value-CodeInv p s value t h n = rw n.same_items (record {
  given =
      All-map (HasCode s.sequences) (HasCode t.sequences) s.items (λ i. HasCode-next i n) h.given;
  distinct = h.distinct;
})

-- A code above all that were given to the production is no item's.
pub fresh_code :
    (p value : ℕ) (qs : List Sequence) (i : CostumeItem)
    → sequence_value qs p < value
    → HasCode qs i
    → i.production_id ≡ p
    → i.code ≢ format_code value
fresh_code p value qs i lt h e c =
    let same = format_code-injective h.value value (sym h.is_code ∙ c) in
    omega (arith, rw e at h.given)

DistinctCodes-append :
    (is : List CostumeItem) (j : CostumeItem)
    → DistinctCodes is
    → All (λ i. j.production_id ≡ i.production_id → j.code ≢ i.code) is
    → DistinctCodes (is ++ j ∷ [])
DistinctCodes-append [] j d h = (tt, tt)
DistinctCodes-append (i ∷ is) j d h =
    (All-append (CodeDiffers i) is (j ∷ []) d.0 (h.0, tt), DistinctCodes-append is j d.1 h.1)

abbrev SameCode : CostumeItem → CostumeItem → Type 0
SameCode j i = (j.production_id ≡ i.production_id) × (j.code ≡ i.code)

chosen_keeps :
    (f : CostumeItem → CostumeItem) (b : Bool) (j : CostumeItem)
    → SameCode (f j) j
    → SameCode (if b then f j else j) j
chosen_keeps f true j k = k
chosen_keeps f false j k = (refl, refl)

-- An update of rows that keeps production and code keeps the codes distinct.
CodeDiffers-update_where :
    (p : CostumeItem → Bool) (f : CostumeItem → CostumeItem)
    → ((i : CostumeItem) → SameCode (f i) i)
    → (i i' : CostumeItem) (is : List CostumeItem) → i'.production_id ≡ i.production_id
    → i'.code ≡ i.code
    → All (CodeDiffers i) is
    → All (CodeDiffers i') (update_where p f is)
CodeDiffers-update_where p f k i i' [] ep ec h = tt
CodeDiffers-update_where p f k i i' (j ∷ is) ep ec h = (
  λ a c. let same = chosen_keeps f (p j) j (k j) in h.0 (sym same.0 ∙ a ∙ ep) (sym same.1 ∙ c ∙ ec),
  CodeDiffers-update_where p f k i i' is ep ec h.1,
)

DistinctCodes-update_where :
    (p : CostumeItem → Bool) (f : CostumeItem → CostumeItem) (is : List CostumeItem)
    → ((i : CostumeItem) → SameCode (f i) i)
    → DistinctCodes is
    → DistinctCodes (update_where p f is)
DistinctCodes-update_where p f [] k d = tt
DistinctCodes-update_where p f (i ∷ is) k d =
    let same = chosen_keeps f (p i) i (k i) in
    (
      CodeDiffers-update_where p f k i (if p i then f i else i) is same.0 same.1 d.0,
      DistinctCodes-update_where p f is k d.1,
    )

HasCode-same : {qs : List Sequence} (i j : CostumeItem) → SameCode j i → HasCode qs i → HasCode qs j
HasCode-same i j same h = record {
  value = h.value;
  is_code = same.1 ∙ h.is_code;
  given = rw same.0 h.given;
  positive = h.positive;
}

CodesAreValid-update_where :
    (p : CostumeItem → Bool) (f : CostumeItem → CostumeItem) (is : List CostumeItem)
    (qs : List Sequence)
    → ((i : CostumeItem) → SameCode (f i) i)
    → CodesAreValid is qs
    → CodesAreValid (update_where p f is) qs
CodesAreValid-update_where p f is qs k h = record {
  given = All-update_where (HasCode qs) p f is (λ i. HasCode-same i (f i) (k i)) h.given;
  distinct = DistinctCodes-update_where p f is k h.distinct;
}

pub change_items-CodeInv :
    (input : UpdateCostumeItemInput) (now : ℕ) → Keeps CodeInv (change_items input now)
unfolding change_items
change_items-CodeInv input now = record {
  at = λ s a t h e.
      let items : t.items
          ≡ update_where (is_item input.production_id input.id) (with_input input now) s.items =
        ground arith in
      let qs : t.sequences ≡ s.sequences = ground arith in
      rw (items, qs)
        (CodesAreValid-update_where (is_item input.production_id input.id) (with_input input now)
          s.items s.sequences (λ i. (refl, refl)) h);
}

pub archive_items-CodeInv : (p id now : ℕ) → Keeps CodeInv (archive_items p id now)
unfolding archive_items
archive_items-CodeInv p id now = record {
  at = λ s a t h e.
      let items : t.items ≡ update_where (is_item p id) (archive_item_row now) s.items =
        ground arith in
      let qs : t.sequences ≡ s.sequences = ground arith in
      rw (items, qs)
        (CodesAreValid-update_where (is_item p id) (archive_item_row now) s.items s.sequences
          (λ i. (refl, refl)) h);
}

-- An item with a value above all those given before, and given by now, keeps the codes valid.
pub insert_item-CodeInv :
    (input : CreateCostumeItemInput) (now value : ℕ) (s r : Store) (id : ℕ) (t : Store)
    → CodeInv s
    → IsNextValue input.production_id s value r
    → insert_item input (format_code value) now r ≡ ok (id, t)
    → CodeInv t
unfolding insert_item
insert_item-CodeInv input now value s r id t h n e =
    let row = item_row input (format_code value) r.next_item now in
    let items : t.items ≡ r.items ++ row ∷ [] = ground arith in
    let qs : t.sequences ≡ r.sequences = ground arith in
    let h' = next_code_value-CodeInv input.production_id s value r h n in
    rw (items, qs)
      (record {
        given = All-append (HasCode r.sequences) r.items (row ∷ []) h'.given (
          record {
            value = value;
            is_code = refl;
            given = omega (arith, n.now_given);
            positive = omega (arith, n.is_next);
          },
          tt,
        );
        distinct = DistinctCodes-append r.items row h'.distinct (
            rw n.same_items (
              All-map (HasCode s.sequences) _ s.items
                (λ i c p q.
                  fresh_code input.production_id value s.sequences i (omega (arith, n.is_next)) c
                    (sym p) (sym q))
                h.given));
      })

pub Keeps-KeepsItems {ℓ} : {A : Type ℓ} (m : Query A) → KeepsItems m → Keeps CodeInv m
Keeps-KeepsItems m k = record { at = λ s a t h e. let same = k.at s a t e in rw (same.0, same.1) h }
