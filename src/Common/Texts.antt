-- ===== src/Common/Texts.antt =====
-- Go strings. A string is the list of its symbols: a code point, or a byte that is no valid
-- UTF-8, as 0x110000 plus the byte. This loses nothing, since every byte string splits so in one
-- way. The functions are those of packages `strings`, `unicode` and `unicode/utf8` that the
-- program calls, and PostgreSQL's `trim`.
use Prim.Native.Nat.{ℕ}
use Prim.Native.Char.{code}
use Prim.Native.String.{String}
use mathlib.Core.Path.{◌≡◌, refl, ap, ◌∙◌}
use mathlib.Core.Bool.{Bool, true, false, not, ◌&&◌, ◌||◌}
use mathlib.Core.Logic.{◌↔◌, ◌≢◌, ◌⊎◌, inl, inr}
use mathlib.Core.List.{List, [], ◌∷◌}
use native.Mathlib.Omega.{arith}
use costume_tree.Common.Tests.{Bool-cases, ltb, leb, ◌==◌, if◌then◌else◌}

abbrev pub Text : Type 0
Text = List ℕ

abbrev pub text : String → Text
text String.[] = []
text (String.◌∷◌ c s) = code c ∷ text s

unfoldable pub text_eq : Text → Text → Bool
text_eq [] [] = true
text_eq (x ∷ xs) (y ∷ ys) = x == y && text_eq xs ys
text_eq _ _ = false

unfoldable pub is_empty : Text → Bool
is_empty [] = true
is_empty (x ∷ xs) = false

-- `unicode.IsSpace`
unfoldable pub is_space : ℕ → Bool
is_space c =
    (leb 9 c && leb c 13)
    || c == 0x20
    || c == 0x85
    || c == 0xA0
    || c == 0x1680
    || (leb 0x2000 c && leb c 0x200A)
    || c == 0x2028
    || c == 0x2029
    || c == 0x202F
    || c == 0x205F
    || c == 0x3000

-- `utf8.ValidString`
unfoldable pub valid_utf8 : Text → Bool
valid_utf8 [] = true
valid_utf8 (c ∷ cs) = ltb c 0x110000 && valid_utf8 cs

-- PostgreSQL takes the string as a TEXT: valid UTF-8 without the character 0.
unfoldable pub storable : Text → Bool
storable [] = true
storable (c ∷ cs) = not (c == 0) && (ltb c 0x110000 && storable cs)

trim_left_by : (ℕ → Bool) → Text → Text
trim_left_by p [] = []
trim_left_by p (c ∷ cs) = if p c then trim_left_by p cs else c ∷ cs

-- One symbol in front of what is left of the symbols behind it.
keep_if_needed : (ℕ → Bool) → ℕ → Text → Text
keep_if_needed p c [] = if p c then [] else c ∷ []
keep_if_needed p c (d ∷ ds) = c ∷ d ∷ ds

trim_right_by : (ℕ → Bool) → Text → Text
unfolding keep_if_needed
trim_right_by p [] = []
trim_right_by p (c ∷ cs) = keep_if_needed p c (trim_right_by p cs)

trim_by : (ℕ → Bool) → Text → Text
unfolding trim_left_by trim_right_by
trim_by p s = trim_right_by p (trim_left_by p s)

-- `strings.TrimSpace`
unfoldable pub trim_space : Text → Text
unfolding trim_by is_space
trim_space = trim_by is_space

-- SQL `trim(s)`, which removes the space character only
unfoldable pub sql_trim : Text → Text
unfolding trim_by
sql_trim = trim_by (λ c. c == 0x20)

pub text_eq_iff : (s t : Text) → (text_eq s t ≡ true) ↔ (s ≡ t)
unfolding text_eq
text_eq_iff (x ∷ s) (y ∷ t) = ground (arith, text_eq_iff s t)
text_eq_iff _ _ = ground arith

pub is_empty_iff : (s : Text) → (is_empty s ≡ true) ↔ (s ≡ [])
unfolding is_empty
is_empty_iff [] = ground arith
is_empty_iff (c ∷ s) = ground arith

pub is_empty-false : (s : Text) → s ≢ [] → is_empty s ≡ false
is_empty-false s ne = elim (Bool-cases (is_empty s)) [
  | inl h ↦ absurd (ne ((is_empty_iff s).0 h))
  | inr h ↦ h
]

-- Every symbol passes the test.
abbrev all_by : (ℕ → Bool) → Text → Bool
all_by p [] = true
all_by p (c ∷ cs) = p c && all_by p cs

all_by_mono :
    (p q : ℕ → Bool) (s : Text)
    → ((c : ℕ) → p c ≡ true → q c ≡ true)
    → all_by p s ≡ true
    → all_by q s ≡ true
all_by_mono p q [] k h = refl
all_by_mono p q (c ∷ cs) k h = ground (arith, k c, all_by_mono p q cs k)

List-cases {ℓ} : {A : Type ℓ} (xs : List A) → (xs ≡ []) ⊎ ((y : A) × (ys : List A) × (xs ≡ y ∷ ys))
List-cases [] = inl refl
List-cases (y ∷ ys) = inr (y, ys, refl)

space_is_space : (c : ℕ) → (c == 0x20) ≡ true → is_space c ≡ true
unfolding is_space
space_is_space c h = ground arith

trim_right_by-nil : (p : ℕ → Bool) (s : Text) → (trim_right_by p s ≡ []) ↔ (all_by p s ≡ true)
unfolding trim_right_by
trim_right_by-nil p [] = ground arith
trim_right_by-nil p (c ∷ cs) = ground (arith, trim_right_by-nil p cs)

trim_left_by-all : (p : ℕ → Bool) (s : Text) → all_by p (trim_left_by p s) ≡ all_by p s
unfolding trim_left_by
trim_left_by-all p [] = refl
trim_left_by-all p (c ∷ cs) = ground (arith, trim_left_by-all p cs)

trim_by-nil : (p : ℕ → Bool) (s : Text) → (trim_by p s ≡ []) ↔ (all_by p s ≡ true)
unfolding trim_by
trim_by-nil p s = rw (← trim_left_by-all p s) (trim_right_by-nil p (trim_left_by p s))

-- The first symbol, if there is one, fails the test.
abbrev starts_clean : (ℕ → Bool) → Text → Bool
starts_clean p [] = true
starts_clean p (c ∷ cs) = not (p c)

trim_left_by-clean : (p : ℕ → Bool) (s : Text) → starts_clean p (trim_left_by p s) ≡ true
unfolding trim_left_by
trim_left_by-clean p [] = refl
trim_left_by-clean p (c ∷ cs) = ground (arith, trim_left_by-clean p cs)

trim_left_by-fixed : (p : ℕ → Bool) (s : Text) → starts_clean p s ≡ true → trim_left_by p s ≡ s
unfolding trim_left_by
trim_left_by-fixed p [] h = refl
trim_left_by-fixed p (c ∷ cs) h = ground arith

trim_right_by-clean :
    (p : ℕ → Bool) (s : Text) → starts_clean p s ≡ true → starts_clean p (trim_right_by p s) ≡ true
unfolding trim_right_by
trim_right_by-clean p [] h = refl
trim_right_by-clean p (c ∷ cs) h = elim (List-cases (trim_right_by p cs)) [
  | inl e ↦ ground arith
  | inr (d, ds, e) ↦ ground arith
]

trim_right_by_idem :
    (p : ℕ → Bool) (s : Text) → trim_right_by p (trim_right_by p s) ≡ trim_right_by p s
unfolding trim_right_by
trim_right_by_idem p [] = refl
trim_right_by_idem p (c ∷ cs) = elim (List-cases (trim_right_by p cs)) [
  | inl e ↦ ground arith
  | inr (d, ds, e) ↦ ground (arith, trim_right_by_idem p cs)
]

pub trim_space_idem : (s : Text) → trim_space (trim_space s) ≡ trim_space s
unfolding trim_space
trim_space_idem s =
    ap (trim_right_by is_space) (
      trim_left_by-fixed is_space (trim_space s)
        (trim_right_by-clean is_space (trim_left_by is_space s) (trim_left_by-clean is_space s)))
    ∙ trim_right_by_idem is_space (trim_left_by is_space s)

-- A text that keeps something under `strings.TrimSpace` keeps something under SQL `trim`.
pub sql_trim-ne-nil : (s : Text) → trim_space s ≢ [] → sql_trim s ≢ []
unfolding trim_space sql_trim
sql_trim-ne-nil s h e = h (
    (trim_by-nil is_space s).1
      (all_by_mono (λ c. c == 0x20) is_space s space_is_space ((trim_by-nil _ s).0 e)))

-- A text that begins with another character than a space keeps something under SQL `trim`.
pub sql_trim-cons : (c : ℕ) (s : Text) → (c == 0x20) ≡ false → is_empty (sql_trim (c ∷ s)) ≡ false
unfolding sql_trim
sql_trim-cons c s h = elim (Bool-cases (is_empty (sql_trim (c ∷ s)))) [
  | inl e ↦
      let spaces = (trim_by-nil (λ d. d == 0x20) (c ∷ s)).0 ((is_empty_iff _).0 e) in ground arith
  | inr e ↦ e
]
