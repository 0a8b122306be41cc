-- ===== src/Common/Numbers.antt =====
-- Signed integers, decimal numerals and `fmt.Sprintf("%0*d", ...)`.
use Prim.Native.Nat.{ℕ, zero, suc, ◌+◌, ◌-◌, ◌*◌, ◌/◌, ◌%◌, ◌^◌, ◌<◌}
use mathlib.Core.Path.{◌≡◌, refl, sym, ap, ◌∙◌}
use mathlib.Core.Logic.{inl, inr}
use mathlib.Core.Bool.{Bool, not, ◌&&◌}
use mathlib.Core.Option.{Option, none, some}
use mathlib.Core.List.{[], ◌∷◌, ◌++◌}
use native.Mathlib.Omega.{arith}
use costume_tree.Common.Tests.{ltb, leb, ◌==◌, if◌then◌else◌, Bool-cases}
use costume_tree.Common.Lists.{length}
use costume_tree.Common.Texts.{Text}

-- `negsuc n` is -(n + 1).
pub data ℤ : Type 0 where
  pos : ℕ → ℤ
  negsuc : ℕ → ℤ

-- a - b, as an integer.
abbrev pub sub_ℕ : ℕ → ℕ → ℤ
sub_ℕ a b = if ltb a b then negsuc (b - a - 1) else pos (a - b)

abbrev pub pos_part : ℤ → ℕ
pos_part (pos n) = n
pos_part (negsuc n) = 0

abbrev pub neg_part : ℤ → ℕ
neg_part (pos n) = 0
neg_part (negsuc n) = suc n

infixl 65 ◌+ℤ◌
unfoldable pub ◌+ℤ◌ : ℤ → ℤ → ℤ
a +ℤ b = sub_ℕ (pos_part a + pos_part b) (neg_part a + neg_part b)

abbrev pub leb_ℤ : ℤ → ℤ → Bool
leb_ℤ a b = not (ltb (pos_part b + neg_part a) (pos_part a + neg_part b))

-- The digits of a number in base ten, with fuel above the number.
decimal_fuel : ℕ → ℕ → Text
decimal_fuel zero n = []
decimal_fuel (suc fuel) n =
    let front = decimal_fuel fuel (n / 10) in
    if ltb n 10 then (48 + n) ∷ [] else front ++ (48 + n % 10) ∷ []

-- `strconv.FormatInt(n, 10)` of a number that is not negative
unfoldable pub decimal : ℕ → Text
unfolding decimal_fuel
decimal n = decimal_fuel (suc n) n

-- Zeros in front.
pub zeros : ℕ → Text → Text
zeros zero s = s
zeros (suc k) s = 48 ∷ zeros k s

-- `%04d`
unfoldable pub pad_four : ℕ → Text
unfolding zeros
pad_four n = zeros (4 - length (decimal n)) (decimal n)

-- The number that a numeral stands for, read from the left.
abbrev read_from : ℕ → Text → ℕ
read_from acc [] = acc
read_from acc (c ∷ cs) = read_from (acc * 10 + (c - 48)) cs

read_from-append : (acc : ℕ) (s t : Text) → read_from acc (s ++ t) ≡ read_from (read_from acc s) t
read_from-append acc [] t = refl
read_from-append acc (c ∷ cs) t = read_from-append (acc * 10 + (c - 48)) cs t

read_decimal_fuel : (fuel n : ℕ) → n < fuel → read_from 0 (decimal_fuel fuel n) ≡ n
unfolding decimal_fuel
read_decimal_fuel zero n h = elim h [ ]
read_decimal_fuel (suc fuel) n h = elim (Bool-cases (ltb n 10)) [
  | inl small ↦ rw small (omega arith)
  | inr large ↦
      rw (large, read_from-append 0 (decimal_fuel fuel (n / 10)) ((48 + n % 10) ∷ []))
        (rw (read_decimal_fuel fuel (n / 10) (ground arith)) (omega arith))
]

read_zeros : (k : ℕ) (s : Text) → read_from 0 (zeros k s) ≡ read_from 0 s
unfolding zeros
read_zeros zero s = refl
read_zeros (suc k) s = read_zeros k s

read_pad_four : (n : ℕ) → read_from 0 (pad_four n) ≡ n
unfolding pad_four decimal
read_pad_four n =
    read_zeros (4 - length (decimal_fuel (suc n) n)) (decimal_fuel (suc n) n)
    ∙ read_decimal_fuel (suc n) n (omega arith)

-- Two numbers with one padded numeral are one number.
pub pad_four-injective : (m n : ℕ) → pad_four m ≡ pad_four n → m ≡ n
pad_four-injective m n e = sym (read_pad_four m) ∙ ap (read_from 0) e ∙ read_pad_four n

-- The number that a text of decimal digits stands for, after `acc`.
read_digits : ℕ → Text → Option ℕ
read_digits acc [] = some acc
read_digits acc (c ∷ cs) =
    let rest = read_digits (acc * 10 + (c - 48)) cs in if leb 48 c && leb c 57 then rest else none

read_unsigned : Text → Option ℕ
unfolding read_digits
read_unsigned [] = none
read_unsigned (c ∷ cs) = read_digits 0 (c ∷ cs)

positive_int : Option ℕ → Option ℤ
positive_int none = none
positive_int (some n) = if ltb n (2 ^ 63) then some (pos n) else none

negative_int : Option ℕ → Option ℤ
negative_int none = none
negative_int (some n) =
    if n == 0 then some (pos 0) else if ltb (2 ^ 63) n then none else some (negsuc (n - 1))

-- `strconv.Atoi`, and `strconv.ParseInt(s, 10, 64)`
unfoldable pub atoi : Text → Option ℤ
unfolding read_unsigned positive_int negative_int
atoi [] = none
atoi (c ∷ cs) =
    if c == 45
    then negative_int (read_unsigned cs)
    else if c == 43
    then positive_int (read_unsigned cs)
    else positive_int (read_unsigned (c ∷ cs))
