-- ===== src/PhotoService/Queue/Messages.antt =====
-- The error messages that `process` stores.
use costume_tree.Common.{
  ℕ, suc, ◌-◌, ◌≤◌, ◌<◌, ◌≡◌, refl, ap, ◌∙◌, inl, inr, true, false, [], ◌∷◌, ◌++◌, arith, length,
  Bool-cases, err, Text, storable, All, ltb, leb,
}
use costume_tree.Storage.Models.{CostumeItemPhoto}
use costume_tree.Storage.Database.{Store}
use costume_tree.PhotoService.Queue.{bytes_of, first_bytes, process}

abbrev pub IsAscii : ℕ → Type 0
IsAscii c = c < 0x80

first_bytes-split :
    (xs : Text) (c : ℕ) (rest : Text)
    → All IsAscii xs
    → 0x80 ≤ c
    → c < 0x110000
    → storable (first_bytes (suc (length xs)) (xs ++ c ∷ rest)) ≡ false
unfolding first_bytes bytes_of storable
first_bytes-split [] c rest ascii low high = elim (Bool-cases (ltb c 0x800)) [
  | inl a ↦ ground arith
  | inr a ↦ ground arith
]
first_bytes-split (x ∷ xs) c rest ascii low high =
    let one : bytes_of x ≡ x ∷ [] = ground arith in
    let fits : leb 1 (suc (suc (length xs))) ≡ true = ground arith in
    let left : suc (suc (length xs)) - 1 ≡ suc (length xs) = omega arith in
    rw (one, fits, left) (ground (arith, first_bytes-split xs c rest ascii.1 low high))

-- A message whose 500th byte begins a symbol of more than one byte, after 499 characters of one byte,
-- cannot be stored: an attempt that fails with it leaves the tables as they are and asks for a retry.
pub process-cut_message :
    (p : CostumeItemPhoto) (xs : Text) (c : ℕ) (rest : Text) (now : ℕ) (s : Store)
    → length xs ≡ 499
    → All IsAscii xs
    → 0x80 ≤ c
    → c < 0x110000
    → process p (err (xs ++ c ∷ rest)) now s ≡ (false, s)
unfolding process
process-cut_message p xs c rest now s l ascii low high =
    let invalid : storable (first_bytes 500 (xs ++ c ∷ rest)) ≡ false =
      ap (λ n. storable (first_bytes n (xs ++ c ∷ rest))) (omega arith)
      ∙ first_bytes-split xs c rest ascii low high in
    rw invalid refl
