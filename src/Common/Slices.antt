-- ===== src/Common/Slices.antt =====
-- Pages of a list, and sums over one.
use Prim.Native.Nat.{ℕ, zero, suc, ◌+◌, ◌≤◌}
use mathlib.Core.Path.{◌≡◌, refl, ap, ◌∙◌}
use mathlib.Core.Bool.{Bool}
use mathlib.Core.Logic.{inl, inr}
use mathlib.Core.List.{List, [], ◌∷◌, ◌++◌, map}
use native.Mathlib.Omega.{arith}
use costume_tree.Common.Tests.{if◌then◌else◌, Bool-cases}
use costume_tree.Common.Lists.{length, count_where}
use costume_tree.Common.Sorting.{insert_sorted, sort_by}

module _ {ℓ} {A : Type ℓ} where
  -- LIMIT
  abbrev pub take : ℕ → List A → List A
  take zero xs = []
  take (suc n) [] = []
  take (suc n) (x ∷ xs) = x ∷ take n xs

  -- OFFSET
  abbrev pub drop : ℕ → List A → List A
  drop zero xs = xs
  drop (suc n) [] = []
  drop (suc n) (x ∷ xs) = drop n xs

  -- A sum of numbers, one for each element.
  abbrev pub sum_by : (A → ℕ) → List A → ℕ
  sum_by f [] = 0
  sum_by f (x ∷ xs) = f x + sum_by f xs

  abbrev pub flat_map {κ} : {B : Type κ} → (A → List B) → List A → List B
  flat_map f [] = []
  flat_map f (x ∷ xs) = f x ++ flat_map f xs

module _ {ℓ} {A : Type ℓ} where
  pub length-take-le : (n : ℕ) (xs : List A) → length (take n xs) ≤ n
  length-take-le zero xs = omega arith
  length-take-le (suc n) [] = omega arith
  length-take-le (suc n) (x ∷ xs) = omega (arith, length-take-le n xs)

  take-nil : (n : ℕ) → take {A = A} n [] ≡ []
  take-nil zero = refl
  take-nil (suc n) = refl

  drop-nil : (n : ℕ) → drop {A = A} n [] ≡ []
  drop-nil zero = refl
  drop-nil (suc n) = refl

  -- A page, followed by the next page.
  pub take_add : (m n k : ℕ) (xs : List A) → m + n ≡ k → take k xs ≡ take m xs ++ take n (drop m xs)
  take_add zero n k xs e = ap (λ j. take j xs) (omega arith)
  take_add (suc m) n zero xs e = absurd (omega arith)
  take_add (suc m) n (suc k) [] e = rw (take-nil n) refl
  take_add (suc m) n (suc k) (x ∷ xs) e = ap (λ ys. x ∷ ys) (take_add m n k xs (omega arith))

  pub drop_add : (m n k : ℕ) (xs : List A) → m + n ≡ k → drop k xs ≡ drop n (drop m xs)
  drop_add zero n k xs e = ap (λ j. drop j xs) (omega arith)
  drop_add (suc m) n zero xs e = absurd (omega arith)
  drop_add (suc m) n (suc k) [] e = rw (drop-nil n) refl
  drop_add (suc m) n (suc k) (x ∷ xs) e = drop_add m n k xs (omega arith)

  pub take_all : (n : ℕ) (xs : List A) → length xs ≤ n → take n xs ≡ xs
  take_all n [] h = take-nil n
  take_all zero (x ∷ xs) h = absurd (omega arith)
  take_all (suc n) (x ∷ xs) h = ap (λ ys. x ∷ ys) (take_all n xs (omega arith))

  pub length-take : (n : ℕ) (xs : List A) → n ≤ length xs → length (take n xs) ≡ n
  length-take zero xs h = refl
  length-take (suc n) [] h = absurd (omega arith)
  length-take (suc n) (x ∷ xs) h = omega (arith, length-take n xs (omega arith))

  pub sum_by-append : (f : A → ℕ) (xs ys : List A) → sum_by f (xs ++ ys) ≡ sum_by f xs + sum_by f ys
  sum_by-append f [] ys = omega arith
  sum_by-append f (x ∷ xs) ys = omega (arith, sum_by-append f xs ys)

  sum_by-insert_sorted :
      (f : A → ℕ) (le : A → A → Bool) (x : A) (xs : List A)
      → sum_by f (insert_sorted le x xs) ≡ f x + sum_by f xs
  unfolding insert_sorted
  sum_by-insert_sorted f le x [] = refl
  sum_by-insert_sorted f le x (y ∷ ys) = elim (Bool-cases (le x y)) [
    | inl e ↦ rw e refl
    | inr e ↦ rw e (omega (arith, sum_by-insert_sorted f le x ys))
  ]

  -- An ORDER BY does not change a sum.
  pub sum_by-sort_by :
      (f : A → ℕ) (le : A → A → Bool) (xs : List A) → sum_by f (sort_by le xs) ≡ sum_by f xs
  unfolding sort_by
  sum_by-sort_by f le [] = refl
  sum_by-sort_by f le (x ∷ xs) =
      omega (arith, sum_by-insert_sorted f le x (sort_by le xs), sum_by-sort_by f le xs)

  pub length-sum_by : (xs : List A) → length xs ≡ sum_by (λ x. 1) xs
  length-sum_by [] = refl
  length-sum_by (x ∷ xs) = omega (arith, length-sum_by xs)

  pub sum_by-map {κ} :
      {B : Type κ} (f : B → ℕ) (g : A → B) (xs : List A)
      → sum_by f (map g xs) ≡ sum_by (λ x. f (g x)) xs
  sum_by-map f g [] = refl
  sum_by-map f g (x ∷ xs) = omega (arith, sum_by-map f g xs)

  pub count_where-append :
      (p : A → Bool) (xs ys : List A)
      → count_where p (xs ++ ys) ≡ count_where p xs + count_where p ys
  count_where-append p [] ys = omega arith
  count_where-append p (x ∷ xs) ys = omega (arith, count_where-append p xs ys)

  pub count_where-flat_map {κ} :
      {B : Type κ} (p : A → Bool) (f : B → List A) (bs : List B)
      → count_where p (flat_map f bs) ≡ sum_by (λ b. count_where p (f b)) bs
  count_where-flat_map p f [] = refl
  count_where-flat_map p f (b ∷ bs) =
      count_where-append p (f b) (flat_map f bs)
      ∙ ap (λ n. count_where p (f b) + n) (count_where-flat_map p f bs)

  count_where-sum_by :
      (p : A → Bool) (xs : List A) → count_where p xs ≡ sum_by (λ x. if p x then 1 else 0) xs
  count_where-sum_by p [] = refl
  count_where-sum_by p (x ∷ xs) = ap (λ n. (if p x then 1 else 0) + n) (count_where-sum_by p xs)

  pub count_where-sort_by :
      (p : A → Bool) (le : A → A → Bool) (xs : List A)
      → count_where p (sort_by le xs) ≡ count_where p xs
  count_where-sort_by p le xs = omega (
    arith,
    count_where-sum_by p xs,
    count_where-sum_by p (sort_by le xs),
    sum_by-sort_by (λ x. if p x then 1 else 0) le xs,
  )
