-- ===== src/Common/Lists.antt =====
-- Lists measured by native numbers, predicates on all elements, and searches by a Boolean test.
use Prim.Native.Nat.{ℕ, zero, suc, ◌+◌}
use mathlib.Core.Path.{◌≡◌, refl, subst}
use mathlib.Core.Logic.{◌↔◌, inl, inr}
use mathlib.Core.Bool.{Bool, true, false}
use mathlib.Core.List.{List, [], ◌∷◌, ◌++◌}
use mathlib.Core.Option
use mathlib.Core.Option.{Option, none, some}
use native.Mathlib.Omega.{arith}
use costume_tree.Common.Tests.{if◌then◌else◌, Bool-cases}

module _ {ℓ} {A : Type ℓ} where
  abbrev pub length : List A → ℕ
  length [] = 0
  length (x ∷ xs) = suc (length xs)

  abbrev pub get_elem? : List A → ℕ → Option A
  get_elem? [] i = none
  get_elem? (x ∷ xs) zero = some x
  get_elem? (x ∷ xs) (suc i) = get_elem? xs i

  -- The elements that pass a test, in order.
  abbrev pub select : (A → Bool) → List A → List A
  select p [] = []
  select p (x ∷ xs) = let rest = select p xs in if p x then x ∷ rest else rest

  -- The first element that passes a test.
  abbrev pub find? : (A → Bool) → List A → Option A
  find? p [] = none
  find? p (x ∷ xs) = if p x then some x else find? p xs

  -- The list with the elements that pass a test changed.
  abbrev pub update_where : (A → Bool) → (A → A) → List A → List A
  update_where p f [] = []
  update_where p f (x ∷ xs) = (if p x then f x else x) ∷ update_where p f xs

  -- How many elements pass a test.
  abbrev pub count_where : (A → Bool) → List A → ℕ
  count_where p [] = 0
  count_where p (x ∷ xs) = (if p x then 1 else 0) + count_where p xs

  -- A predicate at every element.
  abbrev pub All {κ} : (A → Type κ) → List A → Type κ
  All P [] = Unit
  All P (x ∷ xs) = P x × All P xs

module _ {ℓ} {A : Type ℓ} where
  pub length-append : (xs ys : List A) → length (xs ++ ys) ≡ length xs + length ys
  length-append [] ys = omega arith
  length-append (x ∷ xs) ys = omega (arith, length-append xs ys)

  pub All-append {κ} : (P : A → Type κ) (xs ys : List A) → All P xs → All P ys → All P (xs ++ ys)
  All-append P [] ys hx hy = hy
  All-append P (x ∷ xs) ys hx hy = (hx.0, All-append P xs ys hx.1 hy)

  pub All-map {κ μ} :
      (P : A → Type κ) (Q : A → Type μ) (xs : List A) → ((x : A) → P x → Q x) → All P xs → All Q xs
  All-map P Q [] f h = tt
  All-map P Q (x ∷ xs) f h = (f x h.0, All-map P Q xs f h.1)

  pub All-update_where {κ} :
      (P : A → Type κ) (p : A → Bool) (f : A → A) (xs : List A)
      → ((x : A) → P x → P (f x))
      → All P xs
      → All P (update_where p f xs)
  All-update_where P p f [] g h = tt
  All-update_where P p f (x ∷ xs) g h = (chosen (p x), All-update_where P p f xs g h.1)
    where
      chosen : (b : Bool) → P (if b then f x else x)
      chosen true = g x h.0
      chosen false = h.0

  pub find?-sound : (p : A → Bool) (xs : List A) {x : A} → find? p xs ≡ some x → p x ≡ true
  find?-sound p [] e = cc
  find?-sound p (y ∷ ys) {x} e = elim (Bool-cases (p y)) [
    | inl h ↦ let found : some y ≡ some x = rw h at e in subst (λ z. p z ≡ true) (cc) h
    | inr h ↦ find?-sound p ys (rw h at e)
  ]

  pub find?-All {κ} :
      (P : A → Type κ) (p : A → Bool) (xs : List A) {x : A} → All P xs → find? p xs ≡ some x → P x
  find?-All P p [] h e = cc
  find?-All P p (y ∷ ys) {x} h e = elim (Bool-cases (p y)) [
    | inl t ↦ let found : some y ≡ some x = rw t at e in subst P (cc) h.0
    | inr t ↦ find?-All P p ys h.1 (rw t at e)
  ]

  pub find?-append :
      (p : A → Bool) (xs ys : List A) → find? p xs ≡ none → find? p (xs ++ ys) ≡ find? p ys
  find?-append p [] ys e = refl
  find?-append p (x ∷ xs) ys e = ground (arith, find?-append p xs ys)

  pub find?-append_some :
      (p : A → Bool) (xs ys : List A) {x : A} → find? p xs ≡ some x → find? p (xs ++ ys) ≡ some x
  find?-append_some p [] ys e = cc
  find?-append_some p (y ∷ ys') ys e = elim (Bool-cases (p y)) [
    | inl t ↦ rw t (rw t at e)
    | inr t ↦ rw t (find?-append_some p ys' ys (rw t at e))
  ]

  -- A row that is updated is found again, changed, if the change keeps the test.
  pub find?-update_where :
      (p : A → Bool) (f : A → A) (xs : List A)
      → ((x : A) → p (f x) ≡ p x)
      → find? p (update_where p f xs) ≡ Option.map f (find? p xs)
  find?-update_where p f [] k = refl
  find?-update_where p f (x ∷ xs) k = ground (arith, k x, find?-update_where p f xs k)

  -- A search by another test sees an update only where both tests pass.
  pub find?-update_where_other :
      (q p : A → Bool) (f : A → A) (xs : List A)
      → ((x : A) → p x ≡ true → (q x ≡ false) × (q (f x) ≡ false))
      → find? q (update_where p f xs) ≡ find? q xs
  find?-update_where_other q p f [] k = refl
  find?-update_where_other q p f (x ∷ xs) k =
      ground (arith, k x, find?-update_where_other q p f xs k)

  -- `RowsAffected` is zero exactly when the search finds nothing.
  pub count_where-find? :
      (p : A → Bool) (xs : List A) → (count_where p xs ≡ 0) ↔ (find? p xs ≡ none)
  count_where-find? p [] = (λ _. refl, λ _. refl)
  count_where-find? p (x ∷ xs) = ground (arith, count_where-find? p xs)
