-- ===== src/Storage/Database.antt =====
-- The tables of internal/storage/migrations, the statements of a repository method as a state
-- monad, and the checks that begin a write in internal/storage/repositories.go.
-- A method that fails leaves the tables as they were: its transaction is rolled back, or its only
-- statement that writes has failed or has matched no row. The rows of a table stand in the order
-- of their insertion.
use costume_tree.Common.{
  ℕ, Bool, true, false, not, ◌&&◌, Option, none, some, List, [], ◌∷◌, ◌==◌, Outcome, ok, err, find?,
}
use costume_tree.Storage.Models.{
  Kind, production, actor, item_type, costume_item, StoreError, not_found, archived, Production,
  Actor, ItemType, CostumeItem, CostumeItemPhoto,
}

-- A row of `production_item_sequences`.
pub record Sequence : Type 0 where
  pub production_id : ℕ
  pub next_value : ℕ

-- The tables, and the next value of each identity column.
pub record Store : Type 0 where
  pub productions : List Production
  pub actors : List Actor
  pub item_types : List ItemType
  pub sequences : List Sequence
  pub items : List CostumeItem
  pub photos : List CostumeItemPhoto
  pub next_production : ℕ
  pub next_actor : ℕ
  pub next_item_type : ℕ
  pub next_item : ℕ
  pub next_photo : ℕ

abbrev pub Query {ℓ} : Type ℓ → Type ℓ
Query A = Store → Outcome StoreError (A × Store)

unfoldable pub pure {ℓ} : {A : Type ℓ} → A → Query A
pure a s = ok (a, s)

unfoldable pub fail {ℓ} : {A : Type ℓ} → StoreError → Query A
fail e s = err e

infixl 5 ◌>>=◌ ◌>>◌
unfoldable pub ◌>>=◌ {ℓ κ} : {A : Type ℓ} {B : Type κ} → Query A → (A → Query B) → Query B
◌>>=◌ m f s = elim (m s) [ ok (a, t) ↦ f a t | err e ↦ err e ]

abbrev pub ◌>>◌ {ℓ} : {B : Type ℓ} → Query (Unit {0}) → Query B → Query B
m >> k = m >>= λ _. k

unfoldable pub guard : Bool → StoreError → Query (Unit {0})
unfolding pure fail
guard true e = pure tt
guard false e = fail e

-- `if errors.Is(err, sql.ErrNoRows) { return notFound(kind) }`
unfoldable pub found {ℓ} : {A : Type ℓ} → Kind → Option A → Query A
unfolding pure fail
found kind none = fail (not_found kind)
found kind (some a) = pure a

-- `result.RowsAffected()` is zero.
unfoldable pub some_affected : Kind → ℕ → Query (Unit {0})
unfolding guard
some_affected kind count = guard (not (count == 0)) (not_found kind)

abbrev pub is_none {ℓ} : {A : Type ℓ} → Option A → Bool
is_none none = true
is_none (some a) = false

-- `COALESCE(archived_at, CURRENT_TIMESTAMP)`
abbrev pub coalesce : Option ℕ → ℕ → Option ℕ
coalesce none now = some now
coalesce (some t) now = some t

-- The end of an `ensure` function, at the column `archived_at` of the row found.
unfoldable pub check_active : Kind → Option (Option ℕ) → Query (Unit {0})
unfolding pure fail
check_active kind none = fail (not_found kind)
check_active kind (some (some t)) = fail archived
check_active kind (some none) = pure tt

abbrev archived_of {ℓ} : {A : Type ℓ} → (A → Option ℕ) → Option A → Option (Option ℕ)
archived_of f none = none
archived_of f (some a) = some (f a)

abbrev pub is_production : ℕ → Production → Bool
is_production id p = p.id == id

abbrev pub is_actor : ℕ → ℕ → Actor → Bool
is_actor production_id id a = a.production_id == production_id && a.id == id

abbrev pub is_item_type : ℕ → ℕ → ItemType → Bool
is_item_type production_id id t = t.production_id == production_id && t.id == id

abbrev pub is_item : ℕ → ℕ → CostumeItem → Bool
is_item production_id id i = i.production_id == production_id && i.id == id

unfoldable pub ensure_production : ℕ → Query (Unit {0})
unfolding check_active
ensure_production id s =
    check_active production
      (archived_of (λ p. p.archived_at) (find? (is_production id) s.productions)) s

unfoldable pub ensure_actor : ℕ → ℕ → Query (Unit {0})
unfolding check_active
ensure_actor production_id id s =
    check_active actor
      (archived_of (λ a. a.archived_at) (find? (is_actor production_id id) s.actors)) s

unfoldable pub ensure_item_type : ℕ → ℕ → Query (Unit {0})
unfolding check_active
ensure_item_type production_id id s =
    check_active item_type
      (archived_of (λ t. t.archived_at) (find? (is_item_type production_id id) s.item_types)) s

unfoldable pub ensure_costume_item_for_photo : ℕ → ℕ → Query (Unit {0})
unfolding check_active
ensure_costume_item_for_photo production_id id s =
    check_active costume_item
      (archived_of (λ i. i.archived_at) (find? (is_item production_id id) s.items)) s

-- `firstBool` of an optional argument
abbrev pub first_bool : List Bool → Bool
first_bool [] = false
first_bool (b ∷ bs) = b
