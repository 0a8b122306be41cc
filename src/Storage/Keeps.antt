-- ===== src/Storage/Keeps.antt =====
-- What the queries of a method establish, one rule for each way to build a query.
use costume_tree.Common.{
  ℕ, ◌≡◌, refl, subst, sym, ◌∙◌, Bool, true, false, Option, none, some, Outcome, ok, err,
}
use costume_tree.Storage.Models.{Kind, StoreError}
use costume_tree.Storage.Database.{
  Store, Query, pure, fail, ◌>>=◌, guard, found, some_affected, check_active, ensure_production,
  ensure_actor, ensure_item_type, ensure_costume_item_for_photo,
}

-- A query that succeeds keeps `P`.
pub record Keeps {ℓ κ} {A : Type ℓ} (P : Store → Type κ) (m : Query A) : Type (ℓ ⊔ κ) where
  pub at : (s : Store) (a : A) (t : Store) → P s → m s ≡ ok (a, t) → P t

-- A query that changes nothing.
pub record Reads {ℓ} {A : Type ℓ} (m : Query A) : Type ℓ where
  pub same : (s : Store) (a : A) (t : Store) → m s ≡ ok (a, t) → t ≡ s

module _ {ℓ κ} {A : Type ℓ} {B : Type κ} where
  -- A chain that succeeds, taken apart.
  pub >>=-eq-ok :
      (m : Query A) (f : A → Query B) (s : Store) {b : B} {t : Store}
      → (m >>= f) s ≡ ok (b, t)
      → (a : A) × (r : Store) × (m s ≡ ok (a, r)) × (f a r ≡ ok (b, t))
  unfolding ◌>>=◌
  >>=-eq-ok m f s {b} {t} e = split (m s) refl e
    where
      split :
          (o : Outcome StoreError (A × Store))
          → m s ≡ o
          → elim o [ ok (a, r) ↦ f a r | err x ↦ err x ] ≡ ok (b, t)
          → (a : A) × (r : Store) × (m s ≡ ok (a, r)) × (f a r ≡ ok (b, t))
      split (ok (a, r)) q e = (a, r, q, e)
      split (err x) q e = cc

  -- A chain whose first query succeeds goes on from there.
  pub >>=-ok :
      (m : Query A) (f : A → Query B) (s : Store) {a : A} {r : Store}
      → m s ≡ ok (a, r)
      → (m >>= f) s ≡ f a r
  unfolding ◌>>=◌
  >>=-ok m f s e = rw (e, ◌>>=◌)

  pub >>=-err :
      (m : Query A) (f : A → Query B) (s : Store) {x : StoreError}
      → m s ≡ err x
      → (m >>= f) s ≡ err x
  unfolding ◌>>=◌
  >>=-err m f s e = rw (e, ◌>>=◌)

module _ {ℓ μ} {A : Type ℓ} {P : Store → Type μ} where
  pub Keeps-Reads : (m : Query A) → Reads m → Keeps P m
  Keeps-Reads m r = record { at = λ s a t h e. subst P (sym (r.same s a t e)) h }

module _ {ℓ κ μ} {A : Type ℓ} {B : Type κ} {P : Store → Type μ} where
  pub Keeps-bind :
      (m : Query A) (f : A → Query B) → Keeps P m → ((a : A) → Keeps P (f a)) → Keeps P (m >>= f)
  Keeps-bind m f km kf = record {
    at = λ s b t h e.
        let (a, r, e₁, e₂) = >>=-eq-ok m f s e in (kf a).at r b t (km.at s a r h e₁) e₂;
  }

module _ {ℓ κ} {A : Type ℓ} {B : Type κ} where
  pub Reads-bind :
      (m : Query A) (f : A → Query B) → Reads m → ((a : A) → Reads (f a)) → Reads (m >>= f)
  Reads-bind m f km kf = record {
    same = λ s b t e.
        let (a, r, e₁, e₂) = >>=-eq-ok m f s e in (kf a).same r b t e₂ ∙ km.same s a r e₁;
  }

module _ {ℓ} {A : Type ℓ} where
  pub Reads-pure : (a : A) → Reads (pure a)
  unfolding pure
  Reads-pure a = record { same = λ s b t e. cc }

  pub Reads-fail : (x : StoreError) → Reads (fail {A = A} x)
  unfolding fail
  Reads-fail x = record { same = λ s b t e. cc }

  pub Reads-found : (k : Kind) (o : Option A) → Reads (found k o)
  unfolding found
  Reads-found k none = Reads-fail _
  Reads-found k (some a) = Reads-pure a

pub Reads-guard : (b : Bool) (x : StoreError) → Reads (guard b x)
unfolding guard
Reads-guard true x = Reads-pure tt
Reads-guard false x = Reads-fail x

pub Reads-some_affected : (k : Kind) (n : ℕ) → Reads (some_affected k n)
unfolding some_affected
Reads-some_affected k n = Reads-guard _ _

Reads-check_active : (k : Kind) (o : Option (Option ℕ)) → Reads (check_active k o)
unfolding check_active
Reads-check_active k none = Reads-fail _
Reads-check_active k (some none) = Reads-pure tt
Reads-check_active k (some (some t)) = Reads-fail _

pub Reads-ensure_production : (id : ℕ) → Reads (ensure_production id)
unfolding ensure_production
Reads-ensure_production id = record { same = λ s a t. (Reads-check_active _ _).same s a t }

pub Reads-ensure_actor : (p id : ℕ) → Reads (ensure_actor p id)
unfolding ensure_actor
Reads-ensure_actor p id = record { same = λ s a t. (Reads-check_active _ _).same s a t }

pub Reads-ensure_item_type : (p id : ℕ) → Reads (ensure_item_type p id)
unfolding ensure_item_type
Reads-ensure_item_type p id = record { same = λ s a t. (Reads-check_active _ _).same s a t }

pub Reads-ensure_item : (p id : ℕ) → Reads (ensure_costume_item_for_photo p id)
unfolding ensure_costume_item_for_photo
Reads-ensure_item p id = record { same = λ s a t. (Reads-check_active _ _).same s a t }

pub ruleset keeps_rules = (
  Keeps-bind, Keeps-Reads, Reads-bind, Reads-pure, Reads-fail, Reads-found, Reads-guard,
  Reads-some_affected, Reads-ensure_production, Reads-ensure_actor, Reads-ensure_item_type,
  Reads-ensure_item,
)
