-- ===== src/Storage/Migrations/Successes.antt =====
-- The runs of `Migrate` without an error, step by step.
use costume_tree.Common.{
  ◌≡◌, refl, subst, ap, ◌∙◌, inl, inr, Bool, true, false, not, Option, List, [], ◌∷◌, Outcome, ok,
  err, Text, arith, Bool-cases, length, ◌==◌, if◌then◌else◌,
}
use costume_tree.Storage.Migrations.{
  DirEntry, Migration, MigrationError, embedded_migrations, validate_migration_history,
  acquire_connection, acquire_lock, release_lock,
}
use costume_tree.Storage.Migrations.Schema.{
  Database, Driver, validate_schema, read_migration_history,
}
use costume_tree.Storage.Migrations.Runs.{
  ensure_history, migrate_prepared, continue, released, Run, reading, apply_all, migrate_locked,
  migrate_ordered, migrate,
}
use costume_tree.Storage.Migrations.Replays.{prepared, ensure_history-cases}

continue-eq-ok {ℓ κ} :
    {A : Type ℓ} {B : Type κ} (p : Outcome MigrationError A × Database) (f : A → Run B) {b : B}
    {d : Database}
    → continue p f ≡ (ok b, d)
    → (a : A) × (d' : Database) × (p ≡ (ok a, d')) × (f a d' ≡ (ok b, d))
continue-eq-ok (ok a, d') f h = (a, d', refl, h)
continue-eq-ok (err e, d') f h = cc

gate-eq :
    (p : List MigrationError × Database) (d d' : Database) (b : Bool) (e : MigrationError)
    → (if not b then (e ∷ [], d) else p) ≡ ([], d')
    → (b ≡ true) × (p ≡ ([], d'))
gate-eq p d d' true e h = (refl, h)
gate-eq p d d' false e h = cc

gate-open :
    (p : List MigrationError × Database) (d : Database) (b : Bool) (e : MigrationError)
    → b ≡ true
    → (if not b then (e ∷ [], d) else p) ≡ p
gate-open p d true e h = refl
gate-open p d false e h = cc

pub read_migration_history-eq :
    (reads : Bool) (d : Database) (rows : List Migration)
    → read_migration_history reads d ≡ ok rows
    → (reads ≡ true) × (rows ≡ d.history)
unfolding read_migration_history
read_migration_history-eq reads d rows h = ground arith

read_migration_history_ok :
    (reads : Bool) (d : Database) → reads ≡ true → read_migration_history reads d ≡ ok d.history
unfolding read_migration_history
read_migration_history_ok reads d h = ground arith

if_false {ℓ} : {A : Type ℓ} (x y : A) (b : Bool) → b ≡ false → (if b then x else y) ≡ y
if_false x y true e = cc
if_false x y false e = refl

reading-eq {ℓ κ} :
    {A : Type ℓ} {B : Type κ} (o : Outcome MigrationError A) (d : Database) (g : A → Run B) {b : B}
    {d' : Database}
    → continue (o, d) g ≡ (ok b, d')
    → (a : A) × (o ≡ ok a) × (g a d ≡ (ok b, d'))
reading-eq (ok a) d g h = (a, refl, h)
reading-eq (err e) d g h = cc

module _ (execute : Text → Database → Option Database) (v : Driver) where
  -- A run that returns no error, step by step.
  pub record Succeeds (entries : List DirEntry) (d d' : Database) : Type 0 where
    pub ms : List Migration
    pub embeds : embedded_migrations entries ≡ ok ms
    pub some_migrations : (length ms == 0) ≡ false
    pub connects : v.connects ≡ true
    pub locks : v.locks ≡ true
    pub unlocks : v.unlocks ≡ true
    pub ensures : ensure_history v d ≡ (ok tt, prepared d)
    pub reads : v.reads ≡ true
    pub validates : validate_migration_history (prepared d).history ms ≡ ok tt
    pub applies : apply_all execute v (prepared d).history ms (prepared d) ≡ (ok tt, d')
    pub checks : validate_schema v entries d' ≡ ok tt

  released-eq :
      (p : Outcome MigrationError (Unit {0}) × Database) {d : Database}
      → released v p ≡ ([], d)
      → (v.unlocks ≡ true) × (p ≡ (ok tt, d))
  released-eq (ok u, d') h = elim (Bool-cases v.unlocks) [
    | inl b ↦ (b, ap (λ d. (ok tt, d)) (ap (λ p. p.1) h))
    | inr b ↦
        let no : (if v.unlocks then [] else release_lock ∷ []) ≡ [] = ap (λ p. p.0) h in
        absurd (ground arith)
  ]
  released-eq (err e, d') h = cc

  migrate_prepared-eq :
      (entries : List DirEntry) (ms : List Migration) (d d' : Database)
      → migrate_prepared execute v entries ms d ≡ (ok tt, d')
      → (v.reads ≡ true)
        × (validate_migration_history d.history ms ≡ ok tt)
        × (apply_all execute v d.history ms d ≡ (ok tt, d'))
        × (validate_schema v entries d' ≡ ok tt)
  unfolding migrate_prepared
  migrate_prepared-eq entries ms d d' h =
      let (rows, q1, h1) = reading-eq (read_migration_history v.reads d) d _ h in
      let (reads, same) = read_migration_history-eq v.reads d rows q1 in
      let (u2, valid, h2) = reading-eq (validate_migration_history rows ms) d _ h1 in
      let (u3, d3, q3, h3) = continue-eq-ok (apply_all execute v rows ms d) _ h2 in
      let s3 : d3 ≡ d' = ap (λ p. p.1) h3 in
      (
        reads,
        subst (λ k. validate_migration_history k ms ≡ ok tt) same valid,
        subst (λ k. apply_all execute v k ms d ≡ (ok tt, d')) same (q3 ∙ ap (λ k. (ok tt, k)) s3),
        subst (λ k. validate_schema v entries k ≡ ok tt) s3 (ap (λ p. p.0) h3),
      )

  ordered-Succeeds :
      (entries : List DirEntry) (d d' : Database) (o : Outcome MigrationError (List Migration))
      → embedded_migrations entries ≡ o
      → migrate_ordered execute v entries o d ≡ ([], d')
      → Succeeds entries d d'
  unfolding migrate_ordered
  ordered-Succeeds entries d d' (err e) q h = cc
  ordered-Succeeds entries d d' (ok ms) q h = elim (Bool-cases (length ms == 0)) [
    | inl z ↦ let no = rw z at h in cc
    | inr z ↦
        let (connects, h1) = gate-eq _ d d' v.connects acquire_connection (rw z at h) in
        let (locks, h2) = gate-eq _ d d' v.locks acquire_lock h1 in
        let (unlocks, h3) = released-eq (migrate_locked execute v entries ms d) h2 in
        let (u, d0, e, h4) = continue-eq-ok (ensure_history v d) _ h3 in
        elim (ensure_history-cases execute v d) [
          | inr (x, bad) ↦ cc
          | inl (can, same) ↦
              let here : d0 ≡ prepared d = cc in
              let (reads, valid, applies, checks) =
                migrate_prepared-eq entries ms (prepared d) d'
                  (subst (λ k. migrate_prepared execute v entries ms k ≡ (ok tt, d')) here h4) in
              record {
                ms = ms;
                embeds = q;
                some_migrations = z;
                connects = connects;
                locks = locks;
                unlocks = unlocks;
                ensures = same;
                reads = reads;
                validates = valid;
                applies = applies;
                checks = checks;
              }
        ]
  ]

  pub migrate-Succeeds :
      (entries : List DirEntry) (d d' : Database)
      → migrate execute v entries d ≡ ([], d')
      → Succeeds entries d d'
  unfolding migrate
  migrate-Succeeds entries d d' h = ordered-Succeeds entries d d' _ refl h

  Succeeds-migrate_prepared :
      (entries : List DirEntry) (d d' : Database) (h : Succeeds entries d d')
      → migrate_prepared execute v entries h.ms (prepared d) ≡ (ok tt, d')
  unfolding migrate_prepared
  Succeeds-migrate_prepared entries d d' h =
      let e = prepared d in
      let check = λ (u : Unit {0}). reading (validate_schema v entries) in
      let apply = λ (rows : List Migration) (u : Unit {0}) (k : Database).
        continue (apply_all execute v rows h.ms k) check in
      let validate = λ (rows : List Migration) (k : Database).
        continue (validate_migration_history rows h.ms, k) (apply rows) in
      ap (λ o. continue (o, e) validate) (read_migration_history_ok v.reads e h.reads)
      ∙ ap (λ o. continue (o, e) (apply e.history)) h.validates
      ∙ ap (λ p. continue p check) h.applies
      ∙ ap (λ o. (o, d')) h.checks

  pub Succeeds-migrate :
      (entries : List DirEntry) (d d' : Database)
      → Succeeds entries d d'
      → migrate execute v entries d ≡ ([], d')
  unfolding migrate
  Succeeds-migrate entries d d' h =
      ap (λ o. migrate_ordered execute v entries o d) h.embeds
      ∙ if_false _ _ (length h.ms == 0) h.some_migrations
      ∙ gate-open _ d v.connects acquire_connection h.connects
      ∙ gate-open _ d v.locks acquire_lock h.locks
      ∙ ap (λ p. released v (continue p (λ u. migrate_prepared execute v entries h.ms))) h.ensures
      ∙ ap (λ p. released v p) (Succeeds-migrate_prepared entries d d' h)
      ∙ ap (λ (b : Bool). ((if b then [] else release_lock ∷ []), d')) h.unlocks
