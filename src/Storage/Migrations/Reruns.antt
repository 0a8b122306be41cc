-- ===== src/Storage/Migrations/Reruns.antt =====
-- What a second run of `Migrate` does after one without an error.
use costume_tree.Common.{
  ◌≡◌, refl, sym, subst, ap, ◌∙◌, inl, inr, Bool, true, false, not, Option, List, [], ◌∷◌, Outcome,
  ok, err, Text, arith, Bool-cases, length, ◌==◌, if◌then◌else◌, count_where, All,
  count_where-find?, and_then-eq-ok,
}
use costume_tree.Storage.Migrations.{
  DirEntry, Migration, MigrationError, is_known, has_version, embedded_migrations,
  validate_migration_history,
}
use costume_tree.Storage.Migrations.Schema.{
  Database, Driver, history_name, table_exists, validate_schema, read_migration_history, wrapped,
}
use costume_tree.Storage.Migrations.Runs.{ensure_history, apply_all, migrate}
use costume_tree.Storage.Migrations.Files.{OncePerVersion}
use costume_tree.Storage.Migrations.Replays.{prepared}
use costume_tree.Storage.Migrations.Successes.{
  read_migration_history-eq, migrate-Succeeds, Succeeds-migrate,
}
use costume_tree.Storage.Migrations.Histories.{
  LeavesHistory, replay-history, migrate-replay, prepared-table_exists, prepared-same,
  migrate-records_each_once,
}

wrapped-eq : (o : Outcome MigrationError (Unit {0})) → wrapped o ≡ ok tt → o ≡ ok tt
wrapped-eq (ok a) h = h
wrapped-eq (err e) h = cc

second_branch {ℓ} :
    {A : Type ℓ} (x y z : A) (a b : Bool)
    → a ≡ true
    → b ≡ true
    → (if not a then x else if b then y else z) ≡ y
second_branch x y z a b p q = rw (p, q) refl

pub ensure_history-inspects :
    (v : Driver) (d e : Database) → ensure_history v d ≡ (ok tt, e) → v.inspects ≡ true
unfolding ensure_history
ensure_history-inspects v d e h = elim (Bool-cases v.inspects) [
  | inl q ↦ q
  | inr q ↦ let bad = ap (λ p. p.0) h in absurd (ground arith)
]

pub ensure_history_found :
    (v : Driver) (d : Database)
    → v.inspects ≡ true
    → table_exists history_name d ≡ true
    → ensure_history v d ≡ (ok tt, prepared d)
unfolding ensure_history
ensure_history_found v d i t =
    second_branch _ _ _ v.inspects (table_exists history_name d) i t
    ∙ ap (λ k. (ok tt, k)) (sym (prepared-same d t))

pub validate_schema-validates :
    (v : Driver) (entries : List DirEntry) (d : Database) (ms : List Migration)
    → embedded_migrations entries ≡ ok ms
    → validate_schema v entries d ≡ ok tt
    → validate_migration_history d.history ms ≡ ok tt
unfolding validate_schema
validate_schema-validates v entries d ms q h =
    let (ms', q', h1) = and_then-eq-ok (embedded_migrations entries) _ h in
    let (rows, r, h2) = and_then-eq-ok (read_migration_history v.rereads d) _ (wrapped-eq _ h1) in
    let (u, valid, h3) = and_then-eq-ok (validate_migration_history rows ms') _ h2 in
    let same : ms' ≡ ms = cc in
    let read = read_migration_history-eq v.rereads d rows r in
    subst (λ k. validate_migration_history k ms ≡ ok tt) read.1
      (subst (λ k. validate_migration_history rows k ≡ ok tt) same valid)

-- The same queries give the same validation.
pub validate_schema-transactions :
    (v : Driver) (b r c : Text → Bool) (k : Bool) (k' : Bool) (entries : List DirEntry)
    (d : Database)
    → validate_schema v entries d ≡ ok tt
    → validate_schema
        (record v { begins = b; records = r; commits = c; counts = k; creates = k' })
        entries
        d
      ≡ ok tt
unfolding validate_schema read_migration_history
validate_schema-transactions v b r c k k' entries d h = h

apply_all-known :
    (execute : Text → Database → Option Database) (v : Driver) (h ms xs : List Migration)
    (d : Database)
    → All (λ m. count_where (has_version m.version) h ≡ 1) ms
    → apply_all execute v h ms d ≡ (ok tt, d)
unfolding apply_all
apply_all-known execute v h [] xs d once = refl
apply_all-known execute v h (m ∷ ms) xs d once =
    let known : is_known m.version h ≡ true =
      ground (arith, count_where-find? (has_version m.version) h, once.0) in
    rw known (apply_all-known execute v h ms xs d once.1)

pub run_ms :
    {o : Outcome MigrationError (List Migration)} {ms ns : List Migration}
    → o ≡ ok ms
    → o ≡ ok ns
    → ms ≡ ns
run_ms p q = cc

module _ (execute : Text → Database → Option Database) (leaves : LeavesHistory execute)
    (v : Driver) where
  -- After a call of `Migrate` without an error, with the scripts leaving the history alone and unique
  -- versions in the history, a further call returns no error and changes nothing, if the driver's calls
  -- answer as in the first one, but for those that begin, record and commit a migration; these and the
  -- scripts may all fail.
  pub migrate-migrate :
      (entries : List DirEntry) (d d' : Database) (execute' : Text → Database → Option Database)
      (b r c : Text → Bool)
      → OncePerVersion (prepared d).history
      → migrate execute v entries d ≡ ([], d')
      → migrate execute' (record v { begins = b; records = r; commits = c }) entries d' ≡ ([], d')
  migrate-migrate entries d d' execute' b r c once h =
      let run = migrate-Succeeds execute v entries d d' h in
      let (ms, embeds, grown, each) =
        migrate-records_each_once execute leaves v entries d d' once h in
      let w : Driver = record v { begins = b; records = r; commits = c } in
      let there : table_exists history_name d' ≡ true =
        (replay-history execute leaves _ (prepared d) d'
          (migrate-replay execute leaves v entries d d' ms embeds h)).1
        ∙ prepared-table_exists d in
      let same = prepared-same d' there in
      let same_ms : run.ms ≡ ms = run_ms run.embeds embeds in
      Succeeds-migrate execute' w entries d' d' (record {
        ms = ms;
        embeds = embeds;
        some_migrations = subst (λ k. (length k == 0) ≡ false) same_ms run.some_migrations;
        connects = run.connects;
        locks = run.locks;
        unlocks = run.unlocks;
        ensures = ensure_history_found w d' (ensure_history-inspects v d _ run.ensures) there;
        reads = run.reads;
        validates = rw same (validate_schema-validates v entries d' ms embeds run.checks);
        applies = rw same (apply_all-known execute' w d'.history ms [] d' each);
        checks = validate_schema-transactions v b r c v.counts v.creates entries d' run.checks;
      })
