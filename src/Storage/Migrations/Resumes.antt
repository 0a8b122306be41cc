-- ===== src/Storage/Migrations/Resumes.antt =====
-- How a run of `Migrate` goes on from one that was interrupted.
use costume_tree.Common.{
  ℕ, ◌+◌, ◌≤◌, ◌≡◌, refl, sym, subst, ap, ◌∙◌, inl, inr, true, false, Option, some, List, [], ◌∷◌,
  ◌++◌, ok, Text, arith, Bool-cases, Option-cases, find?, count_where, count_where-append,
  count_where-find?, and_then, and_then-eq-ok,
}
use costume_tree.Storage.Migrations.{
  DirEntry, Migration, MigrationError, is_known, has_version, validate_row, embedded_migrations,
  validate_migration_history,
}
use costume_tree.Storage.Migrations.Schema.{Database, Driver, history_name, table_exists}
use costume_tree.Storage.Migrations.Runs.{ensure_history, apply_all, migrate}
use costume_tree.Storage.Migrations.Files.{OncePerVersion, embedded_migrations-IsEmbedded}
use costume_tree.Storage.Migrations.Replays.{
  IsMigratable, prepared, pending, recorded, replay, migrate-IsReplay,
}
use costume_tree.Storage.Migrations.Successes.{Succeeds, migrate-Succeeds, Succeeds-migrate}
use costume_tree.Storage.Migrations.Histories.{
  LeavesHistory, replay-history, migrate-replay, prepared-table_exists, prepared-same,
  count-pending, pending-append,
}
use costume_tree.Storage.Migrations.Reruns.{
  run_ms, validate_schema-transactions, ensure_history_found, ensure_history-inspects,
}

validate-append :
    (xs ys ms : List Migration)
    → validate_migration_history (xs ++ ys) ms ≡ ok tt
    → validate_migration_history xs ms ≡ ok tt
unfolding validate_migration_history
validate-append [] ys ms h = refl
validate-append (x ∷ xs) ys ms h =
    let (u, q, rest) = and_then-eq-ok (validate_row x (find? (has_version x.version) ms)) _ h in
    ap (λ o. and_then o (λ _. validate_migration_history xs ms)) q ∙ validate-append xs ys ms rest

ensure_history_made :
    (v : Driver) (d : Database)
    → IsMigratable d
    → v.inspects ≡ true
    → v.counts ≡ true
    → v.creates ≡ true
    → ensure_history v d ≡ (ok tt, prepared d)
unfolding ensure_history
ensure_history_made v d can i c k = elim (Bool-cases (table_exists history_name d)) [
  | inl t ↦ ensure_history_found v d i t
  | inr t ↦ elim can [ inl t' ↦ absurd (ground arith) | inr l ↦ rw (i, t, c, l, k) refl ]
]

-- A driver whose transactions all succeed.
abbrev pub steady : Driver → Driver
steady w = record w {
  begins = λ _. true;
  records = λ _. true;
  commits = λ _. true;
  counts = true;
  creates = true;
}

pending-new :
    (h ms : List Migration) (m : Migration)
    → is_known m.version h ≡ false
    → pending h (m ∷ ms) ≡ m ∷ pending h ms
pending-new h ms m k = rw k refl

-- A migration that moves from the front of the list to the end of the history
moved :
    (n : ℕ) (rows rows' ms : List Migration) (m : Migration)
    → rows' ≡ rows
    → count_where (has_version n) rows + count_where (has_version n) (m ∷ ms) ≤ 1
    → count_where (has_version n) (rows' ++ m ∷ []) + count_where (has_version n) ms ≤ 1
moved n rows rows' ms m e le =
    rw (e, count_where-append (has_version n) rows (m ∷ [])) (omega (arith, le))

-- With such a driver the loop does what its specification says.
apply_all-replay :
    (execute : Text → Database → Option Database) (w : Driver) (h ms : List Migration)
    (d d' : Database)
    → LeavesHistory execute
    → ((n : ℕ)
        → count_where (has_version n) d.history + count_where (has_version n) (pending h ms) ≤ 1)
    → replay execute (pending h ms) d ≡ some d'
    → apply_all execute (steady w) h ms d ≡ (ok tt, d')
unfolding apply_all replay
apply_all-replay execute w h [] d d' leaves once r =
    let same : d ≡ d' = cc in ap (λ k. (ok tt, k)) same
apply_all-replay execute w h (m ∷ ms) d d' leaves once r =
    elim (Bool-cases (is_known m.version h)) [
      | inl k ↦
          rw k (apply_all-replay execute w h ms d d' leaves (λ n. rw k at (once n)) (rw k at r))
      | inr k ↦ elim (Option-cases (execute m.name d)) [
        | inl e ↦ let bad = rw (k, e) at r in cc
        | inr (d1, e) ↦
            let kept = (leaves m.name d d1 e).0 in
            let grown = λ (n : ℕ).
              subst (λ k. count_where (has_version n) d.history + count_where (has_version n) k ≤ 1)
                (pending-new h ms m k) (once n) in
            let fresh : is_known m.version d1.history ≡ false =
              ap (is_known m.version) kept
              ∙ ground
                  (arith, grown m.version, count_where-find? (has_version m.version) d.history) in
            rw (k, e, fresh)
              (apply_all-replay execute w h ms (recorded m d1) d' leaves
                (λ n. moved n d.history d1.history (pending h ms) m kept (grown n))
                (rw (k, e) at r))
      ]
    ]

module _ (execute : Text → Database → Option Database) (leaves : LeavesHistory execute)
    (v w : Driver) where
  replay-append :
      (xs ys : List Migration) (d d1 d2 : Database)
      → replay execute xs d ≡ some d1
      → replay execute ys d1 ≡ some d2
      → replay execute (xs ++ ys) d ≡ some d2
  unfolding replay
  replay-append [] ys d d1 d2 p q =
      let same : d ≡ d1 = cc in subst (λ k. replay execute ys k ≡ some d2) (sym same) q
  replay-append (m ∷ xs) ys d d1 d2 p q = elim (Option-cases (execute m.name d)) [
    | inl e ↦ let bad = rw e at p in cc
    | inr (d', e) ↦ rw e (replay-append xs ys (recorded m d') d1 d2 (rw e at p) q)
  ]

  steadily :
      (entries : List DirEntry) (d d1 d2 : Database) (run : Succeeds execute w entries d1 d2)
      → OncePerVersion (prepared d).history
      → IsMigratable d
      → validate_migration_history (prepared d).history run.ms ≡ ok tt
      → replay execute (pending (prepared d).history run.ms) (prepared d) ≡ some d2
      → migrate execute (steady w) entries d ≡ ([], d2)
  steadily entries d d1 d2 run once can valid replayed =
      let embedded = embedded_migrations-IsEmbedded entries run.ms run.embeds in
      Succeeds-migrate execute (steady w) entries d d2 (record {
        ms = run.ms;
        embeds = run.embeds;
        some_migrations = run.some_migrations;
        connects = run.connects;
        locks = run.locks;
        unlocks = run.unlocks;
        ensures =
            ensure_history_made (steady w) d can (ensure_history-inspects w d1 _ run.ensures) refl
              refl;
        reads = run.reads;
        validates = valid;
        applies =
            apply_all-replay execute w (prepared d).history run.ms (prepared d) d2 leaves
              (λ n. ground (
                arith,
                count-pending (prepared d).history run.ms n,
                once n,
                embedded.once_per_version n,
                count_where-find? (has_version n) (prepared d).history,
              ))
              replayed;
        checks = validate_schema-transactions w _ _ _ true true entries d2 run.checks;
      })

  -- A run without an error with a steady driver.
  alone :
      (entries : List DirEntry) (d d2 : Database)
      → OncePerVersion (prepared d).history
      → migrate execute w entries d ≡ ([], d2)
      → migrate execute (steady w) entries d ≡ ([], d2)
  alone entries d d2 once h =
      let run = migrate-Succeeds execute w entries d d2 h in
      elim (migrate-IsReplay execute w entries d) [
        | inl ((e, es, bad), _) ↦ let worse = rw h at bad in cc
        | inr (ms, applied, rest, can, _, _, _, _) ↦
            steadily entries d d d2 run once can run.validates
              (migrate-replay execute leaves w entries d d2 run.ms run.embeds h)
      ]

  -- A run on the database that a part of a run has left.
  after_part :
      (entries : List DirEntry) (d d1 d2 : Database) (ms applied rest : List Migration)
      → OncePerVersion (prepared d).history
      → migrate execute w entries d1 ≡ ([], d2)
      → IsMigratable d
      → embedded_migrations entries ≡ ok ms
      → pending (prepared d).history ms ≡ applied ++ rest
      → replay execute applied (prepared d) ≡ some d1
      → migrate execute (steady w) entries d ≡ ([], d2)
  after_part entries d d1 d2 ms applied rest once second can q split replayed =
      let run = migrate-Succeeds execute w entries d1 d2 second in
      let same_ms : ms ≡ run.ms = run_ms q run.embeds in
      let split' : pending (prepared d).history run.ms ≡ applied ++ rest =
        subst (λ k. pending (prepared d).history k ≡ applied ++ rest) same_ms split in
      let (grown, table) = replay-history execute leaves applied (prepared d) d1 replayed in
      let same = prepared-same d1 (table ∙ prepared-table_exists d) in
      let embedded = embedded_migrations-IsEmbedded entries run.ms run.embeds in
      let left : pending d1.history run.ms ≡ rest =
        ap (λ k. pending k run.ms) grown
        ∙ pending-append (prepared d).history applied rest run.ms embedded.once_per_version
            split' in
      let further =
        subst (λ k. replay execute (pending k.history run.ms) k ≡ some d2) same
          (migrate-replay execute leaves w entries d1 d2 run.ms run.embeds second) in
      let valid =
        subst (λ k. validate_migration_history k.history run.ms ≡ ok tt) same run.validates in
      steadily entries d d1 d2 run once can
        (validate-append (prepared d).history applied run.ms
          (subst (λ k. validate_migration_history k run.ms ≡ ok tt) grown valid))
        (subst (λ k. replay execute k (prepared d) ≡ some d2) (sym split')
          (replay-append applied rest (prepared d) d1 d2 replayed
            (subst (λ k. replay execute k d1 ≡ some d2) left further)))

  -- If a call of `Migrate` ends in any way, wherever it was interrupted, and a later call returns no
  -- error, then the two have made the database that one call from the start makes with a driver whose
  -- transactions succeed; the scripts leave the history alone, and the history's versions are unique.
  pub migrate-resumes :
      (entries : List DirEntry) (d d1 d2 : Database) (es : List MigrationError)
      → OncePerVersion (prepared d).history
      → migrate execute v entries d ≡ (es, d1)
      → migrate execute w entries d1 ≡ ([], d2)
      → migrate execute (steady w) entries d ≡ ([], d2)
  migrate-resumes entries d d1 d2 es once first second =
      elim (migrate-IsReplay execute v entries d) [
        | inl (_, same) ↦
            let back : d1 ≡ d = sym (ap (λ p. p.1) first) ∙ same in
            alone entries d d2 once
              (subst (λ k. migrate execute w entries k ≡ ([], d2)) back second)
        | inr (ms, applied, rest, can, q, split, replayed, _) ↦
            after_part entries d d1 d2 ms applied rest once second can q split
              (replayed ∙ ap (λ p. some p.1) first)
      ]
