-- ===== src/Storage/Migrations/Replays.antt =====
-- The runs of `Migrate` against their specification: the migrations that the history lacks, applied
-- one after the other.
use costume_tree.Common.{
  ◌≡◌, refl, subst, ap, ◌⊎◌, inl, inr, Bool, true, false, not, ◌||◌, Option, none, some, List, [],
  ◌∷◌, ◌++◌, Outcome, ok, err, Text, Bool-cases, Option-cases, Outcome-cases, length, ◌==◌, select,
  if◌then◌else◌,
}
use costume_tree.Storage.Migrations.{
  DirEntry, Migration, MigrationError, begin, apply, record_row, commit, inspect_history,
  no_migrations, acquire_connection, acquire_lock, inspect_schema, no_history, create_history_table,
  is_known, embedded_migrations, validate_migration_history,
}
use costume_tree.Storage.Migrations.Schema.{
  Database, Driver, history_name, with_history_table, table_exists, read_migration_history,
}
use costume_tree.Storage.Migrations.Runs.{
  ensure_history, migrate_prepared, continue, released, reading, apply_migration, apply_all,
  migrate_locked, migrate,
}

-- The database with a history table, made if there is none.
abbrev pub prepared : Database → Database
prepared d = if table_exists history_name d then d else with_history_table d

-- The databases that `Migrate` works on: with a history table, or with no table at all.
abbrev pub IsMigratable : Database → Type 0
IsMigratable d = (table_exists history_name d ≡ true) ⊎ ((length d.tables == 0) ≡ true)

-- The migrations that a history lacks.
abbrev pub pending : List Migration → List Migration → List Migration
pending applied ms = select (λ m. not (is_known m.version applied)) ms

abbrev pub recorded : Migration → Database → Database
recorded m d = record d { history = d.history ++ m ∷ [] }

module _ (execute : Text → Database → Option Database) where
  -- The specification: each script in turn, and its row after it.
  abbrev pub after_script :
      Migration → Option Database → (Database → Option Database) → Option Database
  after_script m none rest = none
  after_script m (some d) rest = rest (recorded m d)

  unfoldable pub replay : List Migration → Database → Option Database
  replay [] d = some d
  replay (m ∷ ms) d = after_script m (execute m.name d) (replay ms)

  -- What a run has done of a list of migrations: a part from its start, and all of it if the run
  -- returns no error.
  pub record IsPartOf (ms : List Migration) (d : Database)
      (p : Outcome MigrationError (Unit {0}) × Database) : Type 0 where
    pub applied : List Migration
    pub rest : List Migration
    pub split : ms ≡ applied ++ rest
    pub replayed : replay applied d ≡ some p.1
    pub completes : p.0 ≡ ok tt → rest ≡ []

  IsPartOf-stopped :
      (ms : List Migration) (d : Database) (e : MigrationError) → IsPartOf ms d (err e, d)
  unfolding replay
  IsPartOf-stopped ms d e = record {
    applied = [];
    rest = ms;
    split = refl;
    replayed = refl;
    completes = λ h. cc;
  }

  -- A check after the run.
  IsPartOf-reading :
      (ms : List Migration) (d : Database) (p : Outcome MigrationError (Unit {0}) × Database)
      (f : Database → Outcome MigrationError (Unit {0}))
      → IsPartOf ms d p
      → IsPartOf ms d (continue p (λ u. reading f))
  IsPartOf-reading ms d (ok u, d') f h = record {
    applied = h.applied;
    rest = h.rest;
    split = h.split;
    replayed = h.replayed;
    completes = λ q. h.completes refl;
  }
  IsPartOf-reading ms d (err e, d') f h = h

  -- What a call of `Migrate` may return and leave.
  abbrev pub IsReplay : List DirEntry → Database → List MigrationError × Database → Type 0
  IsReplay entries d p =
      (((e : MigrationError) × (es : List MigrationError) × (p.0 ≡ e ∷ es)) × (p.1 ≡ d))
      ⊎ ((ms : List Migration) × (applied : List Migration) × (rest : List Migration) × IsMigratable
            d
          × (embedded_migrations entries ≡ ok ms)
          × (pending (prepared d).history ms ≡ applied ++ rest)
          × (replay applied (prepared d) ≡ some p.1)
          × (p.0 ≡ [] → rest ≡ []))

  -- A call of the driver whose failure ends the run before it has done anything.
  IsReplay-gate :
      (entries : List DirEntry) (d : Database) (b : Bool) (e : MigrationError)
      (p : List MigrationError × Database)
      → IsReplay entries d p
      → IsReplay entries d (if not b then (e ∷ [], d) else p)
  IsReplay-gate entries d true e p h = h
  IsReplay-gate entries d false e p h = inl ((e, [], refl), refl)

  module _ (v : Driver) where
    apply_migration-cases :
        (m : Migration) (d : Database)
        → ((d' : Database) × (apply_migration execute v m d ≡ (ok tt, recorded m d'))
            × (execute m.name d ≡ some d'))
          ⊎ ((e : MigrationError) × (apply_migration execute v m d ≡ (err e, d)))
    unfolding apply_migration
    apply_migration-cases m d = elim (Bool-cases (v.begins m.name)) [
      | inr b ↦ inr (begin m.name, rw b refl)
      | inl b ↦ elim (Option-cases (execute m.name d)) [
        | inl q ↦ inr (apply m.name, rw (b, q) refl)
        | inr (d', q) ↦
            elim (Bool-cases (not (v.records m.name) || is_known m.version d'.history)) [
              | inl r ↦ inr (record_row m.name, rw (b, q, r) refl)
              | inr r ↦ elim (Bool-cases (v.commits m.name)) [
                | inl c ↦ inl (d', rw (b, q, r, c) refl, q)
                | inr c ↦ inr (commit m.name, rw (b, q, r, c) refl)
              ]
            ]
      ]
    ]

    apply_all-IsPartOf :
        (applied ms : List Migration) (d : Database)
        → IsPartOf (pending applied ms) d (apply_all execute v applied ms d)
    unfolding apply_all replay
    apply_all-IsPartOf applied [] d = record {
      applied = [];
      rest = [];
      split = refl;
      replayed = refl;
      completes = λ h. refl;
    }
    apply_all-IsPartOf applied (m ∷ ms) d = elim (Bool-cases (is_known m.version applied)) [
      | inl k ↦ rw k (apply_all-IsPartOf applied ms d)
      | inr new ↦ elim (apply_migration-cases m d) [
        | inl (d', q, x) ↦
            let h = apply_all-IsPartOf applied ms (recorded m d') in
            rw (new, q)
              (record {
                applied = m ∷ h.applied;
                rest = h.rest;
                split = ap (λ k. m ∷ k) h.split;
                replayed = rw x h.replayed;
                completes = h.completes;
              })
        | inr (e, q) ↦ rw (new, q) (IsPartOf-stopped _ d e)
      ]
    ]

    migrate_prepared-IsPartOf :
        (entries : List DirEntry) (ms : List Migration) (d : Database)
        → IsPartOf (pending d.history ms) d (migrate_prepared execute v entries ms d)
    unfolding migrate_prepared read_migration_history
    migrate_prepared-IsPartOf entries ms d = elim (Bool-cases v.reads) [
      | inl r ↦ elim (Outcome-cases (validate_migration_history d.history ms)) [
        | inl (u, q) ↦ rw (r, q) (IsPartOf-reading _ d _ _ (apply_all-IsPartOf d.history ms d))
        | inr (e, q) ↦ rw (r, q) (IsPartOf-stopped _ d e)
      ]
      | inr r ↦ rw r (IsPartOf-stopped _ d _)
    ]

    pub ensure_history-cases :
        (d : Database)
        → (IsMigratable d × (ensure_history v d ≡ (ok tt, prepared d)))
          ⊎ ((e : MigrationError) × (ensure_history v d ≡ (err e, d)))
    unfolding ensure_history
    ensure_history-cases d = elim (Bool-cases v.inspects) [
      | inr a ↦ inr (inspect_history, rw a refl)
      | inl a ↦ elim (Bool-cases (table_exists history_name d)) [
        | inl t ↦ inl (inl t, rw (a, t) refl)
        | inr t ↦ elim (Bool-cases v.counts) [
          | inr c ↦ inr (inspect_schema, rw (a, t, c) refl)
          | inl c ↦ elim (Bool-cases (length d.tables == 0)) [
            | inr l ↦ inr (no_history (length d.tables), rw (a, t, c, l) refl)
            | inl l ↦ elim (Bool-cases v.creates) [
              | inl k ↦ inl (inr l, rw (a, t, c, l, k) refl)
              | inr k ↦ inr (create_history_table, rw (a, t, c, l, k) refl)
            ]
          ]
        ]
      ]
    ]

    released-IsReplay :
        (entries : List DirEntry) (ms : List Migration) (d : Database)
        (p : Outcome MigrationError (Unit {0}) × Database)
        → IsMigratable d
        → embedded_migrations entries ≡ ok ms
        → IsPartOf (pending (prepared d).history ms) (prepared d) p
        → IsReplay entries d (released v p)
    released-IsReplay entries ms d (ok u, d') can q h =
        inr (ms, h.applied, h.rest, can, q, h.split, h.replayed, λ _. h.completes refl)
    released-IsReplay entries ms d (err e, d') can q h =
        inr (ms, h.applied, h.rest, can, q, h.split, h.replayed, λ none. cc)

    migrate_locked-IsReplay :
        (entries : List DirEntry) (ms : List Migration) (d : Database)
        → embedded_migrations entries ≡ ok ms
        → IsReplay entries d (released v (migrate_locked execute v entries ms d))
    unfolding migrate_locked
    migrate_locked-IsReplay entries ms d q = elim (ensure_history-cases d) [
      | inl (can, h) ↦ rw h (
          released-IsReplay entries ms d _ can q
            (migrate_prepared-IsPartOf entries ms (prepared d)))
      | inr (e, h) ↦ rw h (inl ((e, _, refl), refl))
    ]

    -- What a call of `Migrate` does, whatever calls of the driver fail: it returns an error and leaves
    -- the database; or the database has a history table or no table at all, and it makes the history
    -- table where there is none and commits, from the first, some of the migrations that the history
    -- lacks, each with its row; and all of them if it returns no error.
    pub migrate-IsReplay :
        (entries : List DirEntry) (d : Database) → IsReplay entries d (migrate execute v entries d)
    unfolding migrate
    migrate-IsReplay entries d = elim (Outcome-cases (embedded_migrations entries)) [
      | inr (e, q) ↦ rw q (inl ((e, [], refl), refl))
      | inl (ms, q) ↦ elim (Bool-cases (length ms == 0)) [
        | inl z ↦ rw (q, z) (inl ((no_migrations, [], refl), refl))
        | inr z ↦
            let gated : (if not v.connects
                  then (acquire_connection ∷ [], d)
                  else if not v.locks
                  then (acquire_lock ∷ [], d)
                  else released v (migrate_locked execute v entries ms d))
                ≡ migrate execute v entries d =
              rw (q, z) refl in
            subst (IsReplay entries d) gated (
              IsReplay-gate entries d v.connects acquire_connection _ (
                IsReplay-gate entries d v.locks acquire_lock _
                  (migrate_locked-IsReplay entries ms d q)))
      ]
    ]
