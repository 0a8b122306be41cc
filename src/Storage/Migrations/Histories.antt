-- ===== src/Storage/Migrations/Histories.antt =====
-- The history that runs of `Migrate` write: what a run without an error has recorded, what a second
-- run does, and how a run goes on from one that was interrupted.
use mathlib.Core.List.{append_assoc, append-nil}
use costume_tree.Common.{
  ℕ, ◌+◌, ◌≤◌, ◌≡◌, refl, sym, subst, ap, ◌∙◌, inl, inr, Bool, true, false, not, ◌||◌, Option, some,
  List, [], ◌∷◌, ◌++◌, ok, Text, arith, Bool-cases, Option-cases, text_eq, find?, select,
  if◌then◌else◌, count_where, All, count_where-append, count_where-find?,
}
use costume_tree.Storage.Database.{is_none}
use costume_tree.Storage.Migrations.{
  DirEntry, Migration, is_known, has_version, embedded_migrations,
}
use costume_tree.Storage.Migrations.Schema.{
  Database, Driver, Table, named, history_name, table_exists,
}
use costume_tree.Storage.Migrations.Runs.{migrate}
use costume_tree.Storage.Migrations.Files.{OncePerVersion, embedded_migrations-IsEmbedded}
use costume_tree.Storage.Migrations.Replays.{prepared, pending, recorded, replay, migrate-IsReplay}
use costume_tree.Storage.Migrations.Successes.{migrate-Succeeds}

-- The scripts leave the table schema_migrations alone.
abbrev pub LeavesHistory : (Text → Database → Option Database) → Type 0
LeavesHistory execute =
    (name : Text) (d d' : Database)
    → execute name d ≡ some d'
    → (d'.history ≡ d.history) × (table_exists history_name d' ≡ table_exists history_name d)

pub count-pending :
    (h ms : List Migration) (n : ℕ)
    → count_where (has_version n) (pending h ms)
      ≡ (if is_known n h then 0 else count_where (has_version n) ms)
count-pending h [] n = ground arith
count-pending h (m ∷ ms) n = elim (Bool-cases (is_known m.version h)) [
  | inl k ↦ rw k (ground (arith, count-pending h ms n, ap (λ j. is_known j h)))
  | inr k ↦ rw k (ground (arith, count-pending h ms n, ap (λ j. is_known j h)))
]

select-append {ℓ} :
    {A : Type ℓ} (p : A → Bool) (xs ys : List A) → select p (xs ++ ys) ≡ select p xs ++ select p ys
select-append p [] ys = refl
select-append p (x ∷ xs) ys = ground (arith, select-append p xs ys)

is_known-append :
    (n : ℕ) (xs ys : List Migration) → is_known n (xs ++ ys) ≡ (is_known n xs || is_known n ys)
is_known-append n [] ys = refl
is_known-append n (x ∷ xs) ys = ground (arith, is_known-append n xs ys)

pending-pending : (h xs ms : List Migration) → pending (h ++ xs) ms ≡ pending xs (pending h ms)
pending-pending h xs [] = refl
pending-pending h xs (m ∷ ms) =
    ground (arith, is_known-append m.version h xs, pending-pending h xs ms)

pending-none :
    (h ms : List Migration)
    → ((n : ℕ) → count_where (has_version n) ms ≤ count_where (has_version n) h)
    → pending h ms ≡ []
pending-none h [] le = refl
pending-none h (m ∷ ms) le =
    let known : is_known m.version h ≡ true =
      ground (arith, le m.version, count_where-find? (has_version m.version) h) in
    rw known (pending-none h ms (λ n. omega (arith, le n)))

pending-all :
    (h ms : List Migration)
    → ((n : ℕ) → count_where (has_version n) h + count_where (has_version n) ms ≤ 1)
    → pending h ms ≡ ms
pending-all h [] le = refl
pending-all h (m ∷ ms) le =
    let new : is_known m.version h ≡ false =
      ground (arith, le m.version, count_where-find? (has_version m.version) h) in
    rw new (ap (λ k. m ∷ k) (pending-all h ms (λ n. omega (arith, le n))))

-- The migrations that are left after a part from the start.
pub pending-append :
    (h xs ys ms : List Migration)
    → OncePerVersion ms
    → pending h ms ≡ xs ++ ys
    → pending (h ++ xs) ms ≡ ys
pending-append h xs ys ms once e =
    let once' : OncePerVersion (xs ++ ys) = λ n.
      subst (λ k. count_where (has_version n) k ≤ 1) e
        (ground (arith, count-pending h ms n, once n)) in
    pending-pending h xs ms
    ∙ ap (pending xs) e
    ∙ select-append _ xs ys
    ∙ ap (λ k. k ++ pending xs ys) (pending-none xs xs (λ n. omega arith))
    ∙ pending-all xs ys
        (λ n. subst (λ k. k ≤ 1) (count_where-append (has_version n) xs ys) (once' n))

-- A list of migrations with a version at most once holds each of its own exactly once.
pub counts_of_own :
    (all ms : List Migration)
    → ((n : ℕ) → count_where (has_version n) ms ≤ count_where (has_version n) all)
    → OncePerVersion all
    → All (λ m. count_where (has_version m.version) all ≡ 1) ms
counts_of_own all [] h once = tt
counts_of_own all (m ∷ ms) h once = (
  ground (arith, h m.version, once m.version),
  counts_of_own all ms (λ n. omega (arith, h n)) once,
)

pub recorded_once :
    (h ms xs : List Migration)
    → OncePerVersion h
    → All (λ m. count_where (has_version m.version) ms ≡ 1) xs
    → All (λ m. count_where (has_version m.version) (h ++ pending h ms) ≡ 1) xs
recorded_once h ms [] once counts = tt
recorded_once h ms (m ∷ xs) once counts = (
  rw (count_where-append (has_version m.version) h (pending h ms)) (
      ground (
        arith,
        count-pending h ms m.version,
        once m.version,
        count_where-find? (has_version m.version) h,
        counts.0,
      )),
  recorded_once h ms xs once counts.1,
)

module _ (execute : Text → Database → Option Database) (leaves : LeavesHistory execute) where
  pub replay-history :
      (ms : List Migration) (d d' : Database)
      → replay execute ms d ≡ some d'
      → (d'.history ≡ d.history ++ ms)
        × (table_exists history_name d' ≡ table_exists history_name d)
  unfolding replay table_exists
  replay-history [] d d' h =
      let same : d ≡ d' = cc in
      (
        ap (λ k. k.history) (sym same) ∙ sym (append-nil _),
        ap (table_exists history_name) (sym same),
      )
  replay-history (m ∷ ms) d d' h = elim (Option-cases (execute m.name d)) [
    | inl e ↦ let bad = rw e at h in cc
    | inr (d1, e) ↦
        let (kept, table) = leaves m.name d d1 e in
        let (grown, table') = replay-history ms (recorded m d1) d' (rw e at h) in
        (
          grown ∙ ap (λ k. (k ++ m ∷ []) ++ ms) kept ∙ append_assoc d.history (m ∷ []) ms,
          table' ∙ table,
        )
  ]

find?-last :
    (p : Table → Bool) (ts : List Table) (t : Table)
    → p t ≡ true
    → is_none (find? p (ts ++ t ∷ [])) ≡ false
find?-last p [] t h = ground arith
find?-last p (x ∷ ts) t h = ground (arith, find?-last p ts t h)

pub prepared-table_exists : (d : Database) → table_exists history_name (prepared d) ≡ true
unfolding table_exists text_eq
prepared-table_exists d = elim (Bool-cases (table_exists history_name d)) [
  | inl h ↦ rw h h
  | inr h ↦ rw h (ap not (find?-last (named history_name) d.tables _ refl))
]

pub prepared-same : (d : Database) → table_exists history_name d ≡ true → prepared d ≡ d
prepared-same d h = rw h refl

module _ (execute : Text → Database → Option Database) (leaves : LeavesHistory execute)
    (v : Driver) where
  -- What a run without an error has replayed.
  pub migrate-replay :
      (entries : List DirEntry) (d d' : Database) (ms : List Migration)
      → embedded_migrations entries ≡ ok ms
      → migrate execute v entries d ≡ ([], d')
      → replay execute (pending (prepared d).history ms) (prepared d) ≡ some d'
  migrate-replay entries d d' ms q h = elim (migrate-IsReplay execute v entries d) [
    | inl ((e, es, bad), _) ↦ let worse = rw h at bad in cc
    | inr (ms', applied, rest, can, q', split, replayed, all) ↦
        let same : ms' ≡ ms = cc in
        let none_left : rest ≡ [] = all (ap (λ p. p.0) h) in
        let applied_all : pending (prepared d).history ms ≡ applied =
          ap (pending (prepared d).history) (sym same)
          ∙ split
          ∙ ap (λ r. applied ++ r) none_left
          ∙ append-nil applied in
        ap (λ k. replay execute k (prepared d)) applied_all ∙ replayed ∙ ap (λ p. some p.1) h
  ]

  -- If `Migrate` returns no error, the scripts leave the history alone and the history's versions are
  -- unique, as its primary key says, then the history that it leaves is the one it found, followed by
  -- the missing migrations in order, and each migration of the binary is in it exactly once.
  pub migrate-records_each_once :
      (entries : List DirEntry) (d d' : Database)
      → OncePerVersion (prepared d).history
      → migrate execute v entries d ≡ ([], d')
      → (ms : List Migration) × (embedded_migrations entries ≡ ok ms)
        × (d'.history ≡ (prepared d).history ++ pending (prepared d).history ms)
        × All (λ m. count_where (has_version m.version) d'.history ≡ 1) ms
  migrate-records_each_once entries d d' once h =
      let run = migrate-Succeeds execute v entries d d' h in
      let embedded = embedded_migrations-IsEmbedded entries run.ms run.embeds in
      let grown =
        (replay-history execute leaves _ (prepared d) d'
          (migrate-replay entries d d' run.ms run.embeds h)).0 in
      (
        run.ms,
        run.embeds,
        grown,
        subst (λ k. All (λ m. count_where (has_version m.version) k ≡ 1) run.ms) (sym grown)
            (recorded_once (prepared d).history run.ms run.ms once
              (counts_of_own run.ms run.ms (λ n. omega arith) embedded.once_per_version)),
      )
