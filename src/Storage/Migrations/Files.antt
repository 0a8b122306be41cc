-- ===== src/Storage/Migrations/Files.antt =====
-- What `embeddedMigrations` makes of the directory.
use mathlib.Core.List.{Perm, append-nil}
use mathlib.Core.List.Perm
use costume_tree.Common.{
  ℕ, ◌≤◌, ◌≡◌, refl, sym, subst, ap, ◌∙◌, inl, inr, true, false, Option, none, some, List, [], ◌∷◌,
  ◌++◌, map, ok, and_then-eq-ok, Text, arith, find?, count_where, select, sort_by, IsSorted,
  sort_by-IsSorted, sort_by-perm, Bool-cases, ℤ, pos, negsuc, atoi, count_where-append,
  count_where-sort_by, count_where-find?, Option-cases,
}
use costume_tree.Storage.Migrations.{
  DirEntry, Migration, before_underscore, has_version, is_script, add_parsed, add_version,
  add_entry, collect, by_version, embedded_migrations,
}

-- No two migrations have one version.
abbrev pub OncePerVersion : List Migration → Type 0
OncePerVersion ms = (n : ℕ) → count_where (has_version n) ms ≤ 1

-- What a round adds has the name of the entry and a new version.
add_entry-lem :
    (e : DirEntry) (ms ns : List Migration)
    → add_entry e ms ≡ ok ns
    → is_script e ≡ true
    → (m : Migration) × (ns ≡ ms ++ m ∷ [])
      × (m.name ≡ e.name)
      × (find? (has_version m.version) ms ≡ none)
unfolding add_entry
add_entry-lem e ms ns h s = prefixed (before_underscore e.name) (rw s at h)
  where
    parsed :
        (z : Option ℤ)
        → add_parsed e.name z ms ≡ ok ns
        → (m : Migration) × (ns ≡ ms ++ m ∷ [])
          × (m.name ≡ e.name)
          × (find? (has_version m.version) ms ≡ none)
    parsed none q = cc
    parsed (some (negsuc n)) q = cc
    parsed (some (pos n)) q = elim (Option-cases (find? (has_version n) ms)) [
      | inl new ↦ (record { version = n; name = e.name }, ground arith, refl, new)
      | inr (m, old) ↦ absurd (ground arith)
    ]

    prefixed :
        (p : Option Text)
        → add_version e.name p ms ≡ ok ns
        → (m : Migration) × (ns ≡ ms ++ m ∷ [])
          × (m.name ≡ e.name)
          × (find? (has_version m.version) ms ≡ none)
    prefixed none q = cc
    prefixed (some p) q = parsed (atoi p) q

add_entry_skips :
    (e : DirEntry) (ms ns : List Migration) → add_entry e ms ≡ ok ns → is_script e ≡ false → ns ≡ ms
unfolding add_entry
add_entry_skips e ms ns h s = ground arith

OncePerVersion-snoc :
    (ms : List Migration) (m : Migration)
    → find? (has_version m.version) ms ≡ none
    → OncePerVersion ms
    → OncePerVersion (ms ++ m ∷ [])
OncePerVersion-snoc ms m new h n = rw (count_where-append (has_version n) ms (m ∷ [])) (
    ground (
      arith,
      h n,
      (count_where-find? (has_version m.version) ms).1 new,
      ap (λ k. count_where (has_version k) ms),
    ))

-- The names of the scripts of a directory.
abbrev pub script_names : List DirEntry → List Text
script_names es = map (λ (e : DirEntry). e.name) (select is_script es)

abbrev pub migration_names : List Migration → List Text
migration_names ms = map (λ (m : Migration). m.name) ms

map-snoc :
    (ms : List Migration) (m : Migration)
    → migration_names (ms ++ m ∷ []) ≡ migration_names ms ++ m.name ∷ []
map-snoc [] m = refl
map-snoc (n ∷ ms) m = ap (λ names. n.name ∷ names) (map-snoc ms m)

append-snoc : (xs : List Text) (x : Text) (ys : List Text) → (xs ++ x ∷ []) ++ ys ≡ xs ++ x ∷ ys
append-snoc [] x ys = refl
append-snoc (y ∷ xs) x ys = ap (λ zs. y ∷ zs) (append-snoc xs x ys)

collect-lem :
    (es : List DirEntry) (ms ns : List Migration)
    → collect es ms ≡ ok ns
    → OncePerVersion ms
    → OncePerVersion ns × (migration_names ns ≡ migration_names ms ++ script_names es)
unfolding collect
collect-lem [] ms ns h once =
    let same : ms ≡ ns = cc in
    (subst OncePerVersion same once, sym (append-nil _ ∙ ap migration_names same))
collect-lem (e ∷ es) ms ns h once =
    let (ms', added, rest) = and_then-eq-ok (add_entry e ms) (collect es) h in
    elim (Bool-cases (is_script e)) [
      | inl s ↦
          let (m, grown, name, new) = add_entry-lem e ms ms' added s in
          let (once', names) =
            collect-lem es ms' ns rest (rw grown (OncePerVersion-snoc ms m new once)) in
          (
            once',
            rw s (
                names
                ∙ ap (λ ks. migration_names ks ++ script_names es) grown
                ∙ ap (λ ks. ks ++ script_names es) (map-snoc ms m)
                ∙ append-snoc (migration_names ms) m.name (script_names es)
                ∙ ap (λ k. migration_names ms ++ k ∷ script_names es) name),
          )
      | inr s ↦ rw s (
          let same = add_entry_skips e ms ms' added s in
          collect-lem es ms ns (subst (λ k. collect es k ≡ ok ns) same rest) once)
    ]

-- The migrations are the scripts of the directory, in the order of their versions and with one
-- script for each version.
pub record IsEmbedded (es : List DirEntry) (ms : List Migration) : Type 0 where
  pub is_sorted : IsSorted by_version ms
  pub once_per_version : OncePerVersion ms
  pub are_scripts : Perm (migration_names ms) (script_names es)

-- If `embeddedMigrations` accepts a directory, it gives one migration for each .sql file of it, in
-- ascending order of their versions, and no two with one version.
pub embedded_migrations-IsEmbedded :
    (es : List DirEntry) (ms : List Migration) → embedded_migrations es ≡ ok ms → IsEmbedded es ms
unfolding embedded_migrations
embedded_migrations-IsEmbedded es ms h =
    let (ns, collected, sorted) =
      and_then-eq-ok (collect es []) (λ ns. ok (sort_by by_version ns)) h in
    let same : sort_by by_version ns ≡ ms = cc in
    let (once, names) = collect-lem es [] ns collected (λ n. omega arith) in
    record {
      is_sorted =
          subst (IsSorted by_version) same
            (sort_by-IsSorted by_version (λ x y z p q. ground arith) (λ x y p. ground arith) ns);
      once_per_version =
          subst OncePerVersion same
            (λ n. rw (count_where-sort_by (has_version n) by_version ns) (once n));
      are_scripts =
          subst (λ k. Perm (migration_names k) (script_names es)) same
            (subst (λ k. Perm (migration_names (sort_by by_version ns)) k) names
              (Perm.map (λ (m : Migration). m.name) (sort_by-perm by_version ns)));
    }
