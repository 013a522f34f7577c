-- ===== src/Store/Migrations/Embedded.antt =====
-- Migrate of internal/store/postgres.go with the scripts of internal/store/migrations.
use mathlib.Core.Option.{some-injective}
use gpu_cluster_scheduler.Common.{
  String, str_eq, str_eq_iff, Bool, Bool-cases, if◌then◌else◌, Option-cases, true, ◌&&◌, inl, inr,
  Option, none, some, List, [], ◌∷◌, All, ◌≡◌, refl, subst, ap, ◌∙◌, arith,
}
use gpu_cluster_scheduler.Store.Migrations.{
  MigrateError, apply_all, migrate, Guarded, migrate_twice,
}
use gpu_cluster_scheduler.Store.Migrations.Scripts.{
  Quota, Statement, create_table, create_index, insert_quotas, Schema, Script, init_script,
  seed_script, migration_files, is_in, has_quota, add_quotas, exec_statement, exec_script, Extends,
  Extends-refl, Extends-trans, Done, exec_statement-Accepted, exec_statement-again,
}

rows_kept :
    (s t : Schema) (rows : List Quota)
    → Extends s t
    → All (λ r. has_quota r.team_id s.quotas ≡ true) rows
    → All (λ r. has_quota r.team_id t.quotas ≡ true) rows
rows_kept s t [] grows h = tt
rows_kept s t (r ∷ rows) grows h = (grows.quotas r.team_id h.0, rows_kept s t rows grows h.1)

Done-kept : (q : Statement) (s t : Schema) → Extends s t → Done s q → Done t q
Done-kept (create_table name) s t grows h = grows.tables name h
Done-kept (create_index name table) s t grows h = (grows.tables table h.0, grows.indexes name h.1)
Done-kept (insert_quotas rows) s t grows h =
    (grows.tables "team_quotas" h.0, rows_kept s t rows grows h.1)

script_kept : (qs : Script) (s t : Schema) → Extends s t → All (Done s) qs → All (Done t) qs
script_kept [] s t grows h = tt
script_kept (q ∷ qs) s t grows h = (Done-kept q s t grows h.0, script_kept qs s t grows h.1)

exec_script-Accepted :
    (qs : Script) (s t : Schema) → exec_script qs s ≡ some t → Extends s t × All (Done t) qs
unfolding exec_script
exec_script-Accepted [] s t e = (subst (Extends s) (some-injective _ _ e) (Extends-refl s), tt)
exec_script-Accepted (q ∷ qs) s t e = elim (Option-cases (exec_statement q s)) [
  | inl stuck ↦ absurd (ground (arith, e, stuck))
  | inr (u, once) ↦
      let first = exec_statement-Accepted q s u once in
      let (grows, all) = exec_script-Accepted qs u t (ground (arith, e, once)) in
      (Extends-trans first.grows grows, (Done-kept q u t grows first.done, all))
]

exec_script-again : (qs : Script) (s : Schema) → All (Done s) qs → exec_script qs s ≡ some s
unfolding exec_script
exec_script-again [] s h = refl
exec_script-again (q ∷ qs) s h =
    rw (exec_statement-again q s h.0, exec_script) (exec_script-again qs s h.1)

exec_script-Guarded : Guarded migration_files exec_script
exec_script-Guarded = record {
  InPlace = λ qs s. All (Done s) qs;
  accepted = λ qs s t e. (exec_script-Accepted qs s t e).1;
  stays = λ qs other s t e h. script_kept qs s t (exec_script-Accepted other s t e).0 h;
  again = exec_script-again;
}

exec_script-cons :
    (q : Statement) (qs : Script) (s u : Schema)
    → exec_statement q s ≡ some u
    → exec_script (q ∷ qs) s ≡ exec_script qs u
unfolding exec_script
exec_script-cons q qs s u e = ground (arith, e)

-- The tables that a script knows of: those before it, and those that it makes.
made : List String → Script → List String
made known [] = known
made known (create_table name ∷ qs) = made (name ∷ known) qs
made known (create_index name table ∷ qs) = made known qs
made known (insert_quotas rows ∷ qs) = made known qs

-- Each statement uses a table that is known before it.
is_sorted_out : List String → Script → Bool
is_sorted_out known [] = true
is_sorted_out known (create_table name ∷ qs) = is_sorted_out (name ∷ known) qs
is_sorted_out known (create_index name table ∷ qs) =
    let rest = is_sorted_out known qs in is_in table known && rest
is_sorted_out known (insert_quotas rows ∷ qs) =
    let rest = is_sorted_out known qs in is_in "team_quotas" known && rest

abbrev Knows : Schema → List String → Type 0
Knows s known = (x : String) → is_in x known ≡ true → is_in x s.tables ≡ true

exec_script-runs :
    (known : List String) (qs : Script) (s : Schema)
    → is_sorted_out known qs ≡ true
    → Knows s known
    → (t : Schema) × (exec_script qs s ≡ some t) × Knows t (made known qs)
unfolding exec_script exec_statement is_sorted_out made is_in
exec_script-runs known [] s o k = (s, refl, k)
exec_script-runs known (create_table name ∷ qs) s o k =
    let (u, once) : (u : Schema) × (exec_statement (create_table name) s ≡ some u) = (_, refl) in
    let first = exec_statement-Accepted (create_table name) s u once in
    exec_script-runs (name ∷ known) qs u o (λ x h. elim (Bool-cases (str_eq name x)) [
      | inl same ↦ subst (λ y. is_in y u.tables ≡ true) ((str_eq_iff name x).0 same) first.done
      | inr other ↦ first.grows.tables x (k x (ground (arith, h, other)))
    ])
exec_script-runs known (create_index name table ∷ qs) s o k =
    let q = create_index name table in
    let there : is_in table s.tables ≡ true = k table (ground (arith, o)) in
    let u : Schema = if is_in name s.indexes then s else record s { indexes = name ∷ s.indexes } in
    let once : exec_statement q s ≡ some u = rw there refl in
    let first = exec_statement-Accepted q s u once in
    let (t, runs, knows) =
      exec_script-runs known qs u (ground (arith, o)) (λ x h. first.grows.tables x (k x h)) in
    (t, exec_script-cons q qs s u once ∙ runs, knows)
exec_script-runs known (insert_quotas rows ∷ qs) s o k =
    let q = insert_quotas rows in
    let there : is_in "team_quotas" s.tables ≡ true = k "team_quotas" (ground (arith, o)) in
    let u : Schema = record s { quotas = add_quotas rows s.quotas } in
    let once : exec_statement q s ≡ some u = rw there refl in
    let (t, runs, knows) = exec_script-runs known qs u (ground (arith, o)) k in
    (t, exec_script-cons q qs s u once ∙ runs, knows)

-- What a first run leaves: no error, all of both scripts in place, and so the four tables.
pub record IsMigrated (t : Schema) : Type 0 where
  pub init : All (Done t) init_script
  pub seed : All (Done t) seed_script
  pub tables :
      All
        (λ x. is_in x t.tables ≡ true)
        ("nodes" ∷ "jobs" ∷ "scheduling_events" ∷ "team_quotas" ∷ [])

migrate-both :
    (s t u : Schema)
    → exec_script init_script s ≡ some t
    → exec_script seed_script t ≡ some u
    → migrate migration_files exec_script s ≡ (none, u)
unfolding migrate apply_all
migrate-both s t u first second = rw (first, apply_all) (rw (second, apply_all) refl)

migrate-runs :
    (s : Schema) → (t : Schema) × (migrate migration_files exec_script s ≡ (none, t)) × IsMigrated t
unfolding made is_sorted_out init_script seed_script is_in
migrate-runs s =
    let known : List String = "team_quotas" ∷ "scheduling_events" ∷ "jobs" ∷ "nodes" ∷ [] in
    let (t, first, before) =
      exec_script-runs [] init_script s refl (λ x h. absurd (ground (arith, h))) in
    let (u, second, after) = exec_script-runs known seed_script t refl before in
    let seeded = exec_script-Accepted seed_script t u second in
    (
      u,
      migrate-both s t u first second,
      record {
        init = script_kept init_script t u seeded.0 (exec_script-Accepted init_script s t first).1;
        seed = seeded.1;
        tables = (
          after "nodes" refl,
          (after "jobs" refl, (after "scheduling_events" refl, (after "team_quotas" refl, tt))),
        );
      },
    )

-- On every server, whichever of the tables, indexes and quotas of the scripts it has, Migrate runs the
-- embedded scripts without an error, leaves all of their tables, indexes and quotas in place, and
-- changes nothing when it runs again, as it does when each service starts.
pub migrate-IsMigrated :
    (s : Schema)
    → (t : Schema) × (migrate migration_files exec_script s ≡ (none, t))
      × IsMigrated t
      × (migrate migration_files exec_script t ≡ (none, t))
migrate-IsMigrated s =
    let (t, once, there) = migrate-runs s in
    let again =
      migrate_twice migration_files exec_script exec_script-Guarded s (ap (λ r. r.0) once) in
    (
      t,
      once,
      there,
      subst
          (λ (r : Option MigrateError × Schema).
            migrate migration_files exec_script r.1 ≡ (none, r.1))
          once again,
    )
