-- ===== src/Store/Migrations/Scripts.antt =====
-- The scripts of internal/store/migrations as lists of statements, and what PostgreSQL does with them. The columns of a
-- table are left out: a table that is there is that of the scripts.
use mathlib.Core.Option.{some-injective}
use gpu_cluster_scheduler.Common.{
  ℤ, pos, String, str_eq, str_eq_refl, Bool, Bool-cases, true, false, not, ◌||◌, if◌then◌else◌, inl,
  inr, Option, none, some, List, [], ◌∷◌, All, ◌≡◌, refl, subst, arith,
}
use gpu_cluster_scheduler.Store.Migrations.{Files}

pub record Quota : Type 0 where
  pub team_id : String
  pub max_gpus : ℤ
  pub max_cpus : ℤ
  pub max_memory_gb : ℤ

-- CREATE TABLE IF NOT EXISTS, CREATE INDEX IF NOT EXISTS, and INSERT INTO team_quotas with ON CONFLICT DO NOTHING.
pub data Statement : Type 0 where
  create_table : (name : String) → Statement
  create_index : (name table : String) → Statement
  insert_quotas : List Quota → Statement

-- The server: the tables and indexes that are there, and the rows of team_quotas.
pub record Schema : Type 0 where
  pub tables : List String
  pub indexes : List String
  pub quotas : List Quota

abbrev pub Script : Type 0
Script = List Statement

unfoldable pub init_script : Script
init_script =
    create_table "nodes"
    ∷ create_index "idx_nodes_status" "nodes"
    ∷ create_table "jobs"
    ∷ create_index "idx_jobs_status" "jobs"
    ∷ create_index "idx_jobs_user" "jobs"
    ∷ create_index "idx_jobs_team" "jobs"
    ∷ create_index "idx_jobs_status_priority" "jobs"
    ∷ create_table "scheduling_events"
    ∷ create_index "idx_events_job" "scheduling_events"
    ∷ create_index "idx_events_time" "scheduling_events"
    ∷ create_table "team_quotas"
    ∷ []

abbrev quota : String → ℤ → ℤ → ℤ → Quota
quota team gpus cpus memory = record {
  team_id = team;
  max_gpus = gpus;
  max_cpus = cpus;
  max_memory_gb = memory;
}

unfoldable pub seed_script : Script
seed_script =
    insert_quotas (
      quota "research" (pos 16) (pos 256) (pos 2048)
      ∷ quota "inference" (pos 8) (pos 128) (pos 1024)
      ∷ quota "platform" (pos 4) (pos 64) (pos 512)
      ∷ [])
    ∷ []

-- The embedded directory.
abbrev pub migration_files : Files Script
migration_files = record {
  entries = some (
      record { name = "0001_init.sql"; is_dir = false }
      ∷ record { name = "0002_seed.sql"; is_dir = false }
      ∷ []);
  read = λ name.
      if str_eq name "0001_init.sql"
      then some init_script
      else if str_eq name "0002_seed.sql"
      then some seed_script
      else none;
}

unfoldable pub is_in : String → List String → Bool
is_in x [] = false
is_in x (y ∷ ys) = str_eq y x || is_in x ys

unfoldable pub has_quota : String → List Quota → Bool
has_quota team [] = false
has_quota team (q ∷ qs) = str_eq q.team_id team || has_quota team qs

unfoldable pub add_quotas : List Quota → List Quota → List Quota
unfolding has_quota
add_quotas [] qs = qs
add_quotas (r ∷ rs) qs = add_quotas rs (if has_quota r.team_id qs then qs else r ∷ qs)

-- `none` is an error: the table is not there.
unfoldable pub exec_statement : Statement → Schema → Option Schema
unfolding is_in add_quotas
exec_statement (create_table name) s =
    some (if is_in name s.tables then s else record s { tables = name ∷ s.tables })
exec_statement (create_index name table) s =
    if not (is_in table s.tables)
    then none
    else some (if is_in name s.indexes then s else record s { indexes = name ∷ s.indexes })
exec_statement (insert_quotas rows) s =
    if not (is_in "team_quotas" s.tables)
    then none
    else some (record s { quotas = add_quotas rows s.quotas })

unfoldable pub exec_script : Script → Schema → Option Schema
unfolding exec_statement
exec_script [] s = some s
exec_script (q ∷ qs) s = elim (exec_statement q s) [ none ↦ none | some t ↦ exec_script qs t ]

-- Nothing is dropped.
pub record Extends (s t : Schema) : Type 0 where
  pub tables : (x : String) → is_in x s.tables ≡ true → is_in x t.tables ≡ true
  pub indexes : (x : String) → is_in x s.indexes ≡ true → is_in x t.indexes ≡ true
  pub quotas : (x : String) → has_quota x s.quotas ≡ true → has_quota x t.quotas ≡ true

pub Extends-refl : (s : Schema) → Extends s s
Extends-refl s = record { tables = λ x h. h; indexes = λ x h. h; quotas = λ x h. h }

pub Extends-trans : {s t u : Schema} → Extends s t → Extends t u → Extends s u
Extends-trans a b = record {
  tables = λ x h. b.tables x (a.tables x h);
  indexes = λ x h. b.indexes x (a.indexes x h);
  quotas = λ x h. b.quotas x (a.quotas x h);
}

add_quotas-keeps :
    (rows qs : List Quota) (x : String)
    → has_quota x qs ≡ true
    → has_quota x (add_quotas rows qs) ≡ true
unfolding add_quotas has_quota
add_quotas-keeps [] qs x h = h
add_quotas-keeps (r ∷ rs) qs x h =
    add_quotas-keeps rs (if has_quota r.team_id qs then qs else r ∷ qs) x (ground (arith, h))

-- What a statement is for is there.
abbrev pub Done : Schema → Statement → Type 0
Done s (create_table name) = is_in name s.tables ≡ true
Done s (create_index name table) = (is_in table s.tables ≡ true) × (is_in name s.indexes ≡ true)
Done s (insert_quotas rows) =
    (is_in "team_quotas" s.tables ≡ true) × All (λ r. has_quota r.team_id s.quotas ≡ true) rows

add_quotas-all :
    (rows qs : List Quota) → All (λ r. has_quota r.team_id (add_quotas rows qs) ≡ true) rows
unfolding add_quotas has_quota
add_quotas-all [] qs = tt
add_quotas-all (r ∷ rs) qs = (
  add_quotas-keeps rs (if has_quota r.team_id qs then qs else r ∷ qs) r.team_id
      (ground (arith, str_eq_refl r.team_id)),
  add_quotas-all rs (if has_quota r.team_id qs then qs else r ∷ qs),
)

add_quotas-again :
    (rows qs : List Quota) → All (λ r. has_quota r.team_id qs ≡ true) rows → add_quotas rows qs ≡ qs
unfolding add_quotas
add_quotas-again [] qs h = refl
add_quotas-again (r ∷ rs) qs h = rw h.0 (add_quotas-again rs qs h.1)

-- What an accepted statement leaves.
pub record Accepted (q : Statement) (s t : Schema) : Type 0 where
  pub grows : Extends s t
  pub done : Done t q

table-Accepted :
    (name : String) (s : Schema)
    → Accepted
        (create_table name)
        s
        (if is_in name s.tables then s else record s { tables = name ∷ s.tables })
unfolding is_in
table-Accepted name s = elim (Bool-cases (is_in name s.tables)) [
  | inl e ↦ rw e (record { grows = Extends-refl s; done = e })
  | inr e ↦ rw e (record {
    grows = record { tables = λ x h. ground (arith, h); indexes = λ x h. h; quotas = λ x h. h };
    done = ground (arith, str_eq_refl name);
  })
]

index-Accepted :
    (name table : String) (s : Schema)
    → is_in table s.tables ≡ true
    → Accepted
        (create_index name table)
        s
        (if is_in name s.indexes then s else record s { indexes = name ∷ s.indexes })
unfolding is_in
index-Accepted name table s there = elim (Bool-cases (is_in name s.indexes)) [
  | inl e ↦ rw e (record { grows = Extends-refl s; done = (there, e) })
  | inr e ↦ rw e (record {
    grows = record { tables = λ x h. h; indexes = λ x h. ground (arith, h); quotas = λ x h. h };
    done = (there, ground (arith, str_eq_refl name));
  })
]

pub exec_statement-Accepted :
    (q : Statement) (s t : Schema) → exec_statement q s ≡ some t → Accepted q s t
unfolding exec_statement
exec_statement-Accepted (create_table name) s t e =
    subst (Accepted (create_table name) s) (some-injective _ _ e) (table-Accepted name s)
exec_statement-Accepted (create_index name table) s t e = elim (Bool-cases (is_in table s.tables)) [
  | inl there ↦
      subst (Accepted (create_index name table) s) (some-injective _ _ (rw there at e))
        (index-Accepted name table s there)
  | inr gone ↦ absurd (ground (arith, e, gone))
]
exec_statement-Accepted (insert_quotas rows) s t e =
    elim (Bool-cases (is_in "team_quotas" s.tables)) [
      | inl there ↦
          subst (Accepted (insert_quotas rows) s) (some-injective _ _ (rw there at e)) (record {
            grows = record {
              tables = λ x h. h;
              indexes = λ x h. h;
              quotas = λ x h. add_quotas-keeps rows s.quotas x h;
            };
            done = (there, add_quotas-all rows s.quotas);
          })
      | inr gone ↦ absurd (ground (arith, e, gone))
    ]

pub exec_statement-again : (q : Statement) (s : Schema) → Done s q → exec_statement q s ≡ some s
unfolding exec_statement
exec_statement-again (create_table name) s h = rw h refl
exec_statement-again (create_index name table) s h = rw (h.0, h.1) refl
exec_statement-again (insert_quotas rows) s h = rw (h.0, add_quotas-again rows s.quotas h.1) refl
