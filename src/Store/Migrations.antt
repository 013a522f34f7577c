-- ===== src/Store/Migrations.antt =====
-- internal/store/postgres.go: `New` and `Migrate`. The embedded files and pgx with its server are parameters: the
-- state is the server's, and a script is executed as one statement, whole or not at all.
pub mod Scripts
pub mod Embedded
use Prim.Native.String.{compare}
use text.Mathlib.Text.{is_lt}
use gpu_cluster_scheduler.Common.{
  ℕ, String, Bool, not, if◌then◌else◌, Option, none, some, List, [], ◌∷◌, All, ◌≡◌, refl, sym,
  subst, inl, inr, arith, Option-cases,
}
use gpu_cluster_scheduler.Common.Sort.{sort_stable}

pub record DirEntry : Type 0 where
  pub name : String
  pub is_dir : Bool

-- The embedded directory, with what reading a file of it gives.
pub record Files (T : Type 0) : Type 0 where
  pub entries : Option (List DirEntry)
  pub read : String → Option T

pub data MigrateError : Type 0 where
  no_directory : MigrateError
  unreadable refused : (name : String) → MigrateError

unfoldable pub file_names : List DirEntry → List String
file_names [] = []
file_names (e ∷ es) = let rest = file_names es in if e.is_dir then rest else e.name ∷ rest

-- `sort.Strings`
unfoldable pub sort_strings : List String → List String
unfolding sort_stable
sort_strings names = sort_stable (λ a b. is_lt (compare a b)) names

-- What `pool.Exec` does with a script: the state after it, where it is accepted.
abbrev pub Exec : Type 0 → Type 0 → Type 0
Exec T S = T → S → Option S

module _ {T S : Type 0} (files : Files T) (exec : Exec T S) where
  -- The loop of `Migrate`: its error, and the state after it.
  unfoldable pub apply_all : List String → S → Option MigrateError × S
  apply_all [] s = (none, s)
  apply_all (name ∷ names) s = elim (files.read name) [
    | none ↦ (some (unreadable name), s)
    | some script ↦ elim (exec script s) [
      | none ↦ (some (refused name), s)
      | some s' ↦ apply_all names s'
    ]
  ]

  unfoldable pub migrate_from : Option (List DirEntry) → S → Option MigrateError × S
  unfolding apply_all file_names sort_strings
  migrate_from none s = (some no_directory, s)
  migrate_from (some entries) s = apply_all (sort_strings (file_names entries)) s

  unfoldable pub migrate : S → Option MigrateError × S
  unfolding migrate_from
  migrate s = migrate_from files.entries s

  -- A run without an error executes each script in turn.
  advance :
      (name : String) (names : List String) (s : S)
      → (apply_all (name ∷ names) s).0 ≡ none
      → (script : T) × (t : S) × (files.read name ≡ some script)
        × (exec script s ≡ some t)
        × (apply_all (name ∷ names) s ≡ apply_all names t)
  unfolding apply_all
  advance name names s e = elim (Option-cases (files.read name)) [
    | inl r ↦ absurd (ground (arith, r))
    | inr (script, r) ↦ elim (Option-cases (exec script s)) [
      | inl x ↦ absurd (ground (arith, r, x))
      | inr (t, x) ↦ (script, t, r, x, ground (arith, r, x))
    ]
  ]

  -- A language of guarded scripts: one that has been accepted is in place, stays in place whatever runs after it,
  -- and changes nothing when it is run again.
  pub record Guarded : Type 1 where
    pub InPlace : T → S → Type 0
    pub accepted : (script : T) (s t : S) → exec script s ≡ some t → InPlace script t
    pub stays :
        (script other : T) (s t : S) → exec other s ≡ some t → InPlace script s → InPlace script t
    pub again : (script : T) (s : S) → InPlace script s → exec script s ≡ some s

  module _ (g : Guarded) where
    open g use {InPlace}

    -- The script of this name can be read, and is in place.
    abbrev Ready : S → String → Type 0
    Ready s name = (script : T) × (files.read name ≡ some script) × InPlace script s

    apply_all-stays :
        (names : List String) (s : S) (script : T)
        → InPlace script s
        → (apply_all names s).0 ≡ none
        → InPlace script (apply_all names s).1
    unfolding apply_all
    apply_all-stays [] s script p e = p
    apply_all-stays (name ∷ names) s script p e =
        let (own, t, r, x, same) = advance name names s e in
        rw same (apply_all-stays names t script (g.stays script own s t x p) (rw (← same) e))

    apply_all-Ready :
        (names : List String) (s : S)
        → (apply_all names s).0 ≡ none
        → All (Ready (apply_all names s).1) names
    unfolding apply_all
    apply_all-Ready [] s e = tt
    apply_all-Ready (name ∷ names) s e =
        let (own, t, r, x, same) = advance name names s e in
        let done : (apply_all names t).0 ≡ none = rw (← same) e in
        subst (λ r. All (Ready r.1) (name ∷ names)) (sym same)
          (
            (own, r, apply_all-stays names t own (g.accepted own s t x) done),
            apply_all-Ready names t done,
          )

    again-apply_all :
        (names : List String) (s : S) → All (Ready s) names → apply_all names s ≡ (none, s)
    unfolding apply_all
    again-apply_all [] s h = refl
    again-apply_all (name ∷ names) s ((script, r, p), h) =
        rw (r, apply_all) (rw (g.again script s p, apply_all) (again-apply_all names s h))

    -- A second run after one without an error changes nothing.
    pub migrate_twice :
        (s : S) → (migrate s).0 ≡ none → migrate (migrate s).1 ≡ (none, (migrate s).1)
    unfolding migrate
    migrate_twice s e = twice files.entries s e
      where
        twice :
            (entries : Option (List DirEntry)) (s : S)
            → (migrate_from entries s).0 ≡ none
            → migrate_from entries (migrate_from entries s).1 ≡ (none, (migrate_from entries s).1)
        twice none s e = cc
        twice (some es) s e =
            let names = sort_strings (file_names es) in
            again-apply_all names (apply_all names s).1 (apply_all-Ready names s e)

-- `pgxpool.ParseConfig`, `NewWithConfig` and `Ping`: whether each succeeds.
pub record Postgres : Type 0 where
  pub parses : Bool
  pub creates : Bool
  pub pings : Bool

pub data ConnectError : Type 0 where
  bad_dsn no_pool no_answer : ConnectError

-- `New`: its error, and the number of pools that it leaves open.
unfoldable pub new_store : Postgres → Option ConnectError × ℕ
new_store p =
    if not p.parses
    then (some bad_dsn, 0)
    else if not p.creates
    then (some no_pool, 0)
    else if not p.pings
    then (some no_answer, 0)
    else (none, 1)

-- A pool is left open exactly if there is no error.
pub new_store-open :
    (p : Postgres) → (new_store p).1 ≡ elim (new_store p).0 [ none ↦ 1 | some e ↦ 0 ]
unfolding new_store
new_store-open p = ground arith
