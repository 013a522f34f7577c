-- ===== src/Store/Database.antt =====
-- The tables of internal/store/migrations/0001_init.sql, and what one query does. Queries are numbered,
-- and a fault map says which of them fail; a query that fails changes nothing.
use gpu_cluster_scheduler.Common.{
  ℕ, suc, String, str_eq, Bool, false, if◌then◌else◌, Option, none, some, List, [], ◌∷◌,
}
use gpu_cluster_scheduler.Models.{Job, Node, SchedulingEvent}

pub record Database : Type 0 where
  pub jobs : List Job
  pub nodes : List Node
  pub events : List SchedulingEvent
  pub queries : ℕ

pub data StoreError : Type 0 where
  not_found : StoreError
  query_failed : StoreError

pub data Result (A : Type 0) : Type 0 where
  ok : A → Result A
  err : StoreError → Result A

abbrev pub Faults : Type 0
Faults = ℕ → Bool

abbrev pub no_faults : Faults
no_faults q = false

abbrev pub Store : Type 0 → Type 0
Store A = Database → Result A × Database

infixl 5 ◌>>=◌ ◌>>◌
abbrev pub ◌>>=◌ : {A B : Type 0} → Store A → (A → Store B) → Store B
◌>>=◌ m f db = let (r, db') = m db in elim r [ ok a ↦ f a db' | err e ↦ (err e, db') ]

abbrev pub ◌>>◌ : {A B : Type 0} → Store A → Store B → Store B
m >> k = m >>= λ _. k

abbrev pub pure : {A : Type 0} → A → Store A
pure a db = (ok a, db)

abbrev pub throw : {A : Type 0} → StoreError → Store A
throw e db = (err e, db)

-- A statement: the result of its execution, and the tables after it.
abbrev pub query : {A : Type 0} → Faults → (Database → Result A × Database) → Store A
query faults statement db =
    let asked = record db { queries = suc db.queries } in
    if faults db.queries then (err query_failed, asked) else statement asked

-- `UPDATE … WHERE key = k`
abbrev pub update_where : {A : Type 0} → (A → String) → String → (A → A) → List A → List A
update_where key k f [] = []
update_where key k f (x ∷ xs) = (if str_eq (key x) k then f x else x) ∷ update_where key k f xs

-- `SELECT … WHERE key = k`, where the key is the primary one.
abbrev pub find_where : {A : Type 0} → (A → String) → String → List A → Option A
find_where key k [] = none
find_where key k (x ∷ xs) =
    let rest = find_where key k xs in if str_eq (key x) k then some x else rest

abbrev pub or_not_found : {A : Type 0} → Option A → Result A
or_not_found none = err not_found
or_not_found (some a) = ok a

abbrev pub job_key : Job → String
job_key j = j.job_id

abbrev pub node_key : Node → String
node_key n = n.node_id
