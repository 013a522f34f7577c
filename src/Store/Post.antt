-- ===== src/Store/Post.antt =====
-- A proof rule for the programs over internal/store: what holds of a result and of the tables after it.
use gpu_cluster_scheduler.Common.{suc, Bool-cases, inl, inr}
use gpu_cluster_scheduler.Store.Database.{Database, Result, ok, err, Faults, Store, ◌>>=◌, query}

-- `Q` holds of a value and the tables, `E` of the tables after an error.
abbrev pub PostOf :
    {A : Type 0} → (A → Database → Type 0) → (Database → Type 0) → Result A → Database → Type 0
PostOf Q E (ok a) db = Q a db
PostOf Q E (err e) db = E db

abbrev pub Post :
    {A : Type 0} → (A → Database → Type 0) → (Database → Type 0) → Result A × Database → Type 0
Post Q E r = PostOf Q E r.0 r.1

module _ {A B : Type 0} (Q : A → Database → Type 0) (R : B → Database → Type 0)
    (E : Database → Type 0) where
  bind_of :
      (f : A → Store B) (r : Result A) (db : Database)
      → PostOf Q E r db
      → ((a : A) (d : Database) → Q a d → Post R E (f a d))
      → Post R E (elim r [ ok a ↦ f a db | err e ↦ (err e, db) ])
  bind_of f (ok a) db h k = k a db h
  bind_of f (err e) db h k = h

  pub bind-Post :
      (m : Store A) (f : A → Store B) (db : Database)
      → Post Q E (m db)
      → ((a : A) (d : Database) → Q a d → Post R E (f a d))
      → Post R E ((m >>= f) db)
  bind-Post m f db h k = bind_of f (m db).0 (m db).1 h k

pub query-Post :
    {A : Type 0} (Q : A → Database → Type 0) (E : Database → Type 0) (faults : Faults)
    (statement : Database → Result A × Database) (db : Database)
    → E (record db { queries = suc db.queries })
    → Post Q E (statement (record db { queries = suc db.queries }))
    → Post Q E (query faults statement db)
query-Post Q E faults statement db failed done = elim (Bool-cases (faults db.queries)) [
  | inl e ↦ rw e failed
  | inr e ↦ rw e done
]
