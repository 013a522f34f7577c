-- ===== src/Store/Queries.antt =====
-- What the queries of internal/store/jobs.go and internal/store/nodes.go answer.
use mathlib.Core.List.{Perm}
use gpu_cluster_scheduler.Common.{
  suc, take, pos, pos_part, ltb_ℤ, String, str_eq, Bool, Bool-cases, false, if◌then◌else◌, inl, inr,
  none, some, List, [], ◌∷◌, select, ◌≡◌, refl, arith,
}
use gpu_cluster_scheduler.Common.Sort.{
  IsOrdered, StrictWeak, sort_stable-perm, sort_stable-IsOrdered,
}
use gpu_cluster_scheduler.Models.{Job, JobStatus, Node, node_status_eq, down, Time, Duration}
use gpu_cluster_scheduler.Store.Database.{
  Database, Result, ok, err, query_failed, Faults, find_where, or_not_found, job_key,
}
use gpu_cluster_scheduler.Store.Jobs
use gpu_cluster_scheduler.Store.Nodes
use gpu_cluster_scheduler.Store.Keys.{find_where-update_where}

abbrev pub newer : Job → Job → Bool
newer a b = ltb_ℤ b.created_at a.created_at

newer-StrictWeak : StrictWeak newer
newer-StrictWeak = record {
  asym = λ a b h. ground arith;
  not_less_trans = λ a b c p q. ground arith;
}

-- The matching rows, the newest first, of which a positive limit keeps the first ones.
pub record Listing (f : Jobs.JobFilter) (db : Database) (js : List Job) : Type 0 where
  pub rows : List Job
  pub same : Perm rows (select (Jobs.matches f) db.jobs)
  pub newest : IsOrdered newer rows
  pub cut : js ≡ (if ltb_ℤ (pos 0) f.limit then take (pos_part f.limit) rows else rows)

abbrev pub Answers : {A : Type 0} → (A → Type 0) → Result A → Type 0
Answers P (ok a) = P a
Answers P (err e) = e ≡ query_failed

module _ (faults : Faults) where
  -- Listing jobs changes no table, and answers with exactly the rows that the filter matches, newest
  -- first and cut at a positive limit, or with the failure of the query.
  pub list-Listing :
      (f : Jobs.JobFilter) (db : Database)
      → Answers (Listing f db) (Jobs.list faults f db).0
        × ((Jobs.list faults f db).1 ≡ record db { queries = suc db.queries })
  unfolding Jobs.list
  list-Listing f db = elim (Bool-cases (faults db.queries)) [
    | inl e ↦ rw e (refl, refl)
    | inr e ↦ rw e (
      record {
        rows = Jobs.newest_first (select (Jobs.matches f) db.jobs);
        same = sort_stable-perm _ (select (Jobs.matches f) db.jobs);
        newest = sort_stable-IsOrdered newer newer-StrictWeak (select (Jobs.matches f) db.jobs);
        cut = refl;
      },
      refl,
    )
  ]

  -- A read after a change of status sees it: the job itself with its new status and stamps, every
  -- other job as it was, and a job that is not there is still missing; where neither query fails.
  pub get-update_status :
      (now : Time) (id t : String) (s : JobStatus) (db : Database)
      → faults db.queries ≡ false
      → faults (suc db.queries) ≡ false
      → (Jobs.get faults t (Jobs.update_status faults now id s db).1).0
        ≡ or_not_found (
            if str_eq id t
            then elim (find_where job_key t db.jobs) [
              | none ↦ none
              | some j ↦ some (Jobs.set_status s now j)
            ]
            else find_where job_key t db.jobs)
  unfolding Jobs.get Jobs.update_status
  get-update_status now id t s db e e' =
      rw (e, e', find_where-update_where job_key id t (Jobs.set_status s now) db.jobs (λ j. refl))
        refl

down_is_fresh :
    (now : Time) (ttl : Duration) (n : Node)
    → Nodes.is_stale now ttl (record n { status = down }) ≡ false
unfolding Nodes.is_stale node_status_eq
down_is_fresh now ttl n = refl

-- Everything stale is down, so nothing is stale a second time.
settled :
    (now : Time) (ttl : Duration) (n : Node)
    → Nodes.is_stale now ttl (if Nodes.is_stale now ttl n then record n { status = down } else n)
      ≡ false
settled now ttl n = elim (Bool-cases (Nodes.is_stale now ttl n)) [
  | inl e ↦ rw e (down_is_fresh now ttl n)
  | inr e ↦ rw e e
]

swept :
    (now : Time) (ttl : Duration) (ns : List Node)
    → select (Nodes.is_stale now ttl) (Nodes.take_down now ttl ns) ≡ []
unfolding Nodes.take_down
swept now ttl [] = refl
swept now ttl (n ∷ ns) = rw (settled now ttl n) (swept now ttl ns)

still :
    (now : Time) (ttl : Duration) (ns : List Node)
    → Nodes.take_down now ttl (Nodes.take_down now ttl ns) ≡ Nodes.take_down now ttl ns
unfolding Nodes.take_down
still now ttl [] = refl
still now ttl (n ∷ ns) = rw (settled now ttl n, still now ttl ns) refl

module _ (faults : Faults) where
  -- A second sweep at the same time reports no node and changes no row, where no query fails: every
  -- dead node is reported once.
  pub mark_stale_down_twice :
      (now : Time) (ttl : Duration) (db : Database)
      → faults db.queries ≡ false
      → faults (suc db.queries) ≡ false
      → let first = (Nodes.mark_stale_down faults now ttl db).1 in
        let second = Nodes.mark_stale_down faults now ttl first in
        (second.0 ≡ ok []) × (second.1.nodes ≡ first.nodes)
  unfolding Nodes.mark_stale_down
  mark_stale_down_twice now ttl db e e' =
      rw (e, e', swept now ttl db.nodes, still now ttl db.nodes) (refl, refl)
