-- ===== src/NodeServer/Transitions.antt =====
-- What a job's report to internal/grpc/server.go does to the job and to its node.
use gpu_cluster_scheduler.Common.{
  suc, String, str_eq, str_eq_iff, str_eq_refl, false, ◌⊎◌, some, List, ◌≡◌, refl, sym, subst,
  arith,
}
use gpu_cluster_scheduler.Models.{
  Job, JobStatus, completed, failed, Time, resource_request, Node, release,
}
use gpu_cluster_scheduler.Store.Database.{
  Database, ok, no_faults, find_where, update_where, job_key, node_key,
}
use gpu_cluster_scheduler.Store.Jobs
use gpu_cluster_scheduler.Store.Nodes
use gpu_cluster_scheduler.Store.Keys.{find_where-update_where, find_where-key}
use gpu_cluster_scheduler.NodeServer.Handlers.{
  Reply, answer, parse_status, release_on, release_job, release_and_finalize, apply_transition,
  transition_found, update_job_status,
}

-- A report that ends a job.
abbrev pub Ends : JobStatus → Type 0
Ends s = (s ≡ completed) ⊎ (s ≡ failed)

released-set_available :
    (j : Job) (n : Node)
    → (let m = release n (resource_request j) in
        Nodes.set_available m.gpu_available m.cpu_available m.memory_available n)
      ≡ release n (resource_request j)
unfolding release Nodes.set_available
released-set_available j n = refl

pub hit :
    {A : Type 0} (key : A → String) (j k : String) (f : A → A) (xs : List A) {x : A}
    → ((x : A) → key (f x) ≡ key x)
    → j ≡ k
    → find_where key k xs ≡ some x
    → find_where key k (update_where key j f xs) ≡ some (f x)
hit key j k f xs {x} keep same e =
    subst (λ i. find_where key k (update_where key i f xs) ≡ some (f x)) (sym same)
      (rw (find_where-update_where key k k f xs keep, str_eq_refl k, e) refl)

-- The job and its node, as the tables have them.
pub record Holding (id : String) (j : Job) (n : Node) (db : Database) : Type 0 where
  pub job : find_where job_key id db.jobs ≡ some j
  pub node : find_where node_key j.node_id db.nodes ≡ some n
  pub placed : str_eq j.node_id "" ≡ false

release_job-finds :
    (id : String) (j : Job) (n : Node) (db : Database)
    → Holding id j n db
    → ((release_job no_faults j db).jobs ≡ db.jobs)
      × (find_where node_key j.node_id (release_job no_faults j db).nodes
          ≡ some (release n (resource_request j)))
unfolding release_job release_on Nodes.get Nodes.update_availability release
release_job-finds id j n db h =
    let m = release n (resource_request j) in
    let key : n.node_id ≡ j.node_id =
      (str_eq_iff n.node_id j.node_id).0 (find_where-key node_key j.node_id db.nodes h.node) in
    rw (h.placed, h.node)
      (
        refl,
        hit node_key n.node_id j.node_id
            (Nodes.set_available m.gpu_available m.cpu_available m.memory_available) db.nodes
            (λ x. refl) key h.node,
      )

finalize-finds :
    (now : Time) (id : String) (j : Job) (n : Node) (s : JobStatus) (db : Database)
    → Holding id j n db
    → ((release_and_finalize no_faults now j s db).0 ≡ ok tt)
      × (find_where job_key id (release_and_finalize no_faults now j s db).1.jobs
          ≡ some (Jobs.set_status s now j))
      × (find_where node_key j.node_id (release_and_finalize no_faults now j s db).1.nodes
          ≡ some (release n (resource_request j)))
unfolding release_and_finalize Jobs.update_status
finalize-finds now id j n s db h =
    let freed = release_job-finds id j n db h in
    let key : j.job_id ≡ id =
      (str_eq_iff j.job_id id).0 (find_where-key job_key id db.jobs h.job) in
    (
      refl,
      rw freed.0 (hit job_key j.job_id id (Jobs.set_status s now) db.jobs (λ x. refl) key h.job),
      freed.1,
    )

unfoldable pub Ended : Time → String → JobStatus → Job → Node → Reply (Unit {0}) × Database → Type 0
Ended now id s j n r =
    (r.0 ≡ answer tt)
    × (find_where job_key id r.1.jobs ≡ some (Jobs.set_status s now j))
    × (find_where node_key j.node_id r.1.nodes ≡ some (release n (resource_request j)))

apply-Ended :
    (now : Time) (id text : String) (s : JobStatus) (j : Job) (n : Node) (db : Database)
    → Ends s
    → Holding id j n db
    → Ended now id s j n (apply_transition no_faults now j text (some s) db)
unfolding Ended apply_transition
apply-Ended now id text completed j n db e h =
    let after = finalize-finds now id j n completed db h in (refl, after.1, after.2)
apply-Ended now id text failed j n db e h =
    let after = finalize-finds now id j n failed db h in (refl, after.1, after.2)
apply-Ended now id text s j n db e h = absurd (ground arith)

-- A report that a placed job completed or failed is acknowledged, gives the job that status and its
-- stamp, and gives its node back what the job asked for, capped at the capacity, where no query fails
-- and both rows are there; whatever status the job had.
pub update_job_status-Ends :
    (now : Time) (id text : String) (s : JobStatus) (j : Job) (n : Node) (db : Database)
    → Ends s
    → parse_status text ≡ some s
    → Holding id j n db
    → Ended now id s j n (update_job_status no_faults now id text db)
unfolding update_job_status transition_found Jobs.get
update_job_status-Ends now id text s j n db e parsed h =
    rw (h.job, parsed)
      (apply-Ended now id text s j n (record db { queries = suc db.queries }) e
        (record { job = h.job; node = h.node; placed = h.placed }))

-- Reports are not checked against the status of the job: when the same end is reported twice, and no
-- query fails, the node is given the resources of the job twice, up to its capacity, where both rows
-- are there.
pub update_job_status-twice :
    (now later : Time) (id text : String) (s : JobStatus) (j : Job) (n : Node) (db : Database)
    → Ends s
    → parse_status text ≡ some s
    → Holding id j n db
    → let once = (update_job_status no_faults now id text db).1 in
      find_where node_key j.node_id (update_job_status no_faults later id text once).1.nodes
      ≡ some (release (release n (resource_request j)) (resource_request j))
unfolding Ended Jobs.set_status resource_request
update_job_status-twice now later id text s j n db e parsed h =
    let first = update_job_status-Ends now id text s j n db e parsed h in
    (update_job_status-Ends later id text s (Jobs.set_status s now j)
      (release n (resource_request j)) (update_job_status no_faults now id text db).1 e parsed
      (record { job = first.1; node = first.2; placed = h.placed })).2
