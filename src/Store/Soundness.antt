-- ===== src/Store/Soundness.antt =====
-- The invariant of the tables, and the statements of internal/store that keep it.
use gpu_cluster_scheduler.Common.{
  suc, String, str_eq, Bool-cases, Option-cases, true, inl, inr, List, [], ◌∷◌, map, All,
  All-append, ◌≡◌, refl, sym, subst,
}
use gpu_cluster_scheduler.Models.{
  Job, JobStatus, resource_request, Node, NodeStatus, Time, Duration, down, SchedulingEvent,
}
use gpu_cluster_scheduler.Models.Capacity.{IsWithin, IsNonneg}
use gpu_cluster_scheduler.Store.Database.{
  Database, Faults, update_where, find_where, job_key, node_key,
}
use gpu_cluster_scheduler.Store.Jobs
use gpu_cluster_scheduler.Store.Nodes
use gpu_cluster_scheduler.Store.Events
use gpu_cluster_scheduler.Store.Keys.{
  IsUnique, map-update_where, All-update_where, IsUnique-insert, query_ind,
}

-- Keys are primary, each node's free part lies within its capacity, and no job asks for a negative amount.
pub record IsSound (db : Database) : Type 0 where
  pub job_keys : IsUnique (map job_key db.jobs)
  pub node_keys : IsUnique (map node_key db.nodes)
  pub within : All IsWithin db.nodes
  pub nonneg : All (λ j. IsNonneg (resource_request j)) db.jobs

abbrev pub IsNonnegJob : Job → Type 0
IsNonnegJob j = IsNonneg (resource_request j)

pub asked-IsSound : {db : Database} → IsSound db → IsSound (record db { queries = suc db.queries })
asked-IsSound h = record {
  job_keys = h.job_keys;
  node_keys = h.node_keys;
  within = h.within;
  nonneg = h.nonneg;
}

-- An update of one job that keeps its key and what it asks for.
pub jobs-IsSound :
    (id : String) (f : Job → Job) {db : Database}
    → ((j : Job) → (job_key (f j) ≡ job_key j) × (resource_request (f j) ≡ resource_request j))
    → IsSound db
    → IsSound (record db { jobs = update_where job_key id f db.jobs })
jobs-IsSound id f {db} keep h = record {
  job_keys =
      subst IsUnique (sym (map-update_where job_key id f db.jobs (λ j. (keep j).0))) h.job_keys;
  node_keys = h.node_keys;
  within = h.within;
  nonneg =
      All-update_where job_key IsNonnegJob id f db.jobs (λ j _ p. subst IsNonneg (sym (keep j).1) p)
        h.nonneg;
}

-- An update of one node that keeps its key, and keeps it in range.
pub nodes-IsSound :
    (id : String) (f : Node → Node) {db : Database} (Fit : Node → Type 0)
    → ((n : Node) → node_key (f n) ≡ node_key n)
    → ((n : Node) → str_eq (node_key n) id ≡ true → IsWithin n × Fit n → IsWithin (f n))
    → All Fit db.nodes
    → IsSound db
    → IsSound (record db { nodes = update_where node_key id f db.nodes })
nodes-IsSound id f {db} Fit keep step fit h = record {
  job_keys = h.job_keys;
  node_keys = subst IsUnique (sym (map-update_where node_key id f db.nodes keep)) h.node_keys;
  within = within_all db.nodes h.within fit;
  nonneg = h.nonneg;
}
  where
    within_all :
        (ns : List Node)
        → All IsWithin ns
        → All Fit ns
        → All IsWithin (update_where node_key id f ns)
    within_all [] w g = tt
    within_all (n ∷ ns) w g = elim (Bool-cases (str_eq (node_key n) id)) [
      | inl e ↦ rw e (step n e (w.0, g.0), within_all ns w.1 g.1)
      | inr e ↦ rw e (w.0, within_all ns w.1 g.1)
    ]

module _ (faults : Faults) where
  pub create-IsSound :
      (j : Job) (db : Database) → IsNonnegJob j → IsSound db → IsSound (Jobs.create faults j db).1
  unfolding Jobs.create
  create-IsSound j db p h =
      query_ind IsSound faults (Jobs.insert_row j) db (asked-IsSound h)
        (elim (Option-cases (find_where job_key j.job_id db.jobs)) [
          | inl e ↦
              rw (e, Jobs.insert_row)
                (record {
                  job_keys = IsUnique-insert job_key db.jobs j e h.job_keys;
                  node_keys = h.node_keys;
                  within = h.within;
                  nonneg = All-append IsNonnegJob db.jobs (j ∷ []) h.nonneg (p, tt);
                })
          | inr (x, e) ↦ rw (e, Jobs.insert_row) (asked-IsSound h)
        ])

  pub update_status-IsSound :
      (now : Time) (id : String) (s : JobStatus) (db : Database)
      → IsSound db
      → IsSound (Jobs.update_status faults now id s db).1
  unfolding Jobs.update_status resource_request
  update_status-IsSound now id s db h =
      query_ind IsSound faults (Jobs.update_job id (Jobs.set_status s now)) db (asked-IsSound h)
        (jobs-IsSound id (Jobs.set_status s now) (λ j. (refl, refl)) (asked-IsSound h))

  pub requeue-IsSound :
      (id : String) (s : JobStatus) (db : Database)
      → IsSound db
      → IsSound (Jobs.requeue faults id s db).1
  unfolding Jobs.requeue resource_request
  requeue-IsSound id s db h =
      query_ind IsSound faults (Jobs.update_job id (Jobs.set_requeued s)) db (asked-IsSound h)
        (jobs-IsSound id (Jobs.set_requeued s) (λ j. (refl, refl)) (asked-IsSound h))

  pub schedule-IsSound :
      (id node_id : String) (db : Database)
      → IsSound db
      → IsSound (Jobs.schedule faults id node_id db).1
  unfolding Jobs.schedule resource_request
  schedule-IsSound id node_id db h =
      query_ind IsSound faults (Jobs.schedule_row id node_id) db (asked-IsSound h)
        (elim (Option-cases (find_where node_key node_id db.nodes)) [
          | inl e ↦ rw (e, Jobs.schedule_row) (asked-IsSound h)
          | inr (x, e) ↦
              rw (e, Jobs.schedule_row)
                (jobs-IsSound id (Jobs.set_scheduled node_id) (λ j. (refl, refl)) (asked-IsSound h))
        ])

  pub record_event-IsSound :
      (e : SchedulingEvent) (db : Database)
      → IsSound db
      → IsSound (Events.record_event faults e db).1
  unfolding Events.record_event
  record_event-IsSound e db h =
      query_ind IsSound faults (Events.insert_event e) db (asked-IsSound h) (record {
        job_keys = h.job_keys;
        node_keys = h.node_keys;
        within = h.within;
        nonneg = h.nonneg;
      })

  status_only :
      (f : Node → NodeStatus) (n : Node) → IsWithin n → IsWithin (record n { status = f n })
  status_only f n w = record { gpu = w.gpu; cpu = w.cpu; memory = w.memory }

  pub set_status-IsSound :
      (id : String) (s : NodeStatus) (db : Database)
      → IsSound db
      → IsSound (Nodes.set_status faults id s db).1
  unfolding Nodes.set_status
  set_status-IsSound id s db h =
      query_ind IsSound faults (Nodes.update_node id (λ n. record n { status = s })) db
        (asked-IsSound h)
        (nodes-IsSound id (λ n. record n { status = s }) IsWithin (λ n. refl)
          (λ n _ w. status_only (λ _. s) n w.0) h.within (asked-IsSound h))

  pub heartbeat-IsSound :
      (now : Time) (id : String) (db : Database)
      → IsSound db
      → IsSound (Nodes.heartbeat faults now id db).1
  unfolding Nodes.heartbeat
  heartbeat-IsSound now id db h =
      query_ind IsSound faults (Nodes.beat_row now id) db (asked-IsSound h)
        (elim (Option-cases (find_where node_key id db.nodes)) [
          | inl e ↦ rw (e, Nodes.beat_row) (asked-IsSound h)
          | inr (x, e) ↦
              rw (e, Nodes.beat_row)
                (nodes-IsSound id (Nodes.beat now) IsWithin (λ n. refl)
                  (λ n _ w. record { gpu = w.0.gpu; cpu = w.0.cpu; memory = w.0.memory }) h.within
                  (asked-IsSound h))
        ])

  map-take_down :
      (now : Time) (ttl : Duration) (ns : List Node)
      → map node_key (Nodes.take_down now ttl ns) ≡ map node_key ns
  unfolding Nodes.take_down
  map-take_down now ttl [] = refl
  map-take_down now ttl (n ∷ ns) = elim (Bool-cases (Nodes.is_stale now ttl n)) [
    | inl e ↦ rw (e, map-take_down now ttl ns)
    | inr e ↦ rw (e, map-take_down now ttl ns)
  ]

  take_down-IsWithin :
      (now : Time) (ttl : Duration) (ns : List Node)
      → All IsWithin ns
      → All IsWithin (Nodes.take_down now ttl ns)
  unfolding Nodes.take_down
  take_down-IsWithin now ttl [] w = tt
  take_down-IsWithin now ttl (n ∷ ns) w = elim (Bool-cases (Nodes.is_stale now ttl n)) [
    | inl e ↦ rw e (status_only (λ _. down) n w.0, take_down-IsWithin now ttl ns w.1)
    | inr e ↦ rw e (w.0, take_down-IsWithin now ttl ns w.1)
  ]

  pub mark_stale_down-IsSound :
      (now : Time) (ttl : Duration) (db : Database)
      → IsSound db
      → IsSound (Nodes.mark_stale_down faults now ttl db).1
  unfolding Nodes.mark_stale_down
  mark_stale_down-IsSound now ttl db h =
      query_ind IsSound faults (Nodes.take_down_rows now ttl) db (asked-IsSound h) (record {
        job_keys = h.job_keys;
        node_keys = subst IsUnique (sym (map-take_down now ttl db.nodes)) h.node_keys;
        within = take_down-IsWithin now ttl db.nodes h.within;
        nonneg = h.nonneg;
      })
