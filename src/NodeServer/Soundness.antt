-- ===== src/NodeServer/Soundness.antt =====
-- The handlers of internal/grpc/server.go keep the tables sound, whatever queries fail.
use gpu_cluster_scheduler.Common.{
  suc, String, str_eq, Bool-cases, inl, inr, Option, none, some, List, ◌≡◌, refl, sym, subst, arith,
}
use gpu_cluster_scheduler.Models.{
  Job, JobStatus, running, completed, failed, Time, resource_request, Node, release,
}
use gpu_cluster_scheduler.Models.Capacity.{IsWithin, release-IsWithin}
use gpu_cluster_scheduler.Store.Database.{
  Database, Result, not_found, query_failed, ok, err, Faults, find_where, or_not_found, job_key,
  node_key,
}
use gpu_cluster_scheduler.Store.Jobs
use gpu_cluster_scheduler.Store.Nodes
use gpu_cluster_scheduler.Store.Keys.{All-find_where}
use gpu_cluster_scheduler.Store.Post.{Post, PostOf, query-Post}
use gpu_cluster_scheduler.Store.Soundness.{
  IsSound, IsNonnegJob, asked-IsSound, update_status-IsSound, heartbeat-IsSound,
}
use gpu_cluster_scheduler.Engine.WriteBack.{Agrees, write_back-IsSound}
use gpu_cluster_scheduler.Engine.Agreement.{IsUnique→Agrees}
use gpu_cluster_scheduler.NodeServer.Handlers.{
  reply, desired_status, heartbeat_reply, heartbeat, release_on, release_job, release_and_finalize,
  apply_transition, transition_found, update_job_status,
}

-- A node that was read, with sound tables that agree with it.
abbrev Read : Node → Database → Type 0
Read n d = IsSound d × IsWithin n × Agrees d.nodes n

module _ (faults : Faults) where
  found_node-Post :
      (id : String) (rows : List Node) (d : Database) (found : Option Node)
      → find_where node_key id d.nodes ≡ found
      → IsSound d
      → PostOf Read IsSound (or_not_found found) d
  found_node-Post id rows d none e h = h
  found_node-Post id rows d (some n) e h = (
    h,
    All-find_where node_key IsWithin id d.nodes h.within e,
    All-find_where node_key (Agrees d.nodes) id d.nodes (IsUnique→Agrees d.nodes h.node_keys) e,
  )

  nodes_get-Post :
      (id : String) (db : Database) → IsSound db → Post Read IsSound (Nodes.get faults id db)
  unfolding Nodes.get
  nodes_get-Post id db h =
      query-Post Read IsSound faults (λ d. (or_not_found (find_where node_key id d.nodes), d)) db
        (asked-IsSound h)
        (found_node-Post id db.nodes (record db { queries = suc db.queries })
          (find_where node_key id db.nodes) refl (asked-IsSound h))

  found_job-Post :
      (id : String) (d : Database) (found : Option Job)
      → find_where job_key id d.jobs ≡ found
      → IsSound d
      → PostOf (λ j e. IsNonnegJob j × IsSound e) IsSound (or_not_found found) d
  found_job-Post id d none e h = h
  found_job-Post id d (some j) e h = (All-find_where job_key IsNonnegJob id d.jobs h.nonneg e, h)

  pub jobs_get-Post :
      (id : String) (db : Database)
      → IsSound db
      → Post (λ j e. IsNonnegJob j × IsSound e) IsSound (Jobs.get faults id db)
  unfolding Jobs.get
  jobs_get-Post id db h =
      query-Post (λ j e. IsNonnegJob j × IsSound e) IsSound faults
        (λ d. (or_not_found (find_where job_key id d.jobs), d)) db (asked-IsSound h)
        (found_job-Post id (record db { queries = suc db.queries }) (find_where job_key id db.jobs)
          refl (asked-IsSound h))

  release_on-IsSound :
      (j : Job) (r : Result Node) (d : Database)
      → IsNonnegJob j
      → PostOf Read IsSound r d
      → IsSound (release_on faults j r d)
  unfolding release_on
  release_on-IsSound j (ok n) d p h =
      write_back-IsSound faults (release n (resource_request j)) d
        (release-IsWithin n (resource_request j) h.1 p) (unfold release in h.2) h.0
  release_on-IsSound j (err e) d p h = h

  pub release_job-IsSound :
      (j : Job) (db : Database) → IsNonnegJob j → IsSound db → IsSound (release_job faults j db)
  unfolding release_job
  release_job-IsSound j db p h = elim (Bool-cases (str_eq j.node_id "")) [
    | inl e ↦ rw e h
    | inr e ↦ rw e (
        release_on-IsSound j (Nodes.get faults j.node_id db).0 (Nodes.get faults j.node_id db).1 p
          (nodes_get-Post j.node_id db h))
  ]

  pub reply-IsSound : {A : Type 0} (r : Result A × Database) → IsSound r.1 → IsSound (reply r).1
  reply-IsSound (ok a, db) h = h
  reply-IsSound (err e, db) h = h

  finalize-IsSound :
      (now : Time) (j : Job) (s : JobStatus) (db : Database)
      → IsNonnegJob j
      → IsSound db
      → IsSound (release_and_finalize faults now j s db).1
  unfolding release_and_finalize
  finalize-IsSound now j s db p h =
      update_status-IsSound faults now j.job_id s _ (release_job-IsSound j db p h)

  apply_transition-IsSound :
      (now : Time) (j : Job) (text : String) (s : Option JobStatus) (db : Database)
      → IsNonnegJob j
      → IsSound db
      → IsSound (apply_transition faults now j text s db).1
  unfolding apply_transition
  apply_transition-IsSound now j text (some running) db p h =
      reply-IsSound (Jobs.update_status faults now j.job_id running db)
        (update_status-IsSound faults now j.job_id running db h)
  apply_transition-IsSound now j text (some completed) db p h =
      reply-IsSound (release_and_finalize faults now j completed db)
        (finalize-IsSound now j completed db p h)
  apply_transition-IsSound now j text (some failed) db p h =
      reply-IsSound (release_and_finalize faults now j failed db)
        (finalize-IsSound now j failed db p h)
  apply_transition-IsSound now j text _ db p h = h

  transition_found-IsSound :
      (now : Time) (text : String) (r : Result Job) (d : Database)
      → PostOf (λ j e. IsNonnegJob j × IsSound e) IsSound r d
      → IsSound (transition_found faults now text r d).1
  unfolding transition_found
  transition_found-IsSound now text (ok j) d h = apply_transition-IsSound now j text _ d h.0 h.1
  transition_found-IsSound now text (err e) d h = h

  -- A status report keeps the tables sound, whatever status it names and whatever queries fail.
  pub update_job_status-IsSound :
      (now : Time) (id text : String) (db : Database)
      → IsSound db
      → IsSound (update_job_status faults now id text db).1
  unfolding update_job_status
  update_job_status-IsSound now id text db h =
      transition_found-IsSound now text (Jobs.get faults id db).0 (Jobs.get faults id db).1
        (jobs_get-Post id db h)

  desired-IsSound :
      (id : String) (db : Database) → IsSound db → IsSound (desired_status faults id db).1
  unfolding desired_status Nodes.get
  desired-IsSound id db h =
      let same : (desired_status faults id db).1 ≡ record db { queries = suc db.queries } =
        ground arith in
      subst IsSound (sym same) (asked-IsSound h)

  heartbeat_reply-IsSound :
      (id : String) (r : Result (Unit {0})) (db : Database)
      → IsSound db
      → IsSound (heartbeat_reply faults id r db).1
  unfolding heartbeat_reply
  heartbeat_reply-IsSound id (ok x) db h = desired-IsSound id db h
  heartbeat_reply-IsSound id (err not_found) db h = h
  heartbeat_reply-IsSound id (err query_failed) db h = h

  pub beat-IsSound :
      (now : Time) (id : String) (db : Database)
      → IsSound db
      → IsSound (heartbeat faults now id db).1
  unfolding heartbeat
  beat-IsSound now id db h = heartbeat_reply-IsSound id _ _ (heartbeat-IsSound faults now id db h)
