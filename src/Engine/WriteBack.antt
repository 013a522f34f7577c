-- ===== src/Engine/WriteBack.antt =====
-- The nodes of the database during a pass of internal/scheduler/engine.go: what leaves them alone, and the
-- write of what is available on one of them.
use gpu_cluster_scheduler.Common.{
  String, str_eq, Option-cases, true, inl, inr, List, All, ◌≡◌, refl,
}
use gpu_cluster_scheduler.Models.{JobStatus, Node, Time, SchedulingEvent}
use gpu_cluster_scheduler.Models.Capacity.{IsWithin}
use gpu_cluster_scheduler.Store.Database.{Database, Faults, find_where, node_key}
use gpu_cluster_scheduler.Store.Jobs
use gpu_cluster_scheduler.Store.Nodes
use gpu_cluster_scheduler.Store.Events
use gpu_cluster_scheduler.Store.Keys.{All-update_where, query_ind}
use gpu_cluster_scheduler.Store.Soundness.{IsSound, asked-IsSound, nodes-IsSound}

-- Two structs of one node have the same capacity.
abbrev pub SameCapacity : Node → Node → Type 0
SameCapacity m n =
    str_eq (node_key n) m.node_id ≡ true
    → (n.gpu_capacity ≡ m.gpu_capacity)
      × (n.cpu_capacity ≡ m.cpu_capacity)
      × (n.memory_capacity ≡ m.memory_capacity)

abbrev pub Agrees : List Node → Node → Type 0
Agrees rows m = All (SameCapacity m) rows

-- The statements on jobs and events leave the nodes alone.
module _ (faults : Faults) where
  pub nodes-schedule :
      (id nid : String) (db : Database) → (Jobs.schedule faults id nid db).1.nodes ≡ db.nodes
  unfolding Jobs.schedule
  nodes-schedule id nid db =
      query_ind (λ d. d.nodes ≡ db.nodes) faults (Jobs.schedule_row id nid) db refl
        (elim (Option-cases (find_where node_key nid db.nodes)) [
          | inl e ↦ rw (e, Jobs.schedule_row)
          | inr (x, e) ↦ rw (e, Jobs.schedule_row)
        ])

  pub nodes-requeue :
      (id : String) (s : JobStatus) (db : Database)
      → (Jobs.requeue faults id s db).1.nodes ≡ db.nodes
  unfolding Jobs.requeue
  nodes-requeue id s db =
      query_ind (λ d. d.nodes ≡ db.nodes) faults (Jobs.update_job id (Jobs.set_requeued s)) db refl
        refl

  pub nodes-update_status :
      (now : Time) (id : String) (s : JobStatus) (db : Database)
      → (Jobs.update_status faults now id s db).1.nodes ≡ db.nodes
  unfolding Jobs.update_status
  nodes-update_status now id s db =
      query_ind (λ d. d.nodes ≡ db.nodes) faults (Jobs.update_job id (Jobs.set_status s now)) db
        refl refl

  pub nodes-record_event :
      (e : SchedulingEvent) (db : Database) → (Events.record_event faults e db).1.nodes ≡ db.nodes
  unfolding Events.record_event
  nodes-record_event e db =
      query_ind (λ d. d.nodes ≡ db.nodes) faults (Events.insert_event e) db refl refl

  -- Writing back what is available on a node in range.
  abbrev pub write_back : Node → Database → Database
  write_back n db =
      (Nodes.update_availability faults n.node_id n.gpu_available n.cpu_available n.memory_available
        db).1

  pub write_back-IsSound :
      (n : Node) (db : Database)
      → IsWithin n
      → Agrees db.nodes n
      → IsSound db
      → IsSound (write_back n db)
  unfolding Nodes.update_availability
  write_back-IsSound n db w a h =
      query_ind IsSound faults
        (Nodes.update_node n.node_id
          (Nodes.set_available n.gpu_available n.cpu_available n.memory_available))
        db (asked-IsSound h)
        (nodes-IsSound n.node_id
          (Nodes.set_available n.gpu_available n.cpu_available n.memory_available) (SameCapacity n)
          (λ r. refl)
          (λ r e p.
            let (g, c, m) = p.1 e in
            record { gpu = rw g w.gpu; cpu = rw c w.cpu; memory = rw m w.memory })
          a (asked-IsSound h))

  pub write_back-Agrees :
      (n m : Node) (db : Database) → Agrees db.nodes m → Agrees (write_back n db).nodes m
  unfolding Nodes.update_availability
  write_back-Agrees n m db a =
      query_ind (λ d. Agrees d.nodes m) faults
        (Nodes.update_node n.node_id
          (Nodes.set_available n.gpu_available n.cpu_available n.memory_available))
        db a (All-update_where node_key (SameCapacity m) n.node_id _ db.nodes (λ r e p. p) a)
