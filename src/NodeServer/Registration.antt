-- ===== src/NodeServer/Registration.antt =====
-- Register of internal/grpc/server.go keeps the tables sound.
use gpu_cluster_scheduler.Common.{
  suc, pos, ◌≤ℤ◌, str_eq, true, Option, none, some, [], ◌∷◌, All, All-append, ◌≡◌, refl, arith,
}
use gpu_cluster_scheduler.Models.{Time, Node}
use gpu_cluster_scheduler.Models.Capacity.{IsWithin}
use gpu_cluster_scheduler.Store.Database.{Database, ok, Faults, find_where, node_key}
use gpu_cluster_scheduler.Store.Nodes
use gpu_cluster_scheduler.Store.Keys.{IsUnique-insert, query_ind}
use gpu_cluster_scheduler.Store.Soundness.{IsSound, asked-IsSound, nodes-IsSound}
use gpu_cluster_scheduler.NodeServer.Handlers.{RegisterRequest, registered_node, register}
use gpu_cluster_scheduler.NodeServer.Soundness.{reply-IsSound}

-- No row of this node has more available than the registered capacity.
abbrev Shrinks : RegisterRequest → Node → Type 0
Shrinks req n =
    str_eq (node_key n) req.node_id ≡ true
    → (n.gpu_available ≤ℤ req.gpu)
      × (n.cpu_available ≤ℤ req.cpu)
      × (n.memory_available ≤ℤ req.memory_gb)

pub record IsAllowed (req : RegisterRequest) (db : Database) : Type 0 where
  pub gpu : pos 0 ≤ℤ req.gpu
  pub cpu : pos 0 ≤ℤ req.cpu
  pub memory : pos 0 ≤ℤ req.memory_gb
  pub rows : All (Shrinks req) db.nodes

module _ (faults : Faults) where
  upsert-IsSound :
      (now : Time) (req : RegisterRequest) (d : Database) (found : Option Node)
      → find_where node_key req.node_id d.nodes ≡ found
      → IsAllowed req d
      → IsSound d
      → IsSound (record d { nodes = Nodes.upsert_row (registered_node req now) now d.nodes })
  unfolding Nodes.upsert_row registered_node
  upsert-IsSound now req d none e a h =
      rw (e, Nodes.upsert_row)
        (record {
          job_keys = h.job_keys;
          node_keys = IsUnique-insert node_key d.nodes (registered_node req now) e h.node_keys;
          within = All-append IsWithin d.nodes (registered_node req now ∷ []) h.within (
            record {
              gpu = omega (arith, a.gpu);
              cpu = omega (arith, a.cpu);
              memory = omega (arith, a.memory);
            },
            tt,
          );
          nonneg = h.nonneg;
        })
  upsert-IsSound now req d (some n) e a h =
      rw (e, Nodes.upsert_row)
        (nodes-IsSound req.node_id (Nodes.merge_registration (registered_node req now) now)
          (Shrinks req) (λ n. refl)
          (λ n c p.
            let (g, q, m) = p.1 c in
            record { gpu = (p.0.gpu.0, g); cpu = (p.0.cpu.0, q); memory = (p.0.memory.0, m) })
          a.rows h)

  -- A registration keeps the tables sound if its capacity is not negative and, where it replaces an earlier
  -- one, not below what the node's row has available.
  pub register-IsSound :
      (now : Time) (req : RegisterRequest) (db : Database)
      → IsAllowed req db
      → IsSound db
      → IsSound (register faults now req db).1
  unfolding register Nodes.upsert
  register-IsSound now req db a h =
      reply-IsSound faults (Nodes.upsert faults now (registered_node req now) db) (
        query_ind IsSound faults
          (λ d.
            (ok tt, record d { nodes = Nodes.upsert_row (registered_node req now) now d.nodes }))
          db (asked-IsSound h)
          (upsert-IsSound now req (record db { queries = suc db.queries })
            (find_where node_key req.node_id db.nodes) refl
            (record { gpu = a.gpu; cpu = a.cpu; memory = a.memory; rows = a.rows })
            (asked-IsSound h)))
