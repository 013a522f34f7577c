-- ===== src/Store/Nodes.antt =====
-- internal/store/nodes.go. The `now()` of the database is an argument.
use Prim.Native.String.{compare}
use text.Mathlib.Text.{is_lt}
use gpu_cluster_scheduler.Common.{
  ℤ, ◌-ℤ◌, ltb_ℤ, String, Bool, not, ◌&&◌, if◌then◌else◌, none, some, List, [], ◌∷◌, ◌++◌, map,
  select,
}
use gpu_cluster_scheduler.Common.Sort.{sort_stable}
use gpu_cluster_scheduler.Models.{Node, NodeStatus, ready, down, node_status_eq, Time, Duration}
use gpu_cluster_scheduler.Store.Database.{
  Database, Result, ok, err, not_found, Faults, Store, query, update_where, find_where,
  or_not_found, node_key,
}

-- `ON CONFLICT (node_id) DO UPDATE`: the status and what is available stay.
unfoldable pub merge_registration : Node → Time → Node → Node
merge_registration n now old = record old {
  hostname = n.hostname;
  gpu_capacity = n.gpu_capacity;
  cpu_capacity = n.cpu_capacity;
  memory_capacity = n.memory_capacity;
  gpu_model = n.gpu_model;
  spot = n.spot;
  last_heartbeat = now;
}

unfoldable pub upsert_row : Node → Time → List Node → List Node
unfolding merge_registration
upsert_row n now nodes = elim (find_where node_key n.node_id nodes) [
  | none ↦ nodes ++ record n { last_heartbeat = now; registered_at = now } ∷ []
  | some _ ↦ update_where node_key n.node_id (merge_registration n now) nodes
]

unfoldable pub set_available : ℤ → ℤ → ℤ → Node → Node
set_available gpu cpu mem n = record n {
  gpu_available = gpu;
  cpu_available = cpu;
  memory_available = mem;
}

unfoldable pub beat : Time → Node → Node
unfolding node_status_eq
beat now n = record n {
  last_heartbeat = now;
  status = if node_status_eq n.status down then ready else n.status;
}

-- The WHERE clause of `MarkStaleDown`.
unfoldable pub is_stale : Time → Duration → Node → Bool
unfolding node_status_eq
is_stale now ttl n = not (node_status_eq n.status down) && ltb_ℤ n.last_heartbeat (now -ℤ ttl)

unfoldable pub take_down : Time → Duration → List Node → List Node
unfolding is_stale
take_down now ttl [] = []
take_down now ttl (n ∷ ns) =
    (if is_stale now ttl n then record n { status = down } else n) ∷ take_down now ttl ns

-- The statements, as functions on the tables.
abbrev pub update_node : String → (Node → Node) → Database → Result (Unit {0}) × Database
update_node id f db = (ok tt, record db { nodes = update_where node_key id f db.nodes })

abbrev pub beat_row : Time → String → Database → Result (Unit {0}) × Database
beat_row now id db = elim (find_where node_key id db.nodes) [
  | none ↦ (err not_found, db)
  | some _ ↦ update_node id (beat now) db
]

abbrev pub take_down_rows : Time → Duration → Database → Result (List String) × Database
take_down_rows now ttl db = (
  ok (map node_key (select (is_stale now ttl) db.nodes)),
  record db { nodes = take_down now ttl db.nodes },
)

abbrev pub by_hostname : List Node → List Node
by_hostname nodes = sort_stable (λ a b. is_lt (compare a.hostname b.hostname)) nodes

module _ (faults : Faults) where
  unfoldable pub upsert : Time → Node → Store Unit
  unfolding upsert_row
  upsert now n = query faults λ db. (ok tt, record db { nodes = upsert_row n now db.nodes })

  unfoldable pub get : String → Store Node
  get id = query faults λ db. (or_not_found (find_where node_key id db.nodes), db)

  unfoldable pub list : Store (List Node)
  unfolding sort_stable
  list = query faults λ db. (ok (by_hostname db.nodes), db)

  unfoldable pub update_availability : String → ℤ → ℤ → ℤ → Store Unit
  unfolding set_available
  update_availability id gpu cpu mem = query faults (update_node id (set_available gpu cpu mem))

  unfoldable pub heartbeat : Time → String → Store Unit
  unfolding beat
  heartbeat now id = query faults (beat_row now id)

  unfoldable pub set_status : String → NodeStatus → Store Unit
  set_status id status = query faults (update_node id (λ n. record n { status = status }))

  unfoldable pub mark_stale_down : Time → Duration → Store (List String)
  unfolding take_down
  mark_stale_down now ttl = query faults (take_down_rows now ttl)
