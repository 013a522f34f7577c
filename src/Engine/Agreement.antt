-- ===== src/Engine/Agreement.antt =====
-- The structs of a pass and the rows of internal/store with unique keys: they agree.
use gpu_cluster_scheduler.Common.{
  str_eq, str_eq_iff, false, List, [], ◌∷◌, map, All, ◌≡◌, refl, arith,
}
use gpu_cluster_scheduler.Models.{Node}
use gpu_cluster_scheduler.Store.Database.{node_key}
use gpu_cluster_scheduler.Store.Keys.{IsUnique}
use gpu_cluster_scheduler.Engine.WriteBack.{Agrees}

-- Rows with distinct keys agree with one another.
differ :
    (m : Node) (ns : List Node)
    → All (λ j. str_eq j m.node_id ≡ false) (map node_key ns)
    → Agrees ns m
differ m [] h = tt
differ m (n ∷ ns) h = (λ e. absurd (ground arith), differ m ns h.1)

add_row :
    (n : Node) (ns ms : List Node)
    → All (λ j. str_eq j n.node_id ≡ false) (map node_key ms)
    → All (Agrees ns) ms
    → All (Agrees (n ∷ ns)) ms
add_row n ns [] h a = tt
add_row n ns (m ∷ ms) h a = (
  (
    λ e. absurd (ground (arith, str_eq_iff n.node_id m.node_id, str_eq_iff m.node_id n.node_id)),
    a.0,
  ),
  add_row n ns ms h.1 a.1,
)

pub IsUnique→Agrees : (ns : List Node) → IsUnique (map node_key ns) → All (Agrees ns) ns
IsUnique→Agrees [] u = tt
IsUnique→Agrees (n ∷ ns) u =
    (((λ e. (refl, refl, refl)), differ n ns u.0), add_row n ns ns u.0 (IsUnique→Agrees ns u.1))
