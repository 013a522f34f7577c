-- ===== src/Placement/FirstFit.antt =====
-- What `firstFitNode` (internal/scheduler/placement.go) returns.
use gpu_cluster_scheduler.Common.{
  ℕ, suc, ◌+◌, Bool-cases, true, false, inl, inr, List, [], ◌∷◌, ◌++◌, length, All, ◌≡◌, refl, ap,
  arith,
}
use gpu_cluster_scheduler.Models.{Job, ResourceRequest, resource_request, Node, fits}
use gpu_cluster_scheduler.Placement.{Placement, placed, unplaced, first_fit_from, first_fit_node}

-- The node stands at the index, it has room, and no node before it has.
pub record IsFirst (r : ResourceRequest) (nodes : List Node) (i : ℕ) (n : Node) : Type 0 where
  pub before : List Node
  pub after : List Node
  pub split : nodes ≡ before ++ n ∷ after
  pub at : length before ≡ i
  pub room : fits n r ≡ true
  pub none_before : All (λ m. fits m r ≡ false) before

abbrev pub FirstFitSpec : ResourceRequest → List Node → Placement → Type 0
FirstFitSpec r nodes (placed i n reason) = IsFirst r nodes i n
FirstFitSpec r nodes (unplaced reason) = All (λ m. fits m r ≡ false) nodes

abbrev Shifted : ResourceRequest → ℕ → List Node → Placement → Type 0
Shifted r k nodes (placed i n reason) = (j : ℕ) × (k + j ≡ i) × IsFirst r nodes j n
Shifted r k nodes (unplaced reason) = All (λ m. fits m r ≡ false) nodes

shift :
    (r : ResourceRequest) (k : ℕ) (n : Node) (ns : List Node) (p : Placement)
    → fits n r ≡ false
    → Shifted r (suc k) ns p
    → Shifted r k (n ∷ ns) p
shift r k n ns (placed i m reason) e (j, q, f) = (
  suc j,
  omega arith,
  record {
    before = n ∷ f.before;
    after = f.after;
    split = ap (◌∷◌ n) f.split;
    at = ap suc f.at;
    room = f.room;
    none_before = (e, f.none_before);
  },
)
shift r k n ns (unplaced reason) e h = (e, h)

first_fit_from-Shifted :
    (r : ResourceRequest) (k : ℕ) (nodes : List Node) → Shifted r k nodes (first_fit_from r k nodes)
unfolding first_fit_from
first_fit_from-Shifted r k [] = tt
first_fit_from-Shifted r k (n ∷ ns) = elim (Bool-cases (fits n r)) [
  | inl e ↦ rw e (
    0,
    omega arith,
    record { before = []; after = ns; split = refl; at = refl; room = e; none_before = tt },
  )
  | inr e ↦ rw e (shift r k n ns _ e (first_fit_from-Shifted r (suc k) ns))
]

unshift :
    (r : ResourceRequest) (nodes : List Node) (p : Placement)
    → Shifted r 0 nodes p
    → FirstFitSpec r nodes p
unshift r nodes (placed i n reason) (j, q, f) = record {
  before = f.before;
  after = f.after;
  split = f.split;
  at = omega (arith, f.at);
  room = f.room;
  none_before = f.none_before;
}
unshift r nodes (unplaced reason) h = h

-- First fit places a job on the first node that has room for it, and leaves it unplaced only if no
-- node has room.
pub first_fit_node-FirstFitSpec :
    (job : Job) (nodes : List Node)
    → FirstFitSpec (resource_request job) nodes (first_fit_node job nodes)
unfolding first_fit_node
first_fit_node-FirstFitSpec job nodes =
    unshift _ nodes _ (first_fit_from-Shifted (resource_request job) 0 nodes)
