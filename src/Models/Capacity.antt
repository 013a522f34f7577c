-- ===== src/Models/Capacity.antt =====
-- The bookkeeping of a node's resources (internal/models/node.go) against its capacity.
use gpu_cluster_scheduler.Common.{
  ℤ, pos, ◌+ℤ◌, ◌-ℤ◌, ◌≤ℤ◌, ◌<ℤ◌, ltb_ℤ, +ℤ_parts, -ℤ_parts, sub-add_cancel, Bool-cases, ltb_ℤ→ge,
  ltb_ℤ→lt, eqb_ℤ, if◌then◌else◌, ◌≡◌, true, inl, inr, arith,
}
use gpu_cluster_scheduler.Models.Jobs.{ResourceRequest}
use gpu_cluster_scheduler.Models.Nodes.{
  Node, Ratio, zero_ratio, schedulable, fits, reserve, add_capped, release, gpu_utilization,
  cpu_utilization, memory_utilization,
}

abbrev pub Between : ℤ → ℤ → ℤ → Type 0
Between lo x hi = (lo ≤ℤ x) × (x ≤ℤ hi)

-- The free part of each resource lies between nothing and the whole.
pub record IsWithin (n : Node) : Type 0 where
  pub gpu : Between (pos 0) n.gpu_available n.gpu_capacity
  pub cpu : Between (pos 0) n.cpu_available n.cpu_capacity
  pub memory : Between (pos 0) n.memory_available n.memory_capacity

pub record IsNonneg (r : ResourceRequest) : Type 0 where
  pub gpu : pos 0 ≤ℤ r.gpu
  pub cpu : pos 0 ≤ℤ r.cpu
  pub memory : pos 0 ≤ℤ r.memory_gb

-- What the test of a node says, as orders.
pub record HasRoom (n : Node) (r : ResourceRequest) : Type 0 where
  pub open_for_jobs : schedulable n.status ≡ true
  pub gpu : r.gpu ≤ℤ n.gpu_available
  pub cpu : r.cpu ≤ℤ n.cpu_available
  pub memory : r.memory_gb ≤ℤ n.memory_available

pub fits→HasRoom : (n : Node) (r : ResourceRequest) → fits n r ≡ true → HasRoom n r
unfolding fits
fits→HasRoom n r h = ground arith

pub HasRoom→fits : (n : Node) (r : ResourceRequest) → HasRoom n r → fits n r ≡ true
unfolding fits
HasRoom→fits n r h = ground arith

-- Taking a part that is there leaves the rest in range.
sub-Between :
    (x d hi : ℤ) → Between (pos 0) x hi → pos 0 ≤ℤ d → d ≤ℤ x → Between (pos 0) (x -ℤ d) hi
sub-Between x d hi b p q = omega (arith, -ℤ_parts x d)

add_capped-Between :
    (x d hi : ℤ) → Between (pos 0) x hi → pos 0 ≤ℤ d → Between (pos 0) (add_capped x d hi) hi
unfolding add_capped
add_capped-Between x d hi b p = elim (Bool-cases (ltb_ℤ hi (x +ℤ d))) [
  | inl e ↦ rw e (omega arith)
  | inr e ↦ rw e (omega (arith, +ℤ_parts x d, ltb_ℤ→ge hi (x +ℤ d) e))
]

add_capped-sub : (x d hi : ℤ) → x ≤ℤ hi → add_capped (x -ℤ d) d hi ≡ x
unfolding add_capped
add_capped-sub x d hi h = rw (sub-add_cancel x d) (elim (Bool-cases (ltb_ℤ hi x)) [
  | inl e ↦ absurd (omega (arith, ltb_ℤ→lt hi x e))
  | inr e ↦ rw e
])

-- A node that has room for a request with no negative part stays in range when the request is reserved
-- on it.
pub reserve-IsWithin :
    (n : Node) (r : ResourceRequest)
    → IsWithin n
    → IsNonneg r
    → fits n r ≡ true
    → IsWithin (reserve n r)
unfolding reserve
reserve-IsWithin n r w p h =
    let room = fits→HasRoom n r h in
    record {
      gpu = sub-Between n.gpu_available r.gpu n.gpu_capacity w.gpu p.gpu room.gpu;
      cpu = sub-Between n.cpu_available r.cpu n.cpu_capacity w.cpu p.cpu room.cpu;
      memory =
          sub-Between n.memory_available r.memory_gb n.memory_capacity w.memory p.memory
            room.memory;
    }

-- Releasing a request with no negative part keeps a node in range, however much is released.
pub release-IsWithin :
    (n : Node) (r : ResourceRequest) → IsWithin n → IsNonneg r → IsWithin (release n r)
unfolding release
release-IsWithin n r w p = record {
  gpu = add_capped-Between n.gpu_available r.gpu n.gpu_capacity w.gpu p.gpu;
  cpu = add_capped-Between n.cpu_available r.cpu n.cpu_capacity w.cpu p.cpu;
  memory = add_capped-Between n.memory_available r.memory_gb n.memory_capacity w.memory p.memory;
}

-- Releasing what was just reserved gives back the node as it was, for a node in range.
pub release-reserve : (n : Node) (r : ResourceRequest) → IsWithin n → release (reserve n r) r ≡ n
unfolding release reserve
release-reserve n r w = λ i. record n {
  gpu_available = add_capped-sub n.gpu_available r.gpu n.gpu_capacity w.gpu.1 i;
  cpu_available = add_capped-sub n.cpu_available r.cpu n.cpu_capacity w.cpu.1 i;
  memory_available = add_capped-sub n.memory_available r.memory_gb n.memory_capacity w.memory.1 i;
}

-- A fraction of the unit interval.
pub record IsProper (q : Ratio) : Type 0 where
  pub low : pos 0 ≤ℤ q.num
  pub high : q.num ≤ℤ q.den
  pub positive : pos 0 <ℤ q.den

pub used-Between : (x hi : ℤ) → Between (pos 0) x hi → Between (pos 0) (hi -ℤ x) hi
used-Between x hi b = omega (arith, -ℤ_parts hi x)

pub fraction-IsProper :
    (whole part : ℤ)
    → Between (pos 0) part whole
    → IsProper (if eqb_ℤ whole (pos 0) then zero_ratio else record { num = part; den = whole })
fraction-IsProper whole part b = elim (Bool-cases (eqb_ℤ whole (pos 0))) [
  | inl e ↦ rw e (omega arith)
  | inr e ↦ rw e (record { low = b.0; high = b.1; positive = ground arith })
]

-- The three utilizations of a node in range are proper fractions, also where a capacity is zero.
pub utilization-IsProper :
    (n : Node)
    → IsWithin n
    → IsProper (gpu_utilization n) × IsProper (cpu_utilization n) × IsProper (memory_utilization n)
unfolding gpu_utilization cpu_utilization memory_utilization
utilization-IsProper n w = (
  fraction-IsProper n.gpu_capacity (n.gpu_capacity -ℤ n.gpu_available)
      (used-Between n.gpu_available n.gpu_capacity w.gpu),
  fraction-IsProper n.cpu_capacity (n.cpu_capacity -ℤ n.cpu_available)
      (used-Between n.cpu_available n.cpu_capacity w.cpu),
  fraction-IsProper n.memory_capacity (n.memory_capacity -ℤ n.memory_available)
      (used-Between n.memory_available n.memory_capacity w.memory),
)
