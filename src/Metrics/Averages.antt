-- ===== src/Metrics/Averages.antt =====
-- The average runtime that internal/metricsvc/collector.go publishes.
use gpu_cluster_scheduler.Common.{
  suc, ℕ, ◌≡◌, refl, zero, times_zero, ◌⊎◌, inl, inr, ◌≤◌, pos, ◌*ℤ◌, ◌≤ℤ◌, Option, none, some,
  List, [], ◌∷◌, All, arith, times_suc, +ℤ_parts,
}
use gpu_cluster_scheduler.Models.{Job, Duration}
use gpu_cluster_scheduler.Metrics.{
  Gauges, averaged, Runtimes, runtime_of, add_runtime, sum_runtimes,
}

-- A runtime, where there is one, between two bounds.
abbrev pub Within : Duration → Duration → Option Duration → Type 0
Within lo hi none = Unit
Within lo hi (some d) = (lo ≤ℤ d) × (d ≤ℤ hi)

abbrev pub IsAverage : Duration → Duration → Runtimes → Type 0
IsAverage lo hi t = (lo *ℤ pos t.count ≤ℤ t.total) × (t.total ≤ℤ hi *ℤ pos t.count)

add-IsAverage :
    (lo hi : Duration) (t : Runtimes) (r : Option Duration)
    → Within lo hi r
    → IsAverage lo hi t
    → IsAverage lo hi (add_runtime t r)
unfolding add_runtime
add-IsAverage lo hi t none w h = h
add-IsAverage lo hi t (some d) w h = (
  rw (times_suc lo t.count) (omega (arith, +ℤ_parts (lo *ℤ pos t.count) lo, +ℤ_parts t.total d)),
  rw (times_suc hi t.count) (omega (arith, +ℤ_parts (hi *ℤ pos t.count) hi, +ℤ_parts t.total d)),
)

sum_runtimes-IsAverage :
    (lo hi : Duration) (js : List Job) (t : Runtimes)
    → All (λ j. Within lo hi (runtime_of j)) js
    → IsAverage lo hi t
    → IsAverage lo hi (sum_runtimes t js)
unfolding sum_runtimes
sum_runtimes-IsAverage lo hi [] t w h = h
sum_runtimes-IsAverage lo hi (j ∷ js) t w h =
    sum_runtimes-IsAverage lo hi js (add_runtime t (runtime_of j)) w.1
      (add-IsAverage lo hi t (runtime_of j) w.0 h)

-- A gauge after the average was taken.
abbrev pub Published : Duration → Duration → Option Runtimes → Option Runtimes → Type 0
Published lo hi before after =
    (after ≡ before) ⊎ ((t : Runtimes) × (after ≡ some t) × (1 ≤ t.count) × IsAverage lo hi t)

published :
    (lo hi : Duration) (g : Gauges) (t : Runtimes) (n : ℕ)
    → t.count ≡ n
    → IsAverage lo hi t
    → Published lo hi g.average_runtime
        (elim n as (λ k. Gauges) [
          | zero ↦ g
          | suc k ↦ record g { average_runtime = some t }
        ]).average_runtime
published lo hi g t zero e h = inl refl
published lo hi g t (suc k) e h = inr (t, refl, omega arith, h)

start-IsAverage : (lo hi : Duration) → IsAverage lo hi (record { total = pos 0; count = 0 })
start-IsAverage lo hi = (rw (times_zero lo) (omega arith), rw (times_zero hi) (omega arith))

-- A sample leaves the average runtime as it was, or publishes one that is over at least one job and
-- lies between any two bounds that the runtime of each listed job lies between.
pub averaged-IsAverage :
    (lo hi : Duration) (jobs : List Job) (g : Gauges)
    → All (λ j. Within lo hi (runtime_of j)) jobs
    → Published lo hi g.average_runtime (averaged jobs g).average_runtime
unfolding averaged
averaged-IsAverage lo hi [] g w = inl refl
averaged-IsAverage lo hi (j ∷ js) g w =
    published lo hi g (sum_runtimes (record { total = pos 0; count = 0 }) (j ∷ js)) _ refl (
      sum_runtimes-IsAverage lo hi (j ∷ js) (record { total = pos 0; count = 0 }) w
        (start-IsAverage lo hi))
