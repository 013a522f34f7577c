-- ===== src/Agent/Waits.antt =====
-- The waits of internal/agent/agent.go and internal/agent/executor.go.
use gpu_cluster_scheduler.Common.{
  ℕ, zero, suc, ◌+◌, ◌*◌, ◌/◌, ◌≤◌, length, All, ℤ, pos, pos_part, ◌+ℤ◌, ◌≤ℤ◌, ◌<ℤ◌, Bool,
  Bool-cases, ltb_ℤ, ltb_ℤ→lt, ltb_ℤ→ge, lt→ltb_ℤ, +ℤ_parts, true, false, inl, inr, some, List, [],
  ◌∷◌, ◌≡◌, refl, arith,
}
use gpu_cluster_scheduler.Agent.{
  second, AgentConfig, next_backoff, register_from, register, intn, job_seconds,
}

-- The waits that the loop can reach.
data Step : ℕ → Type 0 where
  one : Step second
  two : Step (2 * second)
  four : Step (4 * second)
  eight : Step (8 * second)
  sixteen : Step (16 * second)

next_backoff-Step : {b : ℕ} → Step b → Step (next_backoff b)
unfolding next_backoff
next_backoff-Step one = two
next_backoff-Step two = four
next_backoff-Step four = eight
next_backoff-Step eight = sixteen
next_backoff-Step sixteen = sixteen

Step-Between : {b : ℕ} → Step b → (second ≤ b) × (b ≤ 16 * second)
Step-Between one = (omega arith, omega arith)
Step-Between two = (omega arith, omega arith)
Step-Between four = (omega arith, omega arith)
Step-Between eight = (omega arith, omega arith)
Step-Between sixteen = (omega arith, omega arith)

-- A registration that succeeds after `k` failures.
abbrev pub SucceedsAt : (ℕ → Bool) → ℕ → ℕ → Type 0
SucceedsAt answers attempt zero = answers attempt ≡ true
SucceedsAt answers attempt (suc k) = (answers attempt ≡ false) × SucceedsAt answers (suc attempt) k

abbrev pub IsWait : ℕ → Type 0
IsWait w = (second ≤ w) × (w ≤ 16 * second)

register_from-waits :
    (k fuel : ℕ) (answers : ℕ → Bool) (attempt b : ℕ)
    → Step b
    → SucceedsAt answers attempt k
    → suc k ≤ fuel
    → (waits : List ℕ) × (register_from fuel answers attempt b ≡ some waits)
      × (length waits ≡ k)
      × All IsWait waits
unfolding register_from
register_from-waits k zero answers attempt b s h f = absurd (omega arith)
register_from-waits zero (suc fuel) answers attempt b s h f = ([], rw h refl, refl, tt)
register_from-waits (suc k) (suc fuel) answers attempt b s h f =
    let (waits, e, l, w) =
      register_from-waits k fuel answers (suc attempt) (next_backoff b) (next_backoff-Step s) h.1
        (omega arith) in
    (b ∷ waits, rw (h.0, e) refl, rw l refl, (Step-Between s, w))

-- A registration whose first success comes after k failures ends, with any fuel above k: it waits k
-- times, never less than a second nor more than sixteen.
pub register-waits :
    (k fuel : ℕ) (answers : ℕ → Bool)
    → SucceedsAt answers 0 k
    → suc k ≤ fuel
    → (waits : List ℕ) × (register fuel answers ≡ some waits)
      × (length waits ≡ k)
      × All IsWait waits
unfolding register
register-waits k fuel answers h f = register_from-waits k fuel answers 0 second one h f

-- A generator that draws below its bound.
abbrev pub Draws : (ℤ → ℤ) → Type 0
Draws draw = (n : ℤ) → pos 0 <ℤ n → (pos 0 ≤ℤ draw n) × (draw n <ℤ n)

spread :
    (draw : ℤ → ℤ) (m : ℤ)
    → Draws draw
    → pos 2 ≤ℤ m
    → (pos 1 ≤ℤ pos (pos_part m / 2) +ℤ intn draw m)
      × (pos (pos_part m / 2) ≤ℤ pos (pos_part m / 2) +ℤ intn draw m)
      × (pos (pos_part m / 2) +ℤ intn draw m <ℤ pos (pos_part m / 2 + pos_part m))
unfolding intn
spread draw m h p =
    let positive : pos 0 <ℤ m = omega arith in
    let d = h m positive in
    let sum = +ℤ_parts (pos (pos_part m / 2)) (draw m) in
    rw (lt→ltb_ℤ (pos 0) m positive)
      (grind (arith, sum, d.0, d.1), grind (arith, sum, d.0, d.1), grind (arith, sum, d.0, d.1))

-- A simulated job takes at least a second, and with a mean of two seconds or more at least half of the
-- mean and less than half more than it; for a generator that draws below its bound.
pub job_seconds-Between :
    (draw : ℤ → ℤ) (c : AgentConfig)
    → Draws draw
    → (pos 1 ≤ℤ job_seconds draw c)
      × (pos 2 ≤ℤ c.mean_job_seconds
          → (pos (pos_part c.mean_job_seconds / 2) ≤ℤ job_seconds draw c)
            × (job_seconds draw c
                <ℤ pos (pos_part c.mean_job_seconds / 2 + pos_part c.mean_job_seconds)))
unfolding job_seconds
job_seconds-Between draw c h = elim (Bool-cases (ltb_ℤ c.mean_job_seconds (pos 2))) [
  | inl e ↦ rw e (
    (spread draw (pos 2) h (omega arith)).0,
    λ p. absurd (omega (arith, ltb_ℤ→lt c.mean_job_seconds (pos 2) e)),
  )
  | inr e ↦
      let all = spread draw c.mean_job_seconds h (ltb_ℤ→ge c.mean_job_seconds (pos 2) e) in
      rw e (all.0, λ p. (all.1, all.2))
]
