-- ===== src/Strategies/Ordering.antt =====
-- The order in which the policies of internal/scheduler/strategies.go attempt the queued jobs.
use mathlib.Core.List.{Perm}
use gpu_cluster_scheduler.Common.{
  ◌-ℤ◌, ◌≤ℤ◌, ◌<ℤ◌, ◌⊎◌, true, Pairwise, ltb_ℤ, eqb_ℤ, int_laws, +ℤ_parts, Bool, false,
  if◌then◌else◌, List, map, select, ◌≡◌, arith,
}
use gpu_cluster_scheduler.Common.Sort.{
  IsOrdered, IsOrdered-Pairwise, StrictWeak, sort_stable-perm, sort_stable-IsOrdered,
  select-sort_stable, lex_less-StrictWeak, ascending-StrictWeak, descending-StrictWeak,
  descending-tie,
}
use gpu_cluster_scheduler.Models.{Job, Time}
use gpu_cluster_scheduler.Placement.{by_created_at}
use gpu_cluster_scheduler.Strategies.Float.{Float64, IsOrderedFloat, IsMonotone}
use gpu_cluster_scheduler.Strategies.{
  OrderContext, effective_priority, stamp, priority_less, priority_order, share, fair_share_less,
  fair_share_order,
}

abbrev pub younger : Job → Job → Bool
younger a b = ltb_ℤ b.created_at a.created_at

abbrev pub submitted_before : Job → Job → Bool
submitted_before a b = ltb_ℤ a.created_at b.created_at

submitted_before-StrictWeak : StrictWeak submitted_before
submitted_before-StrictWeak = ascending-StrictWeak (λ (j : Job). j.created_at)

-- First-fit and best-fit attempt all queued jobs, each as often as it was given, and none before one
-- that was submitted earlier; jobs submitted at one moment keep the order in which the store lists
-- them.
pub by_created_at-IsFifo :
    (jobs : List Job) (t : Time)
    → Perm (by_created_at jobs) jobs
      × IsOrdered submitted_before (by_created_at jobs)
      × (select (λ j. eqb_ℤ j.created_at t) (by_created_at jobs)
          ≡ select (λ j. eqb_ℤ j.created_at t) jobs)
unfolding by_created_at
by_created_at-IsFifo jobs t = (
  sort_stable-perm submitted_before jobs,
  sort_stable-IsOrdered submitted_before submitted_before-StrictWeak jobs,
  select-sort_stable submitted_before (λ j. eqb_ℤ j.created_at t) (λ a b p q. ground arith) jobs,
)

module _ (float : Float64) where
  open float use {Carrier, zero, minutes, times, lt, eqb, truncate}

  priority_less-StrictWeak : StrictWeak (priority_less float)
  priority_less-StrictWeak =
      lex_less-StrictWeak _ _ _ (descending-StrictWeak (λ (j : Job). j.effective_priority))
        submitted_before-StrictWeak (descending-tie (λ (j : Job). j.effective_priority))

  -- Attempted before: of higher effective priority, or of the same and submitted no later.
  abbrev pub HigherFirst : Job → Job → Type 0
  HigherFirst a b =
      (b.effective_priority <ℤ a.effective_priority)
      ⊎ ((a.effective_priority ≡ b.effective_priority) × (a.created_at ≤ℤ b.created_at))

  -- The priority policy attempts all queued jobs, each as often as it was given and with its effective
  -- priority filled in: each job has a higher effective priority than every one after it, or the same
  -- and was submitted no later.
  pub priority_order-HigherFirst :
      (jobs : List Job) (ctx : OrderContext float) (now : Time)
      → Perm (priority_order float jobs ctx now) (map (stamp float ctx now) jobs)
        × Pairwise HigherFirst (priority_order float jobs ctx now)
  unfolding priority_order
  priority_order-HigherFirst jobs ctx now = (
    sort_stable-perm (priority_less float) _,
    IsOrdered-Pairwise (priority_less float) HigherFirst (λ a b e. ground arith) _
        (sort_stable-IsOrdered (priority_less float) priority_less-StrictWeak
          (map (stamp float ctx now) jobs)),
  )

  share_less-StrictWeak :
      IsOrderedFloat float
      → (ctx : OrderContext float)
      → StrictWeak (λ (a b : Job). lt (share float ctx a.team_id) (share float ctx b.team_id))
  share_less-StrictWeak o ctx = record {
    asym = λ a b h. o.weak.asym _ _ h;
    not_less_trans = λ a b c h k. o.weak.not_less_trans _ (share float ctx b.team_id) _ h k;
  }

  -- Attempted before: of a team with a smaller share, or with the same share and a higher effective priority, or with
  -- both the same and submitted no later.
  abbrev pub FairerFirst : OrderContext float → Time → Job → Job → Type 0
  FairerFirst ctx now a b =
      let rank = λ (j : Job). effective_priority float j now ctx.aging_factor in
      (lt (share float ctx a.team_id) (share float ctx b.team_id) ≡ true)
      ⊎ ((eqb (share float ctx a.team_id) (share float ctx b.team_id) ≡ true)
          × ((rank b <ℤ rank a) ⊎ ((rank a ≡ rank b) × (a.created_at ≤ℤ b.created_at))))

  fair_share_less-FairerFirst :
      IsOrderedFloat float
      → (ctx : OrderContext float) (now : Time) (a b : Job)
      → fair_share_less float ctx now b a ≡ false
      → FairerFirst ctx now a b
  fair_share_less-FairerFirst o ctx now a b e = ground (
    arith,
    e,
    o.tie (share float ctx a.team_id) (share float ctx b.team_id),
    o.tie (share float ctx b.team_id) (share float ctx a.team_id),
  )

  -- The fair-share policy attempts all queued jobs, each as often as it was given: the team of each
  -- job has a smaller share than that of every job after it, or the same share and the job has a
  -- higher effective priority, or both are the same and it was submitted no later; the comparison of
  -- the floating-point shares has to be a total order.
  pub fair_share_order-FairerFirst :
      IsOrderedFloat float
      → (jobs : List Job) (ctx : OrderContext float) (now : Time)
      → Perm (fair_share_order float jobs ctx now) jobs
        × Pairwise (FairerFirst ctx now) (fair_share_order float jobs ctx now)
  unfolding fair_share_order
  fair_share_order-FairerFirst o jobs ctx now = (
    sort_stable-perm (fair_share_less float ctx now) jobs,
    IsOrdered-Pairwise (fair_share_less float ctx now) (FairerFirst ctx now)
        (fair_share_less-FairerFirst o ctx now) _
        (sort_stable-IsOrdered (fair_share_less float ctx now)
          (lex_less-StrictWeak _ _ _ (share_less-StrictWeak o ctx)
            (lex_less-StrictWeak _ _ _
              (descending-StrictWeak (λ (j : Job). effective_priority float j now ctx.aging_factor))
              submitted_before-StrictWeak
              (descending-tie (λ (j : Job). effective_priority float j now ctx.aging_factor)))
            (λ a b. o.tie _ _))
          jobs),
  )

  waited : Time → Job → Carrier
  waited now j = let wait = minutes (now -ℤ j.created_at) in if lt wait zero then zero else wait

  waited_mono :
      IsOrderedFloat float
      → IsMonotone float
      → (a b : Job) (now : Time) → a.created_at ≤ℤ b.created_at
      → lt (waited now a) (waited now b) ≡ false
  unfolding waited
  waited_mono o m a b now h = ground (
    arith,
    m.minutes_mono (now -ℤ b.created_at) (now -ℤ a.created_at) (omega int_laws),
    o.weak.asym (minutes (now -ℤ a.created_at)) zero,
    o.weak.not_less_trans (minutes (now -ℤ b.created_at)) (minutes (now -ℤ a.created_at)) zero,
    o.weak.not_less_trans zero zero zero,
    o.weak.asym zero zero,
  )

  -- Aging never lets a job fall behind one that was submitted no earlier with no higher priority, at
  -- any later time: for an aging factor that is not negative, and monotone floating-point operations.
  pub effective_priority_mono :
      IsOrderedFloat float
      → IsMonotone float
      → (a b : Job) (now : Time) (aging_factor : Carrier) → lt aging_factor zero ≡ false
      → a.created_at ≤ℤ b.created_at
      → b.priority ≤ℤ a.priority
      → effective_priority float b now aging_factor ≤ℤ effective_priority float a now aging_factor
  unfolding effective_priority waited
  effective_priority_mono o m a b now factor g h p = omega (
    arith,
    +ℤ_parts a.priority (truncate (times (waited now a) factor)),
    +ℤ_parts b.priority (truncate (times (waited now b) factor)),
    m.truncate_mono _ _
        (m.times_mono (waited now b) (waited now a) factor g (waited_mono o m a b now h)),
  )
