-- ===== src/Strategies.antt =====
-- internal/scheduler/algorithm.go and strategies.go: the four scheduling policies.
-- The floating-point numbers that they use are a parameter.
pub mod Float
pub mod Ordering
pub mod Laws
use gpu_cluster_scheduler.Common.{
  ℤ, pos, ◌+ℤ◌, ◌-ℤ◌, ltb_ℤ, eqb_ℤ, String, str_eq, Bool, not, true, false, ◌||◌, if◌then◌else◌,
  Option, none, some, List, [], ◌∷◌, map,
}
use gpu_cluster_scheduler.Common.Sort.{sort_stable, lex_less}
use gpu_cluster_scheduler.Models.{Job, Time, Duration, Node}
use gpu_cluster_scheduler.Placement.{Placement, first_fit_node, best_fit_node, by_created_at}
use Float.{Float64}

-- The cases of the `switch` in `New`. The key is the configured name in lower case, trimmed of blanks.
abbrev pub is_first_fit : String → Bool
is_first_fit key = str_eq key "first-fit" || str_eq key "firstfit" || str_eq key "first_fit"

abbrev pub is_best_fit : String → Bool
is_best_fit key =
    str_eq key "best-fit" || str_eq key "bestfit" || str_eq key "best_fit" || str_eq key ""

abbrev pub is_priority : String → Bool
is_priority key = str_eq key "priority" || str_eq key "priority-queue"

abbrev pub is_fair_share : String → Bool
is_fair_share key = str_eq key "fair-share" || str_eq key "fairshare" || str_eq key "fair_share"

module _ (float : Float64) where
  open float use {Carrier, zero, minutes, times, lt, eqb, truncate}

  -- A nil map is `none`. A missing key reads as zero.
  pub record OrderContext : Type 0 where
    pub team_usage : Option (List (String × Carrier))
    pub aging_factor : Carrier

  pub record Algorithm : Type 0 where
    pub name : String
    pub order : List Job → OrderContext → Time → List Job
    pub place : Job → List Node → Placement

  unfoldable pub effective_priority : Job → Time → Carrier → ℤ
  effective_priority j now aging_factor =
      let wait = minutes (now -ℤ j.created_at) in
      let wait_minutes = if lt wait zero then zero else wait in
      j.priority +ℤ truncate (times wait_minutes aging_factor)

  abbrev older : Job → Job → Bool
  older a b = ltb_ℤ a.created_at b.created_at

  abbrev pub first_fit : Algorithm
  first_fit = record {
    name = "first-fit";
    order = λ jobs ctx now. by_created_at jobs;
    place = first_fit_node;
  }

  abbrev pub best_fit : Algorithm
  best_fit = record {
    name = "best-fit";
    order = λ jobs ctx now. by_created_at jobs;
    place = best_fit_node;
  }

  pub stamp : OrderContext → Time → Job → Job
  stamp ctx now j = record j { effective_priority = effective_priority j now ctx.aging_factor }

  abbrev pub priority_less : Job → Job → Bool
  priority_less =
      lex_less (λ a b. ltb_ℤ b.effective_priority a.effective_priority) older
        (λ a b. eqb_ℤ a.effective_priority b.effective_priority)

  unfoldable pub priority_order : List Job → OrderContext → Time → List Job
  unfolding stamp sort_stable
  priority_order jobs ctx now = sort_stable priority_less (map (stamp ctx now) jobs)

  abbrev pub priority : Algorithm
  priority = record { name = "priority"; order = priority_order; place = best_fit_node }

  lookup : String → List (String × Carrier) → Carrier
  lookup team [] = zero
  lookup team ((t, x) ∷ m) = if str_eq t team then x else lookup team m

  unfoldable pub share : OrderContext → String → Carrier
  unfolding lookup
  share ctx team = elim ctx.team_usage [ none ↦ zero | some usage ↦ lookup team usage ]

  abbrev pub fair_share_less : OrderContext → Time → Job → Job → Bool
  fair_share_less ctx now =
      lex_less (λ a b. lt (share ctx a.team_id) (share ctx b.team_id))
        (lex_less
          (λ a b.
            ltb_ℤ (effective_priority b now ctx.aging_factor)
              (effective_priority a now ctx.aging_factor))
          older
          (λ a b.
            eqb_ℤ (effective_priority a now ctx.aging_factor)
              (effective_priority b now ctx.aging_factor)))
        (λ a b. eqb (share ctx a.team_id) (share ctx b.team_id))

  unfoldable pub fair_share_order : List Job → OrderContext → Time → List Job
  unfolding effective_priority share sort_stable
  fair_share_order jobs ctx now = sort_stable (fair_share_less ctx now) jobs

  abbrev pub fair_share : Algorithm
  fair_share = record { name = "fair-share"; order = fair_share_order; place = best_fit_node }

  unfoldable pub new : String → Option Algorithm
  new key =
      if is_first_fit key
      then some first_fit
      else if is_best_fit key
      then some best_fit
      else if is_priority key
      then some priority
      else if is_fair_share key
      then some fair_share
      else none
