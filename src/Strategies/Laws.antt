-- ===== src/Strategies/Laws.antt =====
-- What the engine relies on of a scheduling policy, and that the four policies of
-- internal/scheduler/strategies.go have it.
use gpu_cluster_scheduler.Common.{
  ℤ, String, Bool, true, false, Option, none, some, List, [], ◌∷◌, map, All, get_elem?,
  get_elem?-split, if◌then◌else◌, ◌≡◌, refl,
}
use gpu_cluster_scheduler.Common.Sort.{All-sort_stable}
use gpu_cluster_scheduler.Common.Sort.Entries.{sort_stable-All}
use gpu_cluster_scheduler.Models.{Job, Time, Node, fits, resource_request}
use gpu_cluster_scheduler.Placement.{Placement, placed, unplaced, best_fit_node, by_created_at}
use gpu_cluster_scheduler.Placement.FirstFit.{FirstFitSpec, first_fit_node-FirstFitSpec}
use gpu_cluster_scheduler.Placement.BestFit.{BestFitSpec, best_fit_node-BestFitSpec}
use gpu_cluster_scheduler.Strategies.Float.{Float64}
use gpu_cluster_scheduler.Strategies.{
  OrderContext, Algorithm, effective_priority, stamp, priority_order, fair_share_order, first_fit,
  best_fit, priority, fair_share, is_first_fit, is_best_fit, is_priority, is_fair_share, new,
}

-- A placement is on a node of the list that has room, and there is one if any node has room.
abbrev pub PlaceSpec : Job → List Node → Placement → Type 0
PlaceSpec job nodes (placed i n reason) =
    (get_elem? nodes i ≡ some n) × (fits n (resource_request job) ≡ true)
PlaceSpec job nodes (unplaced reason) = All (λ m. fits m (resource_request job) ≡ false) nodes

FirstFitSpec→PlaceSpec :
    (job : Job) (nodes : List Node) (p : Placement)
    → FirstFitSpec (resource_request job) nodes p
    → PlaceSpec job nodes p
FirstFitSpec→PlaceSpec job nodes (placed i n reason) f =
    (rw (f.split, ← f.at) (get_elem?-split f.before f.after n), f.room)
FirstFitSpec→PlaceSpec job nodes (unplaced reason) h = h

BestFitSpec→PlaceSpec :
    (job : Job) (nodes : List Node) (p : Placement)
    → BestFitSpec (resource_request job) nodes p
    → PlaceSpec job nodes p
BestFitSpec→PlaceSpec job nodes (placed i n reason) f =
    (rw (f.split, ← f.at) (get_elem?-split f.before f.after n), f.room)
BestFitSpec→PlaceSpec job nodes (unplaced reason) h = h

module _ (float : Float64) where
  -- What an order keeps of every job that it is given, whatever effective priority it fills in.
  abbrev pub KeepsAll : Algorithm float → Type 1
  KeepsAll alg =
      (P : Job → Type 0)
      → ((j : Job) (e : ℤ) → P j → P (record j { effective_priority = e }))
      → (jobs : List Job) (ctx : OrderContext float) (now : Time) → All P jobs
      → All P (alg.order jobs ctx now)

  -- An order leaves no job out: what it keeps for all, every job had, whatever effective priority it fills in.
  abbrev pub LeavesNone : Algorithm float → Type 1
  LeavesNone alg =
      (P : Job → Type 0)
      → ((j : Job) (e : ℤ) → P (record j { effective_priority = e }) → P j)
      → (jobs : List Job) (ctx : OrderContext float) (now : Time) → All P (alg.order jobs ctx now)
      → All P jobs

  -- An order of a single job is that job, whatever effective priority it fills in.
  abbrev pub KeepsOne : Algorithm float → Type 0
  KeepsOne alg =
      (j : Job) (ctx : OrderContext float) (now : Time)
      → (e : ℤ) × (alg.order (j ∷ []) ctx now ≡ record j { effective_priority = e } ∷ [])

  pub record IsLawful (alg : Algorithm float) : Type 1 where
    pub keeps_all : KeepsAll alg
    pub leaves_none : LeavesNone alg
    pub keeps_one : KeepsOne alg
    pub place_lem : (job : Job) (nodes : List Node) → PlaceSpec job nodes (alg.place job nodes)

  All-stamp :
      (P : Job → Type 0)
      → ((j : Job) (e : ℤ) → P j → P (record j { effective_priority = e }))
      → (jobs : List Job) (ctx : OrderContext float) (now : Time) → All P jobs
      → All P (map (stamp float ctx now) jobs)
  unfolding stamp
  All-stamp P k [] ctx now h = tt
  All-stamp P k (j ∷ js) ctx now h = (k j _ h.0, All-stamp P k js ctx now h.1)

  stamp-All :
      (P : Job → Type 0)
      → ((j : Job) (e : ℤ) → P (record j { effective_priority = e }) → P j)
      → (jobs : List Job) (ctx : OrderContext float) (now : Time)
      → All P (map (stamp float ctx now) jobs)
      → All P jobs
  unfolding stamp
  stamp-All P k [] ctx now h = tt
  stamp-All P k (j ∷ js) ctx now h = (k j _ h.0, stamp-All P k js ctx now h.1)

  best_fit_place : (job : Job) (nodes : List Node) → PlaceSpec job nodes (best_fit_node job nodes)
  best_fit_place job nodes = BestFitSpec→PlaceSpec job nodes _ (best_fit_node-BestFitSpec job nodes)

  pub first_fit-IsLawful : IsLawful (first_fit float)
  unfolding by_created_at
  first_fit-IsLawful = record {
    keeps_all = λ P k jobs ctx now h. All-sort_stable _ P jobs h;
    leaves_none = λ P k jobs ctx now h. sort_stable-All _ P jobs h;
    keeps_one = λ j ctx now. (j.effective_priority, refl);
    place_lem =
        λ job nodes. FirstFitSpec→PlaceSpec job nodes _ (first_fit_node-FirstFitSpec job nodes);
  }

  pub best_fit-IsLawful : IsLawful (best_fit float)
  unfolding by_created_at
  best_fit-IsLawful = record {
    keeps_all = λ P k jobs ctx now h. All-sort_stable _ P jobs h;
    leaves_none = λ P k jobs ctx now h. sort_stable-All _ P jobs h;
    keeps_one = λ j ctx now. (j.effective_priority, refl);
    place_lem = best_fit_place;
  }

  pub priority-IsLawful : IsLawful (priority float)
  unfolding priority_order
  priority-IsLawful = record {
    keeps_all = λ P k jobs ctx now h. All-sort_stable _ P _ (All-stamp P k jobs ctx now h);
    leaves_none = λ P k jobs ctx now h. stamp-All P k jobs ctx now (sort_stable-All _ P _ h);
    keeps_one = λ j ctx now. (effective_priority float j now ctx.aging_factor, refl);
    place_lem = best_fit_place;
  }

  pub fair_share-IsLawful : IsLawful (fair_share float)
  unfolding fair_share_order
  fair_share-IsLawful = record {
    keeps_all = λ P k jobs ctx now h. All-sort_stable _ P jobs h;
    leaves_none = λ P k jobs ctx now h. sort_stable-All _ P jobs h;
    keeps_one = λ j ctx now. (j.effective_priority, refl);
    place_lem = best_fit_place;
  }

  abbrev pub OnSome : (Algorithm float → Type 1) → Option (Algorithm float) → Type 1
  OnSome P none = Unit
  OnSome P (some alg) = P alg

  select-IsLawful :
      (a b c d : Bool)
      → OnSome IsLawful (
          if a
          then some (first_fit float)
          else if b
          then some (best_fit float)
          else if c
          then some (priority float)
          else if d
          then some (fair_share float)
          else none)
  select-IsLawful true b c d = first_fit-IsLawful
  select-IsLawful false true c d = best_fit-IsLawful
  select-IsLawful false false true d = priority-IsLawful
  select-IsLawful false false false true = fair_share-IsLawful
  select-IsLawful false false false false = tt

  -- Every policy that the configuration can name places a job only on a node that has room for it,
  -- fails only if no node has room, and keeps every property of the jobs that it orders, where the
  -- property does not depend on the effective priority; it leaves no job out, and a job alone in the
  -- queue is the one that it tries.
  pub new-IsLawful : (key : String) → OnSome IsLawful (new float key)
  unfolding new
  new-IsLawful key =
      select-IsLawful (is_first_fit key) (is_best_fit key) (is_priority key) (is_fair_share key)
