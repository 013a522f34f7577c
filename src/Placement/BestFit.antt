-- ===== src/Placement/BestFit.antt =====
-- What `bestFitNode` (internal/scheduler/placement.go) returns.
use mathlib.Core.List.{append-nil, append_assoc}
use gpu_cluster_scheduler.Common.{
  ℕ, suc, Bool-cases, true, false, inl, inr, List, [], ◌∷◌, ◌++◌, length, length-append, All,
  All-append, ◌≡◌, refl, ap, ◌∙◌, arith, Option, none, some,
}
use gpu_cluster_scheduler.Models.{Job, ResourceRequest, resource_request, Node, fits}
use gpu_cluster_scheduler.Placement.{
  Placement, placed, unplaced, ScoreVec, score_less, leftover, Best, best_result, best_step,
  best_fit_from, best_fit_node,
}
use gpu_cluster_scheduler.Placement.Scores.{
  LexLt, LexLe, score_less→LexLt, score_less→LexLe, score_less-le_trans, score_less_trans,
}

-- The node stands at the index and has room. Every node with room leaves at least as much, and more if
-- it stands before.
pub record IsTightest (r : ResourceRequest) (nodes : List Node) (i : ℕ) (n : Node) : Type 0 where
  pub before : List Node
  pub after : List Node
  pub split : nodes ≡ before ++ n ∷ after
  pub at : length before ≡ i
  pub room : fits n r ≡ true
  pub tighter_before :
      All (λ m. fits m r ≡ true → score_less (leftover r n) (leftover r m) ≡ true) before
  pub tight_after :
      All (λ m. fits m r ≡ true → score_less (leftover r m) (leftover r n) ≡ false) after

abbrev pub BestFitSpec : ResourceRequest → List Node → Placement → Type 0
BestFitSpec r nodes (placed i n reason) = IsTightest r nodes i n
BestFitSpec r nodes (unplaced reason) = All (λ m. fits m r ≡ false) nodes

module _ (r : ResourceRequest) where
  abbrev Inv : List Node → Option Best → Type 0
  Inv seen none = All (λ m. fits m r ≡ false) seen
  Inv seen (some b) = (b.score ≡ leftover r b.node) × IsTightest r seen b.index b.node

  weaken :
      (ms : List Node) (s : ScoreVec)
      → All (λ m. fits m r ≡ false) ms
      → All (λ m. fits m r ≡ true → score_less s (leftover r m) ≡ true) ms
  weaken [] s h = tt
  weaken (m ∷ ms) s h = (λ e. cc, weaken ms s h.1)

  below_before :
      (ms : List Node) (s b : ScoreVec)
      → score_less s b ≡ true
      → All (λ m. fits m r ≡ true → score_less b (leftover r m) ≡ true) ms
      → All (λ m. fits m r ≡ true → score_less s (leftover r m) ≡ true) ms
  below_before [] s b e h = tt
  below_before (m ∷ ms) s b e h =
      (λ f. score_less_trans s b (leftover r m) e (h.0 f), below_before ms s b e h.1)

  below_after :
      (ms : List Node) (s b : ScoreVec)
      → score_less s b ≡ true
      → All (λ m. fits m r ≡ true → score_less (leftover r m) b ≡ false) ms
      → All (λ m. fits m r ≡ true → score_less s (leftover r m) ≡ true) ms
  below_after [] s b e h = tt
  below_after (m ∷ ms) s b e h =
      (λ f. score_less-le_trans s b (leftover r m) e (h.0 f), below_after ms s b e h.1)

  -- One more node that is not better.
  keep :
      (seen : List Node) (i : ℕ) (b n : Node)
      → (fits n r ≡ true → score_less (leftover r n) (leftover r b) ≡ false)
      → IsTightest r seen i b
      → IsTightest r (seen ++ n ∷ []) i b
  keep seen i b n h t = record {
    before = t.before;
    after = t.after ++ n ∷ [];
    split = ap (λ l. l ++ n ∷ []) t.split ∙ append_assoc t.before _ _;
    at = t.at;
    room = t.room;
    tighter_before = t.tighter_before;
    tight_after = All-append _ t.after (n ∷ []) t.tight_after (h, tt);
  }

  -- A node that is better than the best so far.
  replace :
      (seen : List Node) (i : ℕ) (b n : Node)
      → fits n r ≡ true
      → score_less (leftover r n) (leftover r b) ≡ true
      → IsTightest r seen i b
      → IsTightest r (seen ++ n ∷ []) (length seen) n
  replace seen i b n f h t = record {
    before = seen;
    after = [];
    split = refl;
    at = refl;
    room = f;
    tighter_before = rw t.split (
        All-append _ t.before (b ∷ t.after) (below_before t.before _ _ h t.tighter_before)
          (λ _. h, below_after t.after _ _ h t.tight_after));
    tight_after = tt;
  }

  best_step-Inv :
      (seen : List Node) (n : Node) (best : Option Best)
      → Inv seen best
      → Inv (seen ++ n ∷ []) (best_step r (length seen) n best)
  unfolding best_step
  best_step-Inv seen n none h = elim (Bool-cases (fits n r)) [
    | inl f ↦ rw f (
      refl,
      record {
        before = seen;
        after = [];
        split = refl;
        at = refl;
        room = f;
        tighter_before = weaken seen (leftover r n) h;
        tight_after = tt;
      },
    )
    | inr f ↦ rw f (All-append _ seen (n ∷ []) h (f, tt))
  ]
  best_step-Inv seen n (some b) h = elim (Bool-cases (fits n r)) [
    | inl f ↦ elim (Bool-cases (score_less (leftover r n) b.score)) [
      | inl e ↦ rw (f, e) (refl, replace seen b.index b.node n f (rw h.0 at e) h.1)
      | inr e ↦ rw (f, e) (h.0, keep seen b.index b.node n (λ _. rw h.0 at e) h.1)
    ]
    | inr f ↦ rw f (h.0, keep seen b.index b.node n (λ g. cc) h.1)
  ]

  best_fit_from-Inv :
      (seen ns : List Node) (i : ℕ) (best : Option Best)
      → i ≡ length seen
      → Inv seen best
      → Inv (seen ++ ns) (best_fit_from r i ns best)
  unfolding best_fit_from
  best_fit_from-Inv seen [] i best e h = rw append-nil h
  best_fit_from-Inv seen (n ∷ ns) i best e h = rw (← append_assoc seen (n ∷ []) ns) (
      best_fit_from-Inv (seen ++ n ∷ []) ns (suc i) (best_step r i n best)
        (omega (arith, length-append seen (n ∷ []))) (rw e (best_step-Inv seen n best h)))

  result-Spec :
      (nodes : List Node) (best : Option Best)
      → Inv nodes best
      → BestFitSpec r nodes (best_result best)
  result-Spec nodes none h = h
  result-Spec nodes (some b) h = h.1

-- The same, by the comparison of the source.
pub best_fit_node-BestFitSpec :
    (job : Job) (nodes : List Node)
    → BestFitSpec (resource_request job) nodes (best_fit_node job nodes)
unfolding best_fit_node
best_fit_node-BestFitSpec job nodes =
    result-Spec _ nodes _ (best_fit_from-Inv (resource_request job) [] nodes 0 none refl tt)

-- The node stands at the index and has room. Every node with room leaves at least as much, counted by GPUs,
-- then CPUs, then memory, and more if it stands before.
pub record LeavesLeast (r : ResourceRequest) (nodes : List Node) (i : ℕ) (n : Node) : Type 0 where
  pub before : List Node
  pub after : List Node
  pub split : nodes ≡ before ++ n ∷ after
  pub at : length before ≡ i
  pub room : fits n r ≡ true
  pub less_than_before : All (λ m. fits m r ≡ true → LexLt (leftover r n) (leftover r m)) before
  pub at_most_after : All (λ m. fits m r ≡ true → LexLe (leftover r n) (leftover r m)) after

abbrev pub LeastSpec : ResourceRequest → List Node → Placement → Type 0
LeastSpec r nodes (placed i n reason) = LeavesLeast r nodes i n
LeastSpec r nodes (unplaced reason) = All (λ m. fits m r ≡ false) nodes

All-weaken : (P Q : Node → Type 0) (xs : List Node) → ((x : Node) → P x → Q x) → All P xs → All Q xs
All-weaken P Q [] f h = tt
All-weaken P Q (x ∷ xs) f h = (f x h.0, All-weaken P Q xs f h.1)

BestFitSpec→LeastSpec :
    (r : ResourceRequest) (nodes : List Node) (p : Placement)
    → BestFitSpec r nodes p
    → LeastSpec r nodes p
BestFitSpec→LeastSpec r nodes (unplaced reason) h = h
BestFitSpec→LeastSpec r nodes (placed i n reason) h = record {
  before = h.before;
  after = h.after;
  split = h.split;
  at = h.at;
  room = h.room;
  less_than_before =
      All-weaken _ _ h.before (λ m k room. score_less→LexLt (leftover r n) (leftover r m) (k room))
        h.tighter_before;
  at_most_after =
      All-weaken _ _ h.after (λ m k room. score_less→LexLe (leftover r m) (leftover r n) (k room))
        h.tight_after;
}

-- Best fit places a job on a node with room that leaves least, by GPUs, then CPUs, then memory, and on
-- the first of those that leave equally little; it leaves the job unplaced only if no node has room.
pub best_fit_node-LeastSpec :
    (job : Job) (nodes : List Node)
    → LeastSpec (resource_request job) nodes (best_fit_node job nodes)
best_fit_node-LeastSpec job nodes =
    BestFitSpec→LeastSpec (resource_request job) nodes (best_fit_node job nodes)
      (best_fit_node-BestFitSpec job nodes)
