-- ===== src/Placement/Scores.antt =====
-- The order of the scores of `bestFitNode` (internal/scheduler/placement.go).
use gpu_cluster_scheduler.Common.{ℤ, ◌≤ℤ◌, ◌<ℤ◌, true, false, ◌≡◌, arith, ◌⊎◌}
use gpu_cluster_scheduler.Placement.{ScoreVec, score_less}

-- The lexicographic orders.
abbrev pub SameInt : ℤ → ℤ → Type 0
SameInt a b = (a ≤ℤ b) × (b ≤ℤ a)

abbrev pub LexLt : ScoreVec → ScoreVec → Type 0
LexLt a b =
    (a.gpu <ℤ b.gpu)
    ⊎ (SameInt a.gpu b.gpu × (a.cpu <ℤ b.cpu))
    ⊎ (SameInt a.gpu b.gpu × SameInt a.cpu b.cpu × (a.mem <ℤ b.mem))

abbrev pub LexLe : ScoreVec → ScoreVec → Type 0
LexLe a b =
    (a.gpu <ℤ b.gpu)
    ⊎ (SameInt a.gpu b.gpu × (a.cpu <ℤ b.cpu))
    ⊎ (SameInt a.gpu b.gpu × SameInt a.cpu b.cpu × (a.mem ≤ℤ b.mem))

pub score_less→LexLt : (a b : ScoreVec) → score_less a b ≡ true → LexLt a b
unfolding score_less
score_less→LexLt a b p = ground arith

pub score_less→LexLe : (a b : ScoreVec) → score_less a b ≡ false → LexLe b a
unfolding score_less
score_less→LexLe a b p = ground arith

pub LexLt→score_less : (a b : ScoreVec) → LexLt a b → score_less a b ≡ true
unfolding score_less
LexLt→score_less a b p = ground arith

pub LexLe→score_less : (a b : ScoreVec) → LexLe b a → score_less a b ≡ false
unfolding score_less
LexLe→score_less a b p = ground arith

pub LexLt-le_trans : (a b c : ScoreVec) → LexLt a b → LexLe b c → LexLt a c
LexLt-le_trans a b c p q = omega arith

pub score_less-le_trans :
    (a b c : ScoreVec) → score_less a b ≡ true → score_less c b ≡ false → score_less a c ≡ true
score_less-le_trans a b c p q =
    LexLt→score_less a c (LexLt-le_trans a b c (score_less→LexLt a b p) (score_less→LexLe c b q))

pub score_less_trans :
    (a b c : ScoreVec) → score_less a b ≡ true → score_less b c ≡ true → score_less a c ≡ true
score_less_trans a b c p q =
    LexLt→score_less a c
      (LexLt-le_trans a b c (score_less→LexLt a b p) (omega (arith, score_less→LexLt b c q)))
