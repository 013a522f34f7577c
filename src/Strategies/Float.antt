-- ===== src/Strategies/Float.antt =====
-- Go's float64, as far as the scheduling policies use it: an interface of operations, and the laws that
-- hold of them away from NaN.
use gpu_cluster_scheduler.Common.{ℤ, ◌≤ℤ◌, Bool, not, ◌&&◌, false, ◌≡◌}
use gpu_cluster_scheduler.Common.Sort.{StrictWeak}
use gpu_cluster_scheduler.Models.{Duration}

pub record Float64 : Type 1 where
  pub Carrier : Type 0
  pub zero : Carrier
  pub of_int : ℤ → Carrier
  pub minutes : Duration → Carrier  -- Duration.Minutes
  pub times : Carrier → Carrier → Carrier
  pub over : Carrier → Carrier → Carrier
  pub lt : Carrier → Carrier → Bool
  pub eqb : Carrier → Carrier → Bool
  pub truncate : Carrier → ℤ  -- int(x)

module _ (float : Float64) where
  open float use {Carrier, zero, minutes, times, lt, eqb, truncate}

  -- Comparison of numbers is a total order.
  pub record IsOrderedFloat : Type 0 where
    pub weak : StrictWeak lt
    pub tie : (a b : Carrier) → eqb a b ≡ (not (lt a b) && not (lt b a))

  -- Rounded operations are monotone, and those on zero are exact.
  pub record IsMonotone : Type 0 where
    pub minutes_mono : (a b : Duration) → a ≤ℤ b → lt (minutes b) (minutes a) ≡ false
    pub times_mono :
        (a b c : Carrier) → lt c zero ≡ false → lt b a ≡ false → lt (times b c) (times a c) ≡ false
    pub truncate_mono : (a b : Carrier) → lt b a ≡ false → truncate a ≤ℤ truncate b
