-- ===== src/Common/Sort.antt =====
-- `sort.SliceStable` of the standard library: a stable sort by a Boolean `less`.
pub mod Entries
use mathlib.Core.List.Perm
use mathlib.Core.List.{Perm}
use mathlib.Core.Path.{◌≡◌, refl}
use mathlib.Core.Logic.{inl, inr}
use mathlib.Core.Bool.{Bool, true, false, not, ◌&&◌}
use gpu_cluster_scheduler.Common.Int.{ℤ, ltb_ℤ, eqb_ℤ}
use mathlib.Core.List.{List, [], ◌∷◌}
use native.Mathlib.Omega.{arith}
use gpu_cluster_scheduler.Common.Tests.{if◌then◌else◌, Bool-cases}
use gpu_cluster_scheduler.Common.Lists.{All, Pairwise, select}

module _ {ℓ} {A : Type ℓ} (less : A → A → Bool) where
  insert_stable : A → List A → List A
  insert_stable x [] = x ∷ []
  insert_stable x (y ∷ ys) =
      let rest = insert_stable x ys in if less y x then y ∷ rest else x ∷ y ∷ ys

  unfoldable pub sort_stable : List A → List A
  unfolding insert_stable
  sort_stable [] = []
  sort_stable (x ∷ xs) = insert_stable x (sort_stable xs)

  -- No later entry is less than an earlier one.
  abbrev pub IsOrdered : List A → Type 0
  IsOrdered [] = Unit
  IsOrdered (x ∷ xs) = All (λ y. less y x ≡ false) xs × IsOrdered xs

  -- What the order says of any two entries.
  module _ (R : A → A → Type 0) (says : (a b : A) → less b a ≡ false → R a b) where
    all-says : (x : A) (ys : List A) → All (λ y. less y x ≡ false) ys → All (R x) ys
    all-says x [] h = tt
    all-says x (y ∷ ys) h = (says x y h.0, all-says x ys h.1)

    pub IsOrdered-Pairwise : (xs : List A) → IsOrdered xs → Pairwise R xs
    IsOrdered-Pairwise [] h = tt
    IsOrdered-Pairwise (x ∷ xs) h = (all-says x xs h.0, IsOrdered-Pairwise xs h.1)

  module _ {κ} (P : A → Type κ) where
    All-insert_stable : (x : A) (ys : List A) → P x → All P ys → All P (insert_stable x ys)
    unfolding insert_stable
    All-insert_stable x [] p h = (p, tt)
    All-insert_stable x (y ∷ ys) p h = elim (Bool-cases (less y x)) [
      | inl e ↦ rw e (h.0, All-insert_stable x ys p h.1)
      | inr e ↦ rw e (p, h)
    ]

    pub All-sort_stable : (xs : List A) → All P xs → All P (sort_stable xs)
    unfolding sort_stable
    All-sort_stable [] h = tt
    All-sort_stable (x ∷ xs) h = All-insert_stable x (sort_stable xs) h.0 (All-sort_stable xs h.1)

  insert_stable-perm : (x : A) (ys : List A) → Perm (insert_stable x ys) (x ∷ ys)
  unfolding insert_stable
  insert_stable-perm x [] = Perm.rfl
  insert_stable-perm x (y ∷ ys) = elim (Bool-cases (less y x)) [
    | inl e ↦ rw e (Perm.trans (Perm.cons y (insert_stable-perm x ys)) (Perm.swap x y ys))
    | inr e ↦ rw e Perm.rfl
  ]

  pub sort_stable-perm : (xs : List A) → Perm (sort_stable xs) xs
  unfolding sort_stable
  sort_stable-perm [] = Perm.rfl
  sort_stable-perm (x ∷ xs) =
      Perm.trans (insert_stable-perm x (sort_stable xs)) (Perm.cons x (sort_stable-perm xs))

  -- `less` as `sort` wants it: a strict order whose incomparable entries tie.
  pub record StrictWeak : Type ℓ where
    pub asym : (a b : A) → less a b ≡ true → less b a ≡ false
    pub not_less_trans : (a b c : A) → less b a ≡ false → less c b ≡ false → less c a ≡ false

  module _ (w : StrictWeak) where
    not_less_all :
        (x y : A) (ys : List A)
        → less y x ≡ false
        → All (λ z. less z y ≡ false) ys
        → All (λ z. less z x ≡ false) ys
    not_less_all x y [] e h = tt
    not_less_all x y (z ∷ zs) e h = (w.not_less_trans x y z e h.0, not_less_all x y zs e h.1)

    insert_stable-IsOrdered : (x : A) (ys : List A) → IsOrdered ys → IsOrdered (insert_stable x ys)
    unfolding insert_stable
    insert_stable-IsOrdered x [] h = (tt, tt)
    insert_stable-IsOrdered x (y ∷ ys) h = elim (Bool-cases (less y x)) [
      | inl e ↦ rw e (
        All-insert_stable (λ z. less z y ≡ false) x ys (w.asym y x e) h.0,
        insert_stable-IsOrdered x ys h.1,
      )
      | inr e ↦ rw e ((e, not_less_all x y ys e h.0), h)
    ]

    pub sort_stable-IsOrdered : (xs : List A) → IsOrdered (sort_stable xs)
    unfolding sort_stable
    sort_stable-IsOrdered [] = tt
    sort_stable-IsOrdered (x ∷ xs) =
        insert_stable-IsOrdered x (sort_stable xs) (sort_stable-IsOrdered xs)

  -- Entries that tie keep their order.
  module _ (p : A → Bool) (tie : (a b : A) → p a ≡ true → p b ≡ true → less a b ≡ false) where
    select-insert_stable : (x : A) (ys : List A) → select p (insert_stable x ys) ≡ select p (x ∷ ys)
    unfolding insert_stable
    select-insert_stable x [] = refl
    select-insert_stable x (y ∷ ys) = ground (arith, select-insert_stable x ys, tie y x)

    pub select-sort_stable : (xs : List A) → select p (sort_stable xs) ≡ select p xs
    unfolding sort_stable
    select-sort_stable [] = refl
    select-sort_stable (x ∷ xs) =
        ground (arith, select-insert_stable x (sort_stable xs), select-sort_stable xs)

-- Comparison by a first key, and by a second where the first ties.
module _ {ℓ} {A : Type ℓ} (f g eq : A → A → Bool) where
  abbrev pub lex_less : A → A → Bool
  lex_less a b = if not (eq a b) then f a b else g a b

  lex-asym :
      StrictWeak f
      → StrictWeak g
      → ((a b : A) → eq a b ≡ (not (f a b) && not (f b a)))
      → (a b : A) → lex_less a b ≡ true
      → lex_less b a ≡ false
  lex-asym wf wg tie a b h = ground (arith, wf.asym a b, wg.asym a b, tie a b, tie b a)

  lex_trans :
      StrictWeak f
      → StrictWeak g
      → ((a b : A) → eq a b ≡ (not (f a b) && not (f b a)))
      → (a b c : A) → lex_less b a ≡ false
      → lex_less c b ≡ false
      → lex_less c a ≡ false
  lex_trans wf wg tie a b c h k = ground (
    arith,
    wf.not_less_trans a b c,
    wf.not_less_trans b c a,
    wf.not_less_trans c a b,
    wg.not_less_trans a b c,
    tie b a,
    tie c b,
    tie c a,
  )

  pub lex_less-StrictWeak :
      StrictWeak f
      → StrictWeak g
      → ((a b : A) → eq a b ≡ (not (f a b) && not (f b a)))
      → StrictWeak lex_less
  lex_less-StrictWeak wf wg tie = record {
    asym = lex-asym wf wg tie;
    not_less_trans = lex_trans wf wg tie;
  }

module _ {ℓ} {A : Type ℓ} (key : A → ℤ) where
  pub ascending-StrictWeak : StrictWeak (λ a b. ltb_ℤ (key a) (key b))
  ascending-StrictWeak = record {
    asym = λ a b h. ground arith;
    not_less_trans = λ a b c h k. ground arith;
  }

  pub descending-StrictWeak : StrictWeak (λ a b. ltb_ℤ (key b) (key a))
  descending-StrictWeak = record {
    asym = λ a b h. ground arith;
    not_less_trans = λ a b c h k. ground arith;
  }

  pub ascending-tie :
      (a b : A)
      → eqb_ℤ (key a) (key b) ≡ (not (ltb_ℤ (key a) (key b)) && not (ltb_ℤ (key b) (key a)))
  ascending-tie a b = ground arith

  pub descending-tie :
      (a b : A)
      → eqb_ℤ (key a) (key b) ≡ (not (ltb_ℤ (key b) (key a)) && not (ltb_ℤ (key a) (key b)))
  descending-tie a b = ground arith
