-- ===== src/Common/Sort/Entries.antt =====
-- What the entries of a sorted list have of those of the list, and the other way.
use mathlib.Core.Logic.{◌⊎◌, inl, inr}
use mathlib.Core.Bool.{Bool}
use mathlib.Core.List.{List, [], ◌∷◌}
use gpu_cluster_scheduler.Common.Tests.{Bool-cases}
use gpu_cluster_scheduler.Common.Lists.{All, Any, Pairwise}
use gpu_cluster_scheduler.Common.Sort.{
  insert_stable, sort_stable, All-insert_stable, All-sort_stable,
}

module _ {ℓ} {A : Type ℓ} (less : A → A → Bool) where
  module _ {κ} (P : A → Type κ) where
    insert_stable-All : (x : A) (ys : List A) → All P (insert_stable less x ys) → P x × All P ys
    unfolding insert_stable
    insert_stable-All x [] h = h
    insert_stable-All x (y ∷ ys) h = elim (Bool-cases (less y x)) [
      | inl e ↦
          let k : All P (y ∷ insert_stable less x ys) = rw e at h in
          let rest = insert_stable-All x ys k.1 in (rest.0, (k.0, rest.1))
      | inr e ↦ rw e at h
    ]

    pub sort_stable-All : (xs : List A) → All P (sort_stable less xs) → All P xs
    unfolding sort_stable
    sort_stable-All [] h = tt
    sort_stable-All (x ∷ xs) h =
        let first = insert_stable-All x (sort_stable less xs) h in
        (first.0, sort_stable-All xs first.1)

  module _ (P : A → Type 0) where
    insert_stable-Any : (x : A) (ys : List A) → Any P (insert_stable less x ys) → P x ⊎ Any P ys
    unfolding insert_stable
    insert_stable-Any x [] h = h
    insert_stable-Any x (y ∷ ys) h = elim (Bool-cases (less y x)) [
      | inl e ↦
          let k : Any P (y ∷ insert_stable less x ys) = rw e at h in
          elim k [
            | inl p ↦ inr (inl p)
            | inr later ↦ elim (insert_stable-Any x ys later) [
              | inl p ↦ inl p
              | inr q ↦ inr (inr q)
            ]
          ]
      | inr e ↦ rw e at h
    ]

    Any-insert_stable : (x : A) (ys : List A) → P x ⊎ Any P ys → Any P (insert_stable less x ys)
    unfolding insert_stable
    Any-insert_stable x [] h = h
    Any-insert_stable x (y ∷ ys) h = elim (Bool-cases (less y x)) [
      | inl e ↦ rw e (elim h [
        | inl p ↦ inr (Any-insert_stable x ys (inl p))
        | inr (inl p) ↦ inl p
        | inr (inr q) ↦ inr (Any-insert_stable x ys (inr q))
      ])
      | inr e ↦ rw e h
    ]

    pub Any-sort_stable : (xs : List A) → Any P xs → Any P (sort_stable less xs)
    unfolding sort_stable
    Any-sort_stable [] h = h
    Any-sort_stable (x ∷ xs) (inl p) = Any-insert_stable x (sort_stable less xs) (inl p)
    Any-sort_stable (x ∷ xs) (inr q) =
        Any-insert_stable x (sort_stable less xs) (inr (Any-sort_stable xs q))

    pub sort_stable-Any : (xs : List A) → Any P (sort_stable less xs) → Any P xs
    unfolding sort_stable
    sort_stable-Any [] h = h
    sort_stable-Any (x ∷ xs) h = elim (insert_stable-Any x (sort_stable less xs) h) [
      | inl p ↦ inl p
      | inr later ↦ inr (sort_stable-Any xs later)
    ]

  -- A relation between any two entries survives the sort, if it has no direction.
  module _ (R : A → A → Type 0) (turn : (a b : A) → R a b → R b a) where
    turned : (x : A) (ys : List A) → All (R x) ys → All (λ y. R y x) ys
    turned x [] h = tt
    turned x (y ∷ ys) h = (turn x y h.0, turned x ys h.1)

    insert_stable-Pairwise :
        (x : A) (ys : List A) → All (R x) ys → Pairwise R ys → Pairwise R (insert_stable less x ys)
    unfolding insert_stable
    insert_stable-Pairwise x [] h w = (tt, tt)
    insert_stable-Pairwise x (y ∷ ys) h w = elim (Bool-cases (less y x)) [
      | inl e ↦ rw e (
        All-insert_stable less (R y) x ys (turn x y h.0) w.0,
        insert_stable-Pairwise x ys h.1 w.1,
      )
      | inr e ↦ rw e (h, w)
    ]

    pub sort_stable-Pairwise : (xs : List A) → Pairwise R xs → Pairwise R (sort_stable less xs)
    unfolding sort_stable
    sort_stable-Pairwise [] h = tt
    sort_stable-Pairwise (x ∷ xs) h =
        insert_stable-Pairwise x (sort_stable less xs) (All-sort_stable less (R x) xs h.0)
          (sort_stable-Pairwise xs h.1)
