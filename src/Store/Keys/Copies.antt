-- ===== src/Store/Keys/Copies.antt =====
-- A list that holds the rows of a table (internal/store): in another order, or with one entry replaced.
use mathlib.Core.Option.{some-injective}
use gpu_cluster_scheduler.Common.{
  ℕ, zero, suc, String, str_eq, str_eq_iff, str_eq_refl, Bool, Bool-cases, Option-cases, false,
  if◌then◌else◌, inl, inr, none, some, List, [], ◌∷◌, map, set, get_elem?, All, All-at, map-All,
  Any, Pairwise, ◌≡◌, refl, sym, subst, ap, ◌∙◌, arith,
}
use gpu_cluster_scheduler.Common.Sort.{sort_stable, All-sort_stable}
use gpu_cluster_scheduler.Common.Sort.Entries.{Any-sort_stable, sort_stable-Pairwise}
use gpu_cluster_scheduler.Store.Database.{find_where}
use gpu_cluster_scheduler.Store.Keys.{IsUnique, All-absent, find_where-key}

other_key :
    {A : Type 0} (key : A → String) (x y : A) (ys : List A)
    → All (λ k. str_eq k (key y) ≡ false) (map key ys)
    → Any (λ z. z ≡ x) ys
    → str_eq (key y) (key x) ≡ false
other_key key x y ys h any =
    let apart =
      All-at (λ z. str_eq (key z) (key y) ≡ false) x ys
        (map-All (λ k. str_eq k (key y) ≡ false) key ys h) any in
    ground (arith, apart, str_eq_iff (key y) (key x), str_eq_iff (key x) (key y))

-- The row of a key is the only entry with it.
pub find_where-Any :
    {A : Type 0} (key : A → String) (x : A) (xs : List A)
    → IsUnique (map key xs)
    → Any (λ y. y ≡ x) xs
    → find_where key (key x) xs ≡ some x
find_where-Any key x [] u any = elim any [ ]
find_where-Any key x (y ∷ ys) u (inl same) =
    subst (λ z. find_where key (key z) (y ∷ ys) ≡ some z) same (rw (str_eq_refl (key y)) refl)
find_where-Any key x (y ∷ ys) u (inr any) =
    rw (other_key key x y ys u.0 any) (find_where-Any key x ys u.1 any)

pub get_elem?-Any :
    {A : Type 0} (xs : List A) (i : ℕ) (x : A) → get_elem? xs i ≡ some x → Any (λ y. y ≡ x) xs
get_elem?-Any [] i x e = cc
get_elem?-Any (y ∷ ys) zero x e = inl (ground arith)
get_elem?-Any (y ∷ ys) (suc i) x e = inr (get_elem?-Any ys i x e)

module _ {A : Type 0} (key : A → String) where
  abbrev pub Apart : A → A → Type 0
  Apart a b = str_eq (key b) (key a) ≡ false

  pub Apart-sym : (a b : A) → Apart a b → Apart b a
  Apart-sym a b h = ground (arith, str_eq_iff (key a) (key b), str_eq_iff (key b) (key a))

  map-all : (P : String → Type 0) (xs : List A) → All (λ x. P (key x)) xs → All P (map key xs)
  map-all P [] h = tt
  map-all P (x ∷ xs) h = (h.0, map-all P xs h.1)

  pub IsUnique-Pairwise : (xs : List A) → IsUnique (map key xs) → Pairwise Apart xs
  IsUnique-Pairwise [] u = tt
  IsUnique-Pairwise (x ∷ xs) u =
      (map-All (λ k. str_eq k (key x) ≡ false) key xs u.0, IsUnique-Pairwise xs u.1)

  Pairwise-IsUnique : (xs : List A) → Pairwise Apart xs → IsUnique (map key xs)
  Pairwise-IsUnique [] w = tt
  Pairwise-IsUnique (x ∷ xs) w =
      (map-all (λ k. str_eq k (key x) ≡ false) xs w.0, Pairwise-IsUnique xs w.1)

  pub sort_stable-IsUnique :
      (less : A → A → Bool) (xs : List A)
      → IsUnique (map key xs)
      → IsUnique (map key (sort_stable less xs))
  sort_stable-IsUnique less xs u =
      Pairwise-IsUnique _ (sort_stable-Pairwise less Apart Apart-sym xs (IsUnique-Pairwise xs u))

  find_where-none :
      (k : String) (xs : List A)
      → All (λ x. str_eq (key x) k ≡ false) xs
      → find_where key k xs ≡ none
  find_where-none k [] h = refl
  find_where-none k (x ∷ xs) h = rw h.0 (find_where-none k xs h.1)

  found-Any :
      (k : String) (xs : List A) {x : A} → find_where key k xs ≡ some x → Any (λ y. y ≡ x) xs
  found-Any k [] e = absurd (ground arith)
  found-Any k (y ∷ ys) {x} e = elim (Bool-cases (str_eq (key y) k)) [
    | inl c ↦ inl (ground arith)
    | inr c ↦ inr (found-Any k ys {x = x} (ground arith))
  ]

  -- A sort of a table with unique keys has the same row at every key.
  pub find_where-sort_stable :
      (less : A → A → Bool) (k : String) (xs : List A)
      → IsUnique (map key xs)
      → find_where key k (sort_stable less xs) ≡ find_where key k xs
  find_where-sort_stable less k xs u = elim (Option-cases (find_where key k xs)) [
    | inl e ↦
        let gone = map-All (λ j. str_eq j k ≡ false) key xs (All-absent key k xs e) in
        find_where-none k _ (All-sort_stable less _ xs gone) ∙ sym e
    | inr (x, e) ↦
        let same : key x ≡ k = (str_eq_iff (key x) k).0 (find_where-key key k xs e) in
        let listed = Any-sort_stable less (λ y. y ≡ x) xs (found-Any k xs e) in
        let row =
          find_where-Any key x (sort_stable less xs) (sort_stable-IsUnique less xs u) listed in
        subst (λ j. find_where key j (sort_stable less xs) ≡ some x) same row ∙ sym e
  ]

  -- An entry replaced by one of the same key.
  pub find_where-set :
      (xs : List A) (i : ℕ) (x y : A) (k : String)
      → IsUnique (map key xs)
      → get_elem? xs i ≡ some x
      → key y ≡ key x
      → find_where key k (set xs i y) ≡ (if str_eq (key x) k then some y else find_where key k xs)
  find_where-set [] i x y k u e same = cc
  find_where-set (z ∷ zs) zero x y k u e same =
      ground (arith, e, same, ap key (some-injective _ _ e))
  find_where-set (z ∷ zs) (suc i) x y k u e same = ground (
    arith,
    other_key key x z zs u.0 (get_elem?-Any zs i x e),
    str_eq_iff (key z) k,
    str_eq_iff (key x) k,
    str_eq_iff (key z) (key x),
    find_where-set zs i x y k u.1 e same,
  )

  pub map-set :
      (xs : List A) (i : ℕ) (x y : A)
      → get_elem? xs i ≡ some x
      → key y ≡ key x
      → map key (set xs i y) ≡ map key xs
  map-set [] i x y e same = refl
  map-set (z ∷ zs) zero x y e same = ground arith
  map-set (z ∷ zs) (suc i) x y e same = ap (λ ks. key z ∷ ks) (map-set zs i x y e same)
