-- ===== src/Store/Keys.antt =====
-- The primary keys of the tables, and updates by key.
pub mod Copies
use mathlib.Core.List.{map-append}
use gpu_cluster_scheduler.Common.{
  suc, String, str_eq, str_eq_iff, Bool-cases, true, false, if◌then◌else◌, inl, inr, none, some,
  List, [], ◌∷◌, ◌++◌, map, All, ◌≡◌, refl, subst, ◌∙◌, arith,
}
use gpu_cluster_scheduler.Store.Database.{Database, Result, Faults, query, update_where, find_where}

-- No key stands twice.
abbrev pub IsUnique : List String → Type 0
IsUnique [] = Unit
IsUnique (k ∷ ks) = All (λ j. str_eq j k ≡ false) ks × IsUnique ks

module _ {A : Type 0} (key : A → String) where
  pub map-update_where :
      (k : String) (f : A → A) (xs : List A)
      → ((x : A) → key (f x) ≡ key x)
      → map key (update_where key k f xs) ≡ map key xs
  map-update_where k f [] h = refl
  map-update_where k f (x ∷ xs) h = elim (Bool-cases (str_eq (key x) k)) [
    | inl e ↦ rw (e, h x, map-update_where k f xs h)
    | inr e ↦ rw (e, map-update_where k f xs h)
  ]

  pub All-update_where :
      (P : A → Type 0) (k : String) (f : A → A) (xs : List A)
      → ((x : A) → str_eq (key x) k ≡ true → P x → P (f x))
      → All P xs
      → All P (update_where key k f xs)
  All-update_where P k f [] h a = tt
  All-update_where P k f (x ∷ xs) h a = elim (Bool-cases (str_eq (key x) k)) [
    | inl e ↦ rw e (h x e a.0, All-update_where P k f xs h a.1)
    | inr e ↦ rw e (a.0, All-update_where P k f xs h a.1)
  ]

  -- Reading a row after an update by key: the updated row at that key, and the old one elsewhere.
  pub find_where-update_where :
      (k j : String) (f : A → A) (xs : List A)
      → ((x : A) → key (f x) ≡ key x)
      → find_where key j (update_where key k f xs) ≡ (
          if str_eq k j
          then elim (find_where key j xs) [ none ↦ none | some x ↦ some (f x) ]
          else find_where key j xs)
  find_where-update_where k j f [] h = ground arith
  find_where-update_where k j f (x ∷ xs) h = ground (
    arith,
    h x,
    str_eq_iff (key x) k,
    str_eq_iff (key x) j,
    str_eq_iff k j,
    find_where-update_where k j f xs h,
  )

  pub find_where-key :
      (k : String) (xs : List A) {x : A} → find_where key k xs ≡ some x → str_eq (key x) k ≡ true
  find_where-key k [] e = absurd (ground arith)
  find_where-key k (y ∷ ys) {x} e = ground (arith, find_where-key k ys {x = x})

  pub All-find_where :
      (P : A → Type 0) (k : String) (xs : List A) {x : A}
      → All P xs
      → find_where key k xs ≡ some x
      → P x
  All-find_where P k [] h e = absurd (ground arith)
  All-find_where P k (y ∷ ys) {x} h e = elim (Bool-cases (str_eq (key y) k)) [
    | inl c ↦ let same : y ≡ x = ground arith in subst P same h.0
    | inr c ↦ All-find_where P k ys h.1 (ground arith)
  ]

  pub All-absent :
      (k : String) (xs : List A)
      → find_where key k xs ≡ none
      → All (λ j. str_eq j k ≡ false) (map key xs)
  All-absent k [] e = tt
  All-absent k (x ∷ xs) e = (ground arith, All-absent k xs (ground arith))

str_eq_sym : (a b : String) → str_eq a b ≡ str_eq b a
str_eq_sym a b = ground (arith, str_eq_iff a b, str_eq_iff b a)

All-snoc :
    (ks : List String) (k : String)
    → All (λ j. str_eq j k ≡ false) ks
    → IsUnique ks
    → IsUnique (ks ++ k ∷ [])
All-snoc [] k h u = (tt, tt)
All-snoc (j ∷ ks) k h u = (snoc j ks k u.0 (str_eq_sym k j ∙ h.0), All-snoc ks k h.1 u.1)
  where
    snoc :
        (j : String) (ks : List String) (k : String)
        → All (λ i. str_eq i j ≡ false) ks
        → str_eq k j ≡ false
        → All (λ i. str_eq i j ≡ false) (ks ++ k ∷ [])
    snoc j [] k h e = (e, tt)
    snoc j (i ∷ ks) k h e = (h.0, snoc j ks k h.1 e)

-- A row whose key is not in the table can be added.
pub IsUnique-insert :
    {A : Type 0} (key : A → String) (xs : List A) (x : A)
    → find_where key (key x) xs ≡ none
    → IsUnique (map key xs)
    → IsUnique (map key (xs ++ x ∷ []))
IsUnique-insert key xs x e u =
    rw map-append (All-snoc (map key xs) (key x) (All-absent key (key x) xs e) u)

-- A query leaves the tables alone, or runs its statement.
pub query_ind :
    {A : Type 0} (P : Database → Type 0) (faults : Faults)
    (statement : Database → Result A × Database) (db : Database)
    → P (record db { queries = suc db.queries })
    → P (statement (record db { queries = suc db.queries })).1
    → P (query faults statement db).1
query_ind P faults statement db failed done = elim (Bool-cases (faults db.queries)) [
  | inl e ↦ rw e failed
  | inr e ↦ rw e done
]
