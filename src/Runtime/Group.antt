-- ===== src/Runtime/Group.antt =====
-- When a group of internal/runtimex/runtimex.go returns, and with which error.
use gpu_cluster_scheduler.Common.{
  ℕ, ◌≤◌, ltb, String, Bool, false, inl, inr, Option, Option-cases, none, some, List, [], ◌∷◌, All,
  Any, ◌≡◌, refl, subst, sym, ◌⊎◌, arith,
}
use gpu_cluster_scheduler.Common.Sort.{sort_stable, StrictWeak, IsOrdered, sort_stable-IsOrdered}
use gpu_cluster_scheduler.Common.Sort.Entries.{sort_stable-All, sort_stable-Any}
use gpu_cluster_scheduler.Runtime.{
  Exit, clean, canceled, failure, End, Cancellation, Member, ends_of, first_error, result_of,
  run_group,
}

-- No error for the group.
abbrev pub IsQuiet : Exit → Type 0
IsQuiet clean = Unit
IsQuiet canceled = Unit
IsQuiet (failure text) = ⊥

-- The member returns, and its end is so.
abbrev pub Returns : Cancellation → (End → Type 0) → Member → Type 0
Returns c P m = (e : End) × (m c ≡ some e) × P e

-- An end that is no failure before a time.
abbrev pub NotBefore : ℕ → End → Type 0
NotBefore t e = IsQuiet e.exit ⊎ (t ≤ e.time)

-- What a group comes to: it never returns exactly if some function never does; it returns no error if every
-- function returned none but the cancellation; or the error of a function before which none failed.
pub data Outcome (c : Cancellation) (members : List Member) : Option (Option String) → Type 0 where
  blocked : Any (λ m. m c ≡ none) members → Outcome c members none
  quiet : All (Returns c (λ e. IsQuiet e.exit)) members → Outcome c members (some none)
  failed :
      (text : String) (t : ℕ)
      → Any (Returns c (λ e. (e.time ≡ t) × (e.exit ≡ failure text))) members
      → All (Returns c (NotBefore t)) members
      → Outcome c members (some (some text))

abbrev earlier : End → End → Bool
earlier a b = ltb a.time b.time

earlier-StrictWeak : StrictWeak earlier
earlier-StrictWeak = record {
  asym = λ a b h. ground arith;
  not_less_trans = λ a b c h k. ground arith;
}

Fails : String → End → Type 0
Fails text e = e.exit ≡ failure text

-- The first error of ends that are in order.
abbrev First : List End → Option String → Type 0
First es none = All (λ e. IsQuiet e.exit) es
First es (some text) =
    (t : ℕ) × Any (λ e. (e.time ≡ t) × (e.exit ≡ failure text)) es × All (NotBefore t) es

later-NotBefore :
    (x : End) (es : List End) → All (λ e. earlier e x ≡ false) es → All (NotBefore x.time) es
later-NotBefore x [] h = tt
later-NotBefore x (e ∷ es) h = (inr (ground arith), later-NotBefore x es h.1)

pass_quiet :
    (x : End) (es : List End) (o : Option String) → IsQuiet x.exit → First es o → First (x ∷ es) o
pass_quiet x es none q h = (q, h)
pass_quiet x es (some text) q (t, found, all) = (t, inr found, (inl q, all))

first_error-First : (es : List End) → IsOrdered earlier es → First es (first_error es)
unfolding first_error
first_error-First [] h = tt
first_error-First (x ∷ es) h = by_exit x.exit refl (first_error-First es h.1)
  where
    by_exit :
        (exit : Exit)
        → x.exit ≡ exit
        → First es (first_error es)
        → First (x ∷ es) (first_error (x ∷ es))
    by_exit clean e rest =
        let same : first_error (x ∷ es) ≡ first_error es = rw e refl in
        subst (λ o. First (x ∷ es) o) (sym same)
          (pass_quiet x es (first_error es) (subst IsQuiet (sym e) tt) rest)
    by_exit canceled e rest =
        let same : first_error (x ∷ es) ≡ first_error es = rw e refl in
        subst (λ o. First (x ∷ es) o) (sym same)
          (pass_quiet x es (first_error es) (subst IsQuiet (sym e) tt) rest)
    by_exit (failure text) e rest =
        let same : first_error (x ∷ es) ≡ some text = rw e refl in
        subst (λ o. First (x ∷ es) o) (sym same)
          (x.time, inl (refl, e), (inr (omega arith), later-NotBefore x es h.0))

-- These are the ends of the members.
abbrev Ended : Cancellation → List Member → List End → Type 0
Ended c [] [] = Unit
Ended c [] (e ∷ es) = ⊥
Ended c (m ∷ ms) [] = ⊥
Ended c (m ∷ ms) (e ∷ es) = (m c ≡ some e) × Ended c ms es

module _ (c : Cancellation) (P : End → Type 0) where
  Ended-All : (ms : List Member) (es : List End) → Ended c ms es → All P es → All (Returns c P) ms
  Ended-All [] es h all = tt
  Ended-All (m ∷ ms) [] h all = elim h [ ]
  Ended-All (m ∷ ms) (e ∷ es) h all = ((e, h.0, all.0), Ended-All ms es h.1 all.1)

  Ended-Any : (ms : List Member) (es : List End) → Ended c ms es → Any P es → Any (Returns c P) ms
  Ended-Any ms [] h any = elim any [ ]
  Ended-Any [] (e ∷ es) h any = elim h [ ]
  Ended-Any (m ∷ ms) (e ∷ es) h (inl p) = inl (e, h.0, p)
  Ended-Any (m ∷ ms) (e ∷ es) h (inr any) = inr (Ended-Any ms es h.1 any)

abbrev Ends : Cancellation → List Member → Option (List End) → Type 0
Ends c ms none = Any (λ m. m c ≡ none) ms
Ends c ms (some es) = Ended c ms es

add_end :
    (c : Cancellation) (m : Member) (ms : List Member) (x : End) (o : Option (List End))
    → m c ≡ some x
    → ends_of c ms ≡ o
    → Ends c ms o
    → Ends c (m ∷ ms) (ends_of c (m ∷ ms))
unfolding ends_of
add_end c m ms x none e same h =
    let value : ends_of c (m ∷ ms) ≡ none = ground arith in
    subst (λ o. Ends c (m ∷ ms) o) (sym value) (inr h)
add_end c m ms x (some es) e same h =
    let value : ends_of c (m ∷ ms) ≡ some (x ∷ es) = ground arith in
    subst (λ o. Ends c (m ∷ ms) o) (sym value) (e, h)

ends_of-Ends : (c : Cancellation) (ms : List Member) → Ends c ms (ends_of c ms)
unfolding ends_of
ends_of-Ends c [] = tt
ends_of-Ends c (m ∷ ms) = elim (Option-cases (m c)) [
  | inl e ↦
      let value : ends_of c (m ∷ ms) ≡ none = ground arith in
      subst (λ o. Ends c (m ∷ ms) o) (sym value) (inl e)
  | inr (x, e) ↦ add_end c m ms x (ends_of c ms) e refl (ends_of-Ends c ms)
]

group-Outcome :
    (c : Cancellation) (ms : List Member) (o : Option (List End))
    → Ends c ms o
    → Outcome c ms (result_of o)
unfolding result_of
group-Outcome c ms none h = blocked h
group-Outcome c ms (some es) h =
    by_first (first_error (sort_stable earlier es))
      (first_error-First _ (sort_stable-IsOrdered earlier earlier-StrictWeak es))
  where
    by_first : (o : Option String) → First (sort_stable earlier es) o → Outcome c ms (some o)
    by_first none q = quiet (Ended-All c _ ms es h (sort_stable-All earlier _ es q))
    by_first (some text) (t, found, all) =
        failed text t (Ended-Any c _ ms es h (sort_stable-Any earlier _ es found))
          (Ended-All c _ ms es h (sort_stable-All earlier _ es all))

-- A group never returns if one of its functions never does, whatever errors the others return: none of
-- them stops the group. Otherwise it returns no error exactly if every function returned none but the
-- cancellation, and else the error of a function before which no other failed.
pub run_group-Outcome : (c : Cancellation) (ms : List Member) → Outcome c ms (run_group c ms)
unfolding run_group
run_group-Outcome c ms = group-Outcome c ms (ends_of c ms) (ends_of-Ends c ms)
