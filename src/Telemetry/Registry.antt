-- ===== src/Telemetry/Registry.antt =====
-- What internal/telemetry/metrics.go registers.
use gpu_cluster_scheduler.Common.{
  String, false, none, some, List, [], ◌∷◌, map, All, ◌≡◌, refl, ◌∙◌, inl, inr, Option-cases,
  str_eq, str_eq_iff, str_eq_refl, arith,
}
use gpu_cluster_scheduler.Store.Keys.{IsUnique}
use gpu_cluster_scheduler.Telemetry.{Instrument, new_metrics, find_instrument, register_all}

abbrev instrument_name : Instrument → String
instrument_name i = i.name

-- No two collectors have one name.
new_metrics-IsUnique : IsUnique (map instrument_name new_metrics)
unfolding new_metrics
new_metrics-IsUnique = ground arith

-- The registry has nothing under these names yet.
abbrev pub IsFree : List Instrument → List Instrument → Type 0
IsFree registry is = All (λ i. find_instrument i.name registry ≡ none) is

IsFree-cons :
    (i : Instrument) (registry is : List Instrument)
    → All (λ j. str_eq j i.name ≡ false) (map instrument_name is)
    → IsFree registry is
    → IsFree (i ∷ registry) is
unfolding find_instrument
IsFree-cons i registry [] h free = tt
IsFree-cons i registry (j ∷ is) h free = (
  ground (arith, free.0, h.0, str_eq_iff i.name j.name, str_eq_iff j.name i.name),
  IsFree-cons i registry is h.1 free.1,
)

-- What was registered before is found as before.
register_all-keeps :
    (is registry after : List Instrument) (name : String)
    → register_all registry is ≡ some after
    → All (λ j. str_eq j name ≡ false) (map instrument_name is)
    → find_instrument name after ≡ find_instrument name registry
unfolding register_all find_instrument
register_all-keeps [] registry after name e h = ground arith
register_all-keeps (i ∷ is) registry after name e h =
    elim (Option-cases (find_instrument i.name registry)) [
      | inr (x, f) ↦ absurd (ground (arith, f))
      | inl f ↦
          let rest = register_all-keeps is (i ∷ registry) after name (ground (arith, f)) h.1 in
          ground (arith, rest, h.0)
    ]

-- After the registration each is found under its name.
abbrev pub IsRegistered : List Instrument → List Instrument → Type 0
IsRegistered registry is = All (λ i. find_instrument i.name registry ≡ some i) is

pub register_all-IsRegistered :
    (is registry : List Instrument)
    → IsUnique (map instrument_name is)
    → IsFree registry is
    → (after : List Instrument) × (register_all registry is ≡ some after) × IsRegistered after is
unfolding register_all find_instrument
register_all-IsRegistered [] registry u free = (registry, refl, tt)
register_all-IsRegistered (i ∷ is) registry u free =
    let (after, e, found) =
      register_all-IsRegistered is (i ∷ registry) u.1 (IsFree-cons i registry is u.0 free.1) in
    (
      after,
      ground (arith, e, free.0),
      (
        register_all-keeps is (i ∷ registry) after i.name e u.0
            ∙ ground (arith, str_eq_refl i.name),
        found,
      ),
    )

-- The collectors of `NewMetrics` can all be registered, without the panic on a name that is taken, on every
-- registry that has none of their names; each is then found under its own.
pub new_metrics-IsRegistered :
    (registry : List Instrument)
    → IsFree registry new_metrics
    → (after : List Instrument) × (register_all registry new_metrics ≡ some after)
      × IsRegistered after new_metrics
new_metrics-IsRegistered registry free =
    register_all-IsRegistered new_metrics registry new_metrics-IsUnique free
