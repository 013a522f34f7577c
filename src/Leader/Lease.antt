-- ===== src/Leader/Lease.antt =====
-- Single leadership under internal/redisx/leader.go.
use gpu_cluster_scheduler.Common.{
  ℕ, ◌+◌, ◌<◌, String, str_eq, str_eq_iff, Bool, Bool-cases, Option-cases, true, false,
  if◌then◌else◌, inl, inr, ◌⊎◌, Option, none, some, ◌≡◌, refl, sym, ap, subst, ◌∙◌, arith,
}
use mathlib.Core.Option.{some-injective}
use gpu_cluster_scheduler.Leader.{
  Lock, live, Redis, IsRedis, Delivery, answered, lost, unanswered, delivered, try_acquire, owns,
  renew, release, Election, lead, Step, waits, acquires, renews, stops, releases, Run, here, next,
}

-- A lease that has not ended is the one that Redis has.
abbrev HoldsLock : ℕ → (String → Option ℕ) → ℕ → Lock → Type 0
HoldsLock ttl leads now lock =
    (id : String) (since : ℕ)
    → leads id ≡ some since
    → now < since + ttl
    → lock ≡ some (id, since + ttl)

held_live :
    (ttl : ℕ) (leads : String → Option ℕ) (now : ℕ) (lock : Lock)
    → HoldsLock ttl leads now lock
    → (id : String) (since : ℕ) → leads id ≡ some since
    → now < since + ttl
    → live lock now ≡ some id
held_live ttl leads now lock h id since e fresh = rw (h id since e fresh) (ground arith)

-- What a call of one instance does: nothing, or it takes a lock that no other instance holds.
Effect : ℕ → ℕ → String → Lock → Lock → Option ℕ → Type 0
Effect ttl now me old new granted =
    ((new ≡ old) × (granted ≡ none))
    ⊎ (((other : String) → live old now ≡ some other → other ≡ me)
        × (new ≡ some (me, now + ttl))
        × ((granted ≡ none) ⊎ (granted ≡ some now)))

Effect-HoldsLock :
    (ttl : ℕ) (leads : String → Option ℕ) (now : ℕ) (old new : Lock) (me : String)
    (granted : Option ℕ)
    → Effect ttl now me old new granted
    → HoldsLock ttl leads now old
    → HoldsLock ttl (lead me granted leads) now new
unfolding Effect
Effect-HoldsLock ttl leads now old new me granted (inl (same, refused)) h id since e fresh =
    elim (Bool-cases (str_eq id me)) [
      | inl c ↦ absurd (ground arith)
      | inr c ↦ same ∙ h id since (ground arith) fresh
    ]
Effect-HoldsLock ttl leads now old new me granted (inr (mine, taken, inl refused)) h id since e
      fresh =
    elim (Bool-cases (str_eq id me)) [
      | inl c ↦ absurd (ground arith)
      | inr c ↦
          let l = mine id (held_live ttl leads now old h id since (ground arith) fresh) in
          absurd (ground (arith, str_eq_iff id me))
    ]
Effect-HoldsLock ttl leads now old new me granted (inr (mine, taken, inr got)) h id since e fresh =
    elim (Bool-cases (str_eq id me)) [
      | inl c ↦
          let key : id ≡ me = (str_eq_iff id me).0 c in
          let at : since ≡ now = ground arith in rw (key, at) taken
      | inr c ↦
          let l = mine id (held_live ttl leads now old h id since (ground arith) fresh) in
          absurd (ground (arith, str_eq_iff id me))
    ]

module _ (redis : Redis) (laws : IsRedis redis) (ttl : ℕ) where
  -- The three deliveries of a call whose answered effect is known.
  abbrev grant : ℕ → Bool → Option ℕ
  grant now ok = if ok then some now else none

  delivery-Effect :
      (d : Delivery) (now : ℕ) (me : String) (s s' : redis.State) (ok : Bool)
      → Effect ttl now me (redis.lock s) (redis.lock s') (grant now ok)
      → Effect ttl now me
          (redis.lock s)
          (redis.lock (delivered redis ttl d s (s', ok)).0)
          (grant now (delivered redis ttl d s (s', ok)).1)
  unfolding Effect
  delivery-Effect answered now me s s' ok h = h
  delivery-Effect lost now me s s' ok h = inl (refl, refl)
  delivery-Effect unanswered now me s s' ok (inl (same, refused)) = inl (same, refl)
  delivery-Effect unanswered now me s s' ok (inr (mine, taken, granted)) =
      inr (mine, taken, inl refl)

  set_nx-Effect :
      (now : ℕ) (me : String) (s : redis.State)
      → Effect ttl now me
          (redis.lock s)
          (redis.lock (redis.set_nx s now me ttl).0)
          (grant now (redis.set_nx s now me ttl).1)
  unfolding Effect
  set_nx-Effect now me s = elim (Option-cases (live (redis.lock s) now)) [
    | inl free ↦
        let (taken, ok) = laws.set_free s now me ttl free in
        inr (λ other e. absurd (ground arith), taken, inr (rw ok refl))
    | inr (owner, held) ↦
        let (same, ok) = laws.set_held s now me ttl owner held in inl (same, rw ok refl)
  ]

  acquire-Effect :
      (d : Delivery) (now : ℕ) (me : String) (s : redis.State)
      → Effect ttl now me
          (redis.lock s)
          (redis.lock (try_acquire redis ttl d me now s).0)
          (grant now (try_acquire redis ttl d me now s).1)
  unfolding try_acquire
  acquire-Effect d now me s = delivery-Effect d now me s _ _ (set_nx-Effect now me s)

  owner_of : (me : String) (o : Option String) → owns me o ≡ true → o ≡ some me
  owner_of me none h = absurd (ground arith)
  owner_of me (some owner) h = ap some ((str_eq_iff owner me).0 h)

  renew-Effect :
      (d : Delivery) (now : ℕ) (me : String) (s : redis.State)
      → Effect ttl now me
          (redis.lock s)
          (redis.lock (renew redis ttl d me now s).0)
          (grant now (renew redis ttl d me now s).1)
  unfolding renew Effect
  renew-Effect d now me s = elim (Bool-cases (owns me (redis.get s now))) [
    | inl c ↦
        let held = sym (laws.get_live s now) ∙ owner_of me (redis.get s now) c in
        rw c (
          delivery-Effect d now me s (redis.pexpire s now ttl) true (
            inr (
              λ other e. some-injective _ _ (sym e ∙ held),
              laws.extends s now ttl me held,
              inr refl,
            )))
    | inr c ↦ rw c (delivery-Effect d now me s s false (inl (refl, refl)))
  ]

  script-HoldsLock :
      (me : String) (leads : String → Option ℕ) (now : ℕ) (s : redis.State)
      → leads me ≡ none
      → HoldsLock ttl leads now (redis.lock s)
      → HoldsLock ttl leads now (
          redis.lock
            (if◌then◌else◌ {A = redis.State × Bool}
              (owns me (redis.get s now))
              (redis.del s, true)
              (s, false)).0)
  script-HoldsLock me leads now s n h id since e fresh =
      elim (Bool-cases (owns me (redis.get s now))) [
        | inl c ↦
            let held = sym (laws.get_live s now) ∙ owner_of me (redis.get s now) c in
            let l = held_live ttl leads now (redis.lock s) h id since e fresh in
            let same : me ≡ id = some-injective _ _ (sym held ∙ l) in
            absurd (ground (arith, subst (λ i. leads i ≡ none) same n))
        | inr c ↦ rw c (h id since e fresh)
      ]

  release-HoldsLock :
      (d : Delivery) (me : String) (leads : String → Option ℕ) (now : ℕ) (s : redis.State)
      → leads me ≡ none
      → HoldsLock ttl leads now (redis.lock s)
      → HoldsLock ttl leads now (redis.lock (release redis ttl d me now s).0)
  unfolding release
  release-HoldsLock lost me leads now s n h = h
  release-HoldsLock answered me leads now s n h = script-HoldsLock me leads now s n h
  release-HoldsLock unanswered me leads now s n h = script-HoldsLock me leads now s n h

  abbrev Safe : Election redis ttl → Type 0
  Safe e = HoldsLock ttl e.leads e.now (redis.lock e.store)

  stop-HoldsLock :
      (me : String) (leads : String → Option ℕ) (now : ℕ) (lock : Lock)
      → HoldsLock ttl leads now lock
      → HoldsLock ttl (lead me none leads) now lock
  stop-HoldsLock me leads now lock h =
      Effect-HoldsLock ttl leads now lock lock me none (unfold Effect in inl (refl, refl)) h

  Step-Safe : {e f : Election redis ttl} → Step redis ttl e f → Safe e → Safe f
  Step-Safe {e} (waits d) h = λ id since got fresh. h id since got (omega arith)
  Step-Safe {e} (acquires id d n) h =
      Effect-HoldsLock ttl e.leads e.now _ _ id _ (acquire-Effect d e.now id e.store) h
  Step-Safe {e} (renews id d since n) h =
      Effect-HoldsLock ttl e.leads e.now _ _ id _ (renew-Effect d e.now id e.store) h
  Step-Safe {e} (stops id) h = stop-HoldsLock id e.leads e.now _ h
  Step-Safe {e} (releases id d n) h = release-HoldsLock d id e.leads e.now e.store n h

  Run-Safe : {start e : Election redis ttl} → Run redis ttl start e → Safe start → Safe e
  Run-Safe here h = h
  Run-Safe (next r s) h = Step-Safe s (Run-Safe r h)

  -- However the calls of the instances interleave, and whichever of them or of their answers are lost,
  -- two instances that lead, each less than the time of the lease after its last lease was granted,
  -- are the same one; in every run that starts with no leader, for a Redis whose commands do what is
  -- documented.
  pub Run-single_leader :
      (start e : Election redis ttl)
      → ((id : String) → start.leads id ≡ none)
      → Run redis ttl start e
      → (a b : String) (since since' : ℕ) → e.leads a ≡ some since
      → e.leads b ≡ some since'
      → e.now < since + ttl
      → e.now < since' + ttl
      → a ≡ b
  Run-single_leader start e idle run a b since since' la lb fa fb =
      let safe = Run-Safe run (λ id t got fresh. absurd (ground (arith, idle id))) in
      let x = held_live ttl e.leads e.now (redis.lock e.store) safe a since la fa in
      let y = held_live ttl e.leads e.now (redis.lock e.store) safe b since' lb fb in
      some-injective _ _ (sym x ∙ y)
