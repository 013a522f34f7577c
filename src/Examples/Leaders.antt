-- ===== src/Examples/Leaders.antt =====
-- The theorem on internal/redisx at an election with two instances.
use gpu_cluster_scheduler.Common.{◌+◌, String, true, false, none, some, ◌≡◌, refl, arith}
use gpu_cluster_scheduler.Leader.{
  Lock, live, Redis, IsRedis, answered, try_acquire, renew, Election, lead, waits, acquires, renews,
  Run, here, next,
}
use gpu_cluster_scheduler.Leader.Lease.{Run-single_leader}

-- A Redis that has the lock and nothing else.
abbrev memory : Redis
memory = record {
  State = Lock;
  lock = λ s. s;
  set_nx = λ s now id ttl. elim (live s now) [
    | none ↦ (some (id, now + ttl), true)
    | some o ↦ (s, false)
  ];
  get = live;
  pexpire = λ s now ttl. elim (live s now) [ none ↦ s | some o ↦ some (o, now + ttl) ];
  del = λ s. none;
}

memory-IsRedis : IsRedis memory
memory-IsRedis = record {
  get_live = λ s now. refl;
  set_free = λ s now id ttl e. rw (e, memory) (refl, refl);
  set_held = λ s now id ttl owner e. rw (e, memory) (refl, refl);
  extends = λ s now ttl owner e. rw (e, memory) refl;
  deletes = λ s. refl;
}

abbrev idle : Election memory 15
idle = record { store = none; now = 0; leads = λ id. none }

-- One instance leads from the start, a second tries, and the first renews.
abbrev contested : Election memory 15
contested = record {
  store = some ("one", 20);
  now = 5;
  leads = lead "one" (some 5) (lead "two" none (lead "one" (some 0) (λ id. none)));
}

contest : Run memory 15 idle contested
unfolding try_acquire renew
contest =
    next
      (next (next (next here (acquires "one" answered refl)) (acquires "two" answered refl))
        (waits 5))
      (renews "one" answered 0 refl)

Run-single_leader_example : ◌≡◌ {A = String} "one" "one"
Run-single_leader_example =
    Run-single_leader memory memory-IsRedis 15 idle contested (λ id. refl) contest "one" "one" 5 5
      refl refl (omega arith) (omega arith)
