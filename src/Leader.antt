-- ===== src/Leader.antt =====
-- internal/redisx/leader.go. Redis is a parameter: the key of the lock, under its commands. One clock, in
-- milliseconds, is Redis's and the instances'.
pub mod Lease
use gpu_cluster_scheduler.Common.{
  ℕ, ◌+◌, ltb, String, str_eq, Bool, true, false, if◌then◌else◌, Option, none, some, ◌≡◌,
}

-- The owner of the lock and the end of its lease.
abbrev pub Lock : Type 0
Lock = Option (String × ℕ)

-- The owner that Redis still knows.
abbrev pub live : Lock → ℕ → Option String
live none now = none
live (some (owner, end)) now = if ltb now end then some owner else none

pub record Redis : Type 1 where
  pub State : Type 0
  pub lock : State → Lock
  pub set_nx : State → ℕ → String → ℕ → State × Bool
  pub get : State → ℕ → Option String
  pub pexpire : State → ℕ → ℕ → State
  pub del : State → State

-- What the commands are documented to do.
pub record IsRedis (redis : Redis) : Type 0 where
  pub get_live : (s : redis.State) (now : ℕ) → redis.get s now ≡ live (redis.lock s) now
  pub set_free :
      (s : redis.State) (now : ℕ) (id : String) (ttl : ℕ)
      → live (redis.lock s) now ≡ none
      → (redis.lock (redis.set_nx s now id ttl).0 ≡ some (id, now + ttl))
        × ((redis.set_nx s now id ttl).1 ≡ true)
  pub set_held :
      (s : redis.State) (now : ℕ) (id : String) (ttl : ℕ) (owner : String)
      → live (redis.lock s) now ≡ some owner
      → (redis.lock (redis.set_nx s now id ttl).0 ≡ redis.lock s)
        × ((redis.set_nx s now id ttl).1 ≡ false)
  pub extends :
      (s : redis.State) (now ttl : ℕ) (owner : String)
      → live (redis.lock s) now ≡ some owner
      → redis.lock (redis.pexpire s now ttl) ≡ some (owner, now + ttl)
  pub deletes : (s : redis.State) → redis.lock (redis.del s) ≡ none

-- A call can arrive and be answered, be lost, or arrive while its answer is lost.
pub data Delivery : Type 0 where
  answered lost unanswered : Delivery

abbrev pub owns : String → Option String → Bool
owns id none = false
owns id (some owner) = str_eq owner id

abbrev pub lead : String → Option ℕ → (String → Option ℕ) → String → Option ℕ
lead id since leads other = if str_eq other id then since else leads other

module _ (redis : Redis) (ttl : ℕ) where
  open redis use {State}

  -- What a caller sees of a call, where an error counts as a refusal.
  abbrev pub delivered : Delivery → State → State × Bool → State × Bool
  delivered answered s r = r
  delivered lost s r = (s, false)
  delivered unanswered s r = (r.0, false)

  unfoldable pub try_acquire : Delivery → String → ℕ → State → State × Bool
  try_acquire d id now s = delivered d s (redis.set_nx s now id ttl)

  -- `renewScript`
  unfoldable pub renew : Delivery → String → ℕ → State → State × Bool
  renew d id now s =
      delivered d s
        (if owns id (redis.get s now) then (redis.pexpire s now ttl, true) else (s, false))

  -- `releaseScript`
  unfoldable pub release : Delivery → String → ℕ → State → State × Bool
  release d id now s =
      delivered d s (if owns id (redis.get s now) then (redis.del s, true) else (s, false))

  -- Redis, the time, and for each instance that leads the time of its last lease.
  pub record Election : Type 0 where
    pub store : State
    pub now : ℕ
    pub leads : String → Option ℕ

  -- The calls of `Run` and `keepAlive`, of any instances in any order.
  pub data Step (e : Election) : Election → Type 0 where
    waits : (d : ℕ) → Step e (record e { now = e.now + d })
    acquires :
        (id : String) (d : Delivery)
        → e.leads id ≡ none
        → Step e (record e {
          store = (try_acquire d id e.now e.store).0;
          leads = lead id (if (try_acquire d id e.now e.store).1 then some e.now else none) e.leads;
        })
    renews :
        (id : String) (d : Delivery) (since : ℕ)
        → e.leads id ≡ some since
        → Step e (record e {
          store = (renew d id e.now e.store).0;
          leads = lead id (if (renew d id e.now e.store).1 then some e.now else none) e.leads;
        })
    stops : (id : String) → Step e (record e { leads = lead id none e.leads })
    releases :
        (id : String) (d : Delivery)
        → e.leads id ≡ none
        → Step e (record e { store = (release d id e.now e.store).0 })

  pub data Run (start : Election) : Election → Type 0 where
    here : Run start start
    next : {e f : Election} → Run start e → Step e f → Run start f
