-- ===== src/Services/Startup.antt =====
-- How the processes of cmd start and end.
use gpu_cluster_scheduler.Common.{
  String, Bool, true, false, ◌&&◌, Option, none, some, List, [], ◌∷◌, ◌≡◌, refl, arith,
}
use gpu_cluster_scheduler.Strategies.Float.{Float64}
use gpu_cluster_scheduler.Runtime.{End, Server, ends_of, result_of, run_group}
use gpu_cluster_scheduler.Services.{
  Resource, tracer, postgres, redis, Held, nothing_held, Finish, runs_on, exits, ◌>>◌, check,
  open_deferred, finish, finish_of, Answers, connects, migrates, known, scheduler_main, leading,
  scheduler_group,
}

-- What becomes of a process whose preparations succeed or not, with what its group returns, what it holds
-- with deferred calls then, and what without.
abbrev pub Ends : Bool → Option (Option String) → List Resource → List Resource → Finish → Type 0
Ends true none all kept f = f ≡ runs_on
Ends true (some none) all kept f = f ≡ exits 0 all (record { deferred = []; kept = kept })
Ends true (some (some text)) all kept f = f ≡ exits 1 [] (record { deferred = all; kept = kept })
Ends false group all kept f = (h : Held) × (f ≡ exits 1 [] h)

abbrev scheduler_steps : Bool → Bool → Bool → Bool → Bool → Option (Option String) → Finish
scheduler_steps t p m r k group = finish_of (
    open_deferred tracer t nothing_held
    >> open_deferred postgres p
    >> check m
    >> open_deferred redis r
    >> check k
    >> finish group)

scheduler_steps-Ends :
    (t p m r k : Bool) (group : Option (Option String))
    → Ends
        (t && p && m && r && k)
        group
        (redis ∷ postgres ∷ tracer ∷ [])
        []
        (scheduler_steps t p m r k group)
unfolding check open_deferred finish finish_of
scheduler_steps-Ends false p m r k group = (_, refl)
scheduler_steps-Ends true false m r k group = (_, refl)
scheduler_steps-Ends true true false r k group = (_, refl)
scheduler_steps-Ends true true true false k group = (_, refl)
scheduler_steps-Ends true true true true false group = (_, refl)
scheduler_steps-Ends true true true true true none = refl
scheduler_steps-Ends true true true true true (some none) = refl
scheduler_steps-Ends true true true true true (some (some text)) = refl

-- The scheduler serves exactly if tracing, the database, its migrations, Redis and the name of the
-- algorithm are in order, and exits with 1 otherwise. When its group returns without an error it
-- closes Redis, the database and the tracer, in this order, and exits with 0. Whenever it exits with 1
-- it closes nothing of what it holds.
pub scheduler_main-Ends :
    (float : Float64) (algorithm : String) (a : Answers)
    → Ends
        (a.tracing
          && connects a.postgres
          && migrates a.migration
          && a.redis
          && known float algorithm)
        a.group
        (redis ∷ postgres ∷ tracer ∷ [])
        []
        (scheduler_main float algorithm a)
unfolding scheduler_main
scheduler_main-Ends float algorithm a =
    scheduler_steps-Ends a.tracing (connects a.postgres) (migrates a.migration) a.redis
      (known float algorithm) a.group

-- Without a signal the scheduler's group never returns, whatever its servers do: also where the gRPC server
-- cannot listen, so that no agent reaches it, the process goes on.
pub run_group-scheduler_group :
    (refused : Option String) (fails : Option End) (metrics : Server)
    → run_group none (scheduler_group refused fails metrics) ≡ none
unfolding run_group ends_of result_of scheduler_group leading
run_group-scheduler_group refused fails metrics = ground arith
