-- ===== src/Runtime.antt =====
-- internal/runtimex/runtimex.go, the servers that run under it (internal/telemetry/server.go, internal/grpc/serve.go,
-- `Run` of internal/api/server.go and cmd/metrics/main.go), and the level of internal/logging/logging.go. Time is a
-- number, and a listener is a parameter: when it fails, if it does.
pub mod Group
use gpu_cluster_scheduler.Common.{
  ℕ, leb, ltb, String, str_eq, Bool, if◌then◌else◌, Option, none, some, List, [], ◌∷◌,
}
use gpu_cluster_scheduler.Common.Sort.{sort_stable}

-- What a function of a group returns.
pub data Exit : Type 0 where
  clean : Exit  -- nil
  canceled : Exit  -- context.Canceled
  failure : String → Exit

pub record End : Type 0 where
  pub time : ℕ
  pub exit : Exit

-- When the context of the group is cancelled, if ever.
abbrev pub Cancellation : Type 0
Cancellation = Option ℕ

-- A function of a group, by when and how it returns under a cancellation, if it does.
abbrev pub Member : Type 0
Member = Cancellation → Option End

-- A server: when its listener fails by itself, and what stopping it returns.
pub record Server : Type 0 where
  pub fails : Option End
  pub shutdown : Exit

stopped : Server → Cancellation → Option End
stopped s none = none
stopped s (some t) = some (record { time = t; exit = s.shutdown })

-- `select { case err := <-errCh: … case <-ctx.Done(): … }`: the first of the two.
unfoldable pub serve : Server → Member
unfolding stopped
serve s cancellation = elim s.fails [
  | none ↦ stopped s cancellation
  | some end ↦ elim cancellation [
    | none ↦ some end
    | some t ↦ if ltb end.time t then some end else some (record { time = t; exit = s.shutdown })
  ]
]

-- `grpc.Serve` listens first, and stops without an error.
unfoldable pub serve_grpc : Option String → Option End → Member
unfolding serve
serve_grpc (some e) fails cancellation = some (record { time = 0; exit = failure e })
serve_grpc none fails cancellation = serve (record { fails = fails; shutdown = clean }) cancellation

-- `wg.Wait()`: every function has returned.
unfoldable pub ends_of : Cancellation → List Member → Option (List End)
ends_of c [] = some []
ends_of c (m ∷ ms) = elim (m c) [
  | none ↦ none
  | some e ↦ elim (ends_of c ms) [ none ↦ none | some es ↦ some (e ∷ es) ]
]

-- `once.Do`: the error of the first that returns one.
unfoldable pub first_error : List End → Option String
first_error [] = none
first_error (e ∷ es) =
    let rest = first_error es in
    elim e.exit [ clean ↦ rest | canceled ↦ rest | failure text ↦ some text ]

unfoldable pub result_of : Option (List End) → Option (Option String)
unfolding first_error sort_stable
result_of none = none
result_of (some ends) = some (first_error (sort_stable (λ a b. ltb a.time b.time) ends))

-- `none` is a group that never returns. Functions that return at one time do so in the order of the list.
unfoldable pub run_group : Cancellation → List Member → Option (Option String)
unfolding ends_of result_of
run_group c members = result_of (ends_of c members)

-- The level of `logging.New`, with the lower-cased name as argument.
pub data Level : Type 0 where
  debug info warn error : Level

unfoldable pub level_of : String → Level
level_of lowered =
    if str_eq lowered "debug"
    then debug
    else if str_eq lowered "warn"
    then warn
    else if str_eq lowered "error"
    then error
    else info
