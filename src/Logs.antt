-- ===== src/Logs.antt =====
-- The log lines of jobs: StreamLogs and FetchLogs of internal/grpc/server.go and handleJobLogs of
-- internal/api/handlers.go. Redis is a parameter: its lists, under the three commands that are used. The
-- expiry of a log a day after its last line is left out.
pub mod Tail
use Prim.Native.String.{◌++◌ as append}
use gpu_cluster_scheduler.Common.{
  ℕ, zero, suc, ◌-◌, length, ℤ, pos, pos_part, leb_ℤ, String, str_eq, Bool, true, false,
  if◌then◌else◌, Option, none, some, List, [], ◌∷◌, ◌++◌, ◌≡◌,
}
use gpu_cluster_scheduler.Api.Handlers.{atoi_default}

abbrev pub drop : {A : Type 0} → ℕ → List A → List A
drop zero xs = xs
drop (suc k) [] = []
drop (suc k) (x ∷ xs) = drop k xs

-- The last `n` entries, or all of fewer.
abbrev pub last : {A : Type 0} → ℕ → List A → List A
last n xs = drop (length xs - n) xs

pub record ListStore : Type 1 where
  pub State : Type 0
  pub entries : State → String → List String
  pub r_push : State → String → String → State
  pub l_trim : State → String → ℕ → State  -- LTRIM key -n -1
  pub l_range : State → String → ℕ → List String  -- LRANGE key -n -1

-- What the commands are documented to do, for a positive number of entries.
pub record IsListStore (redis : ListStore) : Type 0 where
  pub pushed :
      (s : redis.State) (key text other : String)
      → redis.entries (redis.r_push s key text) other
        ≡ (if str_eq key other then redis.entries s other ++ text ∷ [] else redis.entries s other)
  pub trimmed :
      (s : redis.State) (key : String) (n : ℕ) (other : String)
      → redis.entries (redis.l_trim s key (suc n)) other
        ≡ (if str_eq key other then last (suc n) (redis.entries s other) else redis.entries s other)
  pub ranged :
      (s : redis.State) (key : String) (n : ℕ)
      → redis.l_range s key (suc n) ≡ last (suc n) (redis.entries s key)

pub record LogLine : Type 0 where
  pub job_id : String
  pub timestamp : ℤ
  pub line : String

unfoldable pub log_key : String → String
log_key job_id = append "logs:" job_id

-- `stamp` prints a time in RFC 3339.
unfoldable pub format_log : (ℤ → String) → LogLine → String
format_log stamp l = append (append (stamp l.timestamp) " ") l.line

module _ (redis : ListStore) (stamp : ℤ → String) where
  unfoldable pub push_line : LogLine → redis.State → redis.State
  unfolding log_key format_log
  push_line l s =
      let key = log_key l.job_id in redis.l_trim (redis.r_push s key (format_log stamp l)) key 500

  -- Without a client, `none`, no line is kept.
  unfoldable pub cache_line : LogLine → Option redis.State → Option redis.State
  unfolding push_line
  cache_line l none = none
  cache_line l (some s) = some (push_line l s)

  -- The loop of `StreamLogs`, over the lines that arrive. No pipeline fails.
  unfoldable pub stream_logs : List LogLine → Option redis.State → Option redis.State
  unfolding cache_line
  stream_logs [] client = client
  stream_logs (l ∷ ls) client = stream_logs ls (cache_line l client)

  unfoldable pub fetch_logs : Option redis.State → String → ℤ → List String
  unfolding log_key
  fetch_logs none job_id limit = []
  fetch_logs (some s) job_id limit =
      let count = if leb_ℤ limit (pos 0) then pos 200 else limit in
      redis.l_range s (log_key job_id) (pos_part count)

  -- The lines of a job, from the text of the query's limit.
  unfoldable pub handle_job_logs : Option redis.State → String → String → List String
  unfolding fetch_logs atoi_default
  handle_job_logs client job_id limit = fetch_logs client job_id (atoi_default limit (pos 200))
