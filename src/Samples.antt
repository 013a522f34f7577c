-- ===== src/Samples.antt =====
-- A small cluster for the examples: its jobs, its nodes, and whole numbers in place of Go's float64.
use gpu_cluster_scheduler.Common.{
  ℕ, zero, suc, ◌/◌, ℤ, pos, negsuc, ◌*ℤ◌, ◌≤ℤ◌, ltb_ℤ, eqb_ℤ, ltb_ℤ→ge, times_suc, times_zero,
  +ℤ_parts, String, str_eq, true, false, if◌then◌else◌, none, some, List, [], ◌∷◌, ◌≡◌, arith,
}
use gpu_cluster_scheduler.Models.{
  Job, JobStatus, queued, running, completed, Node, ready, Time, Duration, SubmitJobRequest,
}
use gpu_cluster_scheduler.Strategies.Float.{Float64, IsOrderedFloat, IsMonotone}
use gpu_cluster_scheduler.Strategies.{OrderContext}
use gpu_cluster_scheduler.Store.Database.{Database}
use gpu_cluster_scheduler.Engine.Pass.{SchedulerConfig}
use gpu_cluster_scheduler.NodeServer.Handlers.{RegisterRequest}

abbrev whole_minutes : Duration → ℤ
whole_minutes (pos n) = pos (n / 60_000_000_000)
whole_minutes (negsuc n) = negsuc (n / 60_000_000_000)

abbrev pub whole : Float64
whole = record {
  Carrier = ℤ;
  zero = pos 0;
  of_int = λ n. n;
  minutes = whole_minutes;
  times = ◌*ℤ◌;
  over = λ a b. a;
  lt = ltb_ℤ;
  eqb = eqb_ℤ;
  truncate = λ n. n;
}

pub whole-IsOrderedFloat : IsOrderedFloat whole
whole-IsOrderedFloat = record {
  weak = record { asym = λ a b h. ground arith; not_less_trans = λ a b c p q. ground arith };
  tie = λ a b. ground arith;
}

whole_minutes_mono : (a b : Duration) → a ≤ℤ b → ltb_ℤ (whole_minutes b) (whole_minutes a) ≡ false
whole_minutes_mono (pos a) (pos b) h = ground arith
whole_minutes_mono (pos a) (negsuc b) h = absurd (omega arith)
whole_minutes_mono (negsuc a) (pos b) h = ground arith
whole_minutes_mono (negsuc a) (negsuc b) h = ground arith

ge→ltb_ℤ : (a b : ℤ) → a ≤ℤ b → ltb_ℤ b a ≡ false
ge→ltb_ℤ a b h = ground arith

times_mono_pos : (a b : ℤ) (n : ℕ) → a ≤ℤ b → a *ℤ pos n ≤ℤ b *ℤ pos n
times_mono_pos a b zero h = rw (times_zero a, times_zero b) (omega arith)
times_mono_pos a b (suc n) h =
    rw (times_suc a n, times_suc b n)
      (omega (arith, times_mono_pos a b n h, +ℤ_parts (a *ℤ pos n) a, +ℤ_parts (b *ℤ pos n) b))

times_mono :
    (a b c : ℤ) → ltb_ℤ c (pos 0) ≡ false → ltb_ℤ b a ≡ false → ltb_ℤ (b *ℤ c) (a *ℤ c) ≡ false
times_mono a b (pos n) h g =
    ge→ltb_ℤ (a *ℤ pos n) (b *ℤ pos n) (times_mono_pos a b n (ltb_ℤ→ge b a g))
times_mono a b (negsuc n) h g = absurd (ground arith)

pub whole-IsMonotone : IsMonotone whole
whole-IsMonotone = record {
  minutes_mono = whole_minutes_mono;
  times_mono = times_mono;
  truncate_mono = λ a b h. ltb_ℤ→ge b a h;
}

abbrev pub sample_job : String → JobStatus → ℤ → ℤ → Time → String → Job
sample_job id status level gpus created node = record {
  job_id = id;
  name = id;
  user_id = "ada";
  team_id = "vision";
  status = status;
  priority = level;
  gpu_count = gpus;
  cpu_count = pos 4;
  memory_gb = pos 16;
  image = "train";
  command = "run";
  node_id = node;
  retry_count = pos 0;
  max_retries = pos 3;
  created_at = created;
  started_at = none;
  completed_at = none;
  effective_priority = pos 0;
}

abbrev pub sample_node : String → ℤ → ℤ → Node
sample_node id capacity available = record {
  node_id = id;
  hostname = id;
  status = ready;
  gpu_capacity = capacity;
  gpu_available = available;
  cpu_capacity = pos 64;
  cpu_available = pos 60;
  memory_capacity = pos 256;
  memory_available = pos 240;
  gpu_model = "A100";
  spot = false;
  last_heartbeat = pos 0;
  registered_at = pos 0;
}

-- `low` runs on `east`, `urgent` waits for more than any node has free, and `old` is finished.
abbrev pub low : Job
low = sample_job "low" running (pos 1) (pos 4) (pos 10) "east"

abbrev pub urgent : Job
urgent = sample_job "urgent" queued (pos 9) (pos 4) (pos 20) ""

abbrev pub small : Job
small = sample_job "small" queued (pos 5) (pos 1) (pos 30) ""

abbrev pub old : Job
old = sample_job "old" completed (pos 5) (pos 2) (pos 5) "west"

abbrev pub east : Node
east = sample_node "east" (pos 8) (pos 2)

abbrev pub west : Node
west = sample_node "west" (pos 2) (pos 1)

abbrev pub cluster : List Node
cluster = east ∷ west ∷ []

abbrev pub jobs : List Job
jobs = low ∷ urgent ∷ small ∷ old ∷ []

abbrev pub tables : Database
tables = record { jobs = jobs; nodes = cluster; events = []; queries = 0 }

abbrev pub runs : String → List Job
runs id = if str_eq id "east" then low ∷ [] else []

abbrev pub settings : SchedulerConfig whole
settings = record {
  aging_factor = pos 1;
  starvation_threshold = pos 300;
  enable_preemption = true;
  heartbeat_ttl = pos 30;
}

abbrev pub context : OrderContext whole
context = record { team_usage = some (("vision", pos 4) ∷ []); aging_factor = pos 1 }

abbrev pub submission : SubmitJobRequest
submission = record {
  name = "train";
  user_id = "ada";
  team_id = "vision";
  priority = pos 12;
  gpu_count = pos 2;
  cpu_count = pos 4;
  memory_gb = pos 16;
  image = "train";
  command = "run";
  max_retries = pos 0;
}

abbrev pub registration : RegisterRequest
registration = record {
  node_id = "north";
  hostname = "north";
  gpu = pos 4;
  cpu = pos 32;
  memory_gb = pos 128;
  gpu_model = "A100";
  spot = false;
}
