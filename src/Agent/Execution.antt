-- ===== src/Agent/Execution.antt =====
-- One execution of a job, `execute` and `report` of internal/agent/executor.go, as the effects that it has, in
-- order. What it waits for, and what the generator draws, are arguments.
use gpu_cluster_scheduler.Common.{
  ℕ, zero, suc, ◌*◌, ◌/◌, ℤ, pos, negsuc, ◌+ℤ◌, ◌-ℤ◌, String, Bool, true, false, if◌then◌else◌,
  List, [], ◌∷◌, ◌++◌,
}
use gpu_cluster_scheduler.Models.{Time, Ratio}
use gpu_cluster_scheduler.Store.Database.{Database, Faults}
use gpu_cluster_scheduler.NodeServer.Handlers.{Assignment, update_job_status}
use gpu_cluster_scheduler.Agent.{second, AgentConfig, intn, job_seconds, finish}

-- A log line, as the template that prints it with the template's arguments.
pub data Line : Type 0 where
  pulling : (image : String) → Line
  allocated : (gpus : ℤ) (hostname : String) → Line
  progress : (step steps : ℕ) (loss : Ratio) (throughput : ℤ) → Line

-- The message of `UpdateJobStatus`.
pub record JobReport : Type 0 where
  pub job_id : String
  pub node_id : String
  pub status : String
  pub message : String
  pub exit_code : ℤ

pub data Effect : Type 0 where
  reports : JobReport → Effect
  opens : Effect  -- the call of `StreamLogs`
  sends : Line → Effect
  waits : ℤ → Effect  -- nanoseconds
  closes : Effect

-- What an execution meets: whether the log stream opens, the steps in whose wait the context ends, what
-- the generator draws for the duration (0) and for each step, and whether its last draw is below 0.10.
pub record World : Type 0 where
  pub stream : Bool
  pub cancelled : ℕ → Bool
  pub draw : ℕ → ℤ → ℤ
  pub fails : Bool

abbrev pub steps : ℕ
steps = 5

-- The division of Go rounds towards zero.
unfoldable pub step_delay : ℤ → ℤ
step_delay (pos secs) = pos (secs * second / steps)
step_delay (negsuc n) = pos 0 -ℤ pos (suc n * second / steps)

unfoldable pub report : AgentConfig → Assignment → String → String → ℤ → JobReport
report c job status message exit_code = record {
  job_id = job.job_id;
  node_id = c.node_id;
  status = status;
  message = message;
  exit_code = exit_code;
}

unfoldable pub send_log : World → Line → List Effect
send_log w line = if w.stream then sends line ∷ [] else []

unfoldable pub close_log : World → List Effect
close_log w = if w.stream then closes ∷ [] else []

-- The line of one step, whose loss is 2.5 over the step.
unfoldable pub step_line : World → ℕ → Line
unfolding intn
step_line w step =
    progress step steps (record { num = pos 5; den = pos (2 * step) })
      (pos 1000 +ℤ intn (w.draw step) (pos 500))

-- The loop, with the rounds that are left: its effects, and whether it came to its end.
unfoldable pub run_steps : World → ℤ → ℕ → ℕ → List Effect × Bool
unfolding send_log step_line
run_steps w delay zero step = ([], true)
run_steps w delay (suc left) step =
    let (more, ended) = run_steps w delay left (suc step) in
    if w.cancelled step
    then ([], false)
    else (waits delay ∷ send_log w (step_line w step) ++ more, ended)

unfoldable pub end_report : AgentConfig → World → Assignment → JobReport
unfolding report
end_report c w job =
    if w.fails
    then report c job "failed" "process exited non-zero" (pos 1)
    else report c job "completed" "ok" (pos 0)

unfoldable pub execute : AgentConfig → World → Assignment → List Effect
unfolding report send_log close_log run_steps end_report step_delay job_seconds
execute c w job =
    let (looped, ended) = run_steps w (step_delay (job_seconds (w.draw 0) c)) steps 1 in
    reports (report c job "running" "" (pos 0)) ∷ opens ∷ send_log w (pulling job.image)
    ++ (send_log w (allocated job.gpu c.hostname)
        ++ (looped ++ (close_log w ++ (if ended then reports (end_report c w job) ∷ [] else []))))

-- The running jobs once the execution has returned: `defer a.done(…)`.
unfoldable pub after_execute : Assignment → List String → List String
unfolding finish
after_execute job running = finish job.job_id running

unfoldable pub reports_of : List Effect → List JobReport
reports_of [] = []
reports_of (reports r ∷ es) = r ∷ reports_of es
reports_of (opens ∷ es) = reports_of es
reports_of (sends l ∷ es) = reports_of es
reports_of (waits d ∷ es) = reports_of es
reports_of (closes ∷ es) = reports_of es

unfoldable pub lines_of : List Effect → List Line
lines_of [] = []
lines_of (reports r ∷ es) = lines_of es
lines_of (opens ∷ es) = lines_of es
lines_of (sends l ∷ es) = l ∷ lines_of es
lines_of (waits d ∷ es) = lines_of es
lines_of (closes ∷ es) = lines_of es

unfoldable pub waits_of : List Effect → List ℤ
waits_of [] = []
waits_of (reports r ∷ es) = waits_of es
waits_of (opens ∷ es) = waits_of es
waits_of (sends l ∷ es) = waits_of es
waits_of (waits d ∷ es) = d ∷ waits_of es
waits_of (closes ∷ es) = waits_of es

-- The reports arrive at the server, each at its time, unless the call is lost. The agent only logs the
-- error of a report.
unfoldable pub deliver : Faults → (ℕ → Bool) → (ℕ → Time) → ℕ → List JobReport → Database → Database
unfolding update_job_status
deliver faults lost now n [] db = db
deliver faults lost now n (r ∷ rs) db =
    deliver faults lost now (suc n) rs
      (if lost n then db else (update_job_status faults (now n) r.job_id r.status db).1)
