-- ===== src/Agent/Reporting.antt =====
-- What an execution of internal/agent/executor.go reports and logs, and what becomes of the job.
use gpu_cluster_scheduler.Common.{
  ℕ, zero, suc, ℤ, pos, Bool, Bool-cases, true, false, inl, inr, if◌then◌else◌, List, [], ◌∷◌, ◌++◌,
  ◌≡◌, refl, ap, ◌∙◌, arith,
}
use mathlib.Core.List.{append-nil}
use gpu_cluster_scheduler.NodeServer.Handlers.{Assignment}
use gpu_cluster_scheduler.Agent.{AgentConfig, job_seconds}
use gpu_cluster_scheduler.Agent.Execution.{
  Line, pulling, allocated, Effect, reports, opens, sends, waits, closes, World, steps, step_delay,
  report, send_log, close_log, step_line, run_steps, end_report, execute, reports_of, lines_of,
  waits_of,
}

-- From a step on, with the rounds left: how many steps are waited for, and whether that is all.
pub data Course (w : World) : ℕ → ℕ → ℕ → Bool → Type 0 where
  over : {step : ℕ} → Course w zero step zero true
  stopped : {left step : ℕ} → w.cancelled step ≡ true → Course w (suc left) step zero false
  passed :
      {left step k : ℕ} {ended : Bool}
      → w.cancelled step ≡ false
      → Course w left (suc step) k ended
      → Course w (suc left) step (suc k) ended

abbrev pub step_lines : World → ℕ → ℕ → List Line
step_lines w step zero = []
step_lines w step (suc k) = step_line w step ∷ step_lines w (suc step) k

reports_of-append : (es fs : List Effect) → reports_of (es ++ fs) ≡ reports_of es ++ reports_of fs
unfolding reports_of
reports_of-append [] fs = refl
reports_of-append (reports r ∷ es) fs = rw (reports_of-append es fs) refl
reports_of-append (opens ∷ es) fs = reports_of-append es fs
reports_of-append (sends l ∷ es) fs = reports_of-append es fs
reports_of-append (waits d ∷ es) fs = reports_of-append es fs
reports_of-append (closes ∷ es) fs = reports_of-append es fs

lines_of-append : (es fs : List Effect) → lines_of (es ++ fs) ≡ lines_of es ++ lines_of fs
unfolding lines_of
lines_of-append [] fs = refl
lines_of-append (reports r ∷ es) fs = lines_of-append es fs
lines_of-append (opens ∷ es) fs = lines_of-append es fs
lines_of-append (sends l ∷ es) fs = rw (lines_of-append es fs) refl
lines_of-append (waits d ∷ es) fs = lines_of-append es fs
lines_of-append (closes ∷ es) fs = lines_of-append es fs

waits_of-append : (es fs : List Effect) → waits_of (es ++ fs) ≡ waits_of es ++ waits_of fs
unfolding waits_of
waits_of-append [] fs = refl
waits_of-append (reports r ∷ es) fs = waits_of-append es fs
waits_of-append (opens ∷ es) fs = waits_of-append es fs
waits_of-append (sends l ∷ es) fs = waits_of-append es fs
waits_of-append (waits d ∷ es) fs = rw (waits_of-append es fs) refl
waits_of-append (closes ∷ es) fs = waits_of-append es fs

abbrev pub step_waits : ℤ → ℕ → List ℤ
step_waits delay zero = []
step_waits delay (suc k) = delay ∷ step_waits delay k

-- The log lines that reach the server, if the stream is open.
abbrev pub sent : World → List Line → List Line
sent w lines = if w.stream then lines else []

ruleset effects = (reports_of-append, lines_of-append, waits_of-append)

run_steps-Course :
    (w : World) (delay : ℤ) (left step : ℕ)
    → (k : ℕ) × Course w left step k (run_steps w delay left step).1
      × (reports_of (run_steps w delay left step).0 ≡ [])
      × (lines_of (run_steps w delay left step).0 ≡ sent w (step_lines w step k))
      × (waits_of (run_steps w delay left step).0 ≡ step_waits delay k)
unfolding run_steps reports_of lines_of waits_of send_log
run_steps-Course w delay zero step = (0, over, refl, ground arith, refl)
run_steps-Course w delay (suc left) step = elim (Bool-cases (w.cancelled step)) [
  | inl e ↦ rw e (0, stopped e, refl, ground arith, refl)
  | inr e ↦
      let (k, course, r, l, d) = run_steps-Course w delay left (suc step) in
      rw e (suc k, passed e course, ground (arith, r), ground (arith, l), ground (arith, d))
]

-- The effects around the loop.
framed :
    (c : AgentConfig) (w : World) (job : Assignment) (looped : List Effect) (ended : Bool)
    → reports_of looped ≡ []
    → (let es =
          send_log w (pulling job.image)
          ++ (send_log w (allocated job.gpu c.hostname)
              ++ (looped
                  ++ (close_log w ++ (if ended then reports (end_report c w job) ∷ [] else [])))) in
        (reports_of es ≡ (if ended then end_report c w job ∷ [] else []))
        × (lines_of es
            ≡ sent w (pulling job.image ∷ allocated job.gpu c.hostname ∷ []) ++ lines_of looped))
unfolding send_log close_log reports_of lines_of
framed c w job looped ended r = elim (Bool-cases w.stream) [
  | inl e ↦ rw e (elim (Bool-cases ended) [
    | inl t ↦ rw t (simp (effects, r), simp (effects, append-nil))
    | inr t ↦ rw t (simp (effects, r), simp (effects, append-nil))
  ])
  | inr e ↦ rw e (elim (Bool-cases ended) [
    | inl t ↦ rw t (simp (effects, r), simp (effects, append-nil))
    | inr t ↦ rw t (simp (r, append-nil), simp append-nil)
  ])
]

framed-waits :
    (c : AgentConfig) (w : World) (job : Assignment) (looped : List Effect) (ended : Bool)
    → waits_of (
        send_log w (pulling job.image)
        ++ (send_log w (allocated job.gpu c.hostname)
            ++ (looped
                ++ (close_log w ++ (if ended then reports (end_report c w job) ∷ [] else [])))))
      ≡ waits_of looped
unfolding send_log close_log waits_of
framed-waits c w job looped ended = elim (Bool-cases w.stream) [
  | inl e ↦ rw e (elim (Bool-cases ended) [
    | inl t ↦ rw t (simp (effects, append-nil))
    | inr t ↦ rw t (simp (effects, append-nil))
  ])
  | inr e ↦ rw e (elim (Bool-cases ended) [
    | inl t ↦ rw t (simp (effects, append-nil))
    | inr t ↦ rw t (simp append-nil)
  ])
]

-- An execution waits out some steps, each for a fifth of the drawn duration and none more: those up to
-- the first in whose wait the context ends. It reports the job running, and completed or failed after
-- it only if no wait was cut short. Where the log stream opens it has sent the two lines of the start
-- and one for each step waited out, in order; otherwise none.
pub execute-Course :
    (c : AgentConfig) (w : World) (job : Assignment)
    → (k : ℕ) × (ended : Bool) × Course w steps 1 k ended
      × (reports_of (execute c w job)
          ≡ report c job "running" "" (pos 0) ∷ (if ended then end_report c w job ∷ [] else []))
      × (lines_of (execute c w job)
          ≡ sent w (pulling job.image ∷ allocated job.gpu c.hostname ∷ step_lines w 1 k))
      × (waits_of (execute c w job) ≡ step_waits (step_delay (job_seconds (w.draw 0) c)) k)
unfolding execute send_log close_log reports_of lines_of waits_of
execute-Course c w job =
    let delay = step_delay (job_seconds (w.draw 0) c) in
    let (k, course, r, l, d) = run_steps-Course w delay steps 1 in
    let all = framed c w job (run_steps w delay steps 1).0 (run_steps w delay steps 1).1 r in
    (
      k,
      (run_steps w delay steps 1).1,
      course,
      ap (λ rs. report c job "running" "" (pos 0) ∷ rs) all.0,
      all.1 ∙ ground (arith, l),
      framed-waits c w job (run_steps w delay steps 1).0 (run_steps w delay steps 1).1 ∙ d,
    )
