-- ===== src/Engine/Loop.antt =====
-- `Run` of internal/scheduler/engine.go: a pass at each tick of the leader's ticker.
use gpu_cluster_scheduler.Common.{
  String, true, some, List, [], ◌∷◌, map, ◌≡◌, refl, sym, subst, ◌∙◌,
}
use gpu_cluster_scheduler.Models.{Job, is_terminal, Time}
use gpu_cluster_scheduler.Strategies.Float.{Float64}
use gpu_cluster_scheduler.Strategies.{Algorithm}
use gpu_cluster_scheduler.Strategies.Laws.{IsLawful}
use gpu_cluster_scheduler.Store.Database.{Database, Faults, find_where, job_key}
use gpu_cluster_scheduler.Store.Keys.{IsUnique}
use gpu_cluster_scheduler.Engine.Pass.{SchedulerConfig}
use gpu_cluster_scheduler.Engine.Tick.{tick}
use gpu_cluster_scheduler.Engine.Finished.{tick-keeps_finished}

module _ (float : Float64) (faults : Faults) (alg : Algorithm float)
    (cfg : SchedulerConfig float) where
  -- The times of the ticks until the context ends. The error of a pass is only logged.
  unfoldable pub run : List Time → Database → Database
  unfolding tick
  run [] db = db
  run (now ∷ times) db = run times (tick float faults alg cfg now db).1

  -- A finished job stays as it is however long the loop runs.
  pub run-keeps_finished :
      (lawful : IsLawful float alg) (times : List Time) (db : Database) (t : String) (row : Job)
      → IsUnique (map job_key db.jobs)
      → find_where job_key t db.jobs ≡ some row
      → is_terminal row.status ≡ true
      → (find_where job_key t (run times db).jobs ≡ some row)
        × (map job_key (run times db).jobs ≡ map job_key db.jobs)
  unfolding run
  run-keeps_finished lawful [] db t row unique found final = (found, refl)
  run-keeps_finished lawful (now ∷ times) db t row unique found final =
      let once = tick-keeps_finished float faults alg cfg lawful now db t row unique found final in
      let later =
        run-keeps_finished lawful times (tick float faults alg cfg now db).1 t row
          (subst IsUnique (sym once.1) unique) once.0 final in
      (later.0, later.1 ∙ once.1)
