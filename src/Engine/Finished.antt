-- ===== src/Engine/Finished.antt =====
-- The jobs that a pass of internal/scheduler/engine.go leaves alone.
use gpu_cluster_scheduler.Common.{
  suc, String, str_eq, str_eq_iff, Bool, Bool-cases, Option-cases, true, false, inl, inr, some,
  List, [], ◌∷◌, map, All, select, ◌≡◌, refl, sym, subst, ◌∙◌, arith,
}
use gpu_cluster_scheduler.Models.{
  Job, JobStatus, is_terminal, status_eq, Time, queued, failed, cancelled, completed,
}
use gpu_cluster_scheduler.Strategies.Float.{Float64}
use gpu_cluster_scheduler.Strategies.{Algorithm}
use gpu_cluster_scheduler.Strategies.Laws.{IsLawful}
use gpu_cluster_scheduler.Store.Database.{
  Database, Faults, find_where, update_where, job_key, node_key,
}
use gpu_cluster_scheduler.Store.Jobs
use gpu_cluster_scheduler.Store.Nodes
use gpu_cluster_scheduler.Store.Events
use gpu_cluster_scheduler.Store.Keys.{
  IsUnique, map-update_where, find_where-update_where, query_ind,
}
use gpu_cluster_scheduler.Engine.Pass.{SchedulerConfig}
use gpu_cluster_scheduler.Engine.Tick.{active_statuses, tick}
use gpu_cluster_scheduler.Engine.Frame.{IsFrame}
use gpu_cluster_scheduler.Engine.Frame.Tick.{tick-D}

-- The table has these keys, and this row at `t`.
record HasRow (ks : List String) (t : String) (row : Job) (db : Database) : Type 0 where
  keys : map job_key db.jobs ≡ ks
  found : find_where job_key t db.jobs ≡ some row

abbrev IsOther : String → Job → Type 0
IsOther t j = str_eq t (job_key j) ≡ false

update-HasRow :
    {ks : List String} {t : String} {row : Job} {db : Database} (j : Job) (f : Job → Job)
    → ((x : Job) → job_key (f x) ≡ job_key x)
    → IsOther t j
    → HasRow ks t row db
    → HasRow ks t row (record db { jobs = update_where job_key j.job_id f db.jobs })
update-HasRow {ks} {t} {row} {db} j f keep other h = record {
  keys = map-update_where job_key j.job_id f db.jobs keep ∙ h.keys;
  found = ground (
    arith,
    h.found,
    find_where-update_where job_key j.job_id t f db.jobs keep,
    str_eq_iff j.job_id t,
    str_eq_iff t j.job_id,
  );
}

absent :
    (t : String) (js : List Job)
    → All (λ k. str_eq k t ≡ false) (map job_key js)
    → (q : Job → Bool) → All (IsOther t) (select q js)
absent t [] h q = tt
absent t (j ∷ js) h q = elim (Bool-cases (q j)) [
  | inl e ↦ rw e (ground (arith, str_eq_iff t j.job_id, str_eq_iff j.job_id t), absent t js h.1 q)
  | inr e ↦ rw e (absent t js h.1 q)
]

-- A listing that the row does not match lists other jobs only.
listed_others :
    (t : String) (row : Job) (q : Job → Bool) (js : List Job)
    → IsUnique (map job_key js)
    → find_where job_key t js ≡ some row
    → q row ≡ false
    → All (IsOther t) (select q js)
listed_others t row q [] u e n = tt
listed_others t row q (j ∷ js) u e n = elim (Bool-cases (str_eq j.job_id t)) [
  | inl c ↦
      let same : j ≡ row = ground arith in
      let key : j.job_id ≡ t = (str_eq_iff j.job_id t).0 c in
      let dropped : q j ≡ false = subst (λ x. q x ≡ false) (sym same) n in
      rw dropped
        (absent t js (subst (λ k. All (λ i. str_eq i k ≡ false) (map job_key js)) key u.0) q)
  | inr c ↦
      let rest = listed_others t row q js u.1 (ground arith) n in
      let other : IsOther t j = ground (arith, str_eq_iff t j.job_id, str_eq_iff j.job_id t) in
      elim (Bool-cases (q j)) [ inl e ↦ rw e (other, rest) | inr e ↦ rw e rest ]
]

row_unlisted :
    (row : Job)
    → is_terminal row.status ≡ true
    → (Jobs.matches (Jobs.status_filter (queued ∷ [])) row ≡ false)
      × (Jobs.matches (Jobs.status_filter active_statuses) row ≡ false)
unfolding is_terminal status_eq Jobs.matches Jobs.status_in
row_unlisted row h =
    (ground (arith, (by_status row.status h).0), ground (arith, (by_status row.status h).1))
  where
    by_status :
        (s : JobStatus)
        → is_terminal s ≡ true
        → (Jobs.status_in (queued ∷ []) s ≡ false) × (Jobs.status_in active_statuses s ≡ false)
    by_status completed e = (refl, refl)
    by_status failed e = (refl, refl)
    by_status cancelled e = (refl, refl)
    by_status s e = absurd (ground arith)

module _ (faults : Faults) (ks : List String) (t : String) (row : Job) (unique : IsUnique ks)
    (final : is_terminal row.status ≡ true) where
  asked-HasRow :
      {db : Database}
      → HasRow ks t row db
      → HasRow ks t row (record db { queries = suc db.queries })
  asked-HasRow h = record { keys = h.keys; found = h.found }

  schedule-HasRow :
      (j : Job) (id : String) (db : Database)
      → IsOther t j
      → HasRow ks t row db
      → HasRow ks t row (Jobs.schedule faults j.job_id id db).1
  unfolding Jobs.schedule
  schedule-HasRow j id db other h =
      query_ind (HasRow ks t row) faults (Jobs.schedule_row j.job_id id) db (asked-HasRow h)
        (elim (Option-cases (find_where node_key id db.nodes)) [
          | inl e ↦ rw (e, Jobs.schedule_row) (asked-HasRow h)
          | inr (x, e) ↦
              rw (e, Jobs.schedule_row)
                (update-HasRow j (Jobs.set_scheduled id) (λ y. refl) other (asked-HasRow h))
        ])

  finished-IsFrame : IsFrame faults (HasRow ks t row) (IsOther t)
  unfolding Jobs.update_status Jobs.requeue Nodes.update_availability Events.record_event
      Nodes.mark_stale_down
  finished-IsFrame = record {
    asked = λ db h. asked-HasRow h;
    update_status = λ now j s db other h.
        query_ind (HasRow ks t row) faults (Jobs.update_job j.job_id (Jobs.set_status s now)) db
          (asked-HasRow h)
          (update-HasRow j (Jobs.set_status s now) (λ y. refl) other (asked-HasRow h));
    requeue = λ j s db other h.
        query_ind (HasRow ks t row) faults (Jobs.update_job j.job_id (Jobs.set_requeued s)) db
          (asked-HasRow h)
          (update-HasRow j (Jobs.set_requeued s) (λ y. refl) other (asked-HasRow h));
    schedule = schedule-HasRow;
    update_availability = λ id g c m db h.
        query_ind (HasRow ks t row) faults (Nodes.update_node id (Nodes.set_available g c m)) db
          (asked-HasRow h) (record { keys = h.keys; found = h.found });
    record_event = λ e db h.
        query_ind (HasRow ks t row) faults (Events.insert_event e) db (asked-HasRow h)
          (record { keys = h.keys; found = h.found });
    mark_stale_down = λ now ttl db h.
        query_ind (HasRow ks t row) faults (Nodes.take_down_rows now ttl) db (asked-HasRow h)
          (record { keys = h.keys; found = h.found });
    listed_queued = λ db h.
        listed_others t row _ db.jobs (subst IsUnique (sym h.keys) unique) h.found
          (row_unlisted row final).0;
    listed_active = λ db h.
        listed_others t row _ db.jobs (subst IsUnique (sym h.keys) unique) h.found
          (row_unlisted row final).1;
    priority_free = λ j e p. p;
  }

module _ (float : Float64) (faults : Faults) (alg : Algorithm float) (cfg : SchedulerConfig float)
    (lawful : IsLawful float alg) where
  -- One full scheduling pass leaves the row of a completed, failed or cancelled job exactly as it was,
  -- and neither adds, drops nor renames a job, whatever queries fail and for every lawful policy,
  -- where the job ids are distinct.
  pub tick-keeps_finished :
      (now : Time) (db : Database) (t : String) (row : Job)
      → IsUnique (map job_key db.jobs)
      → find_where job_key t db.jobs ≡ some row
      → is_terminal row.status ≡ true
      → (find_where job_key t (tick float faults alg cfg now db).1.jobs ≡ some row)
        × (map job_key (tick float faults alg cfg now db).1.jobs ≡ map job_key db.jobs)
  tick-keeps_finished now db t row unique found final =
      let after =
        tick-D float faults alg cfg (HasRow (map job_key db.jobs) t row) (IsOther t)
          (finished-IsFrame faults (map job_key db.jobs) t row unique final) lawful now db
          (record { keys = refl; found = found }) in
      (after.found, after.keys)
