-- ===== src/Store/Events.antt =====
-- internal/store/events.go
use gpu_cluster_scheduler.Common.{
  ℤ, pos, pos_part, ltb_ℤ, leb_ℤ, if◌then◌else◌, List, [], ◌∷◌, ◌++◌, take,
}
use gpu_cluster_scheduler.Common.Sort.{sort_stable}
use gpu_cluster_scheduler.Models.{SchedulingEvent}
use gpu_cluster_scheduler.Store.Database.{Database, Result, ok, Faults, Store, query}

abbrev pub insert_event : SchedulingEvent → Database → Result (Unit {0}) × Database
insert_event e db = (ok tt, record db { events = db.events ++ e ∷ [] })

module _ (faults : Faults) where
  unfoldable pub record_event : SchedulingEvent → Store Unit
  record_event e = query faults (insert_event e)

  unfoldable pub list : ℤ → Store (List SchedulingEvent)
  unfolding sort_stable
  list limit = query faults λ db.
      let count = if leb_ℤ limit (pos 0) then pos 100 else limit in
      (
        ok (take (pos_part count) (sort_stable (λ a b. ltb_ℤ b.timestamp a.timestamp) db.events)),
        db,
      )
