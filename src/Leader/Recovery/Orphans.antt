-- ===== src/Leader/Recovery/Orphans.antt =====
-- The check for workloads whose objects are gone, where there are none that have objects.
use k8_highlander.Prelude.{
  ℕ, Option, Bool, true, false, [], ◌∷◌, Map, ◌≡◌, refl, sym, if◌then◌else◌, Bool-cases, inl, inr,
}
use mathlib.Core.Bool.{false≢true}
use k8_highlander.Common.{
  WorkloadStatus, WorkloadType, process, service, cron_job, persistent, process_manager,
  service_manager, cron_job_manager, persistent_manager, custom,
}
use k8_highlander.Leader.{World}
use k8_highlander.Leader.Interfaces.{Outside}
use k8_highlander.Leader.Workloads.{Outcome, returns, is_checked}
use k8_highlander.Leader.Recovery.{Members, check_each, check_for_orphans}

-- The types of workloads that stand for an object of the cluster: a pod, a deployment, a cron job or
-- a stateful set.
unfoldable pub has_object : WorkloadType → Bool
has_object process = true
has_object service = true
has_object cron_job = true
has_object persistent = true
has_object process_manager = false
has_object service_manager = false
has_object cron_job_manager = false
has_object persistent_manager = false
has_object custom = false

-- All statuses are those of managers, or of workloads of a custom type.
unfoldable pub NoObjects : Map WorkloadStatus → Type 0
NoObjects [] = Unit {0}
NoObjects ((name, status) ∷ rest) = (has_object status.workload_type ≡ false) × NoObjects rest

module _ {S : Type 0} (o : Outside S) (p : Members S) (ctx : Option ℕ) where
  without_object : (type : WorkloadType) → has_object type ≡ false → is_checked o type ≡ false
  unfolding has_object is_checked
  without_object process h = absurd (false≢true (sym h))
  without_object service h = absurd (false≢true (sym h))
  without_object cron_job h = absurd (false≢true (sym h))
  without_object persistent h = absurd (false≢true (sym h))
  without_object process_manager h = refl
  without_object service_manager h = refl
  without_object cron_job_manager h = refl
  without_object persistent_manager h = refl
  without_object custom h = refl

  check_each-unchecked :
      (statuses : Map WorkloadStatus) (w : World S)
      → NoObjects statuses
      → check_each o p ctx statuses w ≡ returns w
  unfolding check_each NoObjects
  check_each-unchecked [] w h = refl
  check_each-unchecked ((name, status) ∷ rest) w h = elim (Bool-cases status.active) [
    | inl e ↦ rw (e, without_object status.workload_type h.0) (check_each-unchecked rest w h.1)
    | inr e ↦ rw e (check_each-unchecked rest w h.1)
  ]

  either_of :
      (b : Bool) (x y : Outcome (World S)) (z : Outcome (World S))
      → x ≡ z
      → y ≡ z
      → (if b then x else y) ≡ z
  either_of true x y z h g = h
  either_of false x y z h g = g

  -- Where every entry of the table is a manager of workloads or of the custom type, whatever the
  -- statuses say otherwise, the check for orphans changes nothing: it restarts no orphan.
  pub check_for_orphans-unchecked :
      (w : World S)
      → NoObjects (o.workloads.get_all_statuses w.outside)
      → check_for_orphans o p ctx w ≡ returns w
  unfolding check_for_orphans
  check_for_orphans-unchecked w h =
      either_of w.lc.is_leader _ _ (returns w) (check_each-unchecked _ w h) refl
