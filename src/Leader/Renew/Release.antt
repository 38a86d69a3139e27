-- ===== src/Leader/Renew/Release.antt =====
-- What a release leaves in the health status.
use k8_highlander.Prelude.{Bool, true, false, Result, ok, err, ◌≡◌, refl, if◌then◌else◌}
use k8_highlander.Monitoring.Status.{update_leader_status, set_leader_status, set_error}
use k8_highlander.Leader.{World, call, timed, measure, monitor, report}
use k8_highlander.Leader.Interfaces.{Outside}
use k8_highlander.Leader.Renew.{release_leadership, after_release, not_leading}

unfoldable pub is_ok : {A : Type 0} → Result A → Bool
is_ok (ok a) = true
is_ok (err e) = false

module _ {S : Type 0} (o : Outside S) where
  -- What the storage answers to the release, which follows the read of the lock.
  unfoldable pub release_answer : World S → Result Bool
  release_answer w =
      (o.storage.release_lock w.lc.leader_lock_key w.lc.id
        (o.storage.get_lock_info w.lc.leader_lock_key w.outside).1).0

  after_release-health :
      (r : Result Bool) (w : World S)
      → (after_release o r w).mon.health.is_leader
        ≡ (if is_ok r then false else w.mon.health.is_leader)
  unfolding after_release is_ok not_leading measure monitor update_leader_status set_leader_status
      report set_error
  after_release-health (err e) w = refl
  after_release-health (ok b) w = refl

  -- After releaseLeadership the health status says that the instance does not lead, if the storage
  -- answered the release; if it failed, the status says what it said before.
  pub release_leadership-health :
      (w : World S)
      → (release_leadership o w).mon.health.is_leader
        ≡ (if is_ok (release_answer w) then false else w.mon.health.is_leader)
  unfolding release_leadership release_answer timed call measure
  release_leadership-health w = after_release-health (release_answer w) _
