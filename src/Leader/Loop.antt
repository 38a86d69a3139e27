-- ===== src/Leader/Loop.antt =====
-- pkg/leader/leader.go: one round of each of the controller's loops, and Stop. A round is one step:
-- the election loop holds the controller's workload mutex all through a round, the others while
-- they change the controller. What they read before that, they read in the same step here, and two
-- reads of the clock in a row give the same time.
pub mod Steps
pub mod Round
pub mod Contexts
pub mod History
pub mod Failures
use k8_highlander.Prelude.{
  ℕ, suc, ◌+◌, ◌-◌, ◌*◌, String, cat, Bool, true, false, not, ◌&&◌, Option, none, some, Result, ok,
  err, GoError, new_error, wrap, if◌then◌else◌, ◌==◌, ◌!=◌,
}
use k8_highlander.Monitoring.{record_db_operation}
use k8_highlander.Monitoring.Status.{
  update_leader_status, record_failover, update_current_leader, update_db_status,
  update_cluster_health,
}
use k8_highlander.Leader.{
  World, LeaderController, or_zero, monitor, measure, report, call, now, timed, get_current_leader,
  set_leader,
}
use k8_highlander.Leader.Connection.{reset_db_failures}
use k8_highlander.Leader.Acquire.{try_acquire_leadership}
use k8_highlander.Leader.Renew.{renew_leadership, release_leadership}
use k8_highlander.Leader.Workloads.{
  Outcome, panics, returns, ◌>>=◌, create_workload_context, wait_for_previous_workloads,
  start_workloads, stop_workloads,
}
use k8_highlander.Leader.Interfaces.{Outside}

module _ {S : Type 0} where
  unfoldable pub reset_if_ok : Result String → World S → World S
  reset_if_ok (ok v) w = reset_db_failures w
  reset_if_ok (err e) w = w

  unfoldable pub report_stop : Option GoError → World S → World S
  report_stop none w = w
  report_stop (some e) w = report (wrap (cat "failed to stop workloads " (cat w.lc.id ": ")) e "") w

  module _ (o : Outside S) where
    -- Leadership was lost: the workloads stop.
    unfoldable pub step_down : World S → World S
    step_down w =
        let (r, w1) = get_current_leader o 3 w in
        let w2 = set_leader false (reset_if_ok r w1) in
        let w3 =
          monitor
            (record_failover w2.lc.id (or_zero "" r) 0
              (some (new_error "leadership lost during renewal")))
            w2 in
        let w4 = (stop_workloads o w3).1 in
        monitor (update_leader_status false w4.lc.id w4.lc.cluster_name (now o w4)) w4

    -- Leadership was won: once the previous leader's workloads are gone, the workloads start.
    unfoldable pub step_up : ℕ → String → World S → Outcome (World S)
    step_up ticks previous w =
        let w1 = create_workload_context (reset_db_failures (set_leader true w)) in
        wait_for_previous_workloads o ticks w1 >>= λ r.
        let w2 = (start_workloads o r.1).1 in
        let w3 = monitor (update_leader_status true w2.lc.id w2.lc.cluster_name (now o w2)) w2 in
        returns (
          if previous != "" && previous != w3.lc.id
          then monitor (record_failover previous w3.lc.id 0 none) w3
          else w3)

    unfoldable pub lead_round : World S → World S
    lead_round w =
        let (kept, w') = renew_leadership o w in
        let down = step_down w' in if kept then w' else down

    unfoldable pub follow_round : ℕ → World S → Outcome (World S)
    follow_round ticks w =
        let (r, w1) = get_current_leader o 3 w in
        let (won, w2) = try_acquire_leadership o w1 in
        let up = step_up ticks (or_zero "" r) w2 in if won then up else returns w2

    -- One round of runLeaderElectionLoop; `ticks` bounds the polls of a wait for workloads.
    unfoldable pub election_round : ℕ → World S → Outcome (World S)
    election_round ticks w =
        let lead = lead_round w in
        let follow = follow_round ticks w in if w.lc.is_leader then returns lead else follow

    -- The lock shows another holder: a leader stops being it.
    unfoldable pub yield_to : String → World S → World S
    yield_to val w =
        let w1 = (stop_workloads o (set_leader false w)).1 in
        let w2 =
          monitor
            (record_failover w1.lc.id val 0
              (some (new_error "leadership taken by another instance")))
            w1 in
        monitor (update_leader_status false w2.lc.id w2.lc.cluster_name (now o w2)) w2

    unfoldable pub seen_lock : String → World S → World S
    seen_lock val w =
        let (r, w1) = call (o.storage.get_lock_ttl w.lc.leader_lock_key) w in
        let ttl = or_zero 0 r in
        let w2 = monitor (update_db_status true ttl w1.lc.db_failure_count) w1 in
        let w3 = measure (λ m. record m { db_lock_ttl = ttl }) w2 in
        let w4 = monitor (update_current_leader val) w3 in
        let yielded = yield_to val w4 in if w4.lc.is_leader && val != w4.lc.id then yielded else w4

    unfoldable pub after_look : Result String → World S → World S
    after_look (err e) w = monitor (update_db_status false 0 w.lc.db_failure_count) w
    after_look (ok val) w =
        let seen = seen_lock val w in
        if val == ""
        then monitor (update_current_leader "")
            (monitor (update_db_status true 0 w.lc.db_failure_count) w)
        else seen

    -- A read of the lock's holder that is recorded only if it succeeds.
    unfoldable pub look : World S → Result String × World S
    look w =
        let (r, w') = call (o.storage.get_lock_value w.lc.leader_lock_key) w in
        (
          r,
          elim r [
            | ok v ↦ measure (record_db_operation "get" (now o w' - now o w) none) w'
            | err e ↦ w'
          ],
        )

    -- One round of monitorLock
    unfoldable pub lock_round : World S → World S
    lock_round w = let (r, w') = look w in after_look r w'

    -- IsClusterHealthy
    unfoldable pub is_cluster_healthy : World S → Bool × World S
    is_cluster_healthy w =
        let (e, w') = call o.client.list_nodes w in
        if o.client.has_client w.outside
        then (elim e [ none ↦ true | some x ↦ false ], w')
        else (false, w)

    -- An unhealthy cluster: a leader gives the lock up.
    unfoldable pub give_up : GoError → World S → World S
    give_up reason w =
        let w1 = set_leader false (release_leadership o w) in
        let w2 = (stop_workloads o w1).1 in
        monitor (record_failover w2.lc.id "" (now o w2 - now o w) (some reason)) w2

    unfoldable pub health_check : GoError → World S → World S
    health_check reason w =
        let (healthy, w1) = is_cluster_healthy w in
        let w2 = monitor (update_cluster_health w1.lc.cluster_name healthy) w1 in
        let out = give_up reason w2 in if not healthy && w2.lc.is_leader then out else w2

    -- One round of monitorClusterHealth, and the manual TriggerClusterHealthCheck.
    unfoldable pub health_round : World S → World S
    health_round w = health_check (new_error "released leadership due to unhealthy cluster") w

    unfoldable pub trigger_cluster_health_check : World S → World S
    trigger_cluster_health_check w =
        health_check
          (new_error (cat "released leadership due to unhealthy cluster " w.lc.cluster_name)) w

    unfoldable pub stop_leading : World S → World S
    stop_leading w =
        let w1 = set_leader false (release_leadership o w) in
        let (e, w2) = call o.workloads.stop_all w1 in
        let w3 = report_stop e w2 in record w3 { outside = o.workloads.cleanup w3.outside }

    -- Stop. The CRD watcher stops whoever leads.
    unfoldable pub stop : World S → World S
    stop w =
        if w.lc.stopped
        then w
        else let w1 = record w { lc = record (w.lc) { stopped = true } } in
          let w2 = (call o.crd_watcher.stop w1).1 in
          let out = stop_leading w2 in if w2.lc.is_leader then out else w2
