-- ===== src/Leader/Recovery.antt =====
-- pkg/leader/leader.go: monitorWorkloads, the loop that restarts workloads that are unhealthy or
-- whose objects are gone.
pub mod Pace
pub mod Orphans
pub mod Rounds
pub mod Tests
use k8_highlander.Prelude.{
  ℕ, suc, ◌+◌, ◌-◌, ◌*◌, ◌^◌, String, cat, Bool, true, false, not, ◌&&◌, Option, none, some, Result,
  ok, err, GoError, wrap, List, [], ◌∷◌, Map, lookup, insert, delete, ltb, contains, if◌then◌else◌,
  ◌==◌, ◌!=◌,
}
use k8_highlander.Common.{
  WorkloadStatus, WorkloadType, process, service, cron_job, persistent, is_normal,
}
use k8_highlander.Monitoring.{second}
use k8_highlander.Leader.{World, report, call, now}
use k8_highlander.Leader.Interfaces.{Outside}
use k8_highlander.Leader.Workloads.{Outcome, returns, ◌>>=◌, namespace_of, is_checked}

-- The workloads of the manager, by their names, and errors.IsNotFound.
pub record Members (S : Type 0) : Type 0 where
  pub has_workload : String → S → Bool
  pub stop_workload : String → Option ℕ → S → Option GoError × S
  pub start_workload : String → Option ℕ → S → Option GoError × S
  pub is_not_found : GoError → Bool

-- restartAttempts and lastRestartTime
pub record Restarts : Type 0 where
  pub attempts : Map ℕ
  pub last : Map ℕ

unfoldable pub no_restarts : Restarts
no_restarts = record { attempts = []; last = [] }

unfoldable pub count_of : Option ℕ → ℕ
count_of none = 0
count_of (some n) = n

-- The wait before the next restart, after so many: a second, doubled each time, and a minute at
-- most.
unfoldable pub backoff_delay : ℕ → ℕ
backoff_delay attempts = (if ltb 60 (2 ^ attempts) then 60 else 2 ^ attempts) * second

-- status.LastTransition.Add(2 * time.Minute).After(time.Now())
unfoldable pub is_recent : Option ℕ → ℕ → Bool
is_recent none now = false
is_recent (some t) now = ltb now (t + 120 * second)

-- hasRestarted && time.Since(lastRestart) < backoffDelay
unfoldable pub backs_off : Option ℕ → ℕ → ℕ → Bool
backs_off none delay now = false
backs_off (some t) delay now = ltb (now - t) delay

unfoldable pub forget : String → Restarts → Restarts
forget name r = record { attempts = delete name r.attempts; last = delete name r.last }

-- The object of a workload is gone.
unfoldable pub is_missing : {A : Type 0} → (GoError → Bool) → Result A → Bool
is_missing is_not_found (ok a) = false
is_missing is_not_found (err e) = is_not_found e

module _ {S : Type 0} where
  -- Active in a normal state, but unhealthy with an error.
  unfoldable pub needs_recovery : WorkloadStatus → World S → Bool
  needs_recovery status w =
      status.active
      && is_normal w.lc.controller_state
      && not status.healthy
      && status.last_error != ""

  unfoldable pub report_restart : String → Option GoError → World S → World S
  report_restart name none w = w
  report_restart name (some e) w =
      report (wrap (cat "failed to restart workload " (cat name ": ")) e "") w

  module _ (o : Outside S) (p : Members S) (ctx : Option ℕ) where
    -- A workload is stopped and started; errors are logged only.
    unfoldable pub recover : String → Restarts → World S → Restarts × World S
    recover name r w =
        let w1 = (call (p.stop_workload name ctx) w).1 in
        let w2 = (call (p.start_workload name ctx) w1).1 in
        (
          record {
            attempts = insert name (count_of (lookup name r.attempts) + 1) r.attempts;
            last = insert name (now o w2) r.last;
          },
          w2,
        )

    unfoldable pub recover_if_due :
        String → WorkloadStatus → Restarts → World S → Restarts × World S
    recover_if_due name status r w =
        let recovered = recover name r w in
        if contains status.last_error "Pod in Pending state"
        then (r, w)
        else if is_recent status.last_transition (now o w)
        then (r, w)
        else if backs_off (lookup name r.last) (backoff_delay (count_of (lookup name r.attempts)))
            (now o w)
        then (r, w)
        else if p.has_workload name w.outside
        then recovered
        else (r, w)

    unfoldable pub recover_one : String → WorkloadStatus → Restarts → World S → Restarts × World S
    recover_one name status r w =
        let recovered = recover_if_due name status r w in
        if needs_recovery status w
        then recovered
        else if status.healthy
        then (forget name r, w)
        else (r, w)

    unfoldable pub recover_each : Map WorkloadStatus → Restarts → World S → Restarts × World S
    recover_each [] r w = (r, w)
    recover_each ((name, status) ∷ rest) r w =
        let (r', w') = recover_one name status r w in recover_each rest r' w'

    -- restartWorkload
    unfoldable pub restart_workload : String → World S → World S
    restart_workload name w =
        let w1 = (call (p.stop_workload name ctx) w).1 in
        let (e, w2) = call (p.start_workload name ctx) w1 in
        let restarted = report_restart name e w2 in
        if p.has_workload name w.outside then restarted else w

    unfoldable pub if_missing : {A : Type 0} → String → Result A × World S → World S
    if_missing name (r, w) =
        let restarted = restart_workload name w in
        if is_missing p.is_not_found r then restarted else w

    -- The object of a workload, by its type.
    unfoldable pub check_object : String → WorkloadType → String → World S → World S
    check_object name process ns w =
        if_missing name (call (o.client.get_pod ns (cat name "-pod")) w)
    check_object name cron_job ns w = if_missing name (call (o.client.get_cron_job ns name) w)
    check_object name service ns w = if_missing name (call (o.client.get_deployment ns name) w)
    check_object name persistent ns w = if_missing name (call (o.client.get_stateful_set ns name) w)
    check_object name other ns w = w

    unfoldable pub check_each : Map WorkloadStatus → World S → Outcome (World S)
    check_each [] w = returns w
    check_each ((name, status) ∷ rest) w =
        let skip = check_each rest w in
        if not status.active
        then skip
        else (if is_checked o status.workload_type
            then (namespace_of status >>= λ ns.
                check_each rest (check_object name status.workload_type ns w))
            else skip)

    -- checkForOrphanedWorkloads
    unfoldable pub check_for_orphans : World S → Outcome (World S)
    check_for_orphans w =
        let checked = check_each (o.workloads.get_all_statuses w.outside) w in
        if w.lc.is_leader then checked else returns w

    -- One tick of monitorWorkloads.
    unfoldable pub recovery_round : Restarts → World S → Outcome (Restarts × World S)
    recovery_round r w =
        let (r', w') = recover_each (o.workloads.get_all_statuses w.outside) r w in
        let checked = check_for_orphans w' >>= λ u. returns (r', u) in
        if w.lc.is_leader then checked else returns (r, w)
