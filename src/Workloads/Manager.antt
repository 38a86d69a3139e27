-- ===== src/Workloads/Manager.antt =====
-- pkg/workloads/manager.go: ManagerImpl. The workloads themselves are outside: a workload is its
-- name and its type, and starting or stopping it is a call on the state `S` of the outside. The
-- goroutines of StartAll and StopAll are put in the order of the map, which may be any.
pub mod Failures
pub mod Table
pub mod Tests
use k8_highlander.Prelude.{
  ℕ, zero, suc, ◌+◌, ◌-◌, ◌*◌, ◌^◌, ℤ, pos, negsuc, String, cat, Bool, true, false, not, Option,
  none, some, List, [], ◌∷◌, ◌++◌, Map, lookup, insert, delete, GoError, new_error, wrap, ltb,
  decimal, if◌then◌else◌,
}
use k8_highlander.Monitoring.{second}
use k8_highlander.Monitoring.Workloads.{
  WorkloadMetrics, record_workload_operation, update_workload_retry_status, change_at,
}

-- common.Workload
pub record Workload : Type 0 where
  pub name : String
  pub workload_type : String

-- failedWorkloadInfo
pub record FailedWorkload : Type 0 where
  pub workload : Workload
  pub last_attempt : ℕ
  pub failure_count : ℕ
  pub last_error : GoError

-- ManagerImpl, with its metrics. `retriers` counts the goroutines of retryFailedWorkloads that
-- were started, and `retry_cancelled` says that their context is cancelled.
pub record ManagerImpl : Type 0 where
  pub workloads : Map Workload
  pub failed_workloads : Map FailedWorkload
  pub is_shutting_down : Bool
  pub retry_cancelled : Bool
  pub retriers : ℕ
  pub metrics : WorkloadMetrics

-- What the manager calls: the workloads, with the context they run in (none for that of a retry),
-- the clock, the text of GetLeaderInfo, and Go's conversion of a float64 that is out of range to an int64, which depends on
-- the implementation.
pub record Calls (S : Type 0) : Type 0 where
  pub start : Workload → Option ℕ → S → Option GoError × S
  pub stop : Workload → S → Option GoError × S
  pub now : S → ℕ
  pub leader_info : S → String
  pub out_of_range : ℕ → ℤ

-- NewManager
unfoldable pub new_manager : WorkloadMetrics → ManagerImpl
new_manager metrics = record {
  workloads = [];
  failed_workloads = [];
  is_shutting_down = false;
  retry_cancelled = false;
  retriers = 0;
  metrics = metrics;
}

unfoldable pub add_over : Option Workload → Workload → ManagerImpl → Option GoError × ManagerImpl
add_over (some x) w m = (some (new_error (cat "workload " (cat w.name " already exists"))), m)
add_over none w m = (none, record m { workloads = insert w.name w m.workloads })

-- AddWorkload
unfoldable pub add_workload : Workload → ManagerImpl → Option GoError × ManagerImpl
add_workload w m = add_over (lookup w.name m.workloads) w m

unfoldable pub remove_over : Option Workload → String → ManagerImpl → Option GoError × ManagerImpl
remove_over none name m = (some (new_error (cat "workload " (cat name " does not exist"))), m)
remove_over (some x) name m = (none, record m { workloads = delete name m.workloads })

-- RemoveWorkload
unfoldable pub remove_workload : String → ManagerImpl → Option GoError × ManagerImpl
remove_workload name m = remove_over (lookup name m.workloads) name m

-- GetWorkload
unfoldable pub get_workload : String → ManagerImpl → Option Workload
get_workload name m = lookup name m.workloads

-- Cleanup
unfoldable pub clean_up : ManagerImpl → ManagerImpl
clean_up m = record m { retry_cancelled = true; failed_workloads = [] }

-- ierrors.Join: the texts, a line each
unfoldable pub join_errors : List GoError → String
join_errors [] = ""
join_errors (e ∷ []) = e.message
join_errors (e ∷ e' ∷ es) = cat e.message (cat "\n" (join_errors (e' ∷ es)))

unfoldable pub severe_errors : List GoError → List GoError
severe_errors [] = []
severe_errors (e ∷ es) = if e.severe then e ∷ severe_errors es else severe_errors es

-- The error of a startup: severe if one of its errors is.
unfoldable pub startup_error : List GoError → List GoError → Option GoError
startup_error [] [] = none
startup_error [] (e ∷ es) = some (
    new_error
      (cat "manager failed with non-severe to start some workloads: " (join_errors (e ∷ es))))
startup_error (e ∷ es) all =
    some
      (record (new_error (
        cat "ManagerImpl: manager encountered severe errors during startup: "
          (join_errors (e ∷ es)))) { severe = true })

unfoldable pub join_texts : List GoError → String
join_texts [] = ""
join_texts (e ∷ []) = e.message
join_texts (e ∷ e' ∷ es) = cat e.message (cat " " (join_texts (e' ∷ es)))

unfoldable pub shutdown_error : String → List GoError → Option GoError
shutdown_error leader [] = none
shutdown_error leader (e ∷ es) = some (
    new_error (
      cat "failed to stop some workloads: ["
        (cat (join_texts (e ∷ es)) (cat "] [" (cat leader "]")))))

unfoldable pub note_start : String → Workload → ℕ → Option GoError → ManagerImpl → ManagerImpl
note_start name w now none m = m
note_start name w now (some e) m = record m {
  failed_workloads =
      insert name (record { workload = w; last_attempt = now; failure_count = 1; last_error = e })
        m.failed_workloads;
}

unfoldable pub error_list : Option GoError → List GoError
error_list none = []
error_list (some e) = e ∷ []

unfoldable pub measure_operation :
    String → Workload → String → ℕ → Option GoError → ManagerImpl → ManagerImpl
measure_operation name w operation duration e m = record m {
  metrics = record_workload_operation w.workload_type name operation duration e m.metrics;
}

module _ {S : Type 0} (o : Calls S) where
  -- Each workload is started; the errors, with the manager that has noted them.
  unfoldable pub start_each :
      Option ℕ → Map Workload → ManagerImpl → S → List GoError × ManagerImpl × S
  start_each ctx [] m s = ([], m, s)
  start_each ctx ((name, w) ∷ ws) m s =
      let (e, s') = o.start w ctx s in
      let m' =
        note_start name w (o.now s') e
          (measure_operation name w "startup" (o.now s' - o.now s) e m) in
      let (es, m'', s'') = start_each ctx ws m' s' in (error_list e ++ es, m'', s'')

  -- StartAll. It starts a retry process each time.
  unfoldable pub start_all : Option ℕ → ManagerImpl → S → Option GoError × ManagerImpl × S
  start_all ctx m s =
      let m0 = record m {
        is_shutting_down = false;
        failed_workloads = [];
        retriers = suc m.retriers;
      } in
      let (es, m', s') = start_each ctx m0.workloads m0 s in
      (startup_error (severe_errors es) es, m', s')

  unfoldable pub stop_each : Map Workload → ManagerImpl → S → List GoError × ManagerImpl × S
  stop_each [] m s = ([], m, s)
  stop_each ((name, w) ∷ ws) m s =
      let (e, s') = o.stop w s in
      let m' = measure_operation name w "shutdown" (o.now s' - o.now s) e m in
      let (es, m'', s'') = stop_each ws m' s' in
      (
        elim e [
          | none ↦ es
          | some x ↦ wrap (cat "failed to stop workload " (cat name ": ")) x "" ∷ es
        ],
        m'',
        s'',
      )

  -- StopAll. No retry starts from here on.
  unfoldable pub stop_all : ManagerImpl → S → Option GoError × ManagerImpl × S
  stop_all m s =
      let m0 = record m { is_shutting_down = true } in
      let (es, m', s') = stop_each m0.workloads m0 s in
      (shutdown_error (o.leader_info s') es, m', s')

  -- time.Duration of a float64
  unfoldable pub to_duration : ℕ → ℤ
  to_duration n = if ltb n (2 ^ 63) then pos n else o.out_of_range n

  -- d > maxBackoff
  unfoldable pub at_most : ℕ → ℤ → ℤ
  at_most max (pos n) = if ltb max n then pos max else pos n
  at_most max (negsuc n) = negsuc n

  -- The wait before the next retry: five seconds, doubled for each failure after the first, and
  -- five minutes at most. A failure count is never below 1.
  unfoldable pub backoff : ℕ → ℤ
  backoff failure_count =
      at_most (300 * second) (to_duration (5 * second * 2 ^ (failure_count - 1)))

  -- time.Since(lastAttempt) < backoff
  unfoldable pub too_early : ℕ → ℕ → ℤ → Bool
  too_early last_attempt now (pos d) = ltb (now - last_attempt) d
  too_early last_attempt now (negsuc d) = false

  -- The outcome of a retry.
  unfoldable pub note_retry :
      String → FailedWorkload → ℕ → Option GoError → ManagerImpl → ManagerImpl
  note_retry name info now none m = record m {
    metrics = record (m.metrics) {
      retry_success = change_at info.workload.workload_type name suc m.metrics.retry_success;
    };
    failed_workloads = delete name m.failed_workloads;
  }
  note_retry name info now (some e) m = record m {
    failed_workloads =
        insert name
          (record {
            workload = info.workload;
            last_attempt = now;
            failure_count = suc info.failure_count;
            last_error = e;
          })
          m.failed_workloads;
    metrics =
        update_workload_retry_status info.workload.workload_type name info.failure_count
          info.last_error.message (backoff info.failure_count) m.metrics;
  }

  unfoldable pub start_again : String → FailedWorkload → ManagerImpl → S → ManagerImpl × S
  start_again name info m s =
      let (e, s') = o.start info.workload none s in
      (
        note_retry name info (o.now s') e
            (measure_operation name info.workload "retry" (o.now s' - o.now s) e m),
        s',
      )

  unfoldable pub retry_one : String → FailedWorkload → ManagerImpl → S → ManagerImpl × S
  retry_one name info m s =
      let m' = record m {
        metrics = record (m.metrics) {
          retry_attempts = change_at info.workload.workload_type name suc m.metrics.retry_attempts;
        };
      } in
      let tried = start_again name info m' s in
      if too_early info.last_attempt (o.now s) (backoff info.failure_count) then (m', s) else tried

  unfoldable pub retry_each : Map FailedWorkload → ManagerImpl → S → ManagerImpl × S
  retry_each [] m s = (m, s)
  retry_each ((name, info) ∷ rest) m s =
      let (m', s') = retry_one name info m s in retry_each rest m' s'

  -- One tick of retryFailedWorkloads.
  unfoldable pub retry_round : ManagerImpl → S → ManagerImpl × S
  retry_round m s =
      let tried = retry_each m.failed_workloads m s in
      if m.retry_cancelled then (m, s) else if m.is_shutting_down then (m, s) else tried
