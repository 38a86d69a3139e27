-- ===== src/Monitoring/Workloads.antt =====
-- pkg/monitoring/monitoring.go: the metrics of the workloads, and their retry status.
use k8_highlander.Prelude.{
  ℕ, suc, String, ◌&&◌, Option, none, some, List, ◌∷◌, GoError, contains, ℤ, ◌==◌, if◌then◌else◌,
}

-- The status that a failed workload is given. `next_retry` is the time from now on to the retry.
pub record RetryStatus : Type 0 where
  pub retry_count : ℕ
  pub last_error : String
  pub next_retry : ℤ

-- The part of ControllerMetrics and of the health status that the workload manager writes. The
-- labels are the workload's type and its name.
pub record WorkloadMetrics : Type 0 where
  pub operations : String → String → String → ℕ
  pub startup_duration : String → String → List ℕ
  pub shutdown_duration : String → String → List ℕ
  pub errors : String → String → String → ℕ
  pub retry_attempts : String → String → ℕ
  pub retry_success : String → String → ℕ
  pub retry_status : String → String → Option RetryStatus

-- The value of a metric changes at one pair of labels.
unfoldable pub change_at :
    {A : Type 0} → String → String → (A → A) → (String → String → A) → String → String → A
change_at workload_type name f v t n = if workload_type == t && name == n then f (v t n) else v t n

unfoldable pub inc_at : String → (String → ℕ) → String → ℕ
inc_at label v k = if label == k then suc (v k) else v k

-- The error type under which RecordWorkloadOperation counts an error.
unfoldable pub workload_error_type : GoError → String
workload_error_type e =
    if e.deadline_exceeded
    then "timeout"
    else if e.canceled
    then "canceled"
    else if contains e.message "not found"
    then "not_found"
    else if contains e.message "timeout"
    then "timeout"
    else if contains e.message "already exists"
    then "already_exists"
    else "unknown"

unfoldable pub observe_operation : String → String → String → ℕ → WorkloadMetrics → WorkloadMetrics
observe_operation workload_type name operation duration m =
    if operation == "startup"
    then record m {
      startup_duration = change_at workload_type name (λ l. duration ∷ l) m.startup_duration;
    }
    else if operation == "shutdown"
    then record m {
      shutdown_duration = change_at workload_type name (λ l. duration ∷ l) m.shutdown_duration;
    }
    else m

unfoldable pub count_workload_error :
    String → String → Option GoError → WorkloadMetrics → WorkloadMetrics
count_workload_error workload_type name none m = m
count_workload_error workload_type name (some e) m = record m {
  errors = change_at workload_type name (inc_at (workload_error_type e)) m.errors;
}

-- RecordWorkloadOperation
unfoldable pub record_workload_operation :
    String → String → String → ℕ → Option GoError → WorkloadMetrics → WorkloadMetrics
record_workload_operation workload_type name operation duration e m =
    count_workload_error workload_type name e (
      observe_operation workload_type name operation duration
        (record m { operations = change_at workload_type name (inc_at operation) m.operations }))

-- UpdateWorkloadRetryStatus
unfoldable pub update_workload_retry_status :
    String → String → ℕ → String → ℤ → WorkloadMetrics → WorkloadMetrics
update_workload_retry_status workload_type name retry_count last_error next_retry m = record m {
  retry_status =
      change_at workload_type name
        (λ _.
          some (record {
            retry_count = retry_count;
            last_error = last_error;
            next_retry = next_retry;
          }))
        m.retry_status;
}
