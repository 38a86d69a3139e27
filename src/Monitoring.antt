-- ===== src/Monitoring.antt =====
-- pkg/monitoring/monitoring.go: the metrics and the health status that the leader controller
-- writes. Each method of MonitoringServer holds its mutex while it writes the status; `now` is
-- what its call of time.Now gives. Durations are observed in nanoseconds.
pub mod Status
pub mod Readiness
pub mod Workloads
pub mod Tests
use k8_highlander.Prelude.{
  ℕ, suc, ◌+◌, ◌-◌, ◌*◌, ◌^◌, String, cat, Bool, true, false, not, ◌&&◌, Option, none, some, List,
  [], ◌∷◌, GoError, ltb, contains, ◌==◌, ◌!=◌, if◌then◌else◌,
}
use k8_highlander.Common.{ControllerState, unset, normal, degraded, is_normal, is_degraded}

abbrev pub second : ℕ
second = 10 ^ 9

-- Gauges and counters; a vector is a function of its labels, a histogram the list of what it has
-- observed.
pub record ControllerMetrics : Type 0 where
  pub is_leader : ℕ
  pub leadership_transitions : ℕ
  pub leadership_duration : List ℕ
  pub leadership_acquisitions : ℕ
  pub leadership_losses : ℕ
  pub leadership_failed_attempts : ℕ
  pub last_leader_transition : ℕ
  pub failover_duration : List ℕ
  pub failover_count : ℕ
  pub failover_errors : ℕ
  pub db_operations : String → ℕ
  pub db_errors : String → String → ℕ
  pub db_latency : String → List ℕ
  pub db_lock_ttl : ℕ
  pub cluster_health : String → ℕ
  pub cluster_transitions : String → String → ℕ
  pub controller_status : String → ℕ

-- The metrics when they are made: nothing is counted or measured.
abbrev pub no_metrics : ControllerMetrics
no_metrics = record {
  is_leader = 0;
  leadership_transitions = 0;
  leadership_duration = [];
  leadership_acquisitions = 0;
  leadership_losses = 0;
  leadership_failed_attempts = 0;
  last_leader_transition = 0;
  failover_duration = [];
  failover_count = 0;
  failover_errors = 0;
  db_operations = λ k. 0;
  db_errors = λ k k'. 0;
  db_latency = λ k. [];
  db_lock_ttl = 0;
  cluster_health = λ k. 0;
  cluster_transitions = λ k k'. 0;
  controller_status = λ k. 0;
}

-- HealthStatus, without the workloads' statuses. A time is none while it is the zero time.
pub record HealthStatus : Type 0 where
  pub is_leader : Bool
  pub leader_since : Option ℕ
  pub last_leader_transition : Option ℕ
  pub leader_id : String
  pub cluster_name : String
  pub cluster_health : Bool
  pub db_connected : Bool
  pub controller_state : ControllerState
  pub ready_for_traffic : Bool
  pub last_error : String
  pub failover_count : ℕ
  pub leadership_transitions : ℕ
  pub current_leader : String
  pub last_leader : String
  pub last_leadership_change_reason : String
  pub db_failure_count : ℕ

pub record MonitoringServer : Type 0 where
  pub metrics : ControllerMetrics
  pub health : HealthStatus

-- Inc of a counter vector, Set of a gauge vector, Observe of a histogram vector.
unfoldable pub inc : String → (String → ℕ) → String → ℕ
inc label v k = if label == k then suc (v k) else v k

unfoldable pub inc_pair : String → String → (String → String → ℕ) → String → String → ℕ
inc_pair label label' v k k' = if label == k && label' == k' then suc (v k k') else v k k'

unfoldable pub set_gauge : String → ℕ → (String → ℕ) → String → ℕ
set_gauge label x v k = if label == k then x else v k

unfoldable pub observe : String → ℕ → (String → List ℕ) → String → List ℕ
observe label x v k = if label == k then x ∷ v k else v k

-- NewMonitoringServer, over the metrics
unfoldable pub new_monitoring_server : ControllerMetrics → MonitoringServer
new_monitoring_server metrics = record {
  metrics = metrics;
  health = record {
    is_leader = false;
    leader_since = none;
    last_leader_transition = none;
    leader_id = "";
    cluster_name = "";
    cluster_health = false;
    db_connected = false;
    controller_state = unset;
    ready_for_traffic = false;
    last_error = "";
    failover_count = 0;
    leadership_transitions = 0;
    current_leader = "";
    last_leader = "";
    last_leadership_change_reason = "";
    db_failure_count = 0;
  };
}

unfoldable pub status_gauges : ControllerState → (String → ℕ) → String → ℕ
unfolding set_gauge
status_gauges normal v = set_gauge "degraded" 0 (set_gauge "normal" 1 v)
status_gauges degraded v = set_gauge "degraded" 1 (set_gauge "normal" 0 v)
status_gauges unset v = v

-- MonitoringServer.UpdateControllerState
unfoldable pub update_controller_state : ControllerState → MonitoringServer → MonitoringServer
unfolding status_gauges
update_controller_state state m = record m {
  health = record (m.health) { controller_state = state };
  metrics = record (m.metrics) {
    controller_status = status_gauges state m.metrics.controller_status;
  };
}

-- The error type under which RecordDBOperation counts an error.
unfoldable pub db_error_type : GoError → String
db_error_type e =
    if e.redis_nil
    then "nil"
    else if e.deadline_exceeded
    then "timeout"
    else if e.canceled
    then "canceled"
    else if contains e.message "connection refused"
    then "connection_refused"
    else if contains e.message "timeout"
    then "timeout"
    else if contains e.message "network"
    then "network"
    else "unknown"

unfoldable pub count_db_error : String → Option GoError → ControllerMetrics → ControllerMetrics
unfolding db_error_type inc_pair
count_db_error operation none m = m
count_db_error operation (some e) m = record m {
  db_errors = inc_pair operation (db_error_type e) m.db_errors;
}

-- ControllerMetrics.RecordDBOperation
unfoldable pub record_db_operation :
    String → ℕ → Option GoError → ControllerMetrics → ControllerMetrics
unfolding count_db_error inc observe
record_db_operation operation duration e m = count_db_error operation e (record m {
  db_operations = inc operation m.db_operations;
  db_latency = observe operation duration m.db_latency;
})

-- MonitoringServer.IsLeaderAndNormal
unfoldable pub is_leader_and_normal : MonitoringServer → Bool
unfolding is_normal
is_leader_and_normal m = m.health.is_leader && is_normal m.health.controller_state

-- time.Since(t) > d. The time since the zero time is longer than every `d` of the program.
unfoldable pub longer_than : Option ℕ → ℕ → ℕ → Bool
longer_than none d now = true
longer_than (some t) d now = ltb d (now - t)
