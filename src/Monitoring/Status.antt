-- ===== src/Monitoring/Status.antt =====
-- pkg/monitoring/monitoring.go: the methods that write the leader's status.
use k8_highlander.Prelude.{
  ℕ, suc, ◌-◌, ◌*◌, String, cat, Bool, true, false, not, ◌&&◌, Option, none, some, List, ◌∷◌,
  GoError, ltb, ◌==◌, ◌!=◌, if◌then◌else◌,
}
use k8_highlander.Common.{is_normal, is_degraded}
use k8_highlander.Monitoring.{
  ControllerMetrics, HealthStatus, MonitoringServer, second, inc_pair, set_gauge, longer_than,
}

-- What changes when the server becomes the leader, and when it stops being it.
unfoldable pub gain_leadership : ℕ → MonitoringServer → MonitoringServer
gain_leadership now m = record m {
  health = record (m.health) {
    last_leader_transition = some now;
    leader_since = some now;
    leadership_transitions = suc m.health.leadership_transitions;
  };
  metrics = record (m.metrics) {
    leadership_acquisitions = suc m.metrics.leadership_acquisitions;
    leadership_transitions = suc m.metrics.leadership_transitions;
    last_leader_transition = now;
  };
}

unfoldable pub observe_since : Option ℕ → ℕ → List ℕ → List ℕ
observe_since none now durations = durations
observe_since (some since) now durations = (now - since) ∷ durations

unfoldable pub lose_leadership : ℕ → MonitoringServer → MonitoringServer
unfolding observe_since
lose_leadership now m = record m {
  health = record (m.health) { last_leader_transition = some now };
  metrics = record (m.metrics) {
    leadership_duration = observe_since m.health.leader_since now m.metrics.leadership_duration;
    leadership_losses = suc m.metrics.leadership_losses;
    leadership_transitions = suc m.metrics.leadership_transitions;
    last_leader_transition = now;
  };
}

unfoldable pub transition : Bool → Bool → ℕ → MonitoringServer → MonitoringServer
unfolding gain_leadership lose_leadership
transition true true now m = m
transition true false now m = lose_leadership now m
transition false true now m = gain_leadership now m
transition false false now m = m

-- Ready for traffic, from `was_leader` and the status after the transition.
unfoldable pub readiness : Bool → Bool → ℕ → HealthStatus → Bool
unfolding longer_than is_normal is_degraded
readiness was_leader true now h =
    if not was_leader
    then false
    else if longer_than h.leader_since (5 * second) now && is_normal h.controller_state
    then true
    else if is_degraded h.controller_state
    then longer_than h.leader_since (10 * second) now
    else h.ready_for_traffic
readiness was_leader false now h = longer_than h.last_leader_transition (30 * second) now

unfoldable pub bool_gauge : Bool → ℕ
bool_gauge true = 1
bool_gauge false = 0

unfoldable pub set_leader_status :
    Bool → Bool → String → String → ℕ → MonitoringServer → MonitoringServer
unfolding readiness bool_gauge
set_leader_status was_leader is_leader leader_id cluster_name now m = record m {
  health = record (m.health) {
    is_leader = is_leader;
    leader_id = leader_id;
    cluster_name = cluster_name;
    ready_for_traffic = readiness was_leader is_leader now m.health;
  };
  metrics = record (m.metrics) { is_leader = bool_gauge is_leader };
}

-- UpdateLeaderStatus. `now` stands for its few calls of time.Now and time.Since.
unfoldable pub update_leader_status :
    Bool → String → String → ℕ → MonitoringServer → MonitoringServer
unfolding transition set_leader_status
update_leader_status is_leader leader_id cluster_name now m =
    set_leader_status m.health.is_leader is_leader leader_id cluster_name now
      (transition m.health.is_leader is_leader now m)

-- UpdateClusterHealth
unfoldable pub update_cluster_health : String → Bool → MonitoringServer → MonitoringServer
unfolding set_gauge bool_gauge
update_cluster_health name is_healthy m = record m {
  metrics = record (m.metrics) {
    cluster_health = set_gauge name (bool_gauge is_healthy) m.metrics.cluster_health;
  };
  health = record (m.health) {
    cluster_health = if name == m.health.cluster_name then is_healthy else m.health.cluster_health;
  };
}

-- UpdateDBStatus
unfoldable pub update_db_status : Bool → ℕ → ℕ → MonitoringServer → MonitoringServer
update_db_status is_connected lock_ttl failure_count m = record m {
  metrics = record (m.metrics) { db_lock_ttl = lock_ttl };
  health = record (m.health) { db_connected = is_connected; db_failure_count = failure_count };
}

unfoldable pub count_failover : Option GoError → ControllerMetrics → ControllerMetrics
count_failover none m = m
count_failover (some e) m = record m { failover_errors = suc m.failover_errors }

unfoldable pub note_failover : Option GoError → HealthStatus → HealthStatus
note_failover none h = record h { last_leadership_change_reason = "normal transition" }
note_failover (some e) h = record h {
  last_leadership_change_reason = e.message;
  last_error = cat "Leadership change error: " e.message;
}

-- RecordFailover
unfoldable pub record_failover :
    String → String → ℕ → Option GoError → MonitoringServer → MonitoringServer
unfolding count_failover note_failover inc_pair
record_failover from_cluster to_cluster duration e m =
    let v = m.metrics.cluster_transitions in
    let v' =
      if from_cluster != "" && to_cluster != "" then inc_pair from_cluster to_cluster v else v in
    record m {
      metrics = count_failover e (record (m.metrics) {
        failover_count = suc m.metrics.failover_count;
        failover_duration =
            if ltb 0 duration
            then duration ∷ m.metrics.failover_duration
            else m.metrics.failover_duration;
        cluster_transitions = inc_pair from_cluster to_cluster v';
      });
      health = note_failover e (record (m.health) {
        failover_count = suc m.health.failover_count;
        last_leader = if from_cluster != "" then from_cluster else m.health.last_leader;
        current_leader = if to_cluster != "" then to_cluster else m.health.current_leader;
      });
    }

-- SetError of an error that is not nil
unfoldable pub set_error : GoError → MonitoringServer → MonitoringServer
set_error e m = record m { health = record (m.health) { last_error = e.message } }

-- ClearError
unfoldable pub clear_error : MonitoringServer → MonitoringServer
clear_error m = record m { health = record (m.health) { last_error = "" } }

-- UpdateLastLeader
unfoldable pub update_last_leader : String → MonitoringServer → MonitoringServer
update_last_leader leader m = record m { health = record (m.health) { last_leader = leader } }

-- UpdateCurrentLeader
unfoldable pub update_current_leader : String → MonitoringServer → MonitoringServer
update_current_leader leader m =
    if m.health.current_leader != leader
    then record m {
      health = record (m.health) {
        last_leader =
            if m.health.current_leader != "" then m.health.current_leader else m.health.last_leader;
        current_leader = leader;
      };
    }
    else m
