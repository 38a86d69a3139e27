-- ===== src/Monitoring/Readiness.antt =====
-- When the server reports that it is ready for traffic, over any updates of its status.
use k8_highlander.Prelude.{
  ℕ, ◌*◌, ◌≤◌, String, Bool, true, Option, some, List, [], ◌∷◌, ◌≡◌, GoError,
}
use k8_highlander.Common.{ControllerState}
use k8_highlander.Monitoring.{
  HealthStatus, MonitoringServer, second, longer_than, update_controller_state, record_db_operation,
}
use k8_highlander.Monitoring.Status.{
  update_leader_status, update_cluster_health, update_db_status, record_failover, set_error,
  clear_error, update_current_leader, update_last_leader,
}

-- The calls of the server's methods that write the status. Only the first reads the clock.
pub data Update : Type 0 where
  leads : (is_leader : Bool) (leader_id cluster_name : String) (now : ℕ) → Update
  enters : (state : ControllerState) → Update
  sees_cluster : (name : String) (is_healthy : Bool) → Update
  sees_db : (is_connected : Bool) (lock_ttl failures : ℕ) → Update
  fails_over : (from_cluster to_cluster : String) (duration : ℕ) (e : Option GoError) → Update
  reports : (e : GoError) → Update
  clears : Update
  sees_leader : (leader_id : String) → Update
  sees_last_leader : (leader_id : String) → Update
  records_db : (operation : String) (duration : ℕ) (e : Option GoError) → Update

unfoldable pub apply : Update → MonitoringServer → MonitoringServer
apply (leads is_leader leader_id cluster_name now) m =
    update_leader_status is_leader leader_id cluster_name now m
apply (enters state) m = update_controller_state state m
apply (sees_cluster name is_healthy) m = update_cluster_health name is_healthy m
apply (sees_db is_connected lock_ttl failures) m = update_db_status is_connected lock_ttl failures m
apply (fails_over from_cluster to_cluster duration e) m =
    record_failover from_cluster to_cluster duration e m
apply (reports e) m = set_error e m
apply clears m = clear_error m
apply (sees_leader leader_id) m = update_current_leader leader_id m
apply (sees_last_leader leader_id) m = update_last_leader leader_id m
apply (records_db operation duration e) m = record m {
  metrics = record_db_operation operation duration e m.metrics;
}

unfoldable pub apply_all : List Update → MonitoringServer → MonitoringServer
apply_all [] m = m
apply_all (u ∷ us) m = apply_all us (apply u m)

-- The clock after an update.
unfoldable pub clock_after : Update → ℕ → ℕ
clock_after (leads is_leader leader_id cluster_name t) now = t
clock_after other now = now

-- The clock of the updates does not go back, from `now` to `end`.
unfoldable pub Ordered : ℕ → List Update → ℕ → Type 0
Ordered now [] end = now ≤ end
Ordered now (u ∷ us) end = (now ≤ clock_after u now) × Ordered (clock_after u now) us end

-- A leader knows since when it leads, and it is ready only after its time of grace.
record IsGraced (now : ℕ) (h : HealthStatus) : Type 0 where
  since : h.is_leader ≡ true → (t : ℕ) × (h.leader_since ≡ some t)
  grace :
      h.is_leader ≡ true
      → h.ready_for_traffic ≡ true
      → longer_than h.leader_since (5 * second) now ≡ true
