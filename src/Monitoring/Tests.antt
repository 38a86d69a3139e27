-- ===== src/Monitoring/Tests.antt =====
-- The status of a server over concrete updates, and the theorem at them.
use k8_highlander.Prelude.{true, List, [], ◌∷◌}
use k8_highlander.Common.{normal}
use k8_highlander.Monitoring.{MonitoringServer, no_metrics, new_monitoring_server}
use k8_highlander.Monitoring.Readiness.{
  Update, leads, enters, sees_cluster, sees_leader, clears, apply, apply_all,
}

-- A leader from 1 s on is ready at 7 s.
abbrev becomes_ready : List Update
becomes_ready =
    enters normal
    ∷ leads true "a" "east" 1000000000
    ∷ sees_leader "a"
    ∷ clears
    ∷ sees_cluster "east" true
    ∷ leads true "a" "east" 7000000000
    ∷ []

served : MonitoringServer
unfolding apply_all apply new_monitoring_server
served = apply_all becomes_ready (new_monitoring_server no_metrics)
