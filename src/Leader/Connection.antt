-- ===== src/Leader/Connection.antt =====
-- pkg/leader/leader.go: isConnectionError, and what the controller does when its storage fails
-- and when it answers again.
use k8_highlander.Prelude.{
  ℕ, suc, String, Bool, false, ◌&&◌, ◌||◌, Option, none, some, List, [], ◌∷◌, GoError, contains,
  ltb, if◌then◌else◌,
}
use k8_highlander.Common.{ControllerState, normal, degraded, same_state, is_degraded}
use k8_highlander.Monitoring.{update_controller_state}
use k8_highlander.Leader.{World, monitor}

unfoldable pub any_of : List String → String → Bool
any_of [] s = false
any_of (t ∷ ts) s = contains s t || any_of ts s

unfoldable pub redis_failure : Option String → Bool
redis_failure none = false
redis_failure (some s) = any_of ("connection" ∷ "timeout" ∷ "refused" ∷ []) s

-- isConnectionError of an error that is not nil
unfoldable pub is_connection_error : GoError → Bool
is_connection_error e =
    any_of
      ("connection refused" ∷ "no route to host" ∷ "i/o timeout" ∷ "connection reset by peer"
        ∷ "network is unreachable" ∷ "connection timed out" ∷ "dial tcp" ∷ [])
      e.message
    || any_of
        ("redis: client is closed" ∷ "redis: connection pool timeout"
          ∷ "redis server: connection reset" ∷ "redis server: connection refused"
          ∷ "redis server: connection timed out" ∷ [])
        e.message
    || any_of
        ("pq: server closed the connection" ∷ "failed to connect to" ∷ "database connection failed"
          ∷ "pq: SSL connection error" ∷ [])
        e.message
    || any_of
        ("Error 1040: Too many connections" ∷ "Error 2002: Can't connect"
          ∷ "Error 2003: Can't connect" ∷ "Error 2005: Unknown MySQL server host"
          ∷ "Error 2006: MySQL server has gone away" ∷ "Error 2013: Lost connection" ∷ [])
        e.message
    || any_of ("database is locked" ∷ "unable to open database file" ∷ []) e.message
    || (contains e.message "connection"
        && any_of ("lost" ∷ "closed" ∷ "failed" ∷ "dropped" ∷ "terminated" ∷ "error" ∷ [])
            e.message)
    || redis_failure e.redis_error
    || e.deadline_exceeded

module _ {S : Type 0} where
  -- SetControllerState
  unfoldable pub set_controller_state : ControllerState → World S → World S
  unfolding monitor same_state
  set_controller_state state w =
      if same_state w.lc.controller_state state
      then w
      else monitor (update_controller_state state)
          (record w { lc = record (w.lc) { controller_state = state } })

  unfoldable pub set_db_failures : ℕ → World S → World S
  set_db_failures n w = record w { lc = record (w.lc) { db_failure_count = n } }

  -- resetDBFailures
  unfoldable pub reset_db_failures : World S → World S
  unfolding set_db_failures
  reset_db_failures w = set_db_failures 0 w

  -- A connection error: one more failure, and the controller is degraded.
  unfoldable pub note_db_failure : World S → World S
  unfolding set_db_failures set_controller_state monitor is_degraded
  note_db_failure w =
      let w' = set_db_failures (suc w.lc.db_failure_count) w in
      if is_degraded w'.lc.controller_state
      then w'
      else monitor (update_controller_state degraded) (set_controller_state degraded w')

  -- A storage call that succeeds: no failures, and a degraded controller is normal again.
  unfoldable pub restore_db : World S → World S
  unfolding reset_db_failures set_controller_state monitor is_degraded
  restore_db w =
      let w' = if ltb 0 w.lc.db_failure_count then reset_db_failures w else w in
      if is_degraded w'.lc.controller_state
      then monitor (update_controller_state normal) (set_controller_state normal w')
      else w'
