-- ===== src/Leader.antt =====
-- pkg/leader/leader.go: the leader controller. This file has its state, the outside that it works
-- on, and the steps that the other parts share; the methods are in the modules below.
--
-- `S` is the state of all that lies outside the controller: the clock, the lock storage (any
-- implementation of pkg/storage's LeaderStorage), the workload manager, the CRD watcher and the
-- cluster. Each call of theirs is a function of `S` to its result and the next `S`, so that the
-- outside may fail, and may let time pass, in every call.
pub mod Interfaces
pub mod Connection
pub mod Acquire
pub mod Renew
pub mod Workloads
pub mod Loop
pub mod Recovery
pub mod Reads
pub mod Bystander
pub mod Contract
pub mod Site
pub mod Tests
pub mod Ensures
pub mod Advance
use k8_highlander.Prelude.{
  ℕ, zero, suc, new_error, ◌+◌, ◌-◌, ◌*◌, String, cat, Bool, true, false, Option, none, some,
  Result, ok, err, GoError, if◌then◌else◌, ◌==◌,
}
use k8_highlander.Common.{ControllerState, normal}
use k8_highlander.Monitoring.{
  MonitoringServer, ControllerMetrics, second, record_db_operation, update_controller_state,
}
use k8_highlander.Monitoring.Status.{set_error}
use Interfaces.{Outside}

-- LockTTL, RenewInterval, maxConsecutiveDBFailures
abbrev pub lock_ttl : ℕ
lock_ttl = 100 * second

abbrev pub max_consecutive_db_failures : ℕ
max_consecutive_db_failures = 3

-- LeaderController. `db_failure_count` is an int that stays far below its bound. The workload
-- contexts are numbered: `workload_ctx` is the last one made, `workload_cancel` the one that can
-- be cancelled, `contexts` how many were made, and `cancelled` which ones were cancelled.
pub record LeaderController : Type 0 where
  pub id : String
  pub cluster_name : String
  pub leader_lock_key : String
  pub remain_follower : Bool
  pub is_leader : Bool
  pub controller_state : ControllerState
  pub db_failure_count : ℕ
  pub previous_leader : String
  pub previous_self_id : String
  pub last_leadership_release_time : Option ℕ
  pub is_self_restart : Bool
  pub workload_ctx : Option ℕ
  pub workload_cancel : Option ℕ
  pub contexts : ℕ
  pub cancelled : ℕ → Bool
  pub stopped : Bool

-- The controller, its monitoring server (with the metrics), and the outside.
pub record World (S : Type 0) : Type 0 where
  pub outside : S
  pub lc : LeaderController
  pub mon : MonitoringServer

-- NewLeaderController
unfoldable pub new_leader_controller :
    {S : Type 0} → S → String → String → MonitoringServer → String → Bool → World S
new_leader_controller outside id cluster_name mon tenant remain_follower = record {
  outside = outside;
  mon = update_controller_state normal mon;
  lc = record {
    id = id;
    cluster_name = cluster_name;
    leader_lock_key = cat "highlander-leader-lock:" (if tenant == "" then "default" else tenant);
    remain_follower = remain_follower;
    is_leader = false;
    controller_state = normal;
    db_failure_count = 0;
    previous_leader = "";
    previous_self_id = "";
    last_leadership_release_time = none;
    is_self_restart = false;
    workload_ctx = none;
    workload_cancel = none;
    contexts = 0;
    cancelled = λ n. false;
    stopped = false;
  };
}

unfoldable pub error_of : {A : Type 0} → Result A → Option GoError
error_of (ok a) = none
error_of (err e) = some e

unfoldable pub leader_or_error : String → Result String
leader_or_error v = if v == "" then err (new_error "no leader") else ok v

-- What a Go call gives beside an error: the zero value.
abbrev pub or_zero {ℓ} : {A : Type ℓ} → A → Result A → A
or_zero zero_value (ok a) = a
or_zero zero_value (err e) = zero_value

module _ {S : Type 0} where
  -- SetLeader
  unfoldable pub set_leader : Bool → World S → World S
  set_leader leader w = record w { lc = record (w.lc) { is_leader = leader } }

  -- A write of the monitoring server, and one of its metrics alone.
  unfoldable pub monitor : (MonitoringServer → MonitoringServer) → World S → World S
  monitor f w = record w { mon = f w.mon }

  unfoldable pub measure : (ControllerMetrics → ControllerMetrics) → World S → World S
  measure f w = record w { mon = record (w.mon) { metrics = f w.mon.metrics } }

  -- monitoringServer.SetError
  unfoldable pub report : GoError → World S → World S
  unfolding monitor set_error
  report e w = monitor (set_error e) w

  -- A call of the outside.
  unfoldable pub call : {A : Type 0} → (S → A × S) → World S → A × World S
  call f w = let (a, s) = f w.outside in (a, record w { outside = s })

  module _ (o : Outside S) where
    -- time.Now
    unfoldable pub now : World S → ℕ
    now w = o.clock.now w.outside

    -- A storage call, recorded as `operation` with the time since `start`.
    unfoldable pub timed :
        {A : Type 0} → String → ℕ → (S → Result A × S) → World S → Result A × World S
    unfolding call measure now
    timed operation start f w =
        let (r, w') = call f w in
        (r, measure (record_db_operation operation (now w' - start) (error_of r)) w')

    unfoldable pub read_leader : World S → Result String × World S
    unfolding timed now
    read_leader w = timed "get" (now w) (o.storage.get_lock_value w.lc.leader_lock_key) w

    -- getCurrentLeader with `retries` attempts left: a lock that nobody holds is an error too.
    unfoldable pub get_current_leader : ℕ → World S → Result String × World S
    unfolding read_leader
    get_current_leader zero w =
        let (r, w') = read_leader w in (elim r [ err e ↦ err e | ok v ↦ leader_or_error v ], w')
    get_current_leader (suc retries) w =
        let (r, w') = read_leader w in
        let again =
          get_current_leader retries (record w' { outside = o.clock.sleep second w'.outside }) in
        elim r [ err e ↦ again | ok v ↦ (leader_or_error v, w') ]
