-- ===== src/Leader/Tests.antt =====
-- Runs of the controller at a site, and its theorems at concrete inputs.
use mathlib.Core.Bool.{false≢true}
use k8_highlander.Prelude.{
  String, true, false, ◌≡◌, refl, none, some, err, GoError, new_error, List, [], ◌∷◌, lookup,
  insert, delete, eq_iff, contains, arith, if◌then◌else◌, Option,
}
use k8_highlander.Storage.Memory.{
  new_in_memory_storage, try_acquire_lock, renew_lock, release_lock, get_lock_value, get_lock_ttl,
  get_lock_info,
}
use k8_highlander.Storage.Memory.Laws.{step}
use k8_highlander.Monitoring.{new_monitoring_server, no_metrics}
use k8_highlander.Leader.{
  World, new_leader_controller, error_of, leader_or_error, set_leader, monitor, measure, report,
  call, now, timed, read_leader, get_current_leader,
}
use k8_highlander.Leader.Connection.{
  is_connection_error, set_controller_state, set_db_failures, reset_db_failures, note_db_failure,
  restore_db, any_of, redis_failure,
}
use k8_highlander.Leader.Acquire.{
  released_lately, count_failed_attempt, read_failed, note_previous_leader, set_self_restart,
  acquire_failed, record_takeover, is_restart_of_self, acquired, not_acquired, after_acquire,
  prepare, try_lock, contend, try_acquire_leadership,
}
use k8_highlander.Leader.Renew.{
  tolerate, renew_failed, taken_over, set_lock_ttl, read_ttl, after_renew, renew_held, after_check,
  renew_leadership, note_release, not_leading, after_release, release_leadership,
}
use k8_highlander.Leader.Workloads.{
  Outcome, panics, returns, cancel_workloads, create_workload_context, report_failure, can_reuse,
  can_reuse_existing_workloads, wait_loop, wait_for_previous_workloads, shutdown_pods,
  start_workloads, stop_workloads,
}
use k8_highlander.Leader.Loop.{
  reset_if_ok, report_stop, step_down, step_up, lead_round, follow_round, election_round, yield_to,
  seen_lock, after_look, look, lock_round, is_cluster_healthy, give_up, health_check, health_round,
  stop_leading, stop,
}
use k8_highlander.Leader.Contract.{StorageContract}
use k8_highlander.Leader.Acquire.Holds.{Holds, try_acquire_leadership-Holds}
use k8_highlander.Leader.Renew.Outcome.{Entitled, renew_leadership-Entitled}
use k8_highlander.Leader.Loop.Round.{election_round-Entitled}
use k8_highlander.Leader.Renew.Release.{is_ok, release_answer, release_leadership-health}
use k8_highlander.Leader.Loop.Failures.{lead_rounds, partition_stops_leader}
use k8_highlander.Leader.Loop.History.{
  Event, elects, looks, checks, happens, history, history-OneContext,
}
use k8_highlander.Leader.Interfaces.{Outside}
use k8_highlander.Leader.Site.{
  Site, takes, site, site_lease, site-StorageContract, call_of, play, rest, perform, by_fault,
}

-- All that a run of the controller computes.
unfoldable pub executable : Unit {0}
unfolding new_leader_controller error_of leader_or_error set_leader monitor measure report call now
    timed read_leader get_current_leader any_of redis_failure is_connection_error
    set_controller_state set_db_failures reset_db_failures note_db_failure restore_db
    released_lately count_failed_attempt read_failed note_previous_leader set_self_restart
    acquire_failed record_takeover is_restart_of_self acquired not_acquired after_acquire prepare
    try_lock contend try_acquire_leadership tolerate renew_failed taken_over set_lock_ttl read_ttl
    after_renew renew_held after_check renew_leadership note_release not_leading after_release
    release_leadership cancel_workloads create_workload_context report_failure can_reuse
    can_reuse_existing_workloads wait_loop wait_for_previous_workloads shutdown_pods start_workloads
    stop_workloads reset_if_ok report_stop step_down step_up lead_round follow_round election_round
    yield_to seen_lock after_look look lock_round is_cluster_healthy give_up health_check
    stop_leading stop site call_of play rest perform by_fault step try_acquire_lock renew_lock
    release_lock get_lock_value get_lock_ttl get_lock_info new_in_memory_storage lookup insert
    delete new_monitoring_server
executable = tt

abbrev redis_down : GoError
redis_down = new_error "dial tcp 10.0.0.1:6379: i/o timeout"

-- A site where "a" holds the lock for 100 ns from 1000 on, and the rival asks for it in a sleep.
unfoldable pub held_site : Site
unfolding new_in_memory_storage step
held_site = record {
  time = 1050;
  locks =
      (try_acquire_lock "highlander-leader-lock:default" "a" "" 100 1000 new_in_memory_storage).1;
  turns = takes "highlander-leader-lock:default" 50 ∷ [];
  faults = [];
  started = none;
  watching = none;
}

-- "a" has started again while its lease is running.
instance_a : World Site
unfolding new_leader_controller held_site
instance_a = new_leader_controller held_site "a" "east" (new_monitoring_server no_metrics) "" false

-- The outcome of a run that does not panic.
abbrev pub or_stay : World Site → Outcome (World Site) → World Site
or_stay w panics = w
or_stay w (returns w') = w'

pub a≢rival : ◌≡◌ {A = String} "a" "rival" → ⊥
a≢rival p = false≢true ((eq_iff "a" "rival").1 p)

a_acquires : (try_acquire_leadership site instance_a).0 ≡ true
unfolding executable instance_a held_site
a_acquires = refl

a_renews : (renew_leadership site instance_a).0 ≡ true
unfolding executable instance_a held_site
a_renews = refl

elected : World Site
elected = or_stay instance_a (election_round site 30 instance_a)

elects_a : election_round site 30 instance_a ≡ returns elected
unfolding executable instance_a held_site elected
elects_a = refl

elected_is_leader : elected.lc.is_leader ≡ true
unfolding executable instance_a held_site elected
elected_is_leader = refl

-- The next calls of "a" fail, or do not.
abbrev faulty : List (Option GoError) → World Site
faulty fs = record instance_a { outside = record held_site { faults = fs } }

abbrev read_site : Site
read_site = record held_site { faults = none ∷ some redis_down ∷ [] }

site-StorageContract_example : StorageContract site site_lease "a"
site-StorageContract_example = site-StorageContract "a" a≢rival

try_acquire_leadership-Holds_example :
    Holds site site_lease held_site
      (try_acquire_leadership site instance_a).1.outside
      "highlander-leader-lock:default"
      "a"
unfolding instance_a new_leader_controller
try_acquire_leadership-Holds_example =
    try_acquire_leadership-Holds site site_lease "a" (site-StorageContract "a" a≢rival) instance_a
      refl a_acquires

renew_leadership-Entitled_example :
    Entitled site site_lease held_site instance_a (renew_leadership site instance_a).1
unfolding instance_a new_leader_controller
renew_leadership-Entitled_example =
    renew_leadership-Entitled site site_lease "a" (site-StorageContract "a" a≢rival) instance_a refl
      a_renews

election_round-Entitled_example : Entitled site site_lease held_site instance_a elected
unfolding instance_a new_leader_controller
election_round-Entitled_example =
    election_round-Entitled site site_lease "a" (site-StorageContract "a" a≢rival) 30 instance_a
      elected refl elects_a elected_is_leader

-- The site when its storage cannot be reached.
abbrev cut_off : Outside Site
cut_off = record site {
  storage = record (site.storage) { get_lock_value = λ k s. (err redis_down, s) };
}

redis_down_is_lost : is_connection_error redis_down ≡ true
unfolding is_connection_error any_of contains
redis_down_is_lost = refl

partition_stops_leader_example : (lead_rounds cut_off 3 elected).lc.is_leader ≡ false
unfolding executable instance_a held_site elected
partition_stops_leader_example =
    partition_stops_leader cut_off redis_down redis_down_is_lost "highlander-leader-lock:default"
      (λ s. refl) 3 elected refl (omega arith) (omega arith)

-- "a" is elected, and its other loops go round.
abbrev first_rounds : List (Event Site)
first_rounds = elects 30 ∷ looks ∷ checks ∷ []

settled : World Site
settled = or_stay instance_a (history site first_rounds instance_a)

settles : history site first_rounds instance_a ≡ returns settled
unfolding executable instance_a held_site settled history happens health_round
settles = refl

settled_works : settled.lc.cancelled 0 ≡ false
unfolding executable instance_a held_site settled history happens health_round
settled_works = refl

settled_has_context : settled.lc.contexts ≡ 1
unfolding executable instance_a held_site settled history happens health_round
settled_has_context = refl

history-OneContext_example : (settled.lc.workload_cancel ≡ some 0) × (settled.lc.is_leader ≡ true)
unfolding instance_a
history-OneContext_example =
    history-OneContext site site_lease "a" (site-StorageContract "a" a≢rival) held_site "a" "east"
      (new_monitoring_server no_metrics) "" false first_rounds settled settles 0
      (omega (arith, settled_has_context)) settled_works

release_leadership-health_example :
    (release_leadership cut_off elected).mon.health.is_leader
    ≡ (if is_ok (release_answer cut_off elected) then false else elected.mon.health.is_leader)
release_leadership-health_example = release_leadership-health cut_off elected
