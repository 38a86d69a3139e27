-- ===== src/Leader/Recovery/Tests.antt =====
-- Ticks of monitorWorkloads in a small cluster, and the theorems on them at concrete inputs.
use k8_highlander.Prelude.{
  ℕ, suc, ◌+◌, ◌*◌, String, true, false, none, some, ok, List, [], ◌∷◌, ◌≡◌, refl, ◌==◌,
  if◌then◌else◌,
}
use k8_highlander.Common.{WorkloadType, process_manager}
use k8_highlander.Monitoring.{second, new_monitoring_server, no_metrics}
use k8_highlander.Leader.{World, new_leader_controller, set_leader, now}
use k8_highlander.Leader.Interfaces.{Outside}
use k8_highlander.Leader.Workloads.{returns}
use k8_highlander.Leader.Recovery.{Members, Restarts, check_for_orphans}
use k8_highlander.Leader.Recovery.Orphans.{has_object, NoObjects, check_for_orphans-unchecked}

-- The state of the cluster is its time, and the number of starts. Each start of a workload takes a
-- nanosecond; the one entry of the manager's table never gets well.
abbrev ward_of : String → WorkloadType → Outside (ℕ × ℕ)
ward_of name type = record {
  clock = record { now = λ s. s.0; sleep = λ d s. (s.0 + d, s.1) };
  storage = record {
    try_acquire_lock = λ k v c ttl s. (ok true, s);
    renew_lock = λ k v ttl s. (ok true, s);
    release_lock = λ k v s. (ok true, s);
    get_lock_info = λ k s. (ok none, s);
    get_lock_value = λ k s. (ok "a", s);
    get_lock_ttl = λ k s. (ok 0, s);
  };
  workloads = record {
    start_all = λ n s. (none, s);
    stop_all = λ s. (none, s);
    get_all_statuses = λ s.
        (
          name,
          record {
            workload_type = type;
            active = true;
            healthy = false;
            last_error = "exit code 1";
            last_transition = none;
            details_namespace = some "default";
          },
        )
        ∷ [];
    cleanup = λ s. s;
  };
  crd_watcher = record { start = λ n s. (none, s); stop = λ s. (none, s) };
  client = record {
    has_client = λ s. true;
    list_nodes = λ s. (none, s);
    list_pods = λ s. (ok [], s);
    get_pod = λ ns n s. (ok (record { annotations = []; is_running = true }), s);
    get_cron_job = λ ns n s. (ok (record { is_off = false }), s);
    get_deployment = λ ns n s. (ok (record { is_off = false }), s);
    get_stateful_set = λ ns n s. (ok (record { is_off = false }), s);
  };
}

abbrev ward : Outside (ℕ × ℕ)
ward = ward_of "processes" process_manager

abbrev members : Members (ℕ × ℕ)
members = record {
  has_workload = λ n s. true;
  stop_workload = λ n ctx s. (none, s);
  start_workload = λ n ctx s. (none, (suc s.0, suc s.1));
  is_not_found = λ e. e.message == "not found";
}

-- Only "processes" is ever started.
abbrev start_count : ℕ × ℕ → ℕ
start_count s = s.1

abbrev its_members : Members (ℕ × ℕ)
its_members = record members {
  start_workload = λ n ctx s. (none, (suc s.0, if n == "processes" then suc s.1 else s.1));
}

unfoldable leader_at : ℕ → ℕ → World (ℕ × ℕ)
leader_at time starts =
    set_leader true
      (new_leader_controller (time, starts) "a" "east" (new_monitoring_server no_metrics) "" false)

abbrev once : Restarts
once = record { attempts = ("processes", 1) ∷ []; last = ("processes", 0) ∷ [] }

-- A second after the first restart nothing happens; ten seconds later there is the next one.
abbrev pauses : List (ℕ × ℕ → ℕ × ℕ)
pauses = (λ s. (s.0 + second, s.1)) ∷ (λ s. (s.0 + 10 * second, s.1)) ∷ []

abbrev twice : Restarts
twice = record { attempts = ("processes", 2) ∷ []; last = ("processes", 11 * second + 1) ∷ [] }

check_for_orphans-unchecked_example :
    check_for_orphans (ward_of "processes" process_manager) members none (leader_at 5 0)
    ≡ returns (leader_at 5 0)
unfolding NoObjects has_object
check_for_orphans-unchecked_example =
    check_for_orphans-unchecked (ward_of "processes" process_manager) members none (leader_at 5 0)
      (refl, tt)
