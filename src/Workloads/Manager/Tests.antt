-- ===== src/Workloads/Manager/Tests.antt =====
-- Runs of the workload manager, and its theorems at concrete inputs.
use k8_highlander.Prelude.{
  is_empty, is_none, ℕ, suc, ◌-◌, ◌^◌, negsuc, false, none, some, [], new_error, ◌≡◌, refl, arith,
  lookup, insert, delete, if◌then◌else◌, ◌==◌,
}
use k8_highlander.Monitoring.Workloads.{WorkloadMetrics}
use k8_highlander.Workloads.Manager.{
  Workload, ManagerImpl, Calls, new_manager, add_workload, remove_workload, get_workload, start_all,
  start_each, note_start, measure_operation, error_list, stop_all, retry_round, backoff, too_early,
  add_over, startup_error, severe_errors,
}
use k8_highlander.Workloads.Manager.Table.{remove_workload-add_workload}
use k8_highlander.Workloads.Manager.Failures.{
  Reasonable, start_all-is_none, retry_round-stop_all, backoff_bounds, too_early-backoff,
}

abbrev no_workload_metrics : WorkloadMetrics
no_workload_metrics = record {
  operations = λ t n k. 0;
  startup_duration = λ t n. [];
  shutdown_duration = λ t n. [];
  errors = λ t n k. 0;
  retry_attempts = λ t n. 0;
  retry_success = λ t n. 0;
  retry_status = λ t n. none;
}

abbrev echo : Workload
echo = record { name = "echo"; workload_type = "process" }

abbrev web : Workload
web = record { name = "web"; workload_type = "service" }

-- A cluster, counting its calls, on which "web" never starts. The conversion is that of amd64.
abbrev cluster : Calls ℕ
cluster = record {
  start = λ w ctx s. (if w.name == "web" then some (new_error "quota") else none, suc s);
  stop = λ w s. (none, suc s);
  now = λ s. s;
  leader_info = λ s. "a";
  out_of_range = λ x. negsuc (2 ^ 63 - 1);
}

manager : ManagerImpl
unfolding new_manager
manager = (add_workload web (add_workload echo (new_manager no_workload_metrics)).1).1

one_fails : is_none (start_all cluster none manager 0).0 ≡ false
unfolding manager new_manager add_workload add_over lookup insert delete start_all start_each
    note_start measure_operation error_list is_none startup_error severe_errors
one_fails = refl

start_all-is_none_example :
    is_none (start_all cluster none manager 0).0
    ≡ is_empty (start_all cluster none manager 0).1.failed_workloads
start_all-is_none_example = start_all-is_none cluster none manager 0

retry_round-stop_all_example :
    retry_round cluster (stop_all cluster manager 7).1 (stop_all cluster manager 7).2
    ≡ ((stop_all cluster manager 7).1, (stop_all cluster manager 7).2)
retry_round-stop_all_example = retry_round-stop_all cluster manager 7

backoff_bounds_example : Reasonable cluster (backoff cluster 9)
backoff_bounds_example = backoff_bounds cluster 9 (omega arith) (omega arith)

too_early-backoff_example : too_early cluster 1000 1001 (backoff cluster 40) ≡ false
too_early-backoff_example =
    too_early-backoff cluster (λ x. 2 ^ 63 - 1) (λ x. refl) 40 1000 1001 (omega arith)

remove_workload-add_workload_example :
    ((add_workload web (new_manager no_workload_metrics)).0 ≡ none)
    × (get_workload "web" (add_workload web (new_manager no_workload_metrics)).1 ≡ some web)
    × ((remove_workload "web" (add_workload web (new_manager no_workload_metrics)).1).0 ≡ none)
    × (get_workload "web"
          (remove_workload "web" (add_workload web (new_manager no_workload_metrics)).1).1
        ≡ get_workload "web" (new_manager no_workload_metrics))
remove_workload-add_workload_example =
    remove_workload-add_workload web (new_manager no_workload_metrics) "web"
      (unfold get_workload new_manager lookup in refl)
