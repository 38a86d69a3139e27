-- ===== src/Workloads/Processes/Tests.antt =====
-- Runs of the manager of processes, and its theorems at concrete inputs.
use k8_highlander.Prelude.{
  is_zero, exceeds, ℕ, suc, pos, wrap, eqb, ◌*◌, String, cat, true, false, ◌&&◌, none, some, [],
  ◌∷◌, lookup, insert, delete, ok, err, new_error, ◌≡◌, refl, is_none, if◌then◌else◌, ◌==◌,
}
use k8_highlander.Monitoring.{second}
use k8_highlander.Common.{WorkloadType}
use k8_highlander.Config.Validation.{
  validate_process, validation_errors, check_name_and_image, check_script, unless, with_defaults,
  namespace_or, grace_or,
}
use k8_highlander.Config.Validation.Tests.{echo}
use k8_highlander.Workloads.Processes.{
  ProcessWorkload, ProcessManager, ProcessCalls, process_config, new_process_manager, made,
  in_namespace, with_process, start_failure, make_valid, new_process_workload, add_made, add_free,
  add_valid, add_process, add_any, remove_process, get_process,
}
use k8_highlander.Workloads.Processes.Add.{
  Outcome, moved, moved_result, add_process-moved, add_process-Outcome,
}
use k8_highlander.Workloads.Processes.Remove.{can_remove, remove_process-get_process}
use k8_highlander.Workloads.Processes.Sound.{IsProcessOf}
use k8_highlander.Workloads.Processes.Sound.Requests.{Request, serve, serve_all, serve_all-entry}

-- A cluster, counting its calls, on which only the workload of the second identifier fails to
-- start.
abbrev cluster : ProcessCalls ℕ
cluster = record {
  start = λ p ctx s. (if p.config.base.id == "id-2" then some (new_error "quota") else none, suc s);
  stop = λ p ctx s. (none, suc s);
  status = λ p s. record {
    workload_type = WorkloadType.process;
    active = true;
    healthy = false;
    last_error = "crashed";
    last_transition = none;
    details_namespace = none;
  };
  make_id = λ s. (if eqb s 0 then "id-1" else "id-2", suc s);
  join_path = λ a b. cat a b;
  glob = λ pattern s. (ok [], s);
  read_file = λ path s. (err (new_error "no such file"), s);
  parse_list = λ text. err (new_error "not a list");
  parse_one = λ text. ok echo;
}

abbrev manager : ProcessManager
manager = record { namespace = "apps"; processes = []; has_client = true; config_dir = "/etc/" }

-- What the cluster makes of "echo": the namespace is that of validation, not the manager's.
abbrev pub echo_process : String → ProcessWorkload
echo_process id = record {
  config = record echo {
    base = record (echo.base) {
      namespace = "default";
      termination_grace_period = pos (28 * second);
      restart_policy = "Never";
      id = id;
    };
    max_restarts = pos 5;
  };
  namespace = "default";
  pod_name = "echo-pod";
}

-- A workload that fails to start stands in the table, so that the same workload cannot be added
-- again.
failed_stays :
    let (e, m, s) = add_process cluster echo manager 1 in
    (e ≡ some (wrap "failed to start process: " (new_error "quota") ""))
    × (get_process "echo" m ≡ some (echo_process "id-2"))
    × ((add_process cluster echo m s).0 ≡ some (new_error "process echo already exists"))
unfolding add_process validate_process validation_errors check_name_and_image check_script unless
    with_defaults namespace_or grace_or add_valid add_free add_made make_valid new_process_workload
    in_namespace made with_process start_failure get_process lookup insert delete is_zero exceeds
failed_stays = (refl, refl, refl)

serve_all-entry_example : IsProcessOf "echo" (echo_process "id-1")
unfolding serve_all serve add_any new_process_manager add_process validate_process validation_errors
    check_name_and_image check_script unless with_defaults namespace_or grace_or add_valid add_free
    add_made make_valid new_process_workload in_namespace made with_process start_failure
    get_process lookup insert delete is_zero exceeds
serve_all-entry_example =
    serve_all-entry cluster (Request.add (process_config echo) ∷ []) "apps" "/etc/" true 0 "echo"
      (echo_process "id-1") refl

add_process-moved_example :
    add_process cluster echo (moved "other" manager) 0
    ≡ moved_result cluster "other" (add_process cluster echo manager 0)
add_process-moved_example = add_process-moved cluster echo "other" manager 0

add_process-Outcome_example :
    Outcome cluster echo manager 1
      (is_none (validation_errors (validate_process echo "").0)
        && is_none (lookup "echo" manager.processes))
      (add_process cluster echo manager 1)
add_process-Outcome_example = add_process-Outcome cluster echo manager 1

abbrev with_echo : ProcessManager
with_echo = (add_process cluster echo manager 0).1

remove_process-get_process_example :
    (is_none (remove_process cluster "echo" with_echo 2).0
      ≡ can_remove cluster (get_process "echo" with_echo) with_echo.has_client 2)
    × ((other : String)
        → get_process other (remove_process cluster "echo" with_echo 2).1 ≡ (
            if can_remove cluster (get_process "echo" with_echo) with_echo.has_client 2
              && "echo" == other
            then none
            else get_process other with_echo))
remove_process-get_process_example = remove_process-get_process cluster "echo" with_echo 2
