-- ===== src/Workloads/Processes.antt =====
-- pkg/workloads/process: ProcessManager (process_manager.go) and the making of a ProcessWorkload
-- (process.go). A workload is its configuration; its goroutines, its status and its pod are
-- outside, in the state `S`, which the manager's calls change.
pub mod Add
pub mod Load
pub mod Remove
pub mod Sound
pub mod Status
pub mod Tests
use k8_highlander.Prelude.{
  ◌*◌, ℕ, pos, is_zero, String, cat, Bool, true, false, not, ◌&&◌, Option, none, some, List, [],
  ◌∷◌, ◌++◌, map, Map, lookup, insert, delete, Result, ok, err, GoError, new_error, severe_error,
  severe_message, wrap, if◌then◌else◌, ◌==◌, ◌!=◌,
}
use k8_highlander.Monitoring.{second}
use k8_highlander.Common.{WorkloadStatus, WorkloadType}
use k8_highlander.Config.{BaseConfig, ProcessConfig}
use k8_highlander.Config.Validation.{validate_process, validation_errors}

-- ProcessWorkload
pub record ProcessWorkload : Type 0 where
  pub config : ProcessConfig
  pub namespace : String
  pub pod_name : String

-- ProcessManager; `has_client` says that its client is not nil.
pub record ProcessManager : Type 0 where
  pub namespace : String
  pub processes : Map ProcessWorkload
  pub has_client : Bool
  pub config_dir : String

-- What the manager calls: the workloads, with the context they run in (none for
-- context.Background), ulid.Make, the files, and yaml.Unmarshal into a list of configurations or
-- into one.
pub record ProcessCalls (S : Type 0) : Type 0 where
  pub start : ProcessWorkload → Option ℕ → S → Option GoError × S
  pub stop : ProcessWorkload → Option ℕ → S → Option GoError × S
  pub status : ProcessWorkload → S → WorkloadStatus
  pub make_id : S → String × S
  pub join_path : String → String → String
  pub glob : String → S → Result (List String) × S
  pub read_file : String → S → Result String × S
  pub parse_list : String → Result (List ProcessConfig)
  pub parse_one : String → Result ProcessConfig

-- The argument of AddWorkload: a ProcessConfig, or a value of another type, which has a name.
pub data AnyConfig : Type 0 where
  process_config : ProcessConfig → AnyConfig
  other_config : String → AnyConfig

-- NewProcessManager
unfoldable pub new_process_manager : String → String → Bool → ProcessManager
new_process_manager namespace config_dir has_client = record {
  namespace = namespace;
  processes = [];
  has_client = has_client;
  config_dir = config_dir;
}

-- The workload of a valid configuration.
unfoldable pub made : String → ProcessConfig → ProcessWorkload
made id cfg = record {
  config = record cfg {
    base = record (cfg.base) {
      termination_grace_period =
          if is_zero cfg.base.termination_grace_period
          then pos (28 * second)
          else cfg.base.termination_grace_period;
      restart_policy = if cfg.base.restart_policy == "" then "Never" else cfg.base.restart_policy;
      id = id;
    };
  };
  namespace = cfg.base.namespace;
  pod_name = cat cfg.base.name "-pod";
}

-- Set namespace if not specified
unfoldable pub in_namespace : String → ProcessConfig → ProcessConfig
in_namespace namespace cfg = record cfg {
  base = record (cfg.base) {
    namespace = if cfg.base.namespace == "" then namespace else cfg.base.namespace;
  };
}

unfoldable pub with_process : String → ProcessWorkload → ProcessManager → ProcessManager
with_process name p m = record m { processes = insert name p m.processes }

unfoldable pub start_failure : Option GoError → Option GoError
start_failure none = none
start_failure (some e) = some (wrap "failed to start process: " e "")

-- One turn of the loop of GetStatus.
unfoldable pub note_status : String → WorkloadStatus → WorkloadStatus → WorkloadStatus
note_status name member all =
    if not member.healthy && member.last_error != ""
    then record all {
      healthy = false;
      last_error = cat "Process " (cat name (cat " is unhealthy: " member.last_error));
    }
    else all

-- GetWorkload
unfoldable pub get_process : String → ProcessManager → Option ProcessWorkload
get_process name m = lookup name m.processes

unfoldable pub base_config : Option ProcessWorkload → Option BaseConfig
base_config none = none
base_config (some p) = some p.config.base

-- GetWorkloadConfig
unfoldable pub get_process_config : String → ProcessManager → Option BaseConfig
get_process_config name m = base_config (lookup name m.processes)

unfoldable pub with_crd : Map ProcessWorkload → List ProcessWorkload
with_crd [] = []
with_crd ((name, p) ∷ ps) =
    let rest = with_crd ps in if p.config.base.has_crd_ref then p ∷ rest else rest

-- GetWorkloadsWithCRD
unfoldable pub get_processes_with_crd : ProcessManager → List ProcessWorkload
get_processes_with_crd m = with_crd m.processes

module _ {S : Type 0} (o : ProcessCalls S) where
  unfoldable pub make_valid : Option GoError → ProcessConfig → Bool → S → Result ProcessWorkload × S
  make_valid (some e) cfg has_client s = (err e, s)
  make_valid none cfg has_client s =
      let (id, s') = o.make_id s in
      if has_client
      then (ok (made id cfg), s')
      else (err (new_error "kubernetes client not specified"), s)

  -- NewProcessWorkload
  unfoldable pub new_process_workload : ProcessConfig → Bool → S → Result ProcessWorkload × S
  new_process_workload cfg has_client s =
      let (errors, cfg') = validate_process cfg "" in
      make_valid (validation_errors errors) cfg' has_client s

  unfoldable pub add_made :
      Result ProcessWorkload → String → ProcessManager → S → Option GoError × ProcessManager × S
  add_made (err e) name m s = (some e, m, s)
  add_made (ok p) name m s =
      let (e, s') = o.start p none s in
      if m.has_client
      then (start_failure e, with_process name p m, s')
      else (none, with_process name p m, s)

  unfoldable pub add_free :
      Option ProcessWorkload
      → ProcessConfig
      → ProcessManager
      → S
      → Option GoError × ProcessManager × S
  add_free (some p) cfg m s =
      (some (new_error (cat "process " (cat cfg.base.name " already exists"))), m, s)
  add_free none cfg m s =
      let (p, s') = new_process_workload (in_namespace m.namespace cfg) m.has_client s in
      add_made p cfg.base.name m s'

  unfoldable pub add_valid :
      Option GoError → ProcessConfig → ProcessManager → S → Option GoError × ProcessManager × S
  add_valid (some e) cfg m s =
      (some (severe_error "ProcessManager" "invalid process configuration" e), m, s)
  add_valid none cfg m s = add_free (lookup cfg.base.name m.processes) cfg m s

  -- AddProcess
  unfoldable pub add_process :
      ProcessConfig → ProcessManager → S → Option GoError × ProcessManager × S
  add_process cfg m s =
      let (errors, cfg') = validate_process cfg "" in add_valid (validation_errors errors) cfg' m s

  -- ProcessManager.AddWorkload
  unfoldable pub add_any : AnyConfig → ProcessManager → S → Option GoError × ProcessManager × S
  add_any (process_config cfg) m s = add_process cfg m s
  add_any (other_config type_name) m s =
      (some (severe_message "ProcessManager" (cat "invalid config type: " type_name)), m, s)

  unfoldable pub remove_stopped :
      Option GoError → String → ProcessManager → Option GoError × ProcessManager
  remove_stopped none name m = (none, record m { processes = delete name m.processes })
  remove_stopped (some e) name m = (some (wrap "failed to stop process: " e ""), m)

  unfoldable pub remove_found :
      Option ProcessWorkload → String → ProcessManager → S → Option GoError × ProcessManager × S
  remove_found none name m s =
      (some (new_error (cat "process " (cat name " does not exist"))), m, s)
  remove_found (some p) name m s =
      let (e, s') = o.stop p none s in
      let (e', m') = remove_stopped (if m.has_client then e else none) name m in
      (e', m', if m.has_client then s' else s)

  -- ProcessManager.RemoveWorkload
  unfoldable pub remove_process : String → ProcessManager → S → Option GoError × ProcessManager × S
  remove_process name m s = remove_found (lookup name m.processes) name m s

  unfoldable pub status_of_each : Map ProcessWorkload → S → Map WorkloadStatus
  status_of_each [] s = []
  status_of_each ((name, p) ∷ ps) s = (name, o.status p s) ∷ status_of_each ps s

  unfoldable pub note_each : Map WorkloadStatus → WorkloadStatus → WorkloadStatus
  note_each [] all = all
  note_each ((name, member) ∷ members) all = note_each members (note_status name member all)

  -- ProcessManager.GetStatus: the combined status, and the statuses in its details.
  unfoldable pub get_process_status : ProcessManager → S → WorkloadStatus × Map WorkloadStatus
  get_process_status m s =
      let members = status_of_each m.processes s in
      (
        note_each members (record {
          workload_type = WorkloadType.process_manager;
          active = true;
          healthy = true;
          last_error = "";
          last_transition = none;
          details_namespace = none;
        }),
        members,
      )
