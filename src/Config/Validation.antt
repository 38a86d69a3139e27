-- ===== src/Config/Validation.antt =====
-- pkg/common/validation.go: the validation of the configuration, which also sets defaults. A
-- method on a pointer gives its result and the configuration that it leaves.
pub mod Laws
pub mod App
pub mod Tests
use k8_highlander.Prelude.{
  ℕ, suc, ◌+◌, ◌*◌, ℤ, pos, exceeds, is_zero, String, cat, Bool, true, false, not, ◌&&◌, ◌||◌,
  Option, none, some, List, [], ◌∷◌, ◌++◌, Result, ok, err, GoError, new_error, decimal,
  if◌then◌else◌, ◌==◌, ◌!=◌,
}
use k8_highlander.Monitoring.{second}
use k8_highlander.Config.{
  BaseConfig, ProcessConfig, CronJobConfig, ServiceConfig, VolumeConfig, PersistentConfig,
  AppConfig,
}

pub record ValidationError : Type 0 where
  pub field : String
  pub message : String

-- ValidationError.Error
unfoldable pub error_text : ValidationError → String
error_text e = cat e.field (cat ": " e.message)

-- What one check appends.
unfoldable pub unless : Bool → String → String → List ValidationError
unless true field message = []
unless false field message = record { field = field; message = message } ∷ []

unfoldable pub grace_or : ℕ → ℕ → ℤ → ℤ
grace_or least default_seconds d =
    if exceeds (least * second) d then d else pos (default_seconds * second)

unfoldable pub namespace_or : String → String → String
namespace_or default_namespace namespace =
    if namespace != ""
    then namespace
    else if default_namespace == ""
    then "default"
    else default_namespace

-- The defaults of every workload.
unfoldable pub with_defaults : String → BaseConfig → BaseConfig
with_defaults default_namespace cfg = record cfg {
  namespace = namespace_or default_namespace cfg.namespace;
  termination_grace_period = grace_or 0 28 cfg.termination_grace_period;
}

unfoldable pub check_name_and_image : BaseConfig → List ValidationError
check_name_and_image cfg =
    unless (cfg.name != "") "name" "name is required"
    ++ unless (cfg.image != "") "image" "image is required"

unfoldable pub check_script : Option (List String) → List ValidationError
check_script none = record { field = "script"; message = "script is required" } ∷ []
check_script (some []) =
    record { field = "script.commands"; message = "at least one command is required" } ∷ []
check_script (some (c ∷ commands)) = []

unfoldable pub check_replicas : BaseConfig → List ValidationError
check_replicas cfg = unless (exceeds 0 cfg.replicas) "replicas" "replicas must be greater than 0"

-- ProcessConfig.Validate
unfoldable pub validate_process : ProcessConfig → String → List ValidationError × ProcessConfig
validate_process cfg default_namespace = (
  check_name_and_image cfg.base ++ check_script cfg.base.script,
  record cfg {
    base = with_defaults default_namespace cfg.base;
    max_restarts = if exceeds 0 cfg.max_restarts then cfg.max_restarts else pos 5;
  },
)

-- CronJobConfig.Validate
unfoldable pub validate_cron_job : CronJobConfig → String → List ValidationError × CronJobConfig
validate_cron_job cfg default_namespace = (
  check_name_and_image cfg.base
      ++ (unless (cfg.schedule != "") "schedule" "schedule is required"
          ++ check_script cfg.base.script),
  record cfg { base = with_defaults default_namespace cfg.base },
)

-- ServiceConfig.Validate
unfoldable pub validate_service : ServiceConfig → String → List ValidationError × ServiceConfig
validate_service cfg default_namespace = (
  check_name_and_image cfg.base ++ (check_replicas cfg.base ++ check_script cfg.base.script),
  record cfg { base = with_defaults default_namespace cfg.base },
)

unfoldable pub volume_field : ℕ → String → String
volume_field i name = cat "persistentVolumes[" (cat (decimal i) (cat "]." name))

unfoldable pub check_volumes : ℕ → List VolumeConfig → List ValidationError
check_volumes i [] = []
check_volumes i (volume ∷ volumes) =
    unless (volume.name != "") (volume_field i "name") "name is required"
    ++ (unless (volume.mount_path != "") (volume_field i "mountPath") "mountPath is required"
        ++ (unless (volume.size != "") (volume_field i "size") "size is required"
            ++ check_volumes (suc i) volumes))

-- PersistentConfig.Validate
unfoldable pub validate_persistent :
    PersistentConfig → String → List ValidationError × PersistentConfig
validate_persistent cfg default_namespace = (
  check_name_and_image cfg.base
      ++ (check_replicas cfg.base
          ++ (check_script cfg.base.script ++ check_volumes 0 cfg.persistent_volumes)),
  record cfg { base = with_defaults default_namespace cfg.base },
)

-- The errors of a loop over workloads. The loop variable is a copy, so what a validation sets in
-- it is lost.
unfoldable pub all_errors :
    {A : Type 0} → (A → String → List ValidationError × A) → String → List A → List ValidationError
all_errors validate namespace [] = []
all_errors validate namespace (work ∷ works) =
    (validate work namespace).0 ++ all_errors validate namespace works

unfoldable pub join : List ValidationError → String
join [] = ""
join (e ∷ []) = error_text e
join (e ∷ e' ∷ es) = cat (error_text e) (cat "; " (join (e' ∷ es)))

-- ValidationErrors
unfoldable pub validation_errors : List ValidationError → Option GoError
validation_errors [] = none
validation_errors (e ∷ es) = some (new_error (cat "validation errors: " (join (e ∷ es))))

-- The first error of the storage's and the cluster's settings, if any.
unfoldable pub check_settings : AppConfig → Option GoError
check_settings cfg =
    if cfg.storage_type != ""
      && cfg.storage_type != "redis"
      && cfg.storage_type != "spanner"
      && cfg.storage_type != "db"
    then some (new_error (cat "invalid storage type: " cfg.storage_type))
    else if (cfg.storage_type == "redis" || cfg.storage_type == "") && cfg.redis_addr == ""
    then some (new_error "redis address is required when using Redis storage")
    else if cfg.storage_type == "db" && cfg.database_url == ""
    then some (new_error "database URL is required when using DB storage")
    else if cfg.storage_type == "spanner" && cfg.spanner_project == ""
    then some (new_error "spanner projectID is required for Spanner storage")
    else if cfg.storage_type == "spanner" && cfg.spanner_instance == ""
    then some (new_error "spanner instanceID is required for Spanner storage")
    else if cfg.storage_type == "spanner" && cfg.spanner_database == ""
    then some (new_error "spanner databaseID is required for Spanner storage")
    else if cfg.cluster_name == ""
    then some (new_error "cluster name is not specified")
    else none

unfoldable pub workload_errors : AppConfig → List ValidationError
workload_errors cfg =
    all_errors validate_process cfg.namespace cfg.processes
    ++ (all_errors validate_cron_job cfg.namespace cfg.cron_jobs
        ++ (all_errors validate_persistent cfg.namespace cfg.persistent_sets
            ++ all_errors validate_service cfg.namespace cfg.services))

-- The defaults that are set before the settings are checked, with a known ID.
unfoldable pub app_defaults : String → AppConfig → AppConfig
app_defaults id cfg = record cfg {
  port = if is_zero cfg.port then pos 8080 else cfg.port;
  id = id;
  namespace = if cfg.namespace == "" then "default" else cfg.namespace;
  termination_grace_period = grace_or 5 29 cfg.termination_grace_period;
}

unfoldable pub finish_app : Option GoError → AppConfig → Option GoError × AppConfig
finish_app (some e) cfg = (some e, cfg)
finish_app none cfg =
    let cfg' = record cfg {
      kubeconfig = if cfg.kubeconfig == "" then "~/.kube/config" else cfg.kubeconfig;
    } in
    (validation_errors (workload_errors cfg'), cfg')

unfoldable pub check_app : AppConfig → Option GoError × AppConfig
check_app cfg = finish_app (check_settings cfg) cfg

unfoldable pub named_app : Result String → AppConfig → Option GoError × AppConfig
named_app (err e) cfg =
    (some e, record cfg { port = if is_zero cfg.port then pos 8080 else cfg.port })
named_app (ok id) cfg = check_app (app_defaults id cfg)

-- AppConfig.Validate. `hostname` is what os.Hostname gives.
unfoldable pub validate_app : Result String → AppConfig → Option GoError × AppConfig
validate_app hostname cfg = named_app (if cfg.id == "" then hostname else ok cfg.id) cfg
