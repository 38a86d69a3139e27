-- ===== src/Config/Validation/Tests.antt =====
-- Validations of concrete configurations, and the theorems at them.
use k8_highlander.Prelude.{
  is_none, pos, negsuc, false, exceeds, ◌≡◌, refl, some, [], ◌∷◌, ok, ◌&&◌, ◌!=◌,
}
use k8_highlander.Config.{
  BaseConfig, ProcessConfig, CronJobConfig, ServiceConfig, PersistentConfig, AppConfig,
}
use k8_highlander.Config.Validation.{
  validate_process, validate_cron_job, validate_service, validate_persistent, validate_app,
  check_name_and_image, check_script, check_replicas, unless,
}
use k8_highlander.Config.Validation.Laws.{validate_idempotent}
use k8_highlander.Config.Validation.App.{
  has_id, has_storage, are_all_complete, validate_app-is_none, workloads-validate_app,
}

abbrev echo_base : BaseConfig
echo_base = record {
  name = "echo";
  namespace = "";
  image = "busybox";
  script = some ("echo hello" ∷ []);
  replicas = pos 1;
  termination_grace_period = pos 0;
  restart_policy = "";
  has_crd_ref = false;
  id = "";
}

abbrev pub echo : ProcessConfig
echo = record { base = echo_base; max_restarts = negsuc 0 }

abbrev nightly : CronJobConfig
nightly = record { base = echo_base; schedule = "" }

abbrev web : ServiceConfig
web = record { base = record echo_base { image = ""; replicas = pos 0 } }

abbrev store : PersistentConfig
store = record {
  base = echo_base;
  persistent_volumes = record { name = "data"; mount_path = "/data"; size = "" } ∷ [];
}

abbrev app : AppConfig
app = record {
  id = "";
  namespace = "";
  tenant = "";
  port = pos 0;
  storage_type = "memory";
  redis_addr = "";
  redis_password = "";
  redis_db = pos 0;
  spanner_project = "";
  spanner_instance = "";
  spanner_database = "";
  database_url = "";
  cluster_name = "primary";
  kubeconfig = "";
  processes = echo ∷ [];
  cron_jobs = [];
  services = [];
  persistent_sets = [];
  termination_grace_period = pos 0;
}

image_is_missing : (validate_service web "prod").0 ≡ (
    record { field = "image"; message = "image is required" }
    ∷ record { field = "replicas"; message = "replicas must be greater than 0" }
    ∷ [])
unfolding validate_service check_name_and_image check_script check_replicas unless exceeds
image_is_missing = refl

validate_idempotent_example :
    (validate_process (validate_process echo "prod").1 "" ≡ validate_process echo "prod")
    × (validate_cron_job (validate_cron_job nightly "prod").1 "" ≡ validate_cron_job nightly "prod")
    × (validate_service (validate_service web "prod").1 "" ≡ validate_service web "prod")
    × (validate_persistent (validate_persistent store "prod").1 ""
        ≡ validate_persistent store "prod")
validate_idempotent_example = validate_idempotent "prod" "" echo nightly web store

validate_app-is_none_example :
    is_none (validate_app (ok "host") app).0
    ≡ (has_id (ok "host") app && (has_storage app && ("primary" != "") && are_all_complete app))
validate_app-is_none_example = validate_app-is_none (ok "host") app

workloads-validate_app_example :
    ((validate_app (ok "host") app).1.processes ≡ (echo ∷ []))
    × ((validate_app (ok "host") app).1.cron_jobs ≡ [])
    × ((validate_app (ok "host") app).1.services ≡ [])
    × ((validate_app (ok "host") app).1.persistent_sets ≡ [])
workloads-validate_app_example = workloads-validate_app (ok "host") app
