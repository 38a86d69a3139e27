-- ===== src/Config/Load/Tests.antt =====
-- A configuration that is loaded where no file names a storage, and the theorem on it.
use k8_highlander.Prelude.{
  ℕ, pos, suc, String, none, some, [], ok, err, new_error, exceeds, is_zero, ◌==◌, if◌then◌else◌,
  ◌≡◌, ◌≢◌, refl,
}
use k8_highlander.Config.{AppConfig}
use k8_highlander.Config.Validation.{
  validate_app, named_app, app_defaults, check_app, finish_app, check_settings, workload_errors,
  all_errors, validation_errors, grace_or,
}
use k8_highlander.Config.Load.{
  Environment, from_yaml, init_config_from_file, StorageClients, built, exits, build_storage_config,
  default_storage, build_of_type, database_built, overridden, identified, validated,
  with_kubeconfig, kubeconfig_or, apply_environment_overrides, override, override_number, number_or,
}
use k8_highlander.Config.Load.Build.{AllConnect, init_config_from_file-build_storage_config}

-- HIGHLANDER_PORT and HIGHLANDER_TENANT are set; the port is not a number.
unfoldable variable_of : String → String
variable_of name =
    if name == "HIGHLANDER_PORT"
    then "eighty"
    else if name == "HIGHLANDER_TENANT"
    then "blue"
    else ""

abbrev container : Environment
container = record {
  variable = variable_of;
  atoi = λ text. err (new_error "invalid syntax");
  hostname = ok "pod-1";
  home_kubeconfig = none;
}

abbrev file_config : AppConfig
file_config = record {
  id = "";
  namespace = "";
  tenant = "red";
  port = pos 0;
  storage_type = "";
  redis_addr = "redis:6379";
  redis_password = "";
  redis_db = pos 0;
  spanner_project = "";
  spanner_instance = "";
  spanner_database = "";
  database_url = "";
  cluster_name = "primary";
  kubeconfig = "";
  processes = [];
  cron_jobs = [];
  services = [];
  persistent_sets = [];
  termination_grace_period = pos 0;
}

abbrev loaded_config : AppConfig
loaded_config = record file_config {
  id = "pod-1";
  namespace = "default";
  tenant = "blue";
  port = pos 8080;
  kubeconfig = "~/.kube/config";
  termination_grace_period = pos 29000000000;
}

-- The state counts the connections.
abbrev clients : StorageClients ℕ
clients = record {
  ping_redis = λ addr password db s. (none, suc s);
  open_database = λ url s. (none, suc s);
  new_spanner = λ name s. (none, suc s);
}

clients-AllConnect : AllConnect clients
clients-AllConnect = record {
  pings = λ addr password db s. refl;
  opens = λ url s. refl;
  makes = λ name s. refl;
}

config_is_loaded : init_config_from_file container (from_yaml (ok file_config)) ≡ ok loaded_config
config_is_loaded =
    unfold init_config_from_file overridden identified validated with_kubeconfig kubeconfig_or
      apply_environment_overrides override override_number number_or variable_of validate_app
      named_app app_defaults check_app finish_app check_settings workload_errors all_errors
      validation_errors grace_or exceeds is_zero in
    refl

init_config_from_file-build_storage_config_example :
    ((build_storage_config clients loaded_config 0).0 ≡ built "redis")
    × (loaded_config.kubeconfig ≢ "")
init_config_from_file-build_storage_config_example =
    init_config_from_file-build_storage_config clients clients-AllConnect container
      (from_yaml (ok file_config)) loaded_config 0 config_is_loaded

-- A database that cannot be reached ends the process.
unreachable_exits :
    (build_storage_config
      (record clients { open_database = λ url s. (some (new_error "refused"), suc s) })
      (record loaded_config { storage_type = "db" })
      0).0
    ≡ exits
unreachable_exits = unfold build_storage_config build_of_type default_storage database_built in refl
