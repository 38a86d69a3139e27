-- ===== src/Config/Load.antt =====
-- pkg/common/config.go: initConfigFromFile after the reading of the file, the overrides by
-- environment variables, and BuildStorageConfig. Finding, reading and parsing a file, and the
-- clients of the storages, are outside.
pub mod Accepted
pub mod Build
pub mod Tests
use k8_highlander.Prelude.{
  ℤ, String, cat, Bool, true, false, Option, none, some, List, [], ◌∷◌, Result, ok, err, GoError,
  new_error, severe_message, severe_error, wrap, if◌then◌else◌, ◌==◌, ◌||◌,
}
use k8_highlander.Config.{
  BaseConfig, ProcessConfig, CronJobConfig, ServiceConfig, PersistentConfig, AppConfig,
}
use k8_highlander.Config.Validation.{validate_app}

-- The environment of the process: its variables (empty if unset), strconv.Atoi, os.Hostname, and
-- the .kube/config of the home directory, if there is one.
pub record Environment : Type 0 where
  pub variable : String → String
  pub atoi : String → Result ℤ
  pub hostname : Result String
  pub home_kubeconfig : Option String

-- A parsed configuration: by YAML from the text of the file, or by Viper.
pub data Parsed : Type 0 where
  from_yaml from_viper : Result AppConfig → Parsed

unfoldable pub override : String → String → String
override value old = if value == "" then old else value

unfoldable pub number_or : ℤ → Result ℤ → ℤ
number_or old (ok n) = n
number_or old (err e) = old

unfoldable pub override_number : Environment → String → ℤ → ℤ
override_number env value old = if value == "" then old else number_or old (env.atoi value)

-- applyEnvironmentOverrides
unfoldable pub apply_environment_overrides : Environment → AppConfig → AppConfig
apply_environment_overrides env cfg = record cfg {
  id = override (env.variable "HIGHLANDER_ID") cfg.id;
  tenant = override (env.variable "HIGHLANDER_TENANT") cfg.tenant;
  port = override_number env (env.variable "HIGHLANDER_PORT") cfg.port;
  namespace = override (env.variable "HIGHLANDER_NAMESPACE") cfg.namespace;
  storage_type = override (env.variable "HIGHLANDER_STORAGE_TYPE") cfg.storage_type;
  redis_addr = override (env.variable "HIGHLANDER_REDIS_ADDR") cfg.redis_addr;
  redis_password = override (env.variable "HIGHLANDER_REDIS_PASSWORD") cfg.redis_password;
  redis_db = override_number env (env.variable "HIGHLANDER_REDIS_DB") cfg.redis_db;
  spanner_project = override (env.variable "HIGHLANDER_SPANNER_PROJECT_ID") cfg.spanner_project;
  spanner_instance = override (env.variable "HIGHLANDER_SPANNER_INSTANCE_ID") cfg.spanner_instance;
  spanner_database = override (env.variable "HIGHLANDER_SPANNER_DATABASE_ID") cfg.spanner_database;
  database_url = override (env.variable "HIGHLANDER_DATABASE_URL") cfg.database_url;
  kubeconfig = override (env.variable "HIGHLANDER_KUBECONFIG") cfg.kubeconfig;
  cluster_name = override (env.variable "HIGHLANDER_CLUSTER_NAME") cfg.cluster_name;
}

unfoldable pub kubeconfig_or : String → Option String → String
kubeconfig_or old none = old
kubeconfig_or old (some path) = path

unfoldable pub with_kubeconfig : Environment → AppConfig → AppConfig
with_kubeconfig env cfg = record cfg {
  kubeconfig =
      if cfg.kubeconfig == "" then kubeconfig_or "" env.home_kubeconfig else cfg.kubeconfig;
}

unfoldable pub validated : Option GoError × AppConfig → Result AppConfig
validated (some e, cfg) = err (wrap "invalid configuration: " e "")
validated (none, cfg) = ok cfg

unfoldable pub identified : Environment → Result String → AppConfig → Result AppConfig
identified env (err e) cfg = err (wrap "failed to get hostname: " e "")
identified env (ok id) cfg =
    validated (validate_app env.hostname (with_kubeconfig env (record cfg { id = id })))

unfoldable pub overridden : Environment → AppConfig → Result AppConfig
overridden env cfg = identified env (if cfg.id == "" then env.hostname else ok cfg.id) cfg

-- initConfigFromFile, from the parsed configuration on; with an error, the configuration that
-- comes with it is left out.
unfoldable pub init_config_from_file : Environment → Parsed → Result AppConfig
init_config_from_file env (from_yaml (err e)) = err (wrap "unable to parse config YAML: " e "")
init_config_from_file env (from_viper (err e)) =
    err (wrap "unable to decode config into struct: " e "")
init_config_from_file env (from_yaml (ok cfg)) =
    overridden env (apply_environment_overrides env cfg)
init_config_from_file env (from_viper (ok cfg)) =
    overridden env (apply_environment_overrides env cfg)

-- The clients of the storages: the ping of a new Redis client (address, password, database),
-- gorm.Open and spanner.NewClient.
pub record StorageClients (S : Type 0) : Type 0 where
  pub ping_redis : String → String → ℤ → S → Option GoError × S
  pub open_database : String → S → Option GoError × S
  pub new_spanner : String → S → Option GoError × S

-- What BuildStorageConfig comes to: a storage of a type, an error, or the end of the process.
pub data Built : Type 0 where
  built : String → Built
  failed : GoError → Built
  exits : Built

-- verifyRedisConnection; the keys that it lists are logged only.
unfoldable pub redis_built : Option GoError → Built
redis_built none = built "redis"
redis_built (some e) = failed (severe_error "AppConfig" "failed to connect to Redis" e)

unfoldable pub database_built : Option GoError → Built
database_built none = built "db"
database_built (some e) = exits

unfoldable pub spanner_built : String → Option GoError → Built
spanner_built name none = built "spanner"
spanner_built name (some e) =
    failed (severe_error "AppConfig" (cat "failed to create Spanner client for " name) e)

unfoldable pub spanner_name : AppConfig → String
spanner_name cfg = cat "projects/" (
    cat cfg.spanner_project
      (cat "/instances/" (cat cfg.spanner_instance (cat "/databases/" cfg.spanner_database))))

-- An empty type of storage is that of Redis.
unfoldable pub default_storage : AppConfig → AppConfig
default_storage cfg = record cfg {
  storage_type = if cfg.storage_type == "" then "redis" else cfg.storage_type;
}

unfoldable pub build_of_type : {S : Type 0} → StorageClients S → AppConfig → S → Built × S
build_of_type c cfg s =
    if cfg.storage_type == "redis"
    then (let (e, s') = c.ping_redis cfg.redis_addr cfg.redis_password cfg.redis_db s in
        (redis_built e, s'))
    else if cfg.storage_type == "db"
    then (let (e, s') = c.open_database cfg.database_url s in (database_built e, s'))
    else if cfg.storage_type == "spanner"
    then (if cfg.spanner_project == "" || cfg.spanner_instance == "" || cfg.spanner_database == ""
        then (
          failed (
              severe_message "AppConfig"
                "Spanner projectID, instanceID, and databaseID are required for Spanner storage"),
          s,
        )
        else (let (e, s') = c.new_spanner (spanner_name cfg) s in
            (spanner_built (spanner_name cfg) e, s')))
    else (
      failed (severe_message "AppConfig" (cat "unsupported storage type: " cfg.storage_type)),
      s,
    )

-- BuildStorageConfig, with the configuration that it leaves.
unfoldable pub build_storage_config :
    {S : Type 0} → StorageClients S → AppConfig → S → Built × AppConfig × S
build_storage_config c cfg s =
    let (b, s') = build_of_type c (default_storage cfg) s in (b, default_storage cfg, s')

unfoldable pub any : {A : Type 0} → (A → Bool) → List A → Bool
any p [] = false
any p (x ∷ xs) = p x || any p xs

-- checkForCRDReferences
unfoldable pub check_for_crd_references : AppConfig → Bool
check_for_crd_references cfg =
    any (λ (p : ProcessConfig). p.base.has_crd_ref) cfg.processes
    || any (λ (v : ServiceConfig). v.base.has_crd_ref) cfg.services
    || any (λ (j : CronJobConfig). j.base.has_crd_ref) cfg.cron_jobs
    || any (λ (p : PersistentConfig). p.base.has_crd_ref) cfg.persistent_sets
