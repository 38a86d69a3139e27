-- ===== src/Config.antt =====
-- pkg/common/config.go and pkg/common/workloads.go: the configuration, as far as its validation
-- and the table of processes read or write it. A duration is in nanoseconds.
pub mod Validation
pub mod Load
use k8_highlander.Prelude.{ℕ, ℤ, ◌*◌, ◌^◌, String, Bool, Option, List}

-- BaseWorkloadConfig; `script` has the commands of the ScriptConfig, if there is one, and
-- `has_crd_ref` says that there is a WorkloadCRDRef.
pub record BaseConfig : Type 0 where
  pub name : String
  pub namespace : String
  pub image : String
  pub script : Option (List String)
  pub replicas : ℤ
  pub termination_grace_period : ℤ
  pub restart_policy : String
  pub has_crd_ref : Bool
  pub id : String

-- ProcessConfig
pub record ProcessConfig : Type 0 where
  pub base : BaseConfig
  pub max_restarts : ℤ

-- CronJobConfig
pub record CronJobConfig : Type 0 where
  pub base : BaseConfig
  pub schedule : String

-- ServiceConfig
pub record ServiceConfig : Type 0 where
  pub base : BaseConfig

-- VolumeConfig
pub record VolumeConfig : Type 0 where
  pub name : String
  pub mount_path : String
  pub size : String

-- PersistentConfig
pub record PersistentConfig : Type 0 where
  pub base : BaseConfig
  pub persistent_volumes : List VolumeConfig

-- AppConfig. The texts of its storage are those of Redis, Spanner and the database.
pub record AppConfig : Type 0 where
  pub id : String
  pub namespace : String
  pub tenant : String
  pub port : ℤ
  pub storage_type : String
  pub redis_addr : String
  pub redis_password : String
  pub redis_db : ℤ
  pub spanner_project : String
  pub spanner_instance : String
  pub spanner_database : String
  pub database_url : String
  pub cluster_name : String
  pub kubeconfig : String
  pub processes : List ProcessConfig
  pub cron_jobs : List CronJobConfig
  pub services : List ServiceConfig
  pub persistent_sets : List PersistentConfig
  pub termination_grace_period : ℤ
