-- ===== src/Leader/Interfaces.antt =====
-- What the leader controller calls: the interfaces LeaderStorage (pkg/storage/storage.go), Manager
-- (pkg/workloads/manager.go) and the CRD watcher, the clock, and the Kubernetes client.
use k8_highlander.Prelude.{ℕ, String, Bool, Option, Result, GoError, List, Map}
use k8_highlander.Common.{WorkloadStatus}
use k8_highlander.Storage.Lock.{LockMetadata}

-- time.Now and time.Sleep.
pub record Clock (S : Type 0) : Type 0 where
  pub now : S → ℕ
  pub sleep : ℕ → S → S

-- LeaderStorage
pub record LeaderStorage (S : Type 0) : Type 0 where
  -- key, value, cluster name, TTL
  pub try_acquire_lock : String → String → String → ℕ → S → Result Bool × S
  pub renew_lock : String → String → ℕ → S → Result Bool × S
  pub release_lock : String → String → S → Result Bool × S
  pub get_lock_info : String → S → Result (Option LockMetadata) × S
  pub get_lock_value : String → S → Result String × S
  pub get_lock_ttl : String → S → Result ℕ × S

-- A pod, as far as the controller reads it.
pub record Pod : Type 0 where
  pub annotations : Map String
  pub is_running : Bool

-- A cron job, deployment or stateful set: whether it is suspended, or has zero replicas.
pub record Scaled : Type 0 where
  pub is_off : Bool

-- The workload manager and the workloads in it. A context is its number. The controller has a CRD
-- watcher; the source can also run without one.
pub record Manager (S : Type 0) : Type 0 where
  pub start_all : Option ℕ → S → Option GoError × S
  pub stop_all : S → Option GoError × S
  pub get_all_statuses : S → Map WorkloadStatus
  pub cleanup : S → S

pub record CrdWatcher (S : Type 0) : Type 0 where
  pub start : Option ℕ → S → Option GoError × S
  pub stop : S → Option GoError × S

-- The Kubernetes client: the node list of the health check, the pods labelled
-- managed-by=k8-highlander, and single objects by namespace and name.
pub record Client (S : Type 0) : Type 0 where
  pub has_client : S → Bool
  pub list_nodes : S → Option GoError × S
  pub list_pods : S → Result (List Pod) × S
  pub get_pod : String → String → S → Result Pod × S
  pub get_cron_job : String → String → S → Result Scaled × S
  pub get_deployment : String → String → S → Result Scaled × S
  pub get_stateful_set : String → String → S → Result Scaled × S

pub record Outside (S : Type 0) : Type 0 where
  pub clock : Clock S
  pub storage : LeaderStorage S
  pub workloads : Manager S
  pub crd_watcher : CrdWatcher S
  pub client : Client S
