-- ===== src/Lib.antt =====
-- k8-highlander: an operator that runs a set of workloads on one instance only. The instances
-- elect a leader by a lock with a time to live in a shared storage; the leader starts the
-- workloads, renews the lock, and stops them when it cannot.
--
-- The parts, and the files that model them:
--   - Common (pkg/common/types.go, workloads.go): the controller's states, and the types and
--     statuses of workloads.
--   - Config (pkg/common/config.go, workloads.go) and Config/Validation (validation.go): the
--     configuration and its Validate methods. Validation/Laws and Validation/App hold the theorems.
--     Config/Load has the overrides by the environment and the making of the storage's client, with
--     the theorems in Load/Accepted and Load/Build.
--   - Storage/Memory (pkg/storage/memory_storage.go): InMemoryStorage, one function per method.
--     Memory/Laws is its specification, a table of leases; Memory/Exclusion and Memory/Entries hold
--     the theorems on runs of calls.
--   - Storage/Retry (pkg/storage/db_storage.go): retryOnLockError and isLockError, with five
--     attempts as in the source; the theorems are in Retry/Outcome.
--   - Storage/Sql (pkg/storage/db_storage.go): DBStorage. Sql/Acquire is TryAcquireLock, Sql/Calls the
--     other methods and the cleanup; Sql/Lease is the contract of the database, Sql/Rivals the
--     theorems, and Sql/Table a database for the tests.
--   - Storage/Redis (pkg/storage/redis_storage.go): RedisStorage and its two Lua scripts. Redis/Lease is
--     the contract of the client, Redis/Frame what the operations leave alone, Redis/Rivals the
--     theorems, and Redis/Server a server for the tests.
--   - Storage/Spanner (pkg/storage/spanner_storage.go): SpannerStorage, its transactions as functions of
--     what their statements answer. Spanner/Table is what the client is relied on for,
--     Spanner/Leases, Steps and Calls have the theorems.
--   - Monitoring (pkg/monitoring/monitoring.go): the metrics, the health status and the methods
--     that the controller calls; UpdateLeaderStatus and the others that write the leader's status
--     are in Monitoring/Status, what holds of its readiness in Monitoring/Readiness.
--   - Leader (pkg/leader/leader.go): LeaderController. Leader/Connection has isConnectionError and
--     the count of failures, Leader/Acquire TryAcquireLeadership, Leader/Renew RenewLeadership and
--     releaseLeadership, Leader/Workloads the workload context, startWorkloads, stopWorkloads and
--     the wait for the previous leader, and Leader/Loop one round of runLeaderElectionLoop,
--     monitorLock and monitorClusterHealth, TriggerClusterHealthCheck and Stop. Leader/Recovery is
--     monitorWorkloads, with the check for orphaned workloads. Leader/Bystander is about a second
--     instance on the same storage.
--   - Workloads/Manager (pkg/workloads/manager.go): ManagerImpl, its table of workloads, StartAll,
--     StopAll and the retries, over workloads that are outside. Manager/Table and Manager/Failures
--     hold the theorems, Monitoring/Workloads the metrics that it writes. The controller of Leader
--     sees a manager through its interface only.
--   - Workloads/Processes (pkg/workloads/process): ProcessManager and the making of a
--     ProcessWorkload. Processes/Load has Start, Stop and the configuration files; the theorems are
--     in Processes/Add, Remove, Sound (what holds of every entry of the table) and Status. Starting
--     and stopping a workload, its status, the files and the YAML parser are outside.
--   - Workloads/Process (pkg/workloads/process/process.go, pkg/common/kubernetes.go): ProcessWorkload, its
--     pod and its status. Process/Health has checkHealth and the updater; the theorems are in
--     Process/Starts and Process/History. The containers of the pod, which BuildContainers makes, are an
--     argument.
--   - Workloads/CrdWatcher (pkg/workloads/crd_watcher.go): CRDWatcher, its sync and its removal of
--     workloads; CrdWatcher/Events has the events of its informers and the first sync, and
--     CrdWatcher/Follower the theorem on an instance that does not lead.
--   - Prelude: tests on numbers and texts, Go's errors, Go's maps, signed integers.
--
-- The controller works on an outside of any state type: the clock, the LeaderStorage, the workload
-- manager, the CRD watcher and the Kubernetes client are records of functions of that state
-- (Leader/Interfaces), so that any of their calls may fail, let time pass, or let other instances
-- act. What the theorems on leases ask of the storage is the record StorageContract
-- (Leader/Contract); Leader/Site is such an outside over the in-memory storage, with a rival instance
-- and a script of faults, and Leader/Tests runs the controller there.
--
-- A round of a loop is one step, since it holds the workload mutex while it changes the controller;
-- the rounds are put in any order by Leader/Loop/History. Times and durations are whole nanoseconds;
-- the zero time is `none`. getCurrentLeader retries three times, as in the source. The wait for
-- previous workloads takes the number of its ticks as an argument: the timeout of one minute at a
-- tick every two seconds is 30. Metrics are functions of their labels, and histograms lists of what
-- they observed. Logging is left out.
--
-- Not modelled: the SQL storage's schema and connection, BuildContainers, the cron jobs, services and
-- persistent workloads with their managers, the CRD watcher's informers, the CRD registry, the
-- reading of the configuration's file, InitConfig's Kubernetes clients, the HTTP server, the command
-- line, and NewControllerMetrics' registration.
mod Prelude
pub mod Common
pub mod Config
pub mod Storage
pub mod Monitoring
pub mod Leader
pub mod Workloads
