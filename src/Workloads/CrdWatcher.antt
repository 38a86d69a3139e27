-- ===== src/Workloads/CrdWatcher.antt =====
-- pkg/workloads/crd_watcher.go: CRDWatcher, its sync and its removal of workloads. The managers of
-- workloads, LoadWorkloadFromCRD, the API server, the metrics and the leader's status are outside,
-- in the state `S`.
pub mod Follower
pub mod Events
pub mod Tests
use k8_highlander.Prelude.{
  ℕ, zero, suc, ◌-◌, String, cat, Bool, true, false, not, ◌&&◌, ◌||◌, Option, none, some, List, [],
  ◌∷◌, ◌++◌, Map, insert, delete, Result, ok, err, GoError, new_error, wrap, contains, decimal,
  if◌then◌else◌, ◌==◌, ◌!=◌,
}
use k8_highlander.Common.{
  WorkloadType, process, service, cron_job, persistent, process_manager, service_manager,
  cron_job_manager, persistent_manager, custom,
}

-- WorkloadCRDReference
pub record CrdRef : Type 0 where
  pub api_version : String
  pub kind : String
  pub name : String
  pub namespace : String

-- An object of the API server: its reference, and its resource version.
pub record CrdObject : Type 0 where
  pub ref : CrdRef
  pub resource_version : String

-- What an informer gives: an object, the tombstone of one, or something else.
pub data Notice : Type 0 where
  object tombstone : CrdObject → Notice
  other_notice : Notice

-- A configuration that LoadWorkloadFromCRD gives: its type, which is one of the four that have a
-- manager, its name, and itself.
pub record Loaded : Type 0 where
  pub workload_type : WorkloadType
  pub name : String
  pub config : String

-- A workload of one of the managers that has a CRD reference.
pub record Member : Type 0 where
  pub workload_type : WorkloadType
  pub name : String
  pub ref : CrdRef

-- What the watcher calls; the workloads of the managers go by their type and name. `members` are
-- those of GetWorkloadsWithCRD of each manager, `has_manager_of` says that GetWorkloadManager gives
-- the manager of a type, and `list` is the list of a resource.
pub record WatcherCalls (S : Type 0) : Type 0 where
  pub leads_normally : S → Bool
  pub leads : S → Bool
  pub load : CrdRef → S → Result Loaded × S
  pub has_manager_of : WorkloadType → S → Bool
  pub has_member : WorkloadType → String → S → Bool
  pub stop_member : WorkloadType → String → S → Option GoError × S
  pub remove_member : WorkloadType → String → S → Option GoError × S
  pub add_member : Loaded → S → Option GoError × S
  pub start_member : WorkloadType → String → S → Option GoError × S
  pub members : S → List Member
  pub list : String → S → Result (List CrdObject) × S
  pub now : S → ℕ
  pub record_operation : String → String → String → ℕ → Option GoError → S → S
  pub is_not_found : GoError → Bool
  pub is_already_exists : GoError → Bool

unfoldable pub type_text : WorkloadType → String
type_text process = "process"
type_text service = "service"
type_text cron_job = "cronjob"
type_text persistent = "persistent"
type_text process_manager = "processManager"
type_text service_manager = "serviceManager"
type_text cron_job_manager = "cronjobManager"
type_text persistent_manager = "persistentManager"
type_text custom = "custom"

-- The types that removeWorkloadWithCRDRef knows a manager for.
unfoldable pub has_manager : WorkloadType → Bool
has_manager process = true
has_manager service = true
has_manager cron_job = true
has_manager persistent = true
has_manager other = false

-- workloadHasCRDRef, of a workload that has a reference
unfoldable pub refers_to : CrdRef → CrdRef → Bool
refers_to own ref =
    own.api_version == ref.api_version
    && own.kind == ref.kind
    && own.name == ref.name
    && (own.namespace == ref.namespace
        || (own.namespace == "" && ref.namespace == "default")
        || (own.namespace == "default" && ref.namespace == ""))

-- findWorkloadsByCRDRef, over the workloads of all managers
unfoldable pub find_by_ref : CrdRef → List Member → List Member
find_by_ref ref [] = []
find_by_ref ref (x ∷ xs) =
    let rest = find_by_ref ref xs in if refers_to x.ref ref then x ∷ rest else rest

module _ {S : Type 0} (o : WatcherCalls S) where
  -- A workload that is there is stopped and removed first; errors are logged only.
  unfoldable pub clear_member : Loaded → S → S
  clear_member c s =
      let s1 = (o.stop_member c.workload_type c.name s).1 in
      let s2 = (o.remove_member c.workload_type c.name s1).1 in
      if o.has_member c.workload_type c.name s then s2 else s

  -- startWorkloadByTypeName
  unfoldable pub start_by_type_name : WorkloadType → String → S → Option GoError × S
  start_by_type_name type name s =
      let started = o.start_member type name s in
      if o.has_member type name s then started else (
        some (new_error (cat "workload " (cat name (cat "/" (cat (type_text type) " not found"))))),
        s,
      )

  unfoldable pub added_text : WorkloadType → String
  added_text process = "failed to add process from CRD: "
  added_text service = "failed to add deployment from CRD: "
  added_text cron_job = "failed to add cron job from CRD: "
  added_text other = "failed to add stateful set from CRD: "

  -- The new workload is added, and started if this instance still leads.
  unfoldable pub sync_added : ℕ → Loaded → Option GoError × S → (ℕ × Option GoError) × S
  sync_added start c (some e, s) = ((0, some (wrap (added_text c.workload_type) e "")), s)
  sync_added start c (none, s) =
      let s' =
        o.record_operation (type_text c.workload_type) c.name "sync-crd" (o.now s - start) none s in
      let (e, s'') = start_by_type_name c.workload_type c.name s' in
      if o.leads s' then ((1, e), s'') else ((1, none), s')

  unfoldable pub sync_loaded : ℕ → Result Loaded × S → (ℕ × Option GoError) × S
  sync_loaded start (err e, s) = ((0, some (wrap "failed to load workload from CRD: " e "")), s)
  sync_loaded start (ok c, s) = sync_added start c (o.add_member c (clear_member c s))

  -- syncWorkloadFromCRD
  unfoldable pub sync_workload_from_crd : CrdRef → S → (ℕ × Option GoError) × S
  sync_workload_from_crd ref s =
      let synced = sync_loaded (o.now s) (o.load ref s) in
      if o.leads s then synced else ((0, none), s)

  -- The result of a removal: a workload that is gone already is no error.
  unfoldable pub failed_removal : Option GoError → Option GoError
  failed_removal none = none
  failed_removal (some e) = if contains e.message "does not exist" then none else some e

  -- An error ends the loop; without one, the result is that of the rest.
  unfoldable pub unless_failed : Option GoError → S → Option GoError × S → Option GoError × S
  unless_failed none s rest = rest
  unless_failed (some e) s rest = (some e, s)

  unfoldable pub remove_each : List Member → S → Option GoError × S
  remove_each [] s = (none, s)
  remove_each (x ∷ xs) s =
      let s1 = (o.stop_member x.workload_type x.name s).1 in
      let (e, s2) = o.remove_member x.workload_type x.name s1 in
      let next = unless_failed (failed_removal e) s2 (remove_each xs s2) in
      let skip = remove_each xs s1 in
      if has_manager x.workload_type && o.has_manager_of x.workload_type s1 then next else skip

  -- removeWorkloadWithCRDRef
  unfoldable pub remove_workload_with_crd_ref : CrdRef → S → Option GoError × S
  remove_workload_with_crd_ref ref s = remove_each (find_by_ref ref (o.members s)) s
