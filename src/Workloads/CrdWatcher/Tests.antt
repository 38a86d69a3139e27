-- ===== src/Workloads/CrdWatcher/Tests.antt =====
-- Managers with two workloads that have CRD references, and the theorem on them.
use k8_highlander.Prelude.{
  String, Bool, true, false, none, List, [], ◌∷◌, ok, ◌≡◌, refl, insert, delete, ◌&&◌, ◌==◌,
  if◌then◌else◌,
}
use k8_highlander.Common.{WorkloadType, process, service}
use k8_highlander.Workloads.CrdWatcher.{
  CrdRef, CrdObject, object, tombstone, other_notice, Member, WatcherCalls, type_text, has_manager,
  refers_to, find_by_ref, failed_removal, unless_failed, remove_each, sync_workload_from_crd,
  sync_loaded, sync_added, clear_member, start_by_type_name, remove_workload_with_crd_ref,
}
use k8_highlander.Workloads.CrdWatcher.Events.{
  crd_key, object_of, deleted, process_crd_sync, process_crd_delete, note_sync, note_removal,
  on_crd_add, on_crd_update, on_crd_delete, same_version,
}
use k8_highlander.Workloads.CrdWatcher.Follower.{
  Event, adds, updates, deletes, starts, Follows, handle_all, handle_all-idle,
}

abbrev echo_ref : CrdRef
echo_ref = record { api_version = "v1"; kind = "WorkloadProcess"; name = "echo"; namespace = "" }

-- The same object as the API server gives it.
abbrev echo_default : CrdRef
echo_default = record {
  api_version = "v1";
  kind = "WorkloadProcess";
  name = "echo";
  namespace = "default";
}

abbrev echo_member : Member
echo_member = record { workload_type = process; name = "echo"; ref = echo_ref }

abbrev web_member : Member
web_member = record {
  workload_type = service;
  name = "web";
  ref = record {
    api_version = "v1";
    kind = "WorkloadService";
    name = "web";
    namespace = "default";
  };
}

unfoldable is_named : WorkloadType → String → Member → Bool
is_named type name x = type_text x.workload_type == type_text type && x.name == name

unfoldable without : WorkloadType → String → List Member → List Member
without type name [] = []
without type name (x ∷ xs) =
    let rest = without type name xs in if is_named type name x then rest else x ∷ rest

unfoldable some_named : WorkloadType → String → List Member → Bool
some_named type name [] = false
some_named type name (x ∷ xs) =
    let rest = some_named type name xs in if is_named type name x then true else rest

-- An instance that leads; its state is the workloads of the managers.
abbrev managers : WatcherCalls (List Member)
managers = record {
  leads_normally = λ s. true;
  leads = λ s. true;
  load = λ ref s.
      (ok (record { workload_type = process; name = ref.name; config = "image: echo" }), s);
  has_manager_of = λ type s. true;
  has_member = some_named;
  stop_member = λ type name s. (none, s);
  remove_member = λ type name s. (none, without type name s);
  add_member =
      λ c s. (none, record { workload_type = c.workload_type; name = c.name; ref = echo_ref } ∷ s);
  start_member = λ type name s. (none, s);
  members = λ s. s;
  list = λ resource s. (ok [], s);
  now = λ s. 0;
  record_operation = λ type name operation d e s. s;
  is_not_found = λ e. false;
  is_already_exists = λ e. false;
}

abbrev both : List Member
both = web_member ∷ echo_member ∷ []

echo_removed : remove_workload_with_crd_ref managers echo_default both ≡ (none, web_member ∷ [])
echo_removed =
    unfold remove_workload_with_crd_ref find_by_ref refers_to remove_each unless_failed
      failed_removal has_manager without is_named type_text in
    refl

-- The object of echo, at a version.
abbrev echo_at : String → CrdObject
echo_at v = record { ref = echo_default; resource_version = v }

-- An update to the same version is none; one to another version replaces the workload; the
-- deletion removes it, from a tombstone too; and other notices are left aside.
same_version_skips :
    on_crd_update managers (object (echo_at "7")) (object (echo_at "7")) [] both ≡ ([], both)
same_version_skips = unfold on_crd_update object_of same_version in refl

deletion_removes : on_crd_delete managers (tombstone (echo_at "7")) [] both ≡ ([], web_member ∷ [])
deletion_removes =
    unfold on_crd_delete deleted process_crd_delete note_removal delete remove_workload_with_crd_ref
      find_by_ref refers_to remove_each unless_failed failed_removal has_manager without is_named
      type_text in
    refl

addition_adds :
    on_crd_add managers (object (echo_at "7")) [] (web_member ∷ [])
    ≡ ((crd_key echo_default, true) ∷ [], echo_member ∷ web_member ∷ [])
addition_adds =
    unfold on_crd_add process_crd_sync sync_workload_from_crd sync_loaded sync_added clear_member
      start_by_type_name note_sync insert delete some_named is_named type_text in
    refl

other_skips : on_crd_delete managers other_notice [] both ≡ ([], both)
other_skips = unfold on_crd_delete in refl

-- A manager that is not there is passed over: its workload is stopped, and stays.
unmanaged_stays :
    remove_workload_with_crd_ref
      (record managers { has_manager_of = λ type s. false })
      echo_default
      both
    ≡ (none, both)
unmanaged_stays =
    unfold remove_workload_with_crd_ref find_by_ref refers_to remove_each unless_failed
      failed_removal has_manager type_text in
    refl

-- An instance that does not lead, where every resource has the object of echo.
abbrev standby : WatcherCalls (List Member)
standby = record managers {
  leads_normally = λ s. false;
  list = λ resource s. (ok (echo_at "7" ∷ []), s);
}

standby-Follows : Follows standby (λ s. Unit {0}) (λ (s : List Member). s)
standby-Follows = record {
  no_leader = λ s i. refl;
  list_idle = λ r s i. tt;
  list_view = λ r s. refl;
}

abbrev events : List Event
events =
    starts
    ∷ adds (object (echo_at "7"))
    ∷ updates (object (echo_at "7")) (object (echo_at "8"))
    ∷ deletes (tombstone (echo_at "8"))
    ∷ []

handle_all-idle_example :
    ((handle_all standby events [] both).0 ≡ []) × ((handle_all standby events [] both).1 ≡ both)
handle_all-idle_example =
    handle_all-idle standby (λ s. Unit {0}) (λ s. s) standby-Follows events [] both tt
