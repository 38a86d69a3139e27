-- ===== src/Workloads/CrdWatcher/Events.antt =====
-- pkg/workloads/crd_watcher.go: the events of the informers of CRDWatcher, and its initial sync.
use k8_highlander.Prelude.{
  ℕ, zero, suc, String, cat, Bool, true, false, ◌&&◌, ◌||◌, Option, none, some, List, [], ◌∷◌, Map,
  insert, delete, Result, ok, err, GoError, new_error, decimal, if◌then◌else◌, ◌==◌, ◌!=◌,
}
use k8_highlander.Workloads.CrdWatcher.{
  CrdRef, CrdObject, Notice, object, tombstone, other_notice, WatcherCalls, sync_workload_from_crd,
  remove_workload_with_crd_ref,
}

unfoldable pub crd_key : CrdRef → String
crd_key ref =
    cat ref.api_version (cat "/" (cat ref.kind (cat "/" (cat ref.namespace (cat "/" ref.name)))))

unfoldable pub crd_label : CrdRef → String
crd_label ref = cat ref.namespace (cat "/" ref.name)

-- The versions of an update that is none: both are known, and the same.
unfoldable pub same_version : Option CrdObject → CrdObject → Bool
same_version none new = false
same_version (some old) new =
    old.resource_version != ""
    && new.resource_version != ""
    && old.resource_version == new.resource_version

module _ {S : Type 0} (o : WatcherCalls S) where
  -- An operation of a CRD in the metrics.
  unfoldable pub record_crd : String → CrdRef → GoError → S → S
  record_crd operation ref e s =
      o.record_operation (cat "crd-" ref.kind) (crd_label ref) operation 0 (some e) s

  unfoldable pub note_sync : CrdRef → ℕ × Option GoError → S → ℕ × S
  note_sync ref (count, none) s = (count, s)
  note_sync ref (count, some e) s =
      let operation =
        if o.is_not_found e || o.is_already_exists e then "sync-expected-error" else "sync-error" in
      (0, record_crd "sync" ref e (record_crd operation ref e s))

  unfoldable pub note_removal : CrdRef → Option GoError → S → S
  note_removal ref none s = s
  note_removal ref (some e) s = record_crd "remove" ref e s

  -- processCRDChange for "add" and "update", and for "delete": the keys of the managed CRDs and
  -- the count, which is negative (true) after a deletion.
  unfoldable pub process_crd_sync : CrdRef → Map Bool → S → ℕ × Map Bool × S
  process_crd_sync ref managed s =
      let (r, s1) = sync_workload_from_crd o ref s in
      let (count, s2) = note_sync ref r s1 in
      if o.leads_normally s then (count, insert (crd_key ref) true managed, s2) else (0, managed, s)

  unfoldable pub process_crd_delete : CrdRef → Map Bool → S → Bool × Map Bool × S
  process_crd_delete ref managed s =
      let (e, s1) = remove_workload_with_crd_ref o ref s in
      let s2 = note_removal ref e s1 in
      if o.leads_normally s then (true, delete (crd_key ref) managed, s2) else (false, managed, s)

  -- OnCRDAdd
  unfoldable pub on_crd_add : Notice → Map Bool → S → Map Bool × S
  on_crd_add (object x) managed s =
      let (count, managed', s') = process_crd_sync x.ref managed s in (managed', s')
  on_crd_add (tombstone x) managed s = (managed, s)
  on_crd_add other_notice managed s = (managed, s)

  unfoldable pub object_of : Notice → Option CrdObject
  object_of (object x) = some x
  object_of (tombstone x) = none
  object_of other_notice = none

  -- OnCRDUpdate
  unfoldable pub on_crd_update : Notice → Notice → Map Bool → S → Map Bool × S
  on_crd_update old (object x) managed s =
      let (count, managed', s') = process_crd_sync x.ref managed s in
      if same_version (object_of old) x then (managed, s) else (managed', s')
  on_crd_update old (tombstone x) managed s = (managed, s)
  on_crd_update old other_notice managed s = (managed, s)

  unfoldable pub deleted : CrdObject → Map Bool → S → Map Bool × S
  deleted x managed s =
      let (negative, managed', s') = process_crd_delete x.ref managed s in (managed', s')

  -- OnCRDDelete
  unfoldable pub on_crd_delete : Notice → Map Bool → S → Map Bool × S
  on_crd_delete (object x) managed s = deleted x managed s
  on_crd_delete (tombstone x) managed s = deleted x managed s
  on_crd_delete other_notice managed s = (managed, s)

  unfoldable pub sync_objects : List CrdObject → Map Bool → S → Map Bool × S
  sync_objects [] managed s = (managed, s)
  sync_objects (x ∷ xs) managed s =
      let (count, managed', s') = process_crd_sync x.ref managed s in sync_objects xs managed' s'

  -- A resource that could not be listed is counted.
  unfoldable pub sync_listed : Result (List CrdObject) → ℕ → Map Bool → S → ℕ × Map Bool × S
  sync_listed (err e) errors managed s = (suc errors, managed, s)
  sync_listed (ok objects) errors managed s =
      let (managed', s') = sync_objects objects managed s in (errors, managed', s')

  unfoldable pub sync_resources : List String → ℕ → Map Bool → S → ℕ × Map Bool × S
  sync_resources [] errors managed s = (errors, managed, s)
  sync_resources (r ∷ rs) errors managed s =
      let (xs, s') = o.list r s in
      let (errors', managed', s'') = sync_listed xs errors managed s' in
      sync_resources rs errors' managed' s''

  unfoldable pub sync_error : ℕ → Option GoError
  sync_error zero = none
  sync_error (suc n) =
      some (new_error (cat "initial sync encountered " (cat (decimal (suc n)) " errors")))

  -- performInitialSync
  unfoldable pub perform_initial_sync : Map Bool → S → Option GoError × Map Bool × S
  perform_initial_sync managed s =
      let (errors, managed', s') =
        sync_resources
          ("workloadprocesses" ∷ "workloadservices" ∷ "workloadcronjobs" ∷ "workloadpersistents"
            ∷ [])
          0 managed s in
      (sync_error errors, managed', s')
