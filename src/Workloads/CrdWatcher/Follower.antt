-- ===== src/Workloads/CrdWatcher/Follower.antt =====
-- What the watcher does on an instance that does not lead, whatever its informers tell it.
use k8_highlander.Prelude.{
  sym, ℕ, String, Bool, true, false, List, [], ◌∷◌, Map, Result, ok, err, ◌≡◌, refl, ap, ◌∙◌,
  if◌then◌else◌,
}
use mathlib.Core.Path.{subst}
use k8_highlander.Workloads.CrdWatcher.{
  CrdRef, CrdObject, Notice, object, tombstone, other_notice, WatcherCalls,
}
use k8_highlander.Workloads.CrdWatcher.Events.{
  process_crd_sync, process_crd_delete, on_crd_add, on_crd_update, on_crd_delete, same_version,
  object_of, deleted, sync_objects, sync_listed, sync_resources, perform_initial_sync,
}

-- What comes to the watcher: the events of its informers, and the first sync of a start.
pub data Event : Type 0 where
  adds : (new : Notice) → Event
  updates : (old new : Notice) → Event
  deletes : (new : Notice) → Event
  starts : Event

-- The states in which the instance does not lead, or leads in a state that is not normal, and what is
-- to be seen of a state. To list a resource leaves both as they are.
pub record Follows {S V : Type 0} (o : WatcherCalls S) (idle : S → Type 0) (view : S → V)
    : Type 0 where
  pub no_leader : (s : S) → idle s → o.leads_normally s ≡ false
  pub list_idle : (r : String) (s : S) → idle s → idle (o.list r s).1
  pub list_view : (r : String) (s : S) → view (o.list r s).1 ≡ view s

module _ {S : Type 0} (o : WatcherCalls S) where
  unfoldable pub handle : Event → Map Bool → S → Map Bool × S
  handle (adds new) managed s = on_crd_add o new managed s
  handle (updates old new) managed s = on_crd_update o old new managed s
  handle (deletes new) managed s = on_crd_delete o new managed s
  handle starts managed s =
      let (e, managed', s') = perform_initial_sync o managed s in (managed', s')

  unfoldable pub handle_all : List Event → Map Bool → S → Map Bool × S
  handle_all [] managed s = (managed, s)
  handle_all (e ∷ es) managed s =
      let (managed', s') = handle e managed s in handle_all es managed' s'

  module _ {V : Type 0} (idle : S → Type 0) (view : S → V) (f : Follows o idle view) where
    -- The keys of the managed CRDs are as they were, and so is what is to be seen.
    record Same (managed : Map Bool) (s : S) (x : Map Bool × S) : Type 0 where
      keys : x.0 ≡ managed
      seen : view x.1 ≡ view s
      still : idle x.1

    untouched : (managed : Map Bool) (s : S) → idle s → Same managed s (managed, s)
    untouched managed s i = record { keys = refl; seen = refl; still = i }

    process_crd_sync-idle :
        (ref : CrdRef) (managed : Map Bool) (s : S)
        → idle s
        → process_crd_sync o ref managed s ≡ (0, managed, s)
    unfolding process_crd_sync
    process_crd_sync-idle ref managed s i = rw (f.no_leader s i) refl

    process_crd_delete-idle :
        (ref : CrdRef) (managed : Map Bool) (s : S)
        → idle s
        → process_crd_delete o ref managed s ≡ (false, managed, s)
    unfolding process_crd_delete
    process_crd_delete-idle ref managed s i = rw (f.no_leader s i) refl

    either-Same :
        (b : Bool) (managed : Map Bool) (s : S) (x y : Map Bool × S)
        → Same managed s x
        → Same managed s y
        → Same managed s (if b then x else y)
    either-Same true managed s x y h g = h
    either-Same false managed s x y h g = g

    on_crd_add-Same :
        (new : Notice) (managed : Map Bool) (s : S)
        → idle s
        → Same managed s (on_crd_add o new managed s)
    unfolding on_crd_add
    on_crd_add-Same (object x) managed s i =
        rw (process_crd_sync-idle x.ref managed s i) (untouched managed s i)
    on_crd_add-Same (tombstone x) managed s i = untouched managed s i
    on_crd_add-Same other_notice managed s i = untouched managed s i

    on_crd_update-Same :
        (old new : Notice) (managed : Map Bool) (s : S)
        → idle s
        → Same managed s (on_crd_update o old new managed s)
    unfolding on_crd_update
    on_crd_update-Same old (object x) managed s i =
        either-Same (same_version (object_of o old) x) managed s _ _ (untouched managed s i)
          (rw (process_crd_sync-idle x.ref managed s i) (untouched managed s i))
    on_crd_update-Same old (tombstone x) managed s i = untouched managed s i
    on_crd_update-Same old other_notice managed s i = untouched managed s i

    on_crd_delete-Same :
        (new : Notice) (managed : Map Bool) (s : S)
        → idle s
        → Same managed s (on_crd_delete o new managed s)
    unfolding on_crd_delete deleted
    on_crd_delete-Same (object x) managed s i =
        rw (process_crd_delete-idle x.ref managed s i) (untouched managed s i)
    on_crd_delete-Same (tombstone x) managed s i =
        rw (process_crd_delete-idle x.ref managed s i) (untouched managed s i)
    on_crd_delete-Same other_notice managed s i = untouched managed s i

    sync_objects-idle :
        (xs : List CrdObject) (managed : Map Bool) (s : S)
        → idle s
        → sync_objects o xs managed s ≡ (managed, s)
    unfolding sync_objects
    sync_objects-idle [] managed s i = refl
    sync_objects-idle (x ∷ xs) managed s i =
        rw (process_crd_sync-idle x.ref managed s i) (sync_objects-idle xs managed s i)

    sync_listed-idle :
        (xs : Result (List CrdObject)) (errors : ℕ) (managed : Map Bool) (s : S)
        → idle s
        → sync_listed o xs errors managed s ≡ ((sync_listed o xs errors managed s).0, managed, s)
    unfolding sync_listed
    sync_listed-idle (err e) errors managed s i = refl
    sync_listed-idle (ok objects) errors managed s i =
        ap (λ x. (errors, x.0, x.1)) (sync_objects-idle objects managed s i)

    sync_resources-Same :
        (rs : List String) (errors : ℕ) (managed : Map Bool) (s : S)
        → idle s
        → Same managed s
            ((sync_resources o rs errors managed s).1, (sync_resources o rs errors managed s).2)
    unfolding sync_resources
    sync_resources-Same [] errors managed s i = untouched managed s i
    sync_resources-Same (r ∷ rs) errors managed s i =
        let l = o.list r s in
        let e = sync_listed-idle l.0 errors managed l.1 (f.list_idle r s i) in
        let h = sync_resources-Same rs _ managed l.1 (f.list_idle r s i) in
        subst
          (λ (z : ℕ × Map Bool × S).
            Same managed s
              ((sync_resources o rs z.0 z.1 z.2).1, (sync_resources o rs z.0 z.1 z.2).2))
          (sym e) (record { keys = h.keys; seen = h.seen ∙ f.list_view r s; still = h.still })

    handle-Same :
        (e : Event) (managed : Map Bool) (s : S) → idle s → Same managed s (handle e managed s)
    unfolding handle
    handle-Same (adds new) managed s i = on_crd_add-Same new managed s i
    handle-Same (updates old new) managed s i = on_crd_update-Same old new managed s i
    handle-Same (deletes new) managed s i = on_crd_delete-Same new managed s i
    handle-Same starts managed s i =
        unfold perform_initial_sync in sync_resources-Same _ 0 managed s i

    -- On an instance that does not lead, or whose state is not normal: whatever events the informers
    -- give, and however often the first sync is made, the keys of the managed CRDs stay as they are,
    -- and so does all that listing a resource leaves alone: no workload is added, removed, started
    -- or stopped.
    pub handle_all-idle :
        (es : List Event) (managed : Map Bool) (s : S)
        → idle s
        → ((handle_all es managed s).0 ≡ managed) × (view (handle_all es managed s).1 ≡ view s)
    unfolding handle_all
    handle_all-idle [] managed s i = (refl, refl)
    handle_all-idle (e ∷ es) managed s i =
        let x = handle-Same e managed s i in
        let (m, v) = handle_all-idle es _ _ x.still in (m ∙ x.keys, v ∙ x.seen)
