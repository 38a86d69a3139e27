-- ===== src/Workloads/Process/Alike.antt =====
-- Making the pod of a process again, and what it leaves of the process.
use k8_highlander.Prelude.{
  Bool, true, false, Option, none, some, Result, ok, err, GoError, ◌≡◌, refl, if◌then◌else◌,
}
use k8_highlander.Workloads.Process.{
  LivePod, NewPod, PodCalls, Process, set_active, pod_created, recreate, over_existing, with_pod,
  create_or_update_pod, is_pod_terminated,
}

-- An operation that leaves all this but the activity of the workload.
pub record Alike (p q : Process) : Type 0 where
  pub same_channel : q.channel_closed ≡ p.channel_closed
  pub same_stopped : q.stopped ≡ p.stopped
  pub same_transition : q.status.last_transition ≡ p.status.last_transition
  pub same_healthy : q.status.healthy ≡ p.status.healthy
  pub same_error : q.status.last_error ≡ p.status.last_error

pub alike : (p : Process) → Alike p p
alike p = record {
  same_channel = refl;
  same_stopped = refl;
  same_transition = refl;
  same_healthy = refl;
  same_error = refl;
}

set_active-Alike : (b : Bool) (p : Process) → Alike p (set_active b p)
unfolding set_active
set_active-Alike b p = record {
  same_channel = refl;
  same_stopped = refl;
  same_transition = refl;
  same_healthy = refl;
  same_error = refl;
}

module _ {S : Type 0} (o : PodCalls S) where
  pod_created-Alike : (p : Process) (x : Option GoError × S) → Alike p (pod_created o p x).1
  unfolding pod_created
  pod_created-Alike p (none, s) = set_active-Alike true p
  pod_created-Alike p (some e, s) = alike p

  if-Alike :
      (p : Process) (b : Bool) (x y : Option GoError × Process × S)
      → Alike p x.1
      → Alike p y.1
      → Alike p (if b then x else y).1
  if-Alike p true x y h g = h
  if-Alike p false x y h g = g

  recreate-Alike :
      (pod : NewPod) (p : Process) (x : Option GoError × S) → Alike p (recreate o pod p x).1
  unfolding recreate
  recreate-Alike pod p (none, s) = pod_created-Alike p _
  recreate-Alike pod p (some e, s) =
      if-Alike p (o.is_not_found e) _ _ (pod_created-Alike p _) (alike p)

  over_existing-Alike :
      (r : Result LivePod) (pod : NewPod) (p : Process) (s : S)
      → Alike p (over_existing o r pod p s).1
  unfolding over_existing
  over_existing-Alike (err e) pod p s =
      if-Alike p (o.is_not_found e) _ _ (pod_created-Alike p _) (alike p)
  over_existing-Alike (ok existing) pod p s =
      if-Alike p (is_pod_terminated existing) _ _ (recreate-Alike pod p _) (set_active-Alike true p)

  with_pod-Alike : (r : Result NewPod) (p : Process) (s : S) → Alike p (with_pod o r p s).1
  unfolding with_pod
  with_pod-Alike (err e) p s = alike p
  with_pod-Alike (ok pod) p s = over_existing-Alike _ pod p _

  pub create_or_update_pod-Alike : (p : Process) (s : S) → Alike p (create_or_update_pod o p s).1
  unfolding create_or_update_pod
  create_or_update_pod-Alike p s = with_pod-Alike _ p s
