-- ===== src/Workloads/Process/Starts.antt =====
-- What a Start that gives no error leaves in the cluster.
use k8_highlander.Prelude.{
  ℕ, String, Bool, true, false, Option, none, some, Result, ok, err, ok-injective, err-ne-ok,
  GoError, ◌≡◌, refl, sym, ap, ◌∙◌, if◌then◌else◌, Bool-cases, inl, inr,
}
use mathlib.Core.Option.{none-ne-some}
use k8_highlander.Workloads.Processes.{ProcessWorkload}
use k8_highlander.Workloads.Process.{
  LivePod, NewPod, PodCalls, Process, set_active, build_pod, pod_of, pod_created, recreate,
  over_existing, with_pod, create_or_update_pod, pod_started, start_process, is_pod_terminated,
}

-- What the Kubernetes API documents of pods: Get gives the pod that is there, a pod that was pod_created
-- is there and has not terminated; and the monitoring server has no part in pods.
pub record PodContract {S : Type 0} (o : PodCalls S) (pods : S → String → String → Option LivePod)
    : Type 0 where
  pub get_lem :
      (ns name : String) (pod : LivePod) (s : S)
      → (o.get ns name s).0 ≡ ok pod
      → pods (o.get ns name s).1 ns name ≡ some pod
  pub create_lem :
      (pod : NewPod) (s : S)
      → (o.create pod s).0 ≡ none
      → (q : LivePod) × (pods (o.create pod s).1 pod.namespace pod.name ≡ some q)
        × (is_pod_terminated q ≡ false)
  pub record_lem :
      (name operation : String) (d : ℕ) (e : Option GoError) (s : S) (ns pod : String)
      → pods (o.record_operation name operation d e s) ns pod ≡ pods s ns pod
  pub update_lem :
      (name ns : String) (b : Bool) (s : S) (ns' pod : String)
      → pods (o.update_workload_status name ns b s) ns' pod ≡ pods s ns' pod

module _ {S : Type 0} (o : PodCalls S) (pods : S → String → String → Option LivePod)
    (c : PodContract o pods) where
  -- The workload's pod is there and has not terminated, and the workload is active.
  abbrev pub Runs : ProcessWorkload → Process → S → Type 0
  Runs w p s =
      (q : LivePod) × (pods s w.namespace w.pod_name ≡ some q)
      × (is_pod_terminated q ≡ false)
      × (p.status.active ≡ true)

  -- If the result has no error, then the workload runs.
  abbrev RunsIfOk : ProcessWorkload → Option GoError × Process × S → Type 0
  RunsIfOk w r = r.0 ≡ none → Runs w r.1 r.2

  failed : (w : ProcessWorkload) (e : GoError) (p : Process) (s : S) → RunsIfOk w (some e, p, s)
  failed w e p s h = absurd (none-ne-some e (sym h))

  if-RunsIfOk :
      (w : ProcessWorkload) (b : Bool) (x y : Option GoError × Process × S)
      → RunsIfOk w x
      → RunsIfOk w y
      → RunsIfOk w (if b then x else y)
  if-RunsIfOk w true x y h g = h
  if-RunsIfOk w false x y h g = g

  module _ (w : ProcessWorkload) (pod : NewPod)
      (named : (pod.namespace ≡ w.namespace) × (pod.name ≡ w.pod_name)) where
    pod_created-Runs : (p : Process) (s : S) → RunsIfOk w (pod_created o p (o.create pod s))
    pod_created-Runs p s = by_error (o.create pod s).0 refl
      where
        by_error :
            (e : Option GoError)
            → (o.create pod s).0 ≡ e
            → RunsIfOk w (pod_created o p (e, (o.create pod s).1))
        by_error (some e) h = unfold pod_created in failed w _ p _
        by_error none h =
            unfold pod_created set_active in
            λ g.
              let (q, there, alive) = c.create_lem pod s h in
              (
                q,
                ap (λ n. pods (o.create pod s).1 n w.pod_name) (sym named.0)
                    ∙ ap (λ n. pods (o.create pod s).1 pod.namespace n) (sym named.1)
                    ∙ there,
                alive,
                refl,
              )

    recreate-Runs : (p : Process) (x : Option GoError × S) → RunsIfOk w (recreate o pod p x)
    unfolding recreate
    recreate-Runs p (none, s) = pod_created-Runs p s
    recreate-Runs p (some e, s) =
        if-RunsIfOk w (o.is_not_found e) _ _ (pod_created-Runs p s) (failed w _ p s)

    over_existing-Runs :
        (r : Result LivePod) (p : Process) (s : S)
        → ((q : LivePod) → r ≡ ok q → pods s w.namespace w.pod_name ≡ some q)
        → RunsIfOk w (over_existing o r pod p s)
    unfolding over_existing
    over_existing-Runs (err e) p s there =
        if-RunsIfOk w (o.is_not_found e) _ _ (pod_created-Runs p s) (failed w _ p s)
    over_existing-Runs (ok q) p s there = elim (Bool-cases (is_pod_terminated q)) [
      | inl e ↦ rw e (recreate-Runs p _)
      | inr e ↦ rw e (λ h. (q, there q refl, e, unfold set_active in refl))
    ]

  with_pod-Runs :
      (r : Result NewPod) (p : Process) (s : S)
      → ((pod : NewPod)
          → r ≡ ok pod
          → (pod.namespace ≡ p.workload.namespace) × (pod.name ≡ p.workload.pod_name))
      → RunsIfOk p.workload (with_pod o r p s)
  unfolding with_pod
  with_pod-Runs (err e) p s named = failed p.workload _ p s
  with_pod-Runs (ok pod) p s named =
      over_existing-Runs p.workload pod (named pod refl) _ p _ λ q e. c.get_lem _ _ q s e

  pod_of-named :
      (r : Result String) (w : ProcessWorkload) (pod : NewPod)
      → pod_of r w ≡ ok pod
      → (pod.namespace ≡ w.namespace) × (pod.name ≡ w.pod_name)
  unfolding pod_of
  pod_of-named (err x) w pod e = absurd (err-ne-ok _ _ e)
  pod_of-named (ok containers) w pod e =
      let p = ok-injective _ _ e in (ap (λ z. z.namespace) (sym p), ap (λ z. z.name) (sym p))

  pod_started-Runs :
      (w : ProcessWorkload) (e : Option GoError) (p : Process) (s u : S)
      → ((ns name : String) → pods u ns name ≡ pods s ns name)
      → RunsIfOk w (e, p, s)
      → RunsIfOk w (pod_started o e p u)
  unfolding pod_started
  pod_started-Runs w (some e) p s u same h = failed w _ p u
  pod_started-Runs w none p s u same h = λ g.
      let (q, there, alive, active) = h refl in
      (q, c.update_lem _ _ true u _ _ ∙ same _ _ ∙ there, alive, active)

  -- On a cluster that keeps the contract of pods: if Start gives no error, then the workload's pod
  -- is there, it has not terminated, and the workload is active, whichever pod was there before, or
  -- none.
  pub start_process-Runs :
      (p : Process) (s : S)
      → (start_process o p s).0 ≡ none
      → Runs p.workload (start_process o p s).1 (start_process o p s).2
  unfolding start_process create_or_update_pod
  start_process-Runs p s =
      let (e, p', s') = with_pod o (build_pod o p.workload s) p s in
      pod_started-Runs p.workload e p' s' _ (λ ns name. c.record_lem _ _ _ e s' ns name)
        (with_pod-Runs (build_pod o p.workload s) p s λ pod e.
          pod_of-named (o.build_containers p.workload.config.base s) p.workload pod
            (unfold build_pod in e))
