-- ===== src/Workloads/Process.antt =====
-- pkg/workloads/process/process.go: ProcessWorkload, its pod and its status, with the helpers of
-- pkg/common/kubernetes.go that it calls. The Kubernetes client, the containers of the pod, the
-- monitoring server and the clock are outside, in the state `S`.
pub mod Health
mod Alike
mod Lifecycle
pub mod History
pub mod Starts
pub mod Tests
use Prim.Native.Nat.{◌/◌}
use k8_highlander.Prelude.{
  ℕ, zero, suc, ◌+◌, ◌-◌, ◌*◌, ℤ, pos, negsuc, negate, String, cat, Bool, true, false, not, ◌&&◌,
  ◌||◌, Option, none, some, List, [], ◌∷◌, Map, lookup, insert, Result, ok, err, GoError, new_error,
  wrap, ltb, if◌then◌else◌, ◌==◌,
}
use k8_highlander.Monitoring.{second}
use k8_highlander.Common.{WorkloadStatus, WorkloadType}
use k8_highlander.Config.{BaseConfig, ProcessConfig}
use k8_highlander.Workloads.Processes.{ProcessWorkload}

-- corev1.PodPhase
pub data Phase : Type 0 where
  pending running succeeded failed : Phase
  other_phase : String → Phase

-- A container's status: whether it is ready, and how it terminated with an exit code that is not
-- 0, if it did so: the code and the message, as text.
pub record ContainerStatus : Type 0 where
  pub name : String
  pub ready : Bool
  pub failure : Option (String × String)

-- A pod, as far as the workload reads it: `unscheduled` has the reasons of its conditions that it
-- is not scheduled, `finalizers` says whether it has any.
pub record LivePod : Type 0 where
  pub phase : Phase
  pub containers : List ContainerStatus
  pub unscheduled : List String
  pub annotations : Map String
  pub deletion : Option ℕ
  pub finalizers : Bool

-- A pod to create. Its containers are those of BuildContainers, with the volumes; the first has a
-- liveness probe on the command of `probe`, if there is one.
pub record NewPod : Type 0 where
  pub name : String
  pub namespace : String
  pub containers : String
  pub restart_policy : String
  pub probe : Option String

-- What the workload calls: BuildContainers, the clock, the pods of the client by namespace and
-- name, with the annotation that Update sets; wait.ExponentialBackoff by its steps,
-- wait.PollUntilContextTimeout by its timeout, retry.RetryOnConflict, the wait for a duration or
-- the end of the context, and the monitoring server with the metrics.
pub record PodCalls (S : Type 0) : Type 0 where
  pub build_containers : BaseConfig → S → Result String
  pub now : S → ℕ
  pub sleep : ℕ → S → S
  pub get : String → String → S → Result LivePod × S
  pub create : NewPod → S → Option GoError × S
  pub annotate : String → String → String → S → Option GoError × S
  pub drop_finalizers : String → String → S → Option GoError × S
  pub delete : String → String → Option ℤ → S → Option GoError × S
  pub is_not_found : GoError → Bool
  pub is_already_exists : GoError → Bool
  pub exponential_backoff : ℕ → (S → Result Bool × S) → S → Option GoError × S
  pub poll : ℤ → (S → Result Bool × S) → S → Option GoError × S
  pub retry_on_conflict : (S → Option GoError × S) → S → Option GoError × S
  pub wait_or_done : ℕ → S → Option GoError × S
  pub leads_normally : S → Bool
  pub record_operation : String → String → ℕ → Option GoError → S → S
  pub update_workload_status : String → String → Bool → S → S

-- A ProcessWorkload that runs: its configuration, its status, whether its stop channel is closed,
-- its flag `stopped`, and how many updaters and watchers were started.
pub record Process : Type 0 where
  pub workload : ProcessWorkload
  pub status : WorkloadStatus
  pub channel_closed : Bool
  pub stopped : Bool
  pub updaters : ℕ
  pub watchers : ℕ

-- NewProcessWorkload, of a configuration that is valid
unfoldable pub new_process : ProcessWorkload → Process
new_process p = record {
  workload = p;
  status = record {
    workload_type = WorkloadType.process;
    active = false;
    healthy = false;
    last_error = "";
    last_transition = none;
    details_namespace = none;
  };
  channel_closed = false;
  stopped = false;
  updaters = 0;
  watchers = 0;
}

abbrev pub shutdown_annotation : String
shutdown_annotation = "k8-highlander.io/controlled-shutdown"

-- isPodTerminated
unfoldable pub is_pod_terminated : LivePod → Bool
is_pod_terminated pod = elim pod.phase [ succeeded ↦ true | failed ↦ true | _ ↦ false ]

-- d / 2, and int64(d.Seconds())
unfoldable pub quotient : ℤ → ℕ → ℤ
quotient (pos n) d = pos (n / d)
quotient (negsuc n) d = negate (pos ((n + 1) / d))

unfoldable pub plus : ℤ → ℕ → ℤ
plus (pos n) k = pos (n + k)
plus (negsuc n) k = if ltb n k then pos (k - n - 1) else negsuc (n - k)

unfoldable pub first_command : Option (List String) → String
first_command none = ""
first_command (some []) = ""
first_command (some (c ∷ cs)) = c

unfoldable pub set_active : Bool → Process → Process
set_active b p = record p { status = record (p.status) { active = b } }

-- The stop channel is closed once: a second Stop leaves it.
unfoldable pub close_channel : Process → Process
close_channel p =
    if p.stopped then p else record p { channel_closed = not p.channel_closed; stopped = true }

unfoldable pub inactive : Process → Process
inactive p = record p { status = record (p.status) { active = false; healthy = false } }

unfoldable pub pod_of : Result String → ProcessWorkload → Result NewPod
pod_of (err e) w = err e
pod_of (ok containers) w = ok (record {
  name = w.pod_name;
  namespace = w.namespace;
  containers = containers;
  restart_policy = w.config.base.restart_policy;
  probe =
      if w.config.base.restart_policy == "Always" || w.config.base.restart_policy == "OnFailure"
      then some (cat "pgrep -f '" (cat (first_command w.config.base.script) "' || exit 1"))
      else none;
})

module _ {S : Type 0} (o : PodCalls S) where
  -- buildPod
  unfoldable pub build_pod : ProcessWorkload → S → Result NewPod
  build_pod w s = pod_of (o.build_containers w.config.base s) w

  unfoldable pub pod_created : Process → Option GoError × S → Option GoError × Process × S
  pod_created p (none, s) = (none, set_active true p, s)
  pod_created p (some e, s) = (some (wrap "failed to create pod: " e ""), p, s)

  -- A terminated pod is deleted first.
  unfoldable pub recreate : NewPod → Process → Option GoError × S → Option GoError × Process × S
  recreate pod p (none, s) = pod_created p (o.create pod s)
  recreate pod p (some e, s) =
      let again = pod_created p (o.create pod s) in
      if o.is_not_found e
      then again
      else (some (wrap "failed to delete terminated pod: " e ""), p, s)

  unfoldable pub over_existing :
      Result LivePod → NewPod → Process → S → Option GoError × Process × S
  over_existing (err e) pod p s =
      let made = pod_created p (o.create pod s) in
      if o.is_not_found e then made else (some (wrap "failed to check if pod exists: " e ""), p, s)
  over_existing (ok existing) pod p s =
      let again = recreate pod p (o.delete p.workload.namespace p.workload.pod_name none s) in
      if is_pod_terminated existing then again else (none, set_active true p, s)

  unfoldable pub with_pod : Result NewPod → Process → S → Option GoError × Process × S
  with_pod (err e) p s = (some (wrap "failed to create pod: " e ""), p, s)
  with_pod (ok pod) p s =
      let (existing, s') = o.get p.workload.namespace p.workload.pod_name s in
      over_existing existing pod p s'

  -- createOrUpdatePod
  unfoldable pub create_or_update_pod : Process → S → Option GoError × Process × S
  create_or_update_pod p s = with_pod (build_pod p.workload s) p s

  unfoldable pub pod_started : Option GoError → Process → S → Option GoError × Process × S
  pod_started (some e) p s = (some (wrap "failed to create or update pod: " e ""), p, s)
  pod_started none p s = (
    none,
    record p { updaters = suc p.updaters; watchers = suc p.watchers },
    o.update_workload_status p.workload.config.base.name p.workload.namespace true s,
  )

  -- Start
  unfoldable pub start_process : Process → S → Option GoError × Process × S
  start_process p s =
      let (e, p', s') = create_or_update_pod p s in
      pod_started e p'
        (o.record_operation p.workload.config.base.name "startup" (o.now s' - o.now s) e s')

  -- RetryWithBackoff: an error that is expected ends the retries.
  unfoldable pub retry_with_backoff : (S → Option GoError × S) → S → Option GoError × S
  retry_with_backoff fn s = o.exponential_backoff 5 attempt s
    where
      attempt : S → Result Bool × S
      attempt s =
          let (e, s') = fn s in
          (
            elim e [
              | none ↦ ok true
              | some x ↦ if o.is_not_found x || o.is_already_exists x then err x else ok false
            ],
            s',
          )

  unfoldable pub remove_finalizers : String → String → S → Option GoError × S
  remove_finalizers namespace name s =
      let (r, s') = o.get namespace name s in
      elim r [
        | err e ↦ (if o.is_not_found e then none else some e, s')
        | ok pod ↦
            let dropped = o.drop_finalizers namespace name s' in
            if pod.finalizers then dropped else (none, s')
      ]

  -- ForceDeletePod
  unfoldable pub force_delete_pod : String → String → S → Option GoError × S
  force_delete_pod namespace name s =
      let (e, s') = o.retry_on_conflict (remove_finalizers namespace name) s in
      let (e', s'') = o.delete namespace name (some (pos 0)) s' in
      (
        elim e' [
          | none ↦ none
          | some x ↦
              if o.is_not_found x
              then none
              else some (
                  wrap (cat "failed to force delete pod " (cat namespace (cat "/" (cat name ": "))))
                    x "")
        ],
        s'',
      )

  -- The poll of Stop: whether the pod is gone. One that terminates for more than ten seconds is
  -- deleted by force.
  unfoldable pub is_gone : ProcessWorkload → S → Result Bool × S
  is_gone w s =
      let (r, s') = o.get w.namespace w.pod_name s in
      elim r [
        | err e ↦ (ok (o.is_not_found e), s')
        | ok pod ↦ elim pod.deletion [
          | none ↦ (ok false, s')
          | some t ↦
              let forced = (force_delete_pod w.config.base.namespace w.pod_name s').1 in
              (ok false, if ltb (10 * second) (o.now s' - t) then forced else s')
        ]
      ]

  unfoldable pub await_deletion : ProcessWorkload → S → S
  await_deletion w s =
      let (e, s') =
        o.poll (plus (quotient w.config.base.termination_grace_period 2) second) (is_gone w) s in
      elim e [
        | none ↦ s'
        | some x ↦ (retry_with_backoff (o.delete w.namespace w.pod_name (some (pos 0))) s').1
      ]

  unfoldable pub is_deleted : Option GoError → Bool
  is_deleted none = true
  is_deleted (some e) = o.is_not_found e

  -- A pod that exists is marked for a controlled shutdown first; an error there is logged only.
  unfoldable pub mark_shutdown : ProcessWorkload → S → S
  mark_shutdown w s =
      let (r, s') = o.get w.namespace w.pod_name s in
      elim r [
        | err e ↦ s'
        | ok pod ↦ o.sleep 100000000 (o.annotate w.namespace w.pod_name shutdown_annotation s').1
      ]

  unfoldable pub note_stopped : Option GoError → ProcessWorkload → S → S
  note_stopped none w s = o.update_workload_status w.config.base.name w.namespace false s
  note_stopped (some e) w s = s

  unfoldable pub stop_result : Option GoError → Process → Option GoError × Process
  stop_result none p = (none, inactive p)
  stop_result (some e) p =
      if o.is_not_found e
      then (none, inactive p)
      else (some (wrap "failed to delete pod: " e ""), p)

  -- Stop
  unfoldable pub stop_process : Process → S → Option GoError × Process × S
  stop_process p s =
      let p' = close_channel p in
      let w = p.workload in
      let s1 = mark_shutdown w s in
      let (e, s2) =
        retry_with_backoff
          (o.delete w.namespace w.pod_name
            (some (quotient w.config.base.termination_grace_period second)))
          s1 in
      let s3 = if is_deleted e then await_deletion w s2 else s2 in
      let s4 =
        note_stopped e w
          (o.record_operation w.config.base.name "shutdown" (o.now s3 - o.now s) e s3) in
      let (e', p'') = stop_result e p' in (e', p'', s4)

  -- A deletion event of watchPodTerminations: the pod is made again, unless its shutdown was a
  -- controlled one. An error is logged only.
  unfoldable pub watch_deletion : LivePod → Process → S → Process × S
  watch_deletion pod p s =
      let (e, p', s') = create_or_update_pod p s in
      elim (lookup shutdown_annotation pod.annotations) [ some v ↦ (p, s) | none ↦ (p', s') ]
