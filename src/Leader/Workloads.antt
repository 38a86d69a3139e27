-- ===== src/Leader/Workloads.antt =====
-- pkg/leader/leader.go: the workload context, starting and stopping the workloads, and the wait
-- for those of the previous leader.
use k8_highlander.Prelude.{
  ℕ, zero, suc, ◌*◌, String, cat, Bool, true, false, not, ◌||◌, Option, none, some, Result, ok, err,
  GoError, new_error, wrap, List, [], ◌∷◌, Map, lookup, if◌then◌else◌, ◌==◌, eqb,
}
use k8_highlander.Common.{WorkloadStatus, WorkloadType, process, service, cron_job, persistent}
use k8_highlander.Monitoring.{second}
use k8_highlander.Leader.{World, report, call}
use k8_highlander.Leader.Interfaces.{Outside, Pod, Scaled}

-- A method that may panic: a failed type assertion ends the process.
pub data Outcome {ℓ} (A : Type ℓ) : Type ℓ where
  panics : Outcome A
  returns : A → Outcome A

infixl 5 ◌>>=◌
abbrev pub ◌>>=◌ {ℓ κ} : {A : Type ℓ} {B : Type κ} → Outcome A → (A → Outcome B) → Outcome B
panics >>= f = panics
returns a >>= f = f a

-- status.Details["namespace"].(string)
unfoldable pub namespace_of : WorkloadStatus → Outcome String
namespace_of status = elim status.details_namespace [ none ↦ panics | some ns ↦ returns ns ]

-- checkWorkloadOwnership
unfoldable pub check_workload_ownership : Pod → String → Bool
check_workload_ownership pod leader = elim (lookup "k8-highlander/owner" pod.annotations) [
  | none ↦ false
  | some owner ↦ owner == leader
]

-- The pod answers, runs, and is owned by `id`.
unfoldable pub is_own_pod : String → Result Pod → Bool
is_own_pod id (ok pod) = if pod.is_running then check_workload_ownership pod id else false
is_own_pod id (err e) = false

unfoldable pub is_on : Result Scaled → Bool
is_on (ok x) = not x.is_off
is_on (err e) = false

unfoldable pub shutdown_pods : List Pod → ℕ
shutdown_pods [] = 0
shutdown_pods (pod ∷ pods) = elim (lookup "k8-highlander/controlled-shutdown" pod.annotations) [
  | none ↦ shutdown_pods pods
  | some v ↦ suc (shutdown_pods pods)
]

module _ {S : Type 0} where
  unfoldable pub cancel_workloads : World S → World S
  cancel_workloads w = elim w.lc.workload_cancel [
    | none ↦ w
    | some n ↦ record w { lc = record (w.lc) { cancelled = λ k. eqb k n || w.lc.cancelled k } }
  ]

  -- createWorkloadContext
  unfoldable pub create_workload_context : World S → World S
  create_workload_context w =
      let w' = cancel_workloads w in
      record w' {
        lc = record (w'.lc) {
          workload_ctx = some w'.lc.contexts;
          workload_cancel = some w'.lc.contexts;
          contexts = suc w'.lc.contexts;
        };
      }

  unfoldable pub report_failure : String → Option GoError → World S → World S
  report_failure text none w = w
  report_failure text (some e) w = report (wrap text e "") w

  module _ (o : Outside S) where
    -- Whether one active workload is still there and in good state.
    unfoldable pub reusable : String → WorkloadType → String → World S → Bool × World S
    reusable name process ns w =
        let (r, w') = call (o.client.get_pod ns (cat name "-pod")) w in (is_own_pod w.lc.id r, w')
    reusable name cron_job ns w =
        let (r, w') = call (o.client.get_cron_job ns name) w in (is_on r, w')
    reusable name service ns w =
        let (r, w') = call (o.client.get_deployment ns name) w in (is_on r, w')
    reusable name persistent ns w =
        let (r, w') = call (o.client.get_stateful_set ns name) w in (is_on r, w')
    reusable name other ns w = (true, w)

    -- The four types that the switch has a case for.
    unfoldable pub is_checked : WorkloadType → Bool
    is_checked process = true
    is_checked service = true
    is_checked cron_job = true
    is_checked persistent = true
    is_checked other = false

    unfoldable pub can_reuse : Map WorkloadStatus → World S → Outcome (Bool × World S)
    can_reuse [] w = returns (true, w)
    can_reuse ((name, status) ∷ rest) w =
        let skip = can_reuse rest w in
        if not (status.active)
        then skip
        else (if is_checked status.workload_type
            then (namespace_of status >>= λ ns.
                let (good, w') = reusable name status.workload_type ns w in
                let go = can_reuse rest w' in if good then go else returns (false, w'))
            else skip)

    -- canReuseExistingWorkloads
    unfoldable pub can_reuse_existing_workloads : World S → Outcome (Bool × World S)
    can_reuse_existing_workloads w = can_reuse (o.workloads.get_all_statuses w.outside) w

    -- The polling loop, over the ticks that fire before the wait times out.
    unfoldable pub wait_loop : ℕ → World S → Option GoError × World S
    wait_loop zero w =
        (some (new_error "timed out waiting for previous workloads to terminate [wait 2s/1m0s]"), w)
    wait_loop (suc ticks) w =
        let (r, w') =
          call o.client.list_pods (record w { outside = o.clock.sleep (2 * second) w.outside }) in
        let again = wait_loop ticks w' in
        elim r [
          | err e ↦ again
          | ok pods ↦ if eqb (shutdown_pods pods) 0 then (none, w') else again
        ]

    -- waitForPreviousWorkloads
    unfoldable pub wait_for_previous_workloads : ℕ → World S → Outcome (Option GoError × World S)
    wait_for_previous_workloads ticks w =
        if w.lc.is_self_restart
        then (can_reuse_existing_workloads w >>= λ r.
            returns (if r.0 then (none, r.1) else wait_loop ticks r.1))
        else (if w.lc.previous_leader == "" then returns (none, w) else returns (wait_loop ticks w))

    -- startWorkloads
    unfoldable pub start_workloads : World S → Option GoError × World S
    start_workloads w =
        let (e, w') = call (o.workloads.start_all w.lc.workload_ctx) w in
        elim e [
          | some x ↦ (some x, report_failure "failed to start workloads: " (some x) w')
          | none ↦ (none, (call (o.crd_watcher.start w'.lc.workload_ctx) w').1)
        ]

    -- stopWorkloads
    unfoldable pub stop_workloads : World S → Option GoError × World S
    stop_workloads w =
        let w1 = cancel_workloads w in
        let w2 = record w1 { lc = record (w1.lc) { workload_cancel = none } } in
        let (e, w3) = call o.workloads.stop_all w2 in
        elim e [
          | some x ↦ (some x, report_failure "failed to stop workloads: " (some x) w3)
          | none ↦ (none, (call o.crd_watcher.stop w3).1)
        ]
