-- ===== src/Leader/Bystander/Workloads.antt =====
-- The same for the wait for the previous leader, and for starting and stopping the workloads.
use k8_highlander.Prelude.{
  ℕ, zero, suc, String, none, some, Result, GoError, Map, List, [], ◌∷◌, refl, inl, inr, Order, eqb,
  not, ◌==◌, ◌*◌,
}
use k8_highlander.Common.{WorkloadStatus, WorkloadType, process, service, cron_job, persistent}
use k8_highlander.Monitoring.{second}
use k8_highlander.Leader.{World, call}
use k8_highlander.Leader.Interfaces.{Outside, Pod}
use k8_highlander.Leader.Reads.{Result-cases, Option-cases}
use k8_highlander.Leader.Ensures.{Ensures, Ensures-if, Ensures->>=, trivially}
use k8_highlander.Leader.Acquire.Frame.{report-Same}
use k8_highlander.Leader.Bystander.{
  KeepsOrder, Moved, Moved-refl, Moved-trans, Same-Moved, Moved-if, call-Moved,
}
use k8_highlander.Leader.Loop.Steps.{cancel_workloads-Other}
use k8_highlander.Leader.Workloads.{
  wait_for_previous_workloads, start_workloads, stop_workloads, cancel_workloads, can_reuse,
  can_reuse_existing_workloads, wait_loop, reusable, namespace_of, is_checked, report_failure,
  shutdown_pods,
}

module _ {S : Type 0} (r : Order S) (o : Outside S) (id : String) (k : KeepsOrder r o id) where
  reusable-Moved :
      (name : String) (t : WorkloadType) (ns : String) (w : World S)
      → Moved r w (reusable o name t ns w).1
  unfolding reusable
  reusable-Moved name process ns w = call-Moved r _ w (k.get_pod_kept ns _ w.outside)
  reusable-Moved name cron_job ns w = call-Moved r _ w (k.get_cron_job_kept ns name w.outside)
  reusable-Moved name service ns w = call-Moved r _ w (k.get_deployment_kept ns name w.outside)
  reusable-Moved name persistent ns w = call-Moved r _ w (k.get_stateful_set_kept ns name w.outside)
  reusable-Moved name other ns w = Moved-refl r w

  can_reuse-Moved :
      (l : Map WorkloadStatus) (u w : World S)
      → Moved r u w
      → Ensures (λ x. Moved r u x.1) (can_reuse o l w)
  unfolding can_reuse
  can_reuse-Moved [] u w p = p
  can_reuse-Moved ((name, status) ∷ rest) u w p =
      let skip = can_reuse-Moved rest u w p in
      Ensures-if _ (not (status.active)) _ _ skip (
        Ensures-if _ (is_checked o status.workload_type) _ _
          (Ensures->>= (λ _. Unit) _ (namespace_of status) _ (trivially (namespace_of status))
            λ ns _.
              let step = Moved-trans r u w _ p (reusable-Moved name status.workload_type ns w) in
              Ensures-if _ (reusable o name status.workload_type ns w).0 _ _
                (can_reuse-Moved rest u _ step) step)
          skip)

  wait_loop-Moved : (ticks : ℕ) (w : World S) → Moved r w (wait_loop o ticks w).1
  unfolding wait_loop
  wait_loop-Moved zero w = Moved-refl r w
  wait_loop-Moved (suc n) w =
      let again = Moved-trans r w w' _ polled (wait_loop-Moved n w') in
      elim (Result-cases x) [
        | inl (pods, e) ↦
            rw (e, wait_loop)
              (Moved-if r (eqb (shutdown_pods pods) 0) w (none, w') (wait_loop o n w') polled again)
        | inr (y, e) ↦ rw (e, wait_loop) again
      ]
    where
      w0 : World S
      w0 = record w { outside = o.clock.sleep (2 * second) w.outside }

      x : Result (List Pod)
      x = (call o.client.list_pods w0).0

      w' : World S
      w' = (call o.client.list_pods w0).1

      polled : Moved r w w'
      polled =
          Moved-trans r w w0 w' (record { along = k.sleep_kept (2 * second) w.outside; id = refl })
            (call-Moved r o.client.list_pods w0 (k.list_pods_kept w0.outside))

  pub wait_for_previous_workloads-Moved :
      (ticks : ℕ) (w : World S)
      → Ensures (λ x. Moved r w x.1) (wait_for_previous_workloads o ticks w)
  unfolding wait_for_previous_workloads can_reuse_existing_workloads
  wait_for_previous_workloads-Moved ticks w =
      Ensures-if _ w.lc.is_self_restart _ _
        (Ensures->>= (λ x. Moved r w x.1) _ _ _ (can_reuse-Moved _ w w (Moved-refl r w))
          λ x p.
            Moved-if r x.0 w (none, x.1) (wait_loop o ticks x.1) p
              (Moved-trans r w x.1 _ p (wait_loop-Moved ticks x.1)))
        (Ensures-if _ (w.lc.previous_leader == "") _ _ (Moved-refl r w) (wait_loop-Moved ticks w))

  report_failure-Moved :
      (text : String) (e : GoError) (w : World S) → Moved r w (report_failure text (some e) w)
  unfolding report_failure
  report_failure-Moved text e w = Same-Moved r w _ (report-Same _ w)

  pub start_workloads-Moved : (w : World S) → Moved r w (start_workloads o w).1
  unfolding start_workloads
  start_workloads-Moved w =
      elim (Option-cases (call (o.workloads.start_all w.lc.workload_ctx) w).0) [
        | inl e ↦
            rw (e, start_workloads)
              (Moved-trans r w w' _ started
                (call-Moved r _ w' (k.watcher_start_kept w'.lc.workload_ctx w'.outside)))
        | inr (x, e) ↦
            rw (e, start_workloads) (Moved-trans r w w' _ started (report_failure-Moved _ x w'))
      ]
    where
      w' : World S
      w' = (call (o.workloads.start_all w.lc.workload_ctx) w).1

      started : Moved r w w'
      started = call-Moved r _ w (k.start_all_kept w.lc.workload_ctx w.outside)

  pub stop_workloads-Moved : (w : World S) → Moved r w (stop_workloads o w).1
  unfolding stop_workloads
  stop_workloads-Moved w = elim (Option-cases (call o.workloads.stop_all w2).0) [
    | inl e ↦
        rw (e, stop_workloads)
          (Moved-trans r w w3 _ stopped (call-Moved r _ w3 (k.watcher_stop_kept w3.outside)))
    | inr (x, e) ↦
        rw (e, stop_workloads) (Moved-trans r w w3 _ stopped (report_failure-Moved _ x w3))
  ]
    where
      w2 : World S
      w2 =
          let w1 = cancel_workloads w in
          record w1 { lc = record (w1.lc) { workload_cancel = none } }

      w3 : World S
      w3 = (call o.workloads.stop_all w2).1

      quiet : Moved r w w2
      quiet =
          let same = cancel_workloads-Other w in
          record { along = rw same.outside (r.same w.outside); id = same.id }

      stopped : Moved r w w3
      stopped = Moved-trans r w w2 w3 quiet (call-Moved r _ w2 (k.stop_all_kept w2.outside))
