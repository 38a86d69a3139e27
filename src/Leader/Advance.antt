-- ===== src/Leader/Advance.antt =====
-- Steps in which the instance stays who it is and its leases stand while they run.
use k8_highlander.Prelude.{
  ℕ, zero, suc, String, Bool, true, false, Option, none, some, Result, GoError, Map, List, [], ◌∷◌,
  ◌≡◌, refl, ◌∙◌, ap, inl, inr, if◌then◌else◌, eqb, not, ◌==◌, ◌*◌,
}
use k8_highlander.Common.{WorkloadStatus, WorkloadType, process, service, cron_job, persistent}
use k8_highlander.Storage.Lock.{Lease}
use k8_highlander.Monitoring.{second}
use k8_highlander.Leader.{World, LeaderController, call, get_current_leader}
use k8_highlander.Leader.Interfaces.{Outside, Pod}
use k8_highlander.Leader.Reads.{lc-get_current_leader, Result-cases, Option-cases}
use k8_highlander.Leader.Ensures.{Ensures, Ensures-if, Ensures->>=, trivially}
use k8_highlander.Leader.Contract.{
  Passes, StorageContract, Passes-refl, Passes-trans, get_current_leader-Passes,
}
use k8_highlander.Leader.Acquire.Frame.{Same, report-Same, jobs}
use k8_highlander.Leader.Workloads.{
  wait_for_previous_workloads, start_workloads, can_reuse, can_reuse_existing_workloads, wait_loop,
  reusable, namespace_of, is_checked, report_failure, shutdown_pods,
}

module _ {S : Type 0} (o : Outside S) (lease : S → String → Option Lease) (me : String) where
  pub record Advances (w w' : World S) : Type 0 where
    pub passes : Passes o lease me w.outside w'.outside
    pub id : w'.lc.id ≡ w.lc.id
    pub key : w'.lc.leader_lock_key ≡ w.lc.leader_lock_key
    pub leads : w'.lc.is_leader ≡ w.lc.is_leader
    pub contexts : jobs w'.lc ≡ jobs w.lc

  pub Advances-refl : (w : World S) → Advances w w
  Advances-refl w = record {
    passes = Passes-refl o lease me w.outside;
    id = refl;
    key = refl;
    leads = refl;
    contexts = refl;
  }

  pub Advances-trans : (u v w : World S) → Advances u v → Advances v w → Advances u w
  Advances-trans u v w p q = record {
    passes = Passes-trans o lease me _ _ _ p.passes q.passes;
    id = q.id ∙ p.id;
    key = q.key ∙ p.key;
    leads = q.leads ∙ p.leads;
    contexts = q.contexts ∙ p.contexts;
  }

  pub Same-Advances : (w w' : World S) → Same w w' → Advances w w'
  Same-Advances w w' s = record {
    passes = rw s.outside (Passes-refl o lease me w.outside);
    id = s.id;
    key = s.key;
    leads = s.leads;
    contexts = s.contexts;
  }

  pub call-Advances :
      {A : Type 0} (f : S → A × S) (w : World S)
      → Passes o lease me w.outside (f w.outside).1
      → Advances w (call f w).1
  unfolding call
  call-Advances f w p = record { passes = p; id = refl; key = refl; leads = refl; contexts = refl }

  pub Advances-if :
      {A : Type 0} (b : Bool) (w : World S) (x y : A × World S)
      → Advances w x.1
      → Advances w y.1
      → Advances w (if b then x else y).1
  Advances-if true w x y p q = p
  Advances-if false w x y p q = q

  module _ (c : StorageContract o lease me) where
    pub get_current_leader-Advances :
        (n : ℕ) (w : World S) → Advances w (get_current_leader o n w).1
    get_current_leader-Advances n w =
        let e = lc-get_current_leader o n w in
        record {
          passes = get_current_leader-Passes o lease me c w n;
          id = ap (λ (x : LeaderController). x.id) e;
          key = ap (λ (x : LeaderController). x.leader_lock_key) e;
          leads = ap (λ (x : LeaderController). x.is_leader) e;
          contexts = ap (λ (x : LeaderController). jobs x) e;
        }

    reusable-Advances :
        (name : String) (t : WorkloadType) (ns : String) (w : World S)
        → Advances w (reusable o name t ns w).1
    unfolding reusable
    reusable-Advances name process ns w = call-Advances _ w (c.get_pod_Passes ns _ w.outside)
    reusable-Advances name cron_job ns w =
        call-Advances _ w (c.get_cron_job_Passes ns name w.outside)
    reusable-Advances name service ns w =
        call-Advances _ w (c.get_deployment_Passes ns name w.outside)
    reusable-Advances name persistent ns w =
        call-Advances _ w (c.get_stateful_set_Passes ns name w.outside)
    reusable-Advances name other ns w = Advances-refl w

    can_reuse-Advances :
        (l : Map WorkloadStatus) (u w : World S)
        → Advances u w
        → Ensures (λ r. Advances u r.1) (can_reuse o l w)
    unfolding can_reuse
    can_reuse-Advances [] u w p = p
    can_reuse-Advances ((name, status) ∷ rest) u w p =
        let skip = can_reuse-Advances rest u w p in
        Ensures-if _ (not (status.active)) _ _ skip (
          Ensures-if _ (is_checked o status.workload_type) _ _
            (Ensures->>= (λ _. Unit) _ (namespace_of status) _ (trivially (namespace_of status))
              λ ns _.
                let step =
                  Advances-trans u w _ p (reusable-Advances name status.workload_type ns w) in
                Ensures-if _ (reusable o name status.workload_type ns w).0 _ _
                  (can_reuse-Advances rest u _ step) step)
            skip)

    wait_loop-Advances : (ticks : ℕ) (w : World S) → Advances w (wait_loop o ticks w).1
    unfolding wait_loop
    wait_loop-Advances zero w = Advances-refl w
    wait_loop-Advances (suc n) w =
        let again = Advances-trans w w' _ polled (wait_loop-Advances n w') in
        elim (Result-cases r) [
          | inl (pods, e) ↦
              rw (e, wait_loop)
                (Advances-if (eqb (shutdown_pods pods) 0) w (none, w') (wait_loop o n w') polled
                  again)
          | inr (x, e) ↦ rw (e, wait_loop) again
        ]
      where
        w0 : World S
        w0 = record w { outside = o.clock.sleep (2 * second) w.outside }

        r : Result (List Pod)
        r = (call o.client.list_pods w0).0

        w' : World S
        w' = (call o.client.list_pods w0).1

        polled : Advances w w'
        polled =
            Advances-trans w w0 w'
              (record {
                passes = c.sleep_Passes (2 * second) w.outside;
                id = refl;
                key = refl;
                leads = refl;
                contexts = refl;
              })
              (call-Advances o.client.list_pods w0 (c.list_pods_Passes w0.outside))

    pub wait_for_previous_workloads-Advances :
        (ticks : ℕ) (w : World S)
        → Ensures (λ r. Advances w r.1) (wait_for_previous_workloads o ticks w)
    unfolding wait_for_previous_workloads can_reuse_existing_workloads
    wait_for_previous_workloads-Advances ticks w =
        Ensures-if _ w.lc.is_self_restart _ _
          (Ensures->>= (λ r. Advances w r.1) _ _ _ (can_reuse-Advances _ w w (Advances-refl w))
            λ r p.
              Advances-if r.0 w (none, r.1) (wait_loop o ticks r.1) p
                (Advances-trans w r.1 _ p (wait_loop-Advances ticks r.1)))
          (Ensures-if _ (w.lc.previous_leader == "") _ _ (Advances-refl w)
            (wait_loop-Advances ticks w))

    pub report_failure-Advances :
        (text : String) (e : Option GoError) (w : World S) → Advances w (report_failure text e w)
    unfolding report_failure
    report_failure-Advances text none w = Advances-refl w
    report_failure-Advances text (some e) w = Same-Advances w _ (report-Same _ w)

    pub start_workloads-Advances : (w : World S) → Advances w (start_workloads o w).1
    unfolding start_workloads
    start_workloads-Advances w =
        elim (Option-cases (call (o.workloads.start_all w.lc.workload_ctx) w).0) [
          | inl e ↦
              rw (e, start_workloads)
                (Advances-trans w w' _ started
                  (call-Advances _ w' (c.watcher_Passes w'.lc.workload_ctx w'.outside)))
          | inr (x, e) ↦
              rw (e, start_workloads)
                (Advances-trans w w' _ started (report_failure-Advances _ (some x) w'))
        ]
      where
        w' : World S
        w' = (call (o.workloads.start_all w.lc.workload_ctx) w).1

        started : Advances w w'
        started = call-Advances _ w (c.start_all_Passes w.lc.workload_ctx w.outside)
