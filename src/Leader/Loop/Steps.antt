-- ===== src/Leader/Loop/Steps.antt =====
-- What the steps of a round leave alone: stepping down, and stepping up.
use k8_highlander.Prelude.{
  ℕ, String, Bool, true, false, Option, none, Result, ok, err, ◌≡◌, refl, inl, inr, if◌then◌else◌,
  ◌!=◌, ◌&&◌,
}
use k8_highlander.Leader.Ensures.{Ensures, Ensures->>=}
use k8_highlander.Monitoring.Status.{update_leader_status, record_failover}
use k8_highlander.Leader.{report, now, World, call, monitor, set_leader}
use k8_highlander.Storage.Lock.{Lease}
use k8_highlander.Leader.Interfaces.{Outside}
use k8_highlander.Leader.Reads.{Option-cases}
use k8_highlander.Leader.Contract.{StorageContract}
use k8_highlander.Leader.Connection.{reset_db_failures}
use k8_highlander.Leader.Acquire.Frame.{Same, Same-refl, monitor-Same}
use k8_highlander.Leader.Advance.{
  Advances, Advances-trans, Same-Advances, wait_for_previous_workloads-Advances,
  start_workloads-Advances,
}
use k8_highlander.Leader.Workloads.{
  create_workload_context, cancel_workloads, stop_workloads, start_workloads, report_failure,
}
use k8_highlander.Leader.Loop.{step_up, step_down, reset_if_ok}

-- The outside, who the instance is, which lock it wants, and whether it leads.
pub record Other {S : Type 0} (w w' : World S) : Type 0 where
  pub outside : w'.outside ≡ w.outside
  pub id : w'.lc.id ≡ w.lc.id
  pub key : w'.lc.leader_lock_key ≡ w.lc.leader_lock_key
  pub leads : w'.lc.is_leader ≡ w.lc.is_leader

module _ {S : Type 0} where
  -- Cancelling and making contexts.
  pub cancel_workloads-Other : (w : World S) → Other w (cancel_workloads w)
  unfolding cancel_workloads
  cancel_workloads-Other w = elim (Option-cases w.lc.workload_cancel) [
    | inl e ↦
        rw (e, cancel_workloads) (record { outside = refl; id = refl; key = refl; leads = refl })
    | inr (n, e) ↦
        rw (e, cancel_workloads) (record { outside = refl; id = refl; key = refl; leads = refl })
  ]

  -- The state of a new leader before it waits for the workloads of the previous one.
  abbrev pub in_charge : World S → World S
  in_charge w = create_workload_context (reset_db_failures (set_leader true w))

  pub in_charge-outside : (w : World S) → (in_charge w).outside ≡ w.outside
  unfolding create_workload_context reset_db_failures set_leader
  in_charge-outside w = (cancel_workloads-Other (reset_db_failures (set_leader true w))).outside

  reset_db_failures-Same : (w : World S) → Same w (reset_db_failures w)
  unfolding reset_db_failures
  reset_db_failures-Same w = record {
    outside = refl;
    id = refl;
    key = refl;
    leads = refl;
    contexts = refl;
  }

  pub reset_if_ok-Same : (r : Result String) (w : World S) → Same w (reset_if_ok r w)
  unfolding reset_if_ok
  reset_if_ok-Same (ok v) w = reset_db_failures-Same w
  reset_if_ok-Same (err e) w = Same-refl w

module _ {S : Type 0} (o : Outside S) where
  pub stop_workloads-leads : (w : World S) → (stop_workloads o w).1.lc.is_leader ≡ w.lc.is_leader
  unfolding stop_workloads call
  stop_workloads-leads w =
      elim (Option-cases (o.workloads.stop_all (cancel_workloads w).outside).0) [
        | inl e ↦ rw (e, stop_workloads) same
        | inr (x, e) ↦ rw (e, stop_workloads) (unfold report_failure report in same)
      ]
    where
      same : (cancel_workloads w).lc.is_leader ≡ w.lc.is_leader
      same = (cancel_workloads-Other w).leads

  -- A leader that steps down is none.
  pub step_down-leads : (w : World S) → (step_down o w).lc.is_leader ≡ false
  unfolding step_down set_leader monitor
  step_down-leads w = stop_workloads-leads _

  module _ (lease : S → String → Option Lease) (me : String) (c : StorageContract o lease me) where
    -- From the state in which the wait for the previous leader's workloads begins.
    pub step_up-Advances :
        (ticks : ℕ) (previous : String) (w : World S)
        → Ensures (Advances o lease me (in_charge w)) (step_up o ticks previous w)
    unfolding step_up
    step_up-Advances ticks previous w =
        Ensures->>= (λ r. Advances o lease me w1 r.1) _ _ _
          (wait_for_previous_workloads-Advances o lease me c ticks w1)
          λ r p.
            let w2 = (start_workloads o r.1).1 in
            let w3 =
              monitor (update_leader_status true w2.lc.id w2.lc.cluster_name (now o w2)) w2 in
            let up = Advances-trans o lease me w1 r.1 w3 p (
              Advances-trans o lease me r.1 w2 w3 (start_workloads-Advances o lease me c r.1)
                (Same-Advances o lease me w2 w3 (monitor-Same _ w2))) in
            recorded w3 up (previous != "" && previous != w3.lc.id)
      where
        w1 : World S
        w1 = in_charge w

        recorded :
            (w3 : World S)
            → Advances o lease me w1 w3
            → (b : Bool)
            → Advances o lease me w1
                (if b then monitor (record_failover previous w3.lc.id 0 none) w3 else w3)
        recorded w3 p true =
            Advances-trans o lease me w1 w3 _ p (Same-Advances o lease me w3 _ (monitor-Same _ w3))
        recorded w3 p false = p
