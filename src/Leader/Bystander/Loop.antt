-- ===== src/Leader/Bystander/Loop.antt =====
-- The same for a round of the election loop, and what a round means for another leader.
use k8_highlander.Prelude.{
  ℕ, String, Bool, true, false, none, ◌≡◌, refl, ◌∙◌, Order, if◌then◌else◌, ◌!=◌, ◌&&◌,
}
use k8_highlander.Monitoring.Status.{update_leader_status, record_failover}
use k8_highlander.Leader.{World, monitor, set_leader, now, get_current_leader, or_zero}
use k8_highlander.Leader.Interfaces.{Outside}
use k8_highlander.Leader.Ensures.{Ensures, Ensures->>=, Ensures-if}
use k8_highlander.Leader.Acquire.Frame.{monitor-Same}
use k8_highlander.Leader.Acquire.{try_acquire_leadership}
use k8_highlander.Leader.Renew.{renew_leadership}
use k8_highlander.Leader.Connection.{reset_db_failures}
use k8_highlander.Leader.Workloads.{
  create_workload_context, start_workloads, Outcome, panics, returns,
}
use k8_highlander.Leader.Loop.{step_down, step_up, lead_round, follow_round, election_round}
use k8_highlander.Leader.Loop.Steps.{in_charge, reset_if_ok-Same, cancel_workloads-Other}
use k8_highlander.Leader.Bystander.{
  KeepsOrder, Moved, Moved-trans, Same-Moved, get_current_leader-Moved,
  try_acquire_leadership-Moved,
}
use k8_highlander.Leader.Bystander.Renew.{renew_leadership-Moved}
use k8_highlander.Leader.Bystander.Workloads.{
  wait_for_previous_workloads-Moved, start_workloads-Moved, stop_workloads-Moved,
}

module _ {S : Type 0} (r : Order S) (o : Outside S) (id : String) (k : KeepsOrder r o id) where
  step_down-Moved : (w : World S) → Moved r w (step_down o w)
  unfolding step_down set_leader
  step_down-Moved w = Moved-trans r w _ _ (get_current_leader-Moved r o id k 3 w) (
      Moved-trans r _ _ _ (Same-Moved r _ _ (reset_if_ok-Same _ _)) (
        Moved-trans r _ _ _ (record { along = r.same _; id = refl })
          (Moved-trans r _ _ _ (Same-Moved r _ _ (monitor-Same _ _)) (
            Moved-trans r _ _ _ (stop_workloads-Moved r o id k _)
              (Same-Moved r _ _ (monitor-Same _ _))))))

  in_charge-Moved : (w : World S) → Moved r w (in_charge w)
  unfolding create_workload_context reset_db_failures set_leader
  in_charge-Moved w =
      let same = cancel_workloads-Other (reset_db_failures (set_leader true w)) in
      record { along = rw same.outside (r.same w.outside); id = same.id }

  step_up-Moved :
      (ticks : ℕ) (previous : String) (w : World S)
      → Ensures (Moved r w) (step_up o ticks previous w)
  unfolding step_up
  step_up-Moved ticks previous w =
      Ensures->>= (λ x. Moved r (in_charge w) x.1) _ _ _
        (wait_for_previous_workloads-Moved r o id k ticks (in_charge w))
        λ x p.
          let w2 = (start_workloads o x.1).1 in
          let w3 = monitor (update_leader_status true w2.lc.id w2.lc.cluster_name (now o w2)) w2 in
          let up = Moved-trans r w (in_charge w) _ (in_charge-Moved w) (
            Moved-trans r (in_charge w) x.1 _ p (
              Moved-trans r x.1 w2 _ (start_workloads-Moved r o id k x.1)
                (Same-Moved r w2 _ (monitor-Same _ w2)))) in
          recorded w3 up (previous != "" && previous != w3.lc.id)
    where
      recorded :
          (u : World S)
          → Moved r w u
          → (b : Bool)
          → Moved r w (if b then monitor (record_failover previous u.lc.id 0 none) u else u)
      recorded u p true = Moved-trans r w u _ p (Same-Moved r u _ (monitor-Same _ u))
      recorded u p false = p

  Moved-pick :
      (b : Bool) (w u v : World S) → Moved r w u → Moved r w v → Moved r w (if b then u else v)
  Moved-pick true w u v p q = p
  Moved-pick false w u v p q = q

  lead_round-Moved : (w : World S) → w.lc.id ≡ id → Moved r w (lead_round o w)
  unfolding lead_round
  lead_round-Moved w e =
      let kept = renew_leadership-Moved r o id k w e in
      Moved-pick (renew_leadership o w).0 w _ _ kept (Moved-trans r w _ _ kept (step_down-Moved _))

  Ensures-Moved :
      (w u : World S) (m : Outcome (World S))
      → Moved r w u
      → Ensures (Moved r u) m
      → Ensures (Moved r w) m
  Ensures-Moved w u panics p q = tt
  Ensures-Moved w u (returns v) p q = Moved-trans r w u v p q

  follow_round-Moved :
      (ticks : ℕ) (w : World S) → w.lc.id ≡ id → Ensures (Moved r w) (follow_round o ticks w)
  unfolding follow_round
  follow_round-Moved ticks w e =
      let read = get_current_leader-Moved r o id k 3 w in
      let tried =
        Moved-trans r w _ _ read
          (try_acquire_leadership-Moved r o id k (get_current_leader o 3 w).1 (read.id ∙ e)) in
      Ensures-if {A = World S} (Moved r w) (try_acquire_leadership o (get_current_leader o 3 w).1).0
        (step_up o ticks (or_zero "" (get_current_leader o 3 w).0)
          (try_acquire_leadership o (get_current_leader o 3 w).1).1)
        _ (Ensures-Moved w _ _ tried (step_up-Moved ticks _ _)) tried

  -- A round of the election loop keeps the order, whoever leads.
  pub election_round-Moved :
      (ticks : ℕ) (w : World S) → w.lc.id ≡ id → Ensures (Moved r w) (election_round o ticks w)
  unfolding election_round
  election_round-Moved ticks w e =
      Ensures-if _ w.lc.is_leader _ _ (lead_round-Moved w e) (follow_round-Moved ticks w e)
