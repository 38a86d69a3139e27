-- ===== src/Leader/Loop/History.antt =====
-- Histories of a controller: rounds of its loops, in any order, with anything of the outside's in
-- between.
use mathlib.Core.Path.{subst}
use k8_highlander.Prelude.{
  ℕ, ◌<◌, String, Bool, true, false, Option, some, List, [], ◌∷◌, ◌≡◌, arith,
}
use k8_highlander.Storage.Lock.{Lease}
use k8_highlander.Monitoring.{MonitoringServer}
use k8_highlander.Leader.{World, set_leader, new_leader_controller, get_current_leader, or_zero}
use k8_highlander.Leader.Interfaces.{Outside}
use k8_highlander.Leader.Connection.{reset_db_failures}
use k8_highlander.Leader.Ensures.{Ensures, Ensures-if, Ensures->>=, Ensures-map}
use k8_highlander.Leader.Contract.{StorageContract}
use k8_highlander.Leader.Advance.{Advances}
use k8_highlander.Leader.Acquire.{try_acquire_leadership}
use k8_highlander.Leader.Acquire.Frame.{
  Kept-trans, get_current_leader-Kept, try_acquire_leadership-Kept,
}
use k8_highlander.Leader.Workloads.{Outcome, returns, ◌>>=◌, create_workload_context}
use k8_highlander.Leader.Loop.{
  election_round, follow_round, step_up, lock_round, health_round, trigger_cluster_health_check,
}
use k8_highlander.Leader.Loop.Steps.{in_charge, cancel_workloads-Other, step_up-Advances}
use k8_highlander.Leader.Loop.Contexts.{
  OneContext, OneContext-Known, Kept-OneContext, create_workload_context-Known,
  lead_round-OneContext, lock_round-OneContext, health_check-OneContext,
}

-- `meanwhile` is a change of the outside that the controller takes no part in.
pub data Event (S : Type 0) : Type 0 where
  elects : (ticks : ℕ) → Event S
  looks : Event S
  checks : Event S
  triggers : Event S
  meanwhile : (S → S) → Event S

module _ {S : Type 0} (o : Outside S) where
  unfoldable pub happens : Event S → World S → Outcome (World S)
  happens (elects ticks) w = election_round o ticks w
  happens looks w = returns (lock_round o w)
  happens checks w = returns (health_round o w)
  happens triggers w = returns (trigger_cluster_health_check o w)
  happens (meanwhile f) w = returns (record w { outside = f w.outside })

  unfoldable pub history : List (Event S) → World S → Outcome (World S)
  history [] w = returns w
  history (e ∷ es) w = happens e w >>= λ w'. history es w'

  in_charge-OneContext : (w : World S) → OneContext w → OneContext (in_charge w)
  unfolding create_workload_context reset_db_failures set_leader
  in_charge-OneContext w p n h e = (
    create_workload_context-Known (reset_db_failures (set_leader true w)) n (OneContext-Known w p) h
        e,
    (cancel_workloads-Other (reset_db_failures (set_leader true w))).leads,
  )

  module _ (lease : S → String → Option Lease) (me : String) (c : StorageContract o lease me) where
    step_up-OneContext :
        (ticks : ℕ) (previous : String) (w : World S)
        → OneContext w
        → Ensures OneContext (step_up o ticks previous w)
    step_up-OneContext ticks previous w p =
        Ensures-map {A = World S} (Advances o lease me (in_charge w)) OneContext
          (step_up o ticks previous w)
          (λ u a.
            Kept-OneContext (in_charge w) u
              (record { id = a.id; key = a.key; leads = a.leads; contexts = a.contexts })
              (in_charge-OneContext w p))
          (step_up-Advances o lease me c ticks previous w)

    follow_round-OneContext :
        (ticks : ℕ) (w : World S) → OneContext w → Ensures OneContext (follow_round o ticks w)
    unfolding follow_round
    follow_round-OneContext ticks w p =
        let (r, w1) = get_current_leader o 3 w in
        let kept =
          Kept-OneContext w _
            (Kept-trans w w1 _ (get_current_leader-Kept o 3 w) (try_acquire_leadership-Kept o w1))
            p in
        Ensures-if OneContext (try_acquire_leadership o w1).0 _ _
          (step_up-OneContext ticks (or_zero "" r) _ kept) kept

    happens-OneContext :
        (e : Event S) (w : World S) → OneContext w → Ensures OneContext (happens e w)
    unfolding happens election_round health_round trigger_cluster_health_check
    happens-OneContext (elects ticks) w p =
        Ensures-if OneContext w.lc.is_leader _ _ (lead_round-OneContext o w p)
          (follow_round-OneContext ticks w p)
    happens-OneContext looks w p = lock_round-OneContext o w p
    happens-OneContext checks w p = health_check-OneContext o _ w p
    happens-OneContext triggers w p = health_check-OneContext o _ w p
    happens-OneContext (meanwhile f) w p = p

    history-Ensures :
        (es : List (Event S)) (w : World S) → OneContext w → Ensures OneContext (history es w)
    unfolding history
    history-Ensures [] w p = p
    history-Ensures (e ∷ es) w p =
        Ensures->>= OneContext OneContext (happens e w) (history es) (happens-OneContext e w p)
          (history-Ensures es)

    -- For a storage that keeps the lease contract: after any history of rounds of the loops of a new
    -- controller, and of changes of the outside in between, a workload context that the controller made and
    -- that is not cancelled is the one that it can still cancel, and the controller leads.
    pub history-OneContext :
        (s : S) (id cluster_name : String) (mon : MonitoringServer) (tenant : String)
        (remain_follower : Bool) (es : List (Event S)) (w : World S)
        → history es (new_leader_controller s id cluster_name mon tenant remain_follower)
          ≡ returns w
        → (n : ℕ) → n < w.lc.contexts
        → w.lc.cancelled n ≡ false
        → (w.lc.workload_cancel ≡ some n) × (w.lc.is_leader ≡ true)
    unfolding new_leader_controller
    history-OneContext s id cluster_name mon tenant remain_follower es w e =
        subst (Ensures OneContext) e (
          history-Ensures es (new_leader_controller s id cluster_name mon tenant remain_follower)
            λ n h f. absurd (omega arith))
