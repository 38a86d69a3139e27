-- ===== src/Leader/Recovery/Rounds.antt =====
-- Ticks of monitorWorkloads, with anything of the outside's in between.
use k8_highlander.Prelude.{ℕ, ◌≤◌, String, Option, List, [], ◌∷◌, ◌≡◌}
use k8_highlander.Leader.{World, now}
use k8_highlander.Leader.Interfaces.{Outside}
use k8_highlander.Leader.Ensures.{Ensures}
use k8_highlander.Leader.Workloads.{Outcome, returns, ◌>>=◌}
use k8_highlander.Leader.Recovery.{Members, Restarts, recovery_round}
use k8_highlander.Leader.Recovery.Pace.{Counts, AllSick, Paced}
use k8_highlander.Leader.Recovery.Orphans.{NoObjects}

module _ {S : Type 0} (o : Outside S) (p : Members S) (ctx : Option ℕ) where
  -- A tick after each of some changes of the outside.
  unfoldable pub recovery_rounds : List (S → S) → Restarts → World S → Outcome (Restarts × World S)
  recovery_rounds [] r w = returns (r, w)
  recovery_rounds (f ∷ fs) r w =
      recovery_round o p ctx r (record w { outside = f w.outside }) >>= λ x.
      recovery_rounds fs x.0 x.1

  -- None of the changes sets the clock back, or starts the counted workload.
  unfoldable pub AllRunOn : (S → ℕ) → List (S → S) → Type 0
  AllRunOn starts [] = Unit {0}
  AllRunOn starts (f ∷ fs) =
      ((s : S) → (o.clock.now s ≤ o.clock.now (f s)) × (starts (f s) ≡ starts s))
      × AllRunOn starts fs

  -- What the manager's table says in every state: `name` is never healthy, and no entry is of a type
  -- that has an object.
  pub record SickManager (name : String) : Type 0 where
    pub sick : (s : S) → AllSick name (o.workloads.get_all_statuses s)
    pub no_objects : (s : S) → NoObjects (o.workloads.get_all_statuses s)

  module _ (name : String) (starts : S → ℕ) (c : Counts o p ctx name starts) (m : SickManager name)
      (base a t : ℕ) where
    OnPace : Restarts × World S → Type 0
    OnPace x = Paced o p ctx name starts base a t x.0 x.1
