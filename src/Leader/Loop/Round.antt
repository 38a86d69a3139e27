-- ===== src/Leader/Loop/Round.antt =====
-- One round of the election loop: who leads after it, and on what ground.
use mathlib.Core.Path.{subst, subst₂}
use k8_highlander.Prelude.{
  ℕ, String, Bool, true, false, Option, Result, ◌≡◌, refl, ◌∙◌, inl, if◌then◌else◌,
}
use k8_highlander.Leader.Ensures.{Ensures, Ensures-map}
use k8_highlander.Storage.Lock.{Lease}
use k8_highlander.Leader.{World, get_current_leader, or_zero}
use k8_highlander.Leader.Interfaces.{Outside}
use k8_highlander.Leader.Contract.{Passes, StorageContract}
use k8_highlander.Leader.Acquire.{try_acquire_leadership}
use k8_highlander.Leader.Acquire.Frame.{try_acquire_leadership-Kept}
use k8_highlander.Leader.Acquire.Holds.{
  Holds, Holds-earlier, Holds-later, try_acquire_leadership-Holds,
}
use k8_highlander.Leader.Renew.{renew_leadership}
use k8_highlander.Leader.Renew.Outcome.{Entitled, renew_leadership-Entitled}
use k8_highlander.Leader.Advance.{Advances, get_current_leader-Advances}
use k8_highlander.Leader.Workloads.{returns}
use k8_highlander.Leader.Loop.Steps.{
  in_charge, in_charge-outside, step_up-Advances, step_down-leads,
}
use k8_highlander.Leader.Loop.{election_round, lead_round, follow_round, step_up, step_down}

module _ {S : Type 0} (o : Outside S) where
  module _ (lease : S → String → Option Lease) (me : String) (c : StorageContract o lease me) where
    lead_round-Entitled :
        (w : World S)
        → w.lc.id ≡ me
        → (lead_round o w).lc.is_leader ≡ true
        → Entitled o lease w.outside w (lead_round o w)
    unfolding lead_round
    lead_round-Entitled w m = by_answer (renew_leadership o w).0 refl
      where
        by_answer :
            (kept : Bool)
            → (renew_leadership o w).0 ≡ kept
            → (if kept
                then (renew_leadership o w).1
                else step_down o (renew_leadership o w).1).lc.is_leader
              ≡ true
            → Entitled o lease w.outside w
                (if kept then (renew_leadership o w).1 else step_down o (renew_leadership o w).1)
        by_answer true e l = renew_leadership-Entitled o lease me c w m e
        by_answer false e l = cc (step_down-leads o (renew_leadership o w).1)

    follow_round-Holds :
        (ticks : ℕ) (w : World S)
        → w.lc.id ≡ me
        → w.lc.is_leader ≡ false
        → Ensures
            (λ w'.
              w'.lc.is_leader ≡ true
              → Holds o lease w.outside w'.outside w.lc.leader_lock_key w.lc.id)
            (follow_round o ticks w)
    unfolding follow_round
    follow_round-Holds ticks w m f = by_answer (try_acquire_leadership o w1).0 refl
      where
        r : Result String
        r = (get_current_leader o 3 w).0

        w1 : World S
        w1 = (get_current_leader o 3 w).1

        w2 : World S
        w2 = (try_acquire_leadership o w1).1

        read : Advances o lease me w w1
        read = get_current_leader-Advances o lease me c 3 w

        won_Holds :
            (try_acquire_leadership o w1).0 ≡ true
            → Holds o lease w.outside w2.outside w.lc.leader_lock_key w.lc.id
        won_Holds e = Holds-earlier o lease w.outside w1.outside _ _ _ read.passes.time (
            subst₂ (λ k i. Holds o lease w1.outside w2.outside k i) read.key read.id
              (try_acquire_leadership-Holds o lease me c w1 (read.id ∙ m) e))

        by_answer :
            (won : Bool)
            → (try_acquire_leadership o w1).0 ≡ won
            → Ensures
                (λ w'.
                  w'.lc.is_leader ≡ true
                  → Holds o lease w.outside w'.outside w.lc.leader_lock_key w.lc.id)
                (if won then step_up o ticks (or_zero "" r) w2 else returns w2)
        by_answer true e =
            Ensures-map {A = World S} (Advances o lease me (in_charge w2))
              (λ u.
                u.lc.is_leader ≡ true
                → Holds o lease w.outside u.outside w.lc.leader_lock_key w.lc.id)
              (step_up o ticks (or_zero "" r) w2)
              (λ w' p l.
                Holds-later o lease me w.outside w2.outside _ _ _ m (won_Holds e)
                  (subst (λ u. Passes o lease me u w'.outside) (in_charge-outside w2) p.passes))
              (step_up-Advances o lease me c ticks (or_zero "" r) w2)
        by_answer false e = λ l. cc ((try_acquire_leadership-Kept o w1).leads, read.leads)

    election_round-Ensures :
        (ticks : ℕ) (w : World S)
        → w.lc.id ≡ me
        → Ensures
            (λ w'. w'.lc.is_leader ≡ true → Entitled o lease w.outside w w')
            (election_round o ticks w)
    unfolding election_round
    election_round-Ensures ticks w m = by_role w.lc.is_leader refl
      where
        by_role :
            (leads : Bool)
            → w.lc.is_leader ≡ leads
            → Ensures
                (λ w'. w'.lc.is_leader ≡ true → Entitled o lease w.outside w w')
                (if leads then returns (lead_round o w) else follow_round o ticks w)
        by_role true e = λ l. lead_round-Entitled w m l
        by_role false e =
            Ensures-map {A = World S}
              (λ u.
                u.lc.is_leader ≡ true
                → Holds o lease w.outside u.outside w.lc.leader_lock_key w.lc.id)
              (λ u. u.lc.is_leader ≡ true → Entitled o lease w.outside w u) (follow_round o ticks w)
              (λ w' h l. inl (h l)) (follow_round-Holds ticks w m e)

    -- For a storage that keeps the lease contract: an instance that leads after a round of the
    -- election loop has a lease of its lock, taken in this round for the whole TTL, which stands
    -- unless its time is over; or else its storage failed once or twice in a row, and the
    -- controller is degraded.
    pub election_round-Entitled :
        (ticks : ℕ) (w w' : World S)
        → w.lc.id ≡ me
        → election_round o ticks w ≡ returns w'
        → w'.lc.is_leader ≡ true
        → Entitled o lease w.outside w w'
    election_round-Entitled ticks w w' m e =
        subst (Ensures (λ u. u.lc.is_leader ≡ true → Entitled o lease w.outside w u)) e
          (election_round-Ensures ticks w m)
