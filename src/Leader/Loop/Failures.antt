-- ===== src/Leader/Loop/Failures.antt =====
-- A leader whose storage cannot be reached.
use k8_highlander.Prelude.{
  ℕ, zero, suc, ◌+◌, ◌<◌, ◌≤◌, String, Bool, true, false, GoError, err, ◌≡◌, refl, arith, sym, ◌∙◌,
  ap, ◌⊎◌, inl, inr, Bool-cases, if◌then◌else◌, ltb, wrap, ◌&&◌, ltb→lt,
}
use k8_highlander.Leader.{World, timed, call, measure, max_consecutive_db_failures, report}
use k8_highlander.Leader.Interfaces.{Outside}
use k8_highlander.Leader.Connection.{is_connection_error}
use k8_highlander.Leader.Renew.{renew_leadership, after_check, renew_failed, tolerate}
use k8_highlander.Leader.Renew.Outcome.{note_db_failure-count, renew_failed-answer}
use k8_highlander.Leader.Renew.Frame.{renew_leadership-Kept}
use k8_highlander.Leader.Loop.{lead_round, step_down}
use k8_highlander.Leader.Loop.Steps.{step_down-leads}

module _ {S : Type 0} (o : Outside S) where
  -- Up to `rounds` rounds of an instance that leads, until it does not.
  unfoldable pub lead_rounds : ℕ → World S → World S
  lead_rounds zero w = w
  lead_rounds (suc rounds) w =
      let rest = lead_rounds rounds (lead_round o w) in if w.lc.is_leader then rest else w

  lead_rounds-follower :
      (n : ℕ) (w : World S) → w.lc.is_leader ≡ false → (lead_rounds n w).lc.is_leader ≡ false
  unfolding lead_rounds
  lead_rounds-follower zero w f = f
  lead_rounds-follower (suc n) w f = ground (arith, f)

  module _ (e : GoError) (lost : is_connection_error e ≡ true) where
    failed-count :
        (text : String) (w : World S)
        → (renew_failed text e w).1.lc.db_failure_count ≡ suc w.lc.db_failure_count
    unfolding renew_failed tolerate report
    failed-count text w = rw lost (note_db_failure-count (report (wrap text e "") w))

    module _ (key : String) (down : (s : S) → (o.storage.get_lock_value key s).0 ≡ err e) where
      renew-answer :
          (w : World S)
          → w.lc.leader_lock_key ≡ key
          → ((renew_leadership o w).0 ≡ ltb (suc w.lc.db_failure_count) 3)
            × ((renew_leadership o w).1.lc.db_failure_count ≡ suc w.lc.db_failure_count)
      unfolding renew_leadership after_check timed call measure
      renew-answer w k =
          rw (k, down, after_check)
            (
              renew_failed-answer _ e _ ∙ ap (λ b. b && ltb (suc w.lc.db_failure_count) 3) lost,
              failed-count _ _,
            )

      lead_round-down :
          (w : World S)
          → w.lc.leader_lock_key ≡ key
          → ((lead_round o w).lc.is_leader ≡ false)
            ⊎ ((suc w.lc.db_failure_count < 3)
                × ((lead_round o w).lc.db_failure_count ≡ suc w.lc.db_failure_count)
                × ((lead_round o w).lc.leader_lock_key ≡ key))
      unfolding lead_round
      lead_round-down w k = by_answer (renew_leadership o w).0 refl
        where
          kept : World S
          kept = (renew_leadership o w).1

          by_answer :
              (b : Bool)
              → (renew_leadership o w).0 ≡ b
              → ((if b then kept else step_down o kept).lc.is_leader ≡ false)
                ⊎ ((suc w.lc.db_failure_count < 3)
                    × ((if b then kept else step_down o kept).lc.db_failure_count
                        ≡ suc w.lc.db_failure_count)
                    × ((if b then kept else step_down o kept).lc.leader_lock_key ≡ key))
          by_answer true g = inr (
            ltb→lt _ _ (sym (renew-answer w k).0 ∙ g),
            (renew-answer w k).1,
            (renew_leadership-Kept o w).key ∙ k,
          )
          by_answer false g = inl (step_down-leads o kept)

      lead_rounds-down :
          (n : ℕ) (w : World S)
          → w.lc.leader_lock_key ≡ key
          → w.lc.db_failure_count < 3
          → 3 ≤ w.lc.db_failure_count + n
          → (lead_rounds n w).lc.is_leader ≡ false
      unfolding lead_rounds
      lead_rounds-down zero w k few enough = absurd (omega arith)
      lead_rounds-down (suc n) w k few enough = elim (Bool-cases w.lc.is_leader) [
        | inr f ↦ lead_rounds-follower (suc n) w f
        | inl t ↦ simp t (elim (lead_round-down w k) [
          | inl f ↦ lead_rounds-follower n (lead_round o w) f
          | inr (few', count, key') ↦
              lead_rounds-down n (lead_round o w) key' (omega (arith, count)) (omega (arith, count))
        ])
      ]

      -- While every read of the lock fails with a connection error, an instance with n < 3 failures
      -- in a row does not lead after 3 - n or more rounds as a leader.
      pub partition_stops_leader :
          (rounds : ℕ) (w : World S)
          → w.lc.leader_lock_key ≡ key
          → w.lc.db_failure_count < max_consecutive_db_failures
          → max_consecutive_db_failures ≤ w.lc.db_failure_count + rounds
          → (lead_rounds rounds w).lc.is_leader ≡ false
      partition_stops_leader rounds w k few enough = lead_rounds-down rounds w k few enough
