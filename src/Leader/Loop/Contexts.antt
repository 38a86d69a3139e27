-- ===== src/Leader/Loop/Contexts.antt =====
-- The workload contexts over the rounds of the controller's loops: which of them are not cancelled.
use mathlib.Core.Path.{subst, subst₂}
use mathlib.Core.Bool.{false≢true}
use k8_highlander.Prelude.{
  ltb, ltb→lt, ℕ, ◌<◌, String, Bool, true, false, Option, none, some, Result, ok, err, GoError, ◌≡◌,
  refl, arith, sym, ◌∙◌, inl, inr, Bool-cases, if◌then◌else◌, ◌==◌, eqb, ◌||◌,
}
use k8_highlander.Leader.{World, call, monitor, measure, set_leader, report, get_current_leader}
use k8_highlander.Leader.Interfaces.{Outside}
use k8_highlander.Leader.Reads.{Option-cases, Result-cases}
use k8_highlander.Leader.Acquire.Frame.{
  Same-refl, Kept, Kept-if, Same-Kept, get_current_leader-Kept, jobs,
}
use k8_highlander.Leader.Renew.{renew_leadership}
use k8_highlander.Leader.Renew.Frame.{renew_leadership-Kept, release_leadership-Kept}
use k8_highlander.Leader.Workloads.{
  create_workload_context, cancel_workloads, stop_workloads, report_failure,
}
use k8_highlander.Leader.Loop.{
  lead_round, step_down, yield_to, seen_lock, after_look, look, lock_round, give_up, health_check,
  is_cluster_healthy,
}
use k8_highlander.Leader.Loop.Steps.{reset_if_ok-Same}

-- Every context is cancelled, but the one that can still be cancelled, and that one only while the
-- instance leads.
abbrev pub OneContext : {S : Type 0} → World S → Type 0
OneContext w =
    (n : ℕ)
    → n < w.lc.contexts
    → w.lc.cancelled n ≡ false
    → (w.lc.workload_cancel ≡ some n) × (w.lc.is_leader ≡ true)

-- The same of a controller's contexts, whether it leads or not.
abbrev pub Known : Option ℕ × Option ℕ × ℕ × (ℕ → Bool) → Type 0
Known j = (n : ℕ) → n < j.2 → j.3 n ≡ false → j.1 ≡ some n

abbrev AllOver : Option ℕ × Option ℕ × ℕ × (ℕ → Bool) → Type 0
AllOver j = (n : ℕ) → n < j.2 → j.3 n ≡ true

cancelled-AllOver :
    (j : Option ℕ × Option ℕ × ℕ × (ℕ → Bool)) (m : ℕ)
    → Known j
    → j.1 ≡ some m
    → (n : ℕ) → n < j.2
    → (eqb n m || j.3 n) ≡ true
cancelled-AllOver j m p e n h = elim (Bool-cases (j.3 n)) [
  | inl over ↦ ground (arith, over)
  | inr live ↦ grind (arith, p n h live, e, live)
]

none-AllOver : (j : Option ℕ × Option ℕ × ℕ × (ℕ → Bool)) → Known j → j.1 ≡ none → AllOver j
none-AllOver j p e n h = elim (Bool-cases (j.3 n)) [
  | inl over ↦ over
  | inr live ↦ cc (e, p n h live)
]

module _ {S : Type 0} where
  pub OneContext-Known : (w : World S) → OneContext w → Known (jobs w.lc)
  OneContext-Known w p n h e = (p n h e).0

  AllOver-OneContext : (w : World S) → AllOver (jobs w.lc) → OneContext w
  AllOver-OneContext w p n h e = absurd (false≢true (sym e ∙ p n h))

  OneContext-if :
      (b : Bool) (x y : World S) → OneContext x → OneContext y → OneContext (if b then x else y)
  OneContext-if true x y p q = p
  OneContext-if false x y p q = q

  pub Kept-OneContext : (w w' : World S) → Kept w w' → OneContext w → OneContext w'
  Kept-OneContext w w' k p =
      subst₂
        (λ (j : Option ℕ × Option ℕ × ℕ × (ℕ → Bool)) (b : Bool).
          (n : ℕ) → n < j.2 → j.3 n ≡ false → (j.1 ≡ some n) × (b ≡ true))
        (sym k.contexts) (sym k.leads) p

  -- Cancelling leaves no context.
  cancel_workloads-AllOver :
      (w : World S) → Known (jobs w.lc) → AllOver (jobs (cancel_workloads w).lc)
  unfolding cancel_workloads
  cancel_workloads-AllOver w p = elim (Option-cases w.lc.workload_cancel) [
    | inl e ↦ rw (e, cancel_workloads) (none-AllOver (jobs w.lc) p e)
    | inr (m, e) ↦ rw (e, cancel_workloads) (cancelled-AllOver (jobs w.lc) m p e)
  ]

  pub create_workload_context-Known :
      (w : World S) (n : ℕ)
      → Known (jobs w.lc)
      → n < (create_workload_context w).lc.contexts
      → (create_workload_context w).lc.cancelled n ≡ false
      → (create_workload_context w).lc.workload_cancel ≡ some n
  unfolding create_workload_context
  create_workload_context-Known w n p h e =
      elim (Bool-cases (ltb n (cancel_workloads w).lc.contexts)) [
        | inl old ↦ cc (cancel_workloads-AllOver w p n (ltb→lt _ _ old), e)
        | inr new ↦ grind (arith, new, h)
      ]

module _ {S : Type 0} (o : Outside S) where
  stop_workloads-AllOver :
      (w : World S) → Known (jobs w.lc) → AllOver (jobs (stop_workloads o w).1.lc)
  unfolding stop_workloads call
  stop_workloads-AllOver w p =
      elim (Option-cases (o.workloads.stop_all (cancel_workloads w).outside).0) [
        | inl e ↦ rw (e, stop_workloads) (cancel_workloads-AllOver w p)
        | inr (x, e) ↦
            rw (e, stop_workloads) (unfold report_failure report in cancel_workloads-AllOver w p)
      ]

  stop_workloads-OneContext :
      (u w : World S) → jobs u.lc ≡ jobs w.lc → OneContext w → OneContext (stop_workloads o u).1
  stop_workloads-OneContext u w e p =
      AllOver-OneContext (stop_workloads o u).1
        (stop_workloads-AllOver u (subst Known (sym e) (OneContext-Known w p)))

  step_down-OneContext : (w : World S) → OneContext w → OneContext (step_down o w)
  unfolding step_down set_leader monitor
  step_down-OneContext w p =
      stop_workloads-OneContext _ w
        ((reset_if_ok-Same (get_current_leader o 3 w).0 _).contexts
          ∙ (get_current_leader-Kept o 3 w).contexts)
        p

  pub lead_round-OneContext : (w : World S) → OneContext w → OneContext (lead_round o w)
  unfolding lead_round
  lead_round-OneContext w p = by_answer (renew_leadership o w).0
    where
      kept : OneContext (renew_leadership o w).1
      kept = Kept-OneContext w _ (renew_leadership-Kept o w) p

      by_answer :
          (b : Bool)
          → OneContext
              (if b then (renew_leadership o w).1 else step_down o (renew_leadership o w).1)
      by_answer true = kept
      by_answer false = step_down-OneContext _ kept

  yield_to-OneContext : (val : String) (w : World S) → OneContext w → OneContext (yield_to o val w)
  unfolding yield_to set_leader monitor
  yield_to-OneContext val w p = stop_workloads-OneContext _ w refl p

  seen_lock-OneContext :
      (val : String) (w : World S) → OneContext w → OneContext (seen_lock o val w)
  unfolding seen_lock monitor measure call
  seen_lock-OneContext val w p = OneContext-if _ _ _ (yield_to-OneContext val _ p) p

  after_look-OneContext :
      (r : Result String) (w : World S) → OneContext w → OneContext (after_look o r w)
  unfolding after_look monitor
  after_look-OneContext (err e) w p = p
  after_look-OneContext (ok val) w p =
      OneContext-if (val == "") _ _ p (seen_lock-OneContext val w p)

  look-Kept : (w : World S) → Kept w (look o w).1
  unfolding look call measure
  look-Kept w = elim (Result-cases (o.storage.get_lock_value w.lc.leader_lock_key w.outside).0) [
    | inl (v, e) ↦ rw (e, look) (record { id = refl; key = refl; leads = refl; contexts = refl })
    | inr (x, e) ↦ rw (e, look) (record { id = refl; key = refl; leads = refl; contexts = refl })
  ]

  pub lock_round-OneContext : (w : World S) → OneContext w → OneContext (lock_round o w)
  unfolding lock_round
  lock_round-OneContext w p = after_look-OneContext _ _ (Kept-OneContext w _ (look-Kept w) p)

  give_up-OneContext :
      (reason : GoError) (w : World S) → OneContext w → OneContext (give_up o reason w)
  unfolding give_up set_leader monitor
  give_up-OneContext reason w p =
      stop_workloads-OneContext _ w (release_leadership-Kept o w).contexts p

  is_cluster_healthy-Kept : (w : World S) → Kept w (is_cluster_healthy o w).1
  unfolding is_cluster_healthy call
  is_cluster_healthy-Kept w =
      Kept-if (o.client.has_client w.outside) w _ _
        (record { id = refl; key = refl; leads = refl; contexts = refl })
        (Same-Kept w w (Same-refl w))

  pub health_check-OneContext :
      (reason : GoError) (w : World S) → OneContext w → OneContext (health_check o reason w)
  unfolding health_check monitor
  health_check-OneContext reason w p =
      let kept = Kept-OneContext w _ (is_cluster_healthy-Kept w) p in
      OneContext-if _ _ _ (give_up-OneContext reason _ kept) kept
