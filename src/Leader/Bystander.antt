-- ===== src/Leader/Bystander.antt =====
-- What the rounds of an instance leave alone: any order on the states of the outside that each of
-- its calls keeps.
pub mod Renew
pub mod Workloads
pub mod Loop
pub mod Leaders
pub mod Tests
use k8_highlander.Prelude.{
  ℕ, zero, suc, String, Bool, true, false, Option, none, some, Result, ok, err, GoError, ◌≡◌, refl,
  ◌∙◌, ap, inl, inr, Order, if◌then◌else◌, ◌==◌, ◌!=◌,
}
use k8_highlander.Monitoring.{second}
use k8_highlander.Leader.{
  World, LeaderController, call, timed, get_current_leader, read_leader, or_zero, now,
}
use k8_highlander.Leader.Interfaces.{Outside, Pod}
use k8_highlander.Leader.Reads.{get_current_leader_induction, nap}
use k8_highlander.Leader.Acquire.{after_acquire, try_lock, contend, try_acquire_leadership, prepare}
use k8_highlander.Leader.Acquire.Frame.{
  Same, Same-trans, prepare-Same, acquired-Same, not_acquired-Same, acquire_failed-Same,
  restore_db-Same,
}
use k8_highlander.Leader.Renew.{
  renew_failed, taken_over, set_lock_ttl, read_ttl, after_renew, renew_held, after_check,
  renew_leadership,
}

-- Every call of the instance `id` keeps the order.
pub record KeepsOrder {S : Type 0} (r : Order S) (o : Outside S) (id : String) : Type 0 where
  pub sleep_kept : (d : ℕ) (s : S) → r.before s (o.clock.sleep d s)
  pub acquire_kept :
      (k c : String) (ttl : ℕ) (s : S) → r.before s (o.storage.try_acquire_lock k id c ttl s).1
  pub renew_kept : (k : String) (ttl : ℕ) (s : S) → r.before s (o.storage.renew_lock k id ttl s).1
  pub value_kept : (k : String) (s : S) → r.before s (o.storage.get_lock_value k s).1
  pub ttl_kept : (k : String) (s : S) → r.before s (o.storage.get_lock_ttl k s).1
  pub start_all_kept : (n : Option ℕ) (s : S) → r.before s (o.workloads.start_all n s).1
  pub stop_all_kept : (s : S) → r.before s (o.workloads.stop_all s).1
  pub watcher_start_kept : (n : Option ℕ) (s : S) → r.before s (o.crd_watcher.start n s).1
  pub watcher_stop_kept : (s : S) → r.before s (o.crd_watcher.stop s).1
  pub list_pods_kept : (s : S) → r.before s (o.client.list_pods s).1
  pub get_pod_kept : (ns name : String) (s : S) → r.before s (o.client.get_pod ns name s).1
  pub get_cron_job_kept :
      (ns name : String) (s : S) → r.before s (o.client.get_cron_job ns name s).1
  pub get_deployment_kept :
      (ns name : String) (s : S) → r.before s (o.client.get_deployment ns name s).1
  pub get_stateful_set_kept :
      (ns name : String) (s : S) → r.before s (o.client.get_stateful_set ns name s).1

module _ {S : Type 0} (r : Order S) where
  -- The instance is still the same, and the outside has moved along the order.
  pub record Moved (w w' : World S) : Type 0 where
    pub along : r.before w.outside w'.outside
    pub id : w'.lc.id ≡ w.lc.id

  pub Moved-refl : (w : World S) → Moved w w
  Moved-refl w = record { along = r.same w.outside; id = refl }

  pub Moved-trans : (u v w : World S) → Moved u v → Moved v w → Moved u w
  Moved-trans u v w p q = record { along = r.next _ _ _ p.along q.along; id = q.id ∙ p.id }

  pub Same-Moved : (w w' : World S) → Same w w' → Moved w w'
  Same-Moved w w' s = record { along = rw s.outside (r.same w.outside); id = s.id }

  pub Moved-if :
      {A : Type 0} (b : Bool) (w : World S) (x y : A × World S)
      → Moved w x.1
      → Moved w y.1
      → Moved w (if b then x else y).1
  Moved-if true w x y p q = p
  Moved-if false w x y p q = q

  pub call-Moved :
      {A : Type 0} (f : S → A × S) (w : World S)
      → r.before w.outside (f w.outside).1
      → Moved w (call f w).1
  unfolding call
  call-Moved f w p = record { along = p; id = refl }

  module _ (o : Outside S) where
    pub timed-Moved :
        {A : Type 0} (name : String) (n : ℕ) (f : S → Result A × S) (w : World S)
        → r.before w.outside (f w.outside).1
        → Moved w (timed o name n f w).1
    unfolding timed call
    timed-Moved name n f w p = record { along = p; id = refl }

    module _ (id : String) (k : KeepsOrder r o id) where
      pub get_current_leader-Moved : (n : ℕ) (w : World S) → Moved w (get_current_leader o n w).1
      unfolding read_leader nap timed call
      get_current_leader-Moved n w =
          get_current_leader_induction o (Moved w)
            (λ u p.
              Moved-trans w u _ p
                (record { along = k.value_kept u.lc.leader_lock_key u.outside; id = refl }))
            (λ u p.
              Moved-trans w u _ p (record { along = k.sleep_kept second u.outside; id = refl }))
            n w (Moved-refl w)

      after_acquire-Moved :
          (current : String) (b : Bool) (x : Result Bool) (w : World S)
          → Moved w (after_acquire o current b x w).1
      unfolding after_acquire
      after_acquire-Moved current b (err e) w = Same-Moved w _ (acquire_failed-Same e w)
      after_acquire-Moved current b (ok false) w =
          Same-Moved w _ (Same-trans _ _ _ (restore_db-Same w) (not_acquired-Same o current _))
      after_acquire-Moved current b (ok true) w =
          Moved-trans w _ _
            (Same-Moved w _ (Same-trans _ _ _ (restore_db-Same w) (acquired-Same o current b _)))
            (get_current_leader-Moved 3 _)

      try_lock-Moved :
          (current : String) (b : Bool) (n : ℕ) (w : World S)
          → w.lc.id ≡ id
          → Moved w (try_lock o current b n w).1
      unfolding try_lock
      try_lock-Moved current b n w e =
          Moved-trans w _ _
            (timed-Moved _ _ _ w (rw e (k.acquire_kept w.lc.leader_lock_key current _ w.outside)))
            (after_acquire-Moved current b _ _)

      pub try_acquire_leadership-Moved :
          (w : World S) → w.lc.id ≡ id → Moved w (try_acquire_leadership o w).1
      unfolding try_acquire_leadership contend
      try_acquire_leadership-Moved w e =
          Moved-if w.lc.remain_follower w (false, w) _ (Moved-refl w)
            (Moved-trans w _ _ read (try_lock-Moved _ _ _ _ (read.id ∙ e)))
        where
          read : Moved w (prepare o (get_current_leader o 3 w).0 (get_current_leader o 3 w).1).1
          read =
              Moved-trans w _ _ (get_current_leader-Moved 3 w) (Same-Moved _ _ (prepare-Same o _ _))
