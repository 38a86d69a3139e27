-- ===== src/Leader/Acquire/Frame.antt =====
-- What the bookkeeping of TryAcquireLeadership leaves alone.
use k8_highlander.Prelude.{
  ℕ, String, Bool, true, false, GoError, if◌then◌else◌, Option, Result, ok, err, ◌≡◌, refl, ap,
  arith, ◌∙◌,
}
use k8_highlander.Leader.Reads.{lc-get_current_leader}
use k8_highlander.Leader.{
  LeaderController, get_current_leader, timed, call, World, monitor, measure, report,
}
use k8_highlander.Monitoring.{MonitoringServer, ControllerMetrics}
use k8_highlander.Leader.Interfaces.{Outside}
use k8_highlander.Leader.Connection.{note_db_failure, restore_db, is_connection_error}
use k8_highlander.Leader.Acquire.{
  after_acquire, try_acquire_leadership, contend, try_lock, count_failed_attempt, read_failed,
  note_previous_leader, set_self_restart, record_takeover, acquired, not_acquired, acquire_failed,
  prepare,
}

-- The workload contexts.
abbrev pub jobs : LeaderController → Option ℕ × Option ℕ × ℕ × (ℕ → Bool)
jobs lc = (lc.workload_ctx, lc.workload_cancel, lc.contexts, lc.cancelled)

-- The outside, who the instance is, which lock it wants, whether it leads, and its contexts.
pub record Same {S : Type 0} (w w' : World S) : Type 0 where
  pub outside : w'.outside ≡ w.outside
  pub id : w'.lc.id ≡ w.lc.id
  pub key : w'.lc.leader_lock_key ≡ w.lc.leader_lock_key
  pub leads : w'.lc.is_leader ≡ w.lc.is_leader
  pub contexts : jobs w'.lc ≡ jobs w.lc

module _ {S : Type 0} where
  pub Same-refl : (w : World S) → Same w w
  Same-refl w = record { outside = refl; id = refl; key = refl; leads = refl; contexts = refl }

  pub Same-trans : (u v w : World S) → Same u v → Same v w → Same u w
  Same-trans u v w p q = record {
    outside = q.outside ∙ p.outside;
    id = q.id ∙ p.id;
    key = q.key ∙ p.key;
    leads = q.leads ∙ p.leads;
    contexts = q.contexts ∙ p.contexts;
  }

  pub Same-if : (b : Bool) (w u v : World S) → Same w u → Same w v → Same w (if b then u else v)
  Same-if true w u v p q = p
  Same-if false w u v p q = q

  pub monitor-Same : (f : MonitoringServer → MonitoringServer) (w : World S) → Same w (monitor f w)
  unfolding monitor
  monitor-Same f w = record { outside = refl; id = refl; key = refl; leads = refl; contexts = refl }

  pub measure-Same :
      (f : ControllerMetrics → ControllerMetrics) (w : World S) → Same w (measure f w)
  unfolding measure
  measure-Same f w = record { outside = refl; id = refl; key = refl; leads = refl; contexts = refl }

  pub report-Same : (e : GoError) (w : World S) → Same w (report e w)
  unfolding report
  report-Same e w = record { outside = refl; id = refl; key = refl; leads = refl; contexts = refl }

  pub note_db_failure-Same : (w : World S) → Same w (note_db_failure w)
  unfolding note_db_failure
  note_db_failure-Same w = ground arith

  pub restore_db-Same : (w : World S) → Same w (restore_db w)
  unfolding restore_db
  restore_db-Same w = ground arith

  read_failed-Same : (r : Result String) (w : World S) → Same w (read_failed r w)
  unfolding read_failed count_failed_attempt
  read_failed-Same (ok v) w = Same-refl w
  read_failed-Same (err e) w =
      Same-trans _ _ _
        (Same-if (is_connection_error e) w _ _ (note_db_failure-Same w) (Same-refl w))
        (Same-trans _ _ _ (measure-Same _ _) (report-Same _ _))

  note_previous_leader-Same : (s : String) (w : World S) → Same w (note_previous_leader s w)
  unfolding note_previous_leader
  note_previous_leader-Same s w = ground arith

  set_self_restart-Same : (b : Bool) (w : World S) → Same w (set_self_restart b w)
  unfolding set_self_restart
  set_self_restart-Same b w = ground arith

  pub acquire_failed-Same : (e : GoError) (w : World S) → Same w (acquire_failed e w)
  unfolding acquire_failed count_failed_attempt
  acquire_failed-Same e w = Same-trans _ _ _ (measure-Same _ w) (report-Same _ _)

  record_takeover-Same :
      (current : String) (b : Bool) (w : World S) → Same w (record_takeover current b w)
  unfolding record_takeover
  record_takeover-Same current b w =
      Same-if _ w _ _ (Same-trans _ _ _ (monitor-Same _ w) (monitor-Same _ _))
        (Same-if b w _ _ (monitor-Same _ w) (Same-refl w))

  module _ (o : Outside S) where
    pub prepare-Same : (r : Result String) (w : World S) → Same w (prepare o r w).1
    unfolding prepare
    prepare-Same r w =
        Same-trans _ _ _ (Same-trans _ _ _ (read_failed-Same r w) (note_previous_leader-Same _ _))
          (set_self_restart-Same _ _)

    pub acquired-Same :
        (current : String) (b : Bool) (w : World S) → Same w (acquired o current b w)
    unfolding acquired
    acquired-Same current b w = Same-trans _ _ _ (record_takeover-Same current b w) (
        Same-trans _ _ _ (monitor-Same _ _) (
          Same-trans _ _ _ (monitor-Same _ _) (
            Same-trans _ _ _ (monitor-Same _ _) (
              Same-trans _ _ _ (measure-Same _ _) (record {
                outside = refl;
                id = refl;
                key = refl;
                leads = refl;
                contexts = refl;
              })))))

    pub not_acquired-Same : (current : String) (w : World S) → Same w (not_acquired o current w)
    unfolding not_acquired
    not_acquired-Same current w =
        Same-trans _ _ _ (monitor-Same _ w)
          (Same-trans _ _ _ (Same-if _ _ _ _ (monitor-Same _ _) (Same-refl _)) (measure-Same _ _))

-- Who the instance is, which lock it wants, whether it leads, and its contexts.
pub record Kept {S : Type 0} (w w' : World S) : Type 0 where
  pub id : w'.lc.id ≡ w.lc.id
  pub key : w'.lc.leader_lock_key ≡ w.lc.leader_lock_key
  pub leads : w'.lc.is_leader ≡ w.lc.is_leader
  pub contexts : jobs w'.lc ≡ jobs w.lc

module _ {S : Type 0} where
  pub Kept-trans : (u v w : World S) → Kept u v → Kept v w → Kept u w
  Kept-trans u v w p q = record {
    id = q.id ∙ p.id;
    key = q.key ∙ p.key;
    leads = q.leads ∙ p.leads;
    contexts = q.contexts ∙ p.contexts;
  }

  pub Same-Kept : (w w' : World S) → Same w w' → Kept w w'
  Same-Kept w w' s = record { id = s.id; key = s.key; leads = s.leads; contexts = s.contexts }

  pub Kept-if :
      {A : Type 0} (b : Bool) (w : World S) (x y : A × World S)
      → Kept w x.1
      → Kept w y.1
      → Kept w (if b then x else y).1
  Kept-if true w x y p q = p
  Kept-if false w x y p q = q

  module _ (o : Outside S) where
    pub get_current_leader-Kept : (n : ℕ) (w : World S) → Kept w (get_current_leader o n w).1
    get_current_leader-Kept n w =
        let e = lc-get_current_leader o n w in
        record {
          id = ap (λ (x : LeaderController). x.id) e;
          key = ap (λ (x : LeaderController). x.leader_lock_key) e;
          leads = ap (λ (x : LeaderController). x.is_leader) e;
          contexts = ap (λ (x : LeaderController). jobs x) e;
        }

    after_acquire-Kept :
        (current : String) (b : Bool) (r : Result Bool) (w : World S)
        → Kept w (after_acquire o current b r w).1
    unfolding after_acquire
    after_acquire-Kept current b (err e) w = Same-Kept w _ (acquire_failed-Same e w)
    after_acquire-Kept current b (ok false) w =
        Same-Kept w _ (Same-trans _ _ _ (restore_db-Same w) (not_acquired-Same o current _))
    after_acquire-Kept current b (ok true) w =
        Kept-trans w _ _
          (Same-Kept w _ (Same-trans _ _ _ (restore_db-Same w) (acquired-Same o current b _)))
          (get_current_leader-Kept 3 _)

    -- TryAcquireLeadership leaves it to its caller to set whether the instance leads.
    pub try_acquire_leadership-Kept : (w : World S) → Kept w (try_acquire_leadership o w).1
    unfolding try_acquire_leadership contend try_lock timed call measure
    try_acquire_leadership-Kept w =
        let (r, w1) = get_current_leader o 3 w in
        let w2 = (prepare o r w1).1 in
        Kept-if w.lc.remain_follower w (false, w) _ (Same-Kept w w (Same-refl w))
          (Kept-trans w w1 _ (get_current_leader-Kept 3 w) (
            Kept-trans w1 w2 _ (Same-Kept w1 w2 (prepare-Same o r w1)) (
              Kept-trans w2 _ _ (record { id = refl; key = refl; leads = refl; contexts = refl })
                (after_acquire-Kept _ _ _ _))))
