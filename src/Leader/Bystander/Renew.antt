-- ===== src/Leader/Bystander/Renew.antt =====
-- The same for RenewLeadership.
use k8_highlander.Prelude.{
  String, Bool, GoError, Result, ok, err, wrap, ◌≡◌, ◌∙◌, Order, ◌==◌, ◌!=◌,
}
use k8_highlander.Leader.{World, report}
use k8_highlander.Leader.Interfaces.{Outside}
use k8_highlander.Leader.Connection.{is_connection_error, restore_db}
use k8_highlander.Leader.Acquire.Frame.{
  Same-trans, monitor-Same, report-Same, note_db_failure-Same, restore_db-Same,
}
use k8_highlander.Leader.Renew.{
  tolerate, renew_failed, taken_over, read_ttl, after_renew, renew_held, after_check,
  renew_leadership,
}
use k8_highlander.Leader.Renew.Outcome.{set_lock_ttl-Same}
use k8_highlander.Leader.Bystander.{
  KeepsOrder, Moved, Moved-refl, Moved-trans, Same-Moved, Moved-if, call-Moved, timed-Moved,
  try_acquire_leadership-Moved,
}

module _ {S : Type 0} (r : Order S) (o : Outside S) (id : String) (k : KeepsOrder r o id) where
  renew_failed-Moved :
      (text : String) (e : GoError) (w : World S) → Moved r w (renew_failed text e w).1
  unfolding renew_failed tolerate
  renew_failed-Moved text e w =
      let w' = report (wrap text e "") w in
      Moved-trans r w w' _ (Same-Moved r w w' (report-Same _ w)) (
        Moved-if r (is_connection_error e) w' _ _ (Same-Moved r w' _ (note_db_failure-Same w'))
          (Moved-refl r w'))

  taken_over-Moved : (val : String) (w : World S) → Moved r w (taken_over val w)
  unfolding taken_over
  taken_over-Moved val w = Same-Moved r w _ (Same-trans w _ _ (monitor-Same _ w) (monitor-Same _ _))

  read_ttl-Moved : (w : World S) → Moved r w (read_ttl o w)
  unfolding read_ttl
  read_ttl-Moved w =
      Moved-trans r w _ _ (call-Moved r _ w (k.ttl_kept _ w.outside))
        (Same-Moved r _ _ (set_lock_ttl-Same _ _))

  after_renew-Moved : (x : Result Bool) (w : World S) → Moved r w (after_renew o x w).1
  unfolding after_renew
  after_renew-Moved (err e) w = renew_failed-Moved _ e w
  after_renew-Moved (ok success) w =
      Moved-trans r w _ _ (Same-Moved r w _ (restore_db-Same w)) (read_ttl-Moved (restore_db w))

  renew_held-Moved : (w : World S) → w.lc.id ≡ id → Moved r w (renew_held o w).1
  unfolding renew_held
  renew_held-Moved w e =
      Moved-trans r w _ _
        (timed-Moved r o _ _ _ w (rw e (k.renew_kept w.lc.leader_lock_key _ w.outside)))
        (after_renew-Moved _ _)

  after_check-Moved :
      (x : Result String) (w : World S) → w.lc.id ≡ id → Moved r w (after_check o x w).1
  unfolding after_check
  after_check-Moved (err e) w p = renew_failed-Moved _ e w
  after_check-Moved (ok val) w p =
      let w' = restore_db w in
      let back = Same-Moved r w w' (restore_db-Same w) in
      Moved-if r (val == "") w _ _
        (Moved-trans r w w' _ back (try_acquire_leadership-Moved r o id k w' (back.id ∙ p)))
        (Moved-if r (val != w'.lc.id) w _ _ (Moved-trans r w w' _ back (taken_over-Moved val w'))
          (Moved-trans r w w' _ back (renew_held-Moved w' (back.id ∙ p))))

  pub renew_leadership-Moved : (w : World S) → w.lc.id ≡ id → Moved r w (renew_leadership o w).1
  unfolding renew_leadership
  renew_leadership-Moved w e =
      let read = timed-Moved r o _ _ _ w (k.value_kept _ w.outside) in
      Moved-trans r w _ _ read (after_check-Moved _ _ (read.id ∙ e))
