-- ===== src/Leader/Renew/Frame.antt =====
-- What a renewal and a release leave alone, whatever the storage answers.
use k8_highlander.Prelude.{
  ℕ, String, Bool, true, false, GoError, Result, ok, err, refl, wrap, ◌==◌, ◌!=◌,
}
use k8_highlander.Leader.{World, call, measure, timed, report}
use k8_highlander.Leader.Interfaces.{Outside}
use k8_highlander.Leader.Connection.{is_connection_error, restore_db}
use k8_highlander.Leader.Acquire.Frame.{
  Same-refl, Same-trans, Kept, Kept-trans, Kept-if, Same-Kept, monitor-Same, measure-Same,
  report-Same, note_db_failure-Same, restore_db-Same, try_acquire_leadership-Kept,
}
use k8_highlander.Leader.Renew.{
  tolerate, renew_failed, taken_over, read_ttl, after_renew, renew_held, after_check,
  renew_leadership, note_release, not_leading, after_release, release_leadership,
}
use k8_highlander.Leader.Renew.Outcome.{set_lock_ttl-Same}

module _ {S : Type 0} where
  pub call-Kept : {A : Type 0} (f : S → A × S) (w : World S) → Kept w (call f w).1
  unfolding call
  call-Kept f w = record { id = refl; key = refl; leads = refl; contexts = refl }

  renew_failed-Kept : (text : String) (e : GoError) (w : World S) → Kept w (renew_failed text e w).1
  unfolding renew_failed tolerate
  renew_failed-Kept text e w =
      let w' = report (wrap text e "") w in
      Kept-trans w w' _ (Same-Kept w w' (report-Same _ w)) (
        Kept-if (is_connection_error e) w' _ _ (Same-Kept w' _ (note_db_failure-Same w'))
          (Same-Kept w' w' (Same-refl w')))

  taken_over-Kept : (val : String) (w : World S) → Kept w (taken_over val w)
  unfolding taken_over
  taken_over-Kept val w = Same-Kept w _ (Same-trans w _ _ (monitor-Same _ w) (monitor-Same _ _))

  module _ (o : Outside S) where
    pub timed-Kept :
        {A : Type 0} (operation : String) (start : ℕ) (f : S → Result A × S) (w : World S)
        → Kept w (timed o operation start f w).1
    unfolding timed call measure
    timed-Kept operation start f w = record { id = refl; key = refl; leads = refl; contexts = refl }

    read_ttl-Kept : (w : World S) → Kept w (read_ttl o w)
    unfolding read_ttl
    read_ttl-Kept w = Kept-trans w _ _ (call-Kept _ w) (Same-Kept _ _ (set_lock_ttl-Same _ _))

    after_renew-Kept : (r : Result Bool) (w : World S) → Kept w (after_renew o r w).1
    unfolding after_renew
    after_renew-Kept (err e) w = renew_failed-Kept _ e w
    after_renew-Kept (ok success) w =
        Kept-trans w _ _ (Same-Kept w _ (restore_db-Same w)) (read_ttl-Kept (restore_db w))

    renew_held-Kept : (w : World S) → Kept w (renew_held o w).1
    unfolding renew_held
    renew_held-Kept w = Kept-trans w _ _ (timed-Kept _ _ _ w) (after_renew-Kept _ _)

    after_check-Kept : (r : Result String) (w : World S) → Kept w (after_check o r w).1
    unfolding after_check
    after_check-Kept (err e) w = renew_failed-Kept _ e w
    after_check-Kept (ok val) w =
        let w' = restore_db w in
        Kept-trans w w' _ (Same-Kept w w' (restore_db-Same w)) (
          Kept-if (val == "") w' _ _ (try_acquire_leadership-Kept o w') (
            Kept-if (val != w'.lc.id) w' (false, taken_over val w') (renew_held o w')
              (taken_over-Kept val w') (renew_held-Kept w')))

    pub renew_leadership-Kept : (w : World S) → Kept w (renew_leadership o w).1
    unfolding renew_leadership
    renew_leadership-Kept w = Kept-trans w _ _ (timed-Kept _ _ _ w) (after_check-Kept _ _)

    note_release-Kept : (b : Bool) (w : World S) → Kept w (note_release o b w)
    unfolding note_release call
    note_release-Kept true w = record { id = refl; key = refl; leads = refl; contexts = refl }
    note_release-Kept false w = Same-Kept w w (Same-refl w)

    after_release-Kept : (r : Result Bool) (w : World S) → Kept w (after_release o r w)
    unfolding after_release not_leading
    after_release-Kept (err e) w = Same-Kept w _ (report-Same _ w)
    after_release-Kept (ok success) w =
        Kept-trans w _ _ (note_release-Kept success w)
          (Same-Kept _ _ (Same-trans _ _ _ (monitor-Same _ _) (measure-Same _ _)))

    pub release_leadership-Kept : (w : World S) → Kept w (release_leadership o w)
    unfolding release_leadership
    release_leadership-Kept w =
        Kept-trans w _ _ (call-Kept _ w)
          (Kept-trans _ _ _ (timed-Kept _ _ _ _) (after_release-Kept _ _))
