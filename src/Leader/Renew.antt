-- ===== src/Leader/Renew.antt =====
-- pkg/leader/leader.go: RenewLeadership and releaseLeadership.
pub mod Outcome
pub mod Failing
pub mod Frame
pub mod Release
use k8_highlander.Prelude.{
  ℕ, suc, ◌+◌, ◌-◌, String, Bool, true, false, Option, none, some, Result, ok, err, GoError,
  new_error, wrap, ltb, leb, if◌then◌else◌, ◌==◌, ◌!=◌,
}
use k8_highlander.Monitoring.Status.{update_leader_status, record_failover, update_current_leader}
use k8_highlander.Leader.{
  World, LeaderController, lock_ttl, max_consecutive_db_failures, monitor, measure, report, call,
  now, timed,
}
use k8_highlander.Leader.Connection.{is_connection_error, note_db_failure, restore_db}
use k8_highlander.Leader.Acquire.{try_acquire_leadership}
use k8_highlander.Leader.Interfaces.{Outside}

module _ {S : Type 0} where
  -- A connection error: the leadership is kept, unless too many have come in a row.
  unfoldable pub tolerate : World S → Bool × World S
  tolerate w =
      let w' = note_db_failure w in
      (if leb max_consecutive_db_failures w'.lc.db_failure_count then false else true, w')

  -- A failing storage. Any other error ends the leadership.
  unfoldable pub renew_failed : String → GoError → World S → Bool × World S
  renew_failed text e w =
      let w' = report (wrap text e "") w in
      if is_connection_error e then tolerate w' else (false, w')

  -- The lock is another's.
  unfoldable pub taken_over : String → World S → World S
  taken_over val w =
      let w1 = monitor (update_current_leader val) w in
      monitor
        (record_failover w.lc.id val 0
          (some (new_error "leadership taken by another instance during renewal")))
        w1

  unfoldable pub set_lock_ttl : Result ℕ → World S → World S
  set_lock_ttl (ok ttl) w = measure (λ m. record m { db_lock_ttl = ttl }) w
  set_lock_ttl (err e) w = w

  module _ (o : Outside S) where
    -- The TTL is read for the metrics.
    unfoldable pub read_ttl : World S → World S
    read_ttl w =
        let (r, w') = call (o.storage.get_lock_ttl w.lc.leader_lock_key) w in set_lock_ttl r w'

    unfoldable pub after_renew : Result Bool → World S → Bool × World S
    after_renew (err e) w = renew_failed "error renewing leadership: " e w
    after_renew (ok success) w = (success, read_ttl (restore_db w))

    unfoldable pub renew_held : World S → Bool × World S
    renew_held w =
        let (r, w') =
          timed o "expire" (now o w) (o.storage.renew_lock w.lc.leader_lock_key w.lc.id lock_ttl)
            w in
        after_renew r w'

    unfoldable pub after_check : Result String → World S → Bool × World S
    after_check (err e) w = renew_failed "error checking leadership: " e w
    after_check (ok val) w =
        let w' = restore_db w in
        let reacquired = try_acquire_leadership o w' in
        let renewed = renew_held w' in
        if val == ""
        then reacquired
        else (if val != w'.lc.id then (false, taken_over val w') else renewed)

    -- RenewLeadership
    unfoldable pub renew_leadership : World S → Bool × World S
    renew_leadership w =
        let (r, w') = timed o "get" (now o w) (o.storage.get_lock_value w.lc.leader_lock_key) w in
        after_check r w'

    -- A lock that was released: the read only verifies, and is logged.
    unfoldable pub note_release : Bool → World S → World S
    note_release true w =
        let (r, w') = call (o.storage.get_lock_value w.lc.leader_lock_key) w in
        record w' { lc = record (w'.lc) { last_leadership_release_time = some (now o w') } }
    note_release false w = w

    -- The status of an instance that gave up the lock.
    unfoldable pub not_leading : World S → World S
    not_leading w =
        measure (λ m. record m { is_leader = 0; leadership_losses = suc m.leadership_losses })
          (monitor (update_leader_status false w.lc.id w.lc.cluster_name (now o w)) w)

    unfoldable pub after_release : Result Bool → World S → World S
    after_release (err e) w = report (wrap "error releasing leadership: " e "") w
    after_release (ok success) w = not_leading (note_release success w)

    -- releaseLeadership. The lock is read first, for the log.
    unfoldable pub release_leadership : World S → World S
    release_leadership w =
        let (info, w1) = call (o.storage.get_lock_info w.lc.leader_lock_key) w in
        let (r, w2) =
          timed o "eval" (now o w1) (o.storage.release_lock w1.lc.leader_lock_key w1.lc.id) w1 in
        after_release r w2
