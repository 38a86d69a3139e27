-- ===== src/Leader/Acquire.antt =====
-- pkg/leader/leader.go: TryAcquireLeadership.
pub mod Frame
pub mod Holds
use k8_highlander.Prelude.{
  ℕ, suc, ◌+◌, ◌-◌, ◌*◌, String, cat, Bool, true, false, not, ◌&&◌, Option, none, some, Result, ok,
  err, GoError, wrap, decimal, ltb, if◌then◌else◌, ◌==◌, ◌!=◌,
}
use k8_highlander.Monitoring.{second}
use k8_highlander.Monitoring.Status.{
  update_leader_status, record_failover, clear_error, update_last_leader, update_current_leader,
}
use k8_highlander.Leader.{
  World, LeaderController, lock_ttl, or_zero, monitor, measure, report, now, timed,
  get_current_leader,
}
use k8_highlander.Leader.Connection.{is_connection_error, note_db_failure, restore_db}
use k8_highlander.Leader.Interfaces.{Outside}

-- time.Since(lastLeadershipReleaseTime) < 5 minutes; the zero time is longer ago.
unfoldable pub released_lately : Option ℕ → ℕ → Bool
released_lately none now = false
released_lately (some t) now = ltb (now - t) (300 * second)

module _ {S : Type 0} where
  unfoldable pub count_failed_attempt : World S → World S
  count_failed_attempt w =
      measure (λ m. record m { leadership_failed_attempts = suc m.leadership_failed_attempts }) w

  -- The current leader could not be read (or there is none). The attempt goes on.
  unfoldable pub read_failed : Result String → World S → World S
  read_failed (ok v) w = w
  read_failed (err e) w =
      report (wrap "failed to acquire leadership: " e "")
        (count_failed_attempt (if is_connection_error e then note_db_failure w else w))

  -- previousLeader is whoever holds the lock, unless that is this instance.
  unfoldable pub note_previous_leader : String → World S → World S
  note_previous_leader current w =
      if current != "" && current != w.lc.id
      then record w { lc = record (w.lc) { previous_leader = current } }
      else w

  unfoldable pub set_self_restart : Bool → World S → World S
  set_self_restart true w = record w {
    lc = record (w.lc) { previous_leader = w.lc.id; is_self_restart = true };
  }
  set_self_restart false w = w

  unfoldable pub acquire_failed : GoError → World S → World S
  acquire_failed e w =
      report
        (wrap "failed to acquire leadership: " e
          (cat " (failure count " (cat (decimal w.lc.db_failure_count) ")")))
        (count_failed_attempt w)

  -- The failover that a new leader records.
  unfoldable pub record_takeover : String → Bool → World S → World S
  record_takeover current self_restart w =
      if current != "" && current != w.lc.id && not self_restart
      then monitor (record_failover current w.lc.id 0 none) (monitor (update_last_leader current) w)
      else if self_restart
      then monitor (update_last_leader w.lc.id) w
      else w

  module _ (o : Outside S) where
    unfoldable pub is_restart_of_self : String → World S → Bool
    is_restart_of_self current w =
        current == ""
        && w.lc.previous_self_id == w.lc.id
        && released_lately w.lc.last_leadership_release_time (now o w)

    -- The status of an acquired lock.
    unfoldable pub acquired : String → Bool → World S → World S
    acquired current self_restart w =
        let w1 = record_takeover current self_restart w in
        let w2 = monitor (update_leader_status true w1.lc.id w1.lc.cluster_name (now o w1)) w1 in
        let w3 = monitor clear_error (monitor (update_current_leader w2.lc.id) w2) in
        let w4 =
          measure
            (λ m. record m {
              is_leader = 1;
              leadership_acquisitions = suc m.leadership_acquisitions;
            })
            w3 in
        record w4 { lc = record (w4.lc) { previous_self_id = w4.lc.id } }

    -- The status when another holds the lock.
    unfoldable pub not_acquired : String → World S → World S
    not_acquired current w =
        let w1 = monitor (update_leader_status false w.lc.id w.lc.cluster_name (now o w)) w in
        let w2 = if current != "" then monitor (update_current_leader current) w1 else w1 in
        measure (λ m. record m { is_leader = 0 }) w2

    -- From the answer of the storage on. The last read only verifies, and is logged.
    unfoldable pub after_acquire : String → Bool → Result Bool → World S → Bool × World S
    after_acquire current self_restart (err e) w = (false, acquire_failed e w)
    after_acquire current self_restart (ok true) w =
        (true, (get_current_leader o 3 (acquired current self_restart (restore_db w))).1)
    after_acquire current self_restart (ok false) w = (false, not_acquired current (restore_db w))

    -- The state in which the lock is tried, and whether this is a restart of the same leader.
    unfoldable pub prepare : Result String → World S → Bool × World S
    prepare r w =
        let current = or_zero "" r in
        let w' = note_previous_leader current (read_failed r w) in
        let self_restart = is_restart_of_self current w' in
        (self_restart, set_self_restart self_restart w')

    -- The attempt at the lock. The storage is given the current leader for the cluster's name.
    unfoldable pub try_lock : String → Bool → ℕ → World S → Bool × World S
    try_lock current self_restart start w =
        let (result, w') =
          timed o "setNX" start
            (o.storage.try_acquire_lock w.lc.leader_lock_key w.lc.id current lock_ttl) w in
        after_acquire current self_restart result w'

    unfoldable pub contend : World S → Bool × World S
    contend w =
        let start = now o w in
        let (r, w1) = get_current_leader o 3 w in
        let (self_restart, w2) = prepare r w1 in try_lock (or_zero "" r) self_restart start w2

    -- TryAcquireLeadership
    unfoldable pub try_acquire_leadership : World S → Bool × World S
    try_acquire_leadership w = if w.lc.remain_follower then (false, w) else contend w
