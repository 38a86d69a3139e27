-- ===== src/Storage/Retry/Tests.antt =====
-- Retries of concrete operations, and the theorems at them.
use k8_highlander.Prelude.{
  ℕ, suc, ◌+◌, false, Option, none, some, GoError, new_error, ◌≡◌, refl, arith, ltb, if◌then◌else◌,
  is_none,
}
use k8_highlander.Storage.Retry.{
  contains_at_end, any_at_end, is_lock_error, retry_on_lock_error, initial_backoff, max_retries,
}
use k8_highlander.Storage.Retry.Outcome.{
  is_locked, before, all_locked, retry_settles, retry_gives_up,
}

-- A database that is locked until its clock stands at `free`.
abbrev locked_until : ℕ → ℕ → Option GoError × ℕ
locked_until free now =
    (if ltb now free then some (new_error "SQLITE_BUSY: database is locked") else none, suc now)

abbrev wait : ℕ → ℕ → ℕ
wait d now = now + d

-- The text of another driver's lock error, which ends in a code.
with_a_code : is_lock_error (new_error "database is locked (5) (SQLITE_BUSY)") ≡ false
unfolding is_lock_error any_at_end contains_at_end
with_a_code = refl

retry_settles_example :
    retry_on_lock_error "renew" (locked_until 20000000) wait 0
    ≡ locked_until 20000000 (before "renew" (locked_until 20000000) wait 2 initial_backoff 0)
unfolding all_locked is_locked is_lock_error any_at_end contains_at_end before
retry_settles_example =
    retry_settles "renew" (locked_until 20000000) wait 2 0 (omega arith) refl refl

retry_gives_up_example :
    ((retry_on_lock_error "renew" (locked_until 900000000) wait 0).1
      ≡ before "renew" (locked_until 900000000) wait max_retries initial_backoff 0)
    × (is_none (retry_on_lock_error "renew" (locked_until 900000000) wait 0).0 ≡ false)
unfolding all_locked is_locked is_lock_error any_at_end contains_at_end
retry_gives_up_example = retry_gives_up "renew" (locked_until 900000000) wait 0 refl
