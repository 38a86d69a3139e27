-- ===== src/Storage/Redis/Tests.antt =====
-- Runs of the Redis storage, and what its theorems give there.
use mathlib.Core.Bool.{false≢true}
use k8_highlander.Prelude.{
  ◌≤◌, ◌*◌, String, true, false, none, some, ok, List, [], ◌∷◌, ◌≡◌, ◌≢◌, refl, arith, eq_iff, ◌==◌,
  if◌then◌else◌, continue_with,
}
use k8_highlander.Monitoring.{second}
use k8_highlander.Storage.Redis.{
  try_acquire_lock, new_lock_metadata, renew_lock, release_lock, get_lock_info, info_from, describe,
  described, renew_read, renewed, renew_script, release_script, if_owned, is_value,
  verify_if_released, verify_released, still_there, or_no_ttl,
}
use k8_highlander.Storage.Redis.Lease.{Standing}
use k8_highlander.Storage.Redis.Server.{Server, server, ends_at, server-RedisContract}
use k8_highlander.Storage.Redis.Rivals.{
  RedisCall, acquires, renews, releases, reads_value, IsOther, run, redis_granted-over,
  redis_run-Standing,
}

-- "a" holds "lock" up to 100.
abbrev held : Server
held = record {
  time = 10;
  texts = λ k. if k == "lock" then some "a" else none;
  ends = λ k. if k == "lock" then 100 else 0;
}

b≢a : ◌≢◌ {A = String} "b" "a"
b≢a p = false≢true ((eq_iff "b" "a").1 p)

held-Standing : Standing server ends_at "lock" "a" 100 held
unfolding server
held-Standing h = ("a", refl, refl, omega arith)

redis_granted-over_example :
    ((try_acquire_lock server "lock" "b" "" 5 held).0 ≡ ok true
      → 100 ≤ server.now (try_acquire_lock server "lock" "b" "" 5 held).1)
    × ((renew_lock server "lock" "b" 5 held).0 ≡ ok true
        → 100 ≤ server.now (renew_lock server "lock" "b" 5 held).1)
redis_granted-over_example =
    redis_granted-over server ends_at "lock" "a" 100 (server-RedisContract "lock" "a" 100) "b" b≢a
      "" 5 held held-Standing

abbrev rivals : List RedisCall
rivals =
    acquires "lock" "b" "" 5 ∷ renews "lock" "b" 5 ∷ releases "lock" "b" ∷ reads_value "lock" ∷ []

redis_run-Standing_example : Standing server ends_at "lock" "a" 100 (run server rivals held)
unfolding IsOther
redis_run-Standing_example =
    redis_run-Standing server ends_at "lock" "a" 100 (server-RedisContract "lock" "a" 100) rivals
      held (b≢a, (b≢a, (b≢a, (tt, tt)))) held-Standing

another_refused : (try_acquire_lock server "lock" "b" "" 5 held).0 ≡ ok false
unfolding try_acquire_lock new_lock_metadata continue_with server
another_refused = refl

holder_refused : (try_acquire_lock server "lock" "a" "" 5 held).0 ≡ ok false
unfolding try_acquire_lock new_lock_metadata continue_with server
holder_refused = refl

expired_taken : (try_acquire_lock server "lock" "b" "" 5 (record held { time = 100 })).0 ≡ ok true
unfolding try_acquire_lock new_lock_metadata continue_with server
expired_taken = refl

own_renewed : (renew_lock server "lock" "a" (15 * second) held).0 ≡ ok true
unfolding renew_lock get_lock_info info_from describe described renew_read renewed renew_script
    if_owned is_value or_no_ttl continue_with server
own_renewed = refl

own_released : (release_lock server "lock" "a" held).0 ≡ ok true
unfolding release_lock release_script if_owned is_value verify_if_released verify_released
    still_there continue_with server
own_released = refl
