-- ===== src/Storage/Sql/Tests.antt =====
-- Runs of the SQL storage, and what its theorems give there.
use k8_highlander.Prelude.{
  ◌≤◌, String, Bool, true, false, none, some, Result, continue_with, on, store, contains, ok, List,
  [], ◌∷◌, ◌≡◌, ◌≢◌, refl, arith, eq_iff, ◌==◌, if◌then◌else◌, ltb,
}
use mathlib.Core.Bool.{false≢true}
use k8_highlander.Storage.Sql.{LeaderLock, Database, matches, satisfies, is_conflict, affected}
use k8_highlander.Storage.Sql.Acquire.{
  try_acquire_lock, acquire_once, take_or_meet, meet, take, replace_row, insert_row, after_create,
  new_row, new_metadata, verify_created, verified,
}
use k8_highlander.Storage.Sql.Calls.{renew_lock}
use k8_highlander.Storage.Sql.Lease.{Standing}
use k8_highlander.Storage.Sql.Table.{Table, table, keep_if}
use k8_highlander.Storage.Sql.Table.Contract.{row, table-SqlContract}
use k8_highlander.Storage.Sql.Rivals.{
  SqlCall, acquires, renews, releases, reads_value, cleans, IsOther, run, run-Standing,
  granted-over,
}

-- "a" holds "lock" up to 100.
abbrev held_row : LeaderLock
held_row = record {
  key = "lock";
  value = "a";
  cluster_name = "";
  metadata = "";
  created_at = 0;
  updated_at = 0;
  expires_at = 100;
  version = 0;
}

abbrev held : Table
held = record { time = 10; rows = λ k. if k == "lock" then some held_row else none }

b≢a : ◌≢◌ {A = String} "b" "a"
b≢a p = false≢true ((eq_iff "b" "a").1 p)

held-Standing : Standing (table "postgres") row "lock" "a" 100 held
unfolding keep_if matches satisfies
held-Standing h = (held_row, refl, refl, omega arith)

granted-over_example :
    ((try_acquire_lock (table "postgres") "lock" "b" "" 5 held).0 ≡ ok true
      → 100 ≤ (table "postgres").now (try_acquire_lock (table "postgres") "lock" "b" "" 5 held).1)
    × ((renew_lock (table "postgres") "lock" "b" 5 held).0 ≡ ok true
        → 100 ≤ (table "postgres").now (renew_lock (table "postgres") "lock" "b" 5 held).1)
unfolding table
granted-over_example =
    granted-over (table "postgres") row "lock" "a" 100 (table-SqlContract "postgres" "lock" "a" 100)
      refl "b" "" 5 b≢a held held-Standing

-- The result and `success` of one attempt.
run_once : Database Table → String → Table → Result (Unit {0}) × Bool
run_once db value s =
    let (r, c) = acquire_once db "lock" value "" 5 (record { local = false; outside = s }) in
    (r, c.local)

abbrev rivals : List SqlCall
rivals =
    acquires "lock" "b" "" 5
    ∷ cleans
    ∷ renews "lock" "b" 5
    ∷ releases "lock" "b"
    ∷ reads_value "lock"
    ∷ []

run-Standing_example :
    Standing (table "postgres") row "lock" "a" 100 (run (table "postgres") rivals held)
unfolding table IsOther
run-Standing_example =
    run-Standing (table "postgres") row "lock" "a" 100 (table-SqlContract "postgres" "lock" "a" 100)
      refl rivals held (b≢a, (tt, (b≢a, (b≢a, (tt, tt))))) held-Standing

another_refused : run_once (table "postgres") "b" held ≡ (ok tt, false)
unfolding acquire_once continue_with on store table take_or_meet matches satisfies meet take
    replace_row insert_row after_create new_row new_metadata verify_created verified is_conflict
    contains affected run_once
another_refused = refl

expired_taken : run_once (table "postgres") "b" (record held { time = 100 }) ≡ (ok tt, true)
unfolding acquire_once continue_with on store table take_or_meet matches satisfies meet take
    replace_row insert_row after_create new_row new_metadata verify_created verified is_conflict
    contains affected run_once
expired_taken = refl

-- A database in which the first read of the lock comes just before "a" takes it.
overtaken : String → Database Table
overtaken dialect = record (table dialect) {
  first = λ w s. if ltb s.time 10 then (ok none, held) else (table dialect).first w s;
}

abbrev free : Table
free = record { time = 0; rows = λ k. none }

-- Then "b" is refused, but on SQLite it takes the lock that "a" holds.
overtaken_refused : run_once (overtaken "postgres") "b" free ≡ (ok tt, false)
unfolding acquire_once continue_with on store table take_or_meet matches satisfies meet take
    replace_row insert_row after_create new_row new_metadata verify_created verified is_conflict
    contains affected run_once overtaken
overtaken_refused = refl

overtaken_steals : run_once (overtaken "sqlite") "b" free ≡ (ok tt, true)
unfolding acquire_once continue_with on store table take_or_meet matches satisfies meet take
    replace_row insert_row after_create new_row new_metadata verify_created verified is_conflict
    contains affected run_once overtaken
overtaken_steals = refl
