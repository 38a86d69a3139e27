-- ===== src/Storage/Sql/Rivals.antt =====
-- The SQL storage as its users see it: other instances' calls while a lease runs.
use k8_highlander.Prelude.{
  ℕ, ◌≤◌, String, true, false, Option, Result, ok, err, List, [], ◌∷◌, ◌≡◌, ◌≢◌, refl, arith,
  Action, continue_with, ◌==◌,
}
use k8_highlander.Storage.Sql.{LeaderLock, Database}
use k8_highlander.Storage.Sql.Lease.{SqlContract, Stands, Standing}
use k8_highlander.Storage.Sql.Frame.{Keeps-acquire_once}
use k8_highlander.Storage.Sql.Frame.Calls.{
  Keeps-renew, Keeps-release, Keeps-read_running, Keeps-cleanup,
}
use k8_highlander.Storage.Sql.Retries.{Late-renew, retried-Stands, retried-Late}
use k8_highlander.Storage.Sql.Exclusion.{Late-acquire_once}
use k8_highlander.Storage.Sql.Acquire.{try_acquire_lock}
use k8_highlander.Storage.Sql.Calls.{
  renew_lock, release_lock, get_lock_info, get_lock_value, get_lock_ttl, info_answer, value_answer,
  ttl_answer, read_lock, cleanup_expired_locks,
}

-- A call of the storage, by an instance or by the cleanup.
pub data SqlCall : Type 0 where
  acquires : (key value cluster_name : String) (ttl : ℕ) → SqlCall
  renews : (key value : String) (ttl : ℕ) → SqlCall
  releases : (key value : String) → SqlCall
  reads_info reads_value reads_ttl : (key : String) → SqlCall
  cleans : SqlCall

-- A call that is not under the owner's name.
unfoldable pub IsOther : String → SqlCall → Type 0
IsOther owner (acquires key value cluster_name ttl) = value ≢ owner
IsOther owner (renews key value ttl) = value ≢ owner
IsOther owner (releases key value) = value ≢ owner
IsOther owner (reads_info key) = Unit {0}
IsOther owner (reads_value key) = Unit {0}
IsOther owner (reads_ttl key) = Unit {0}
IsOther owner cleans = Unit {0}

abbrev pub AllOther : String → List SqlCall → Type 0
AllOther owner [] = Unit {0}
AllOther owner (q ∷ qs) = IsOther owner q × AllOther owner qs

unfoldable pub perform : {S : Type 0} → Database S → SqlCall → S → S
perform db (acquires key value cluster_name ttl) s =
    (try_acquire_lock db key value cluster_name ttl s).1
perform db (renews key value ttl) s = (renew_lock db key value ttl s).1
perform db (releases key value) s = (release_lock db key value s).1
perform db (reads_info key) s = (get_lock_info db key s).1
perform db (reads_value key) s = (get_lock_value db key s).1
perform db (reads_ttl key) s = (get_lock_ttl db key s).1
perform db cleans s = (cleanup_expired_locks db s).1

unfoldable pub run : {S : Type 0} → Database S → List SqlCall → S → S
run db [] s = s
run db (q ∷ qs) s = run db qs (perform db q s)

module _ {S : Type 0} (db : Database S) (row : S → String → Option LeaderLock) (key owner : String)
    (t : ℕ) (c : SqlContract db row key owner t) where
  read-Stands :
      (operation k : String) (s : S) → Stands db row key owner t s (read_lock db operation k s).1
  unfolding read_lock
  read-Stands operation k s =
      retried-Stands db row key owner t c operation _ _ _ s
        (Keeps-read_running db row key owner t c k 0)

  -- A read, and what is made of the row that it gives.
  answer-Stands :
      {A B : Type 0} (r : Result A) (f : A → Action S B) (s s' : S)
      → Stands db row key owner t s s'
      → ((a : A) → (f a s').1 ≡ s')
      → Stands db row key owner t s (continue_with r f s').1
  unfolding continue_with
  answer-Stands (ok a) f s s' p e = rw (e a) p
  answer-Stands (err x) f s s' p e = p

  module _ (d : (db.dialect == "sqlite") ≡ false) where
    perform-Stands :
        (q : SqlCall) (s : S) → IsOther owner q → Stands db row key owner t s (perform db q s)
    unfolding continue_with info_answer value_answer ttl_answer perform IsOther try_acquire_lock
        renew_lock release_lock get_lock_info get_lock_value get_lock_ttl cleanup_expired_locks
    perform-Stands (acquires k v n ttl) s o =
        retried-Stands db row key owner t c _ _ _ _ s
          (Keeps-acquire_once db row key owner t c k v n ttl o 0 d)
    perform-Stands (renews k v ttl) s o =
        retried-Stands db row key owner t c _ _ _ _ s (Keeps-renew db row key owner t c k v o ttl 0)
    perform-Stands (releases k v) s o =
        retried-Stands db row key owner t c _ _ _ _ s (Keeps-release db row key owner t c k v o 0)
    perform-Stands (reads_info k) s o =
        answer-Stands _ (info_answer db) s _ (read-Stands "GetLockInfo" k s) (λ l. refl)
    perform-Stands (reads_value k) s o =
        answer-Stands _ (value_answer db) s _ (read-Stands "GetLockValue" k s) (λ l. refl)
    perform-Stands (reads_ttl k) s o =
        answer-Stands _ (ttl_answer db) s _ (read-Stands "GetLockTTL" k s) (λ l. refl)
    perform-Stands cleans s o = (Keeps-cleanup db row key owner t c 0).kept _ (omega arith)

    -- On a database other than SQLite that keeps the contract: whatever calls other instances and
    -- the cleanup make, in any order and number, the row of a lease stays its owner's, and does not
    -- expire earlier, up to the end of the lease.
    pub run-Standing :
        (qs : List SqlCall) (s : S)
        → AllOther owner qs
        → Standing db row key owner t s
        → Standing db row key owner t (run db qs s)
    unfolding run
    run-Standing [] s o st = st
    run-Standing (q ∷ qs) s o st = run-Standing qs _ o.1 (perform-Stands q s o.0 st).1

    module _ (value cluster_name : String) (ttl : ℕ) (other : value ≢ owner) where
      -- On a database other than SQLite that keeps the contract: when TryAcquireLock or RenewLock
      -- gives true to an instance, every lease of the lock that another had before the call is over
      -- at its end.
      pub granted-over :
          (s : S)
          → Standing db row key owner t s
          → ((try_acquire_lock db key value cluster_name ttl s).0 ≡ ok true
              → t ≤ db.now (try_acquire_lock db key value cluster_name ttl s).1)
            × ((renew_lock db key value ttl s).0 ≡ ok true
                → t ≤ db.now (renew_lock db key value ttl s).1)
      unfolding try_acquire_lock renew_lock
      granted-over s st = (
        retried-Late db row key owner t c _ _ s
            (Keeps-acquire_once db row key owner t c key value cluster_name ttl other 0 d)
            (Late-acquire_once db row key owner t c value cluster_name ttl other 0 d) st,
        retried-Late db row key owner t c _ _ s
            (Keeps-renew db row key owner t c key value other ttl 0)
            (Late-renew db row key owner t c value ttl other) st,
      )
