-- ===== src/Storage/Sql/Acquire.antt =====
-- pkg/storage/db_storage.go: TryAcquireLock of DBStorage.
use k8_highlander.Prelude.{
  ℕ, ◌+◌, ◌%◌, ◌^◌, String, Bool, true, false, Option, none, some, Result, ok, err, [], ◌∷◌, ltb,
  ◌==◌, ◌!=◌, if◌then◌else◌, Action, pure, fail, ◌>>=◌, ◌>>◌, gets, Scope, on, attempt_of,
}
use k8_highlander.Storage.Lock.{LockMetadata}
use k8_highlander.Storage.Sql.{
  LeaderLock, Database, key_is, value_is, expires_after, expires_by, set_updated_at, set_expires_at,
  next_version_of_row, given, time_now, retried, set_success, is_conflict, affected,
}

-- The metadata of a new lock. `now.UnixNano()` as a uint64 is its first version.
unfoldable pub new_metadata : String → String → ℕ → ℕ → LockMetadata
new_metadata value cluster_name ttl now = record {
  value = value;
  cluster_name = cluster_name;
  created_at = now;
  updated_at = now;
  expires_at = now + ttl;
  ttl = ttl;
  version = now % 2 ^ 64;
}

unfoldable pub new_row : String → String → String → ℕ → ℕ → String → LeaderLock
new_row key value cluster_name ttl now metadata = record {
  key = key;
  value = value;
  cluster_name = cluster_name;
  metadata = metadata;
  created_at = now;
  updated_at = now;
  expires_at = now + ttl;
  version = now % 2 ^ 64;
}

module _ {S : Type 0} (db : Database S) (key value cluster_name : String) (ttl : ℕ) where
  -- The lock runs: another's is left alone, an own one is extended.
  unfoldable pub meet : LeaderLock → Action (Scope Bool S) Unit
  meet existing =
      let extend = do
        now ← time_now db
        n ← on (
            db.update (key_is key ∷ value_is value ∷ [])
              (set_updated_at now ∷ set_expires_at (now + ttl) ∷ next_version_of_row ∷ []))
        set_success db (affected db n)
      in if existing.value != value then set_success db false else extend

  -- The error of an insert: another acquired the lock in the meantime, or a failure.
  unfoldable pub after_create : Result (Unit {0}) → Action (Scope Bool S) Unit
  after_create (ok u) = set_success db true
  after_create (err e) = if is_conflict db e then set_success db false else fail e

  unfoldable pub insert_row : LeaderLock → Action (Scope Bool S) Unit
  insert_row lock = do r ← attempt_of (on (db.create lock)); after_create r

  -- The old row goes: on sqlite any row of the key, else an expired one.
  unfoldable pub replace_row : ℕ → LeaderLock → Action (Scope Bool S) Unit
  replace_row now lock =
      let on_sqlite = do on (db.delete (key_is key ∷ [])); insert_row lock
      in let on_others = do
        on (db.delete (key_is key ∷ expires_by now ∷ []))
        n ← on (db.count (key_is key ∷ expires_after now ∷ []))
        if ltb 0 n then set_success db false else insert_row lock
        in if db.dialect == "sqlite" then on_sqlite else on_others

  -- The lock is created with our value, or it does not count.
  unfoldable pub verified : Result (Option LeaderLock) → Bool
  verified (err e) = false
  verified (ok none) = false
  verified (ok (some l)) = l.value == value

  unfoldable pub verify_created : Action (Scope Bool S) Unit
  verify_created = do
    r ← attempt_of (on (db.first (key_is key ∷ [])))
    if verified r then pure tt else set_success db false

  -- There is no running lock: a row is created in a transaction.
  unfoldable pub take : Action (Scope Bool S) Unit
  take = do
    now ← time_now db
    text ← given (db.marshal (new_metadata value cluster_name ttl now))
    db.transaction (replace_row now (new_row key value cluster_name ttl now text))
    success ← gets (λ c. c.local)
    if success then verify_created else pure tt

  unfoldable pub take_or_meet : Option LeaderLock → Action (Scope Bool S) Unit
  take_or_meet none = take
  take_or_meet (some existing) = meet existing

  -- The closure that is retried.
  unfoldable pub acquire_once : Action (Scope Bool S) Unit
  acquire_once = do
    now ← time_now db
    running ← on (db.first (key_is key ∷ expires_after now ∷ []))
    take_or_meet running

  -- TryAcquireLock
  unfoldable pub try_acquire_lock : Action S Bool
  try_acquire_lock = retried db "TryAcquireLock" false acquire_once (λ success. success)
