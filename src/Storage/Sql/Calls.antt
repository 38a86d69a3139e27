-- ===== src/Storage/Sql/Calls.antt =====
-- pkg/storage/db_storage.go: RenewLock, ReleaseLock, the reads and the cleanup of DBStorage.
use k8_highlander.Prelude.{
  ℕ, ◌+◌, String, Bool, false, Option, none, some, Result, ok, err, GoError, [], ◌∷◌, ltb, eqb,
  ◌==◌, if◌then◌else◌, ℤ, pos, difference, Action, pure, ◌>>=◌, ◌>>◌, gets, Scope, on, store,
  attempt_of,
}
use k8_highlander.Storage.Lock.{LockMetadata}
use k8_highlander.Storage.Memory.{next_version}
use k8_highlander.Storage.Sql.{
  LeaderLock, Database, key_is, value_is, version_is, expires_after, expires_before, set_updated_at,
  set_expires_at, set_metadata, set_version, given, time_now, retried, set_success, affected,
  failure_of,
}

-- A variable of type LeaderLock before anything is read into it.
abbrev pub zero_lock : LeaderLock
zero_lock = record {
  key = "";
  value = "";
  cluster_name = "";
  metadata = "";
  created_at = 0;
  updated_at = 0;
  expires_at = 0;
  version = 0;
}

-- Metadata that cannot be read is made anew from the row.
unfoldable pub metadata_or_row : Result LockMetadata → LeaderLock → ℕ → ℕ → LockMetadata
metadata_or_row (ok m) l ttl now = m
metadata_or_row (err e) l ttl now = record {
  value = l.value;
  cluster_name = l.cluster_name;
  created_at = l.created_at;
  updated_at = now;
  expires_at = now + ttl;
  ttl = ttl;
  version = l.version;
}

unfoldable pub renewed_metadata : LockMetadata → ℕ → ℕ → LockMetadata
renewed_metadata m ttl now = record m {
  updated_at = now;
  expires_at = now + ttl;
  ttl = ttl;
  version = next_version m.version;
}

module _ {S : Type 0} (db : Database S) where
  module _ (key value : String) where
    module _ (ttl : ℕ) where
      -- The row is read again, and has our value.
      unfoldable pub is_ours : Result (Option LeaderLock) → Bool
      is_ours (err e) = false
      is_ours (ok none) = false
      is_ours (ok (some l)) = l.value == value

      unfoldable pub verify_renewed : Action (Scope Bool S) Unit
      verify_renewed = do
        r ← attempt_of (on (db.first (key_is key ∷ [])))
        set_success db (is_ours r)

      -- The update is refused if the version of the row has changed since it was read.
      unfoldable pub renew_row : LeaderLock → Action (Scope Bool S) Unit
      renew_row existing = do
        now ← time_now db
        let m =
            renewed_metadata (metadata_or_row (db.unmarshal existing.metadata) existing ttl now) ttl
              now
        text ← given (db.marshal m)
        n ← on (
            db.update (key_is key ∷ value_is value ∷ version_is existing.version ∷ []) (
              set_updated_at now
              ∷ set_expires_at (now + ttl)
              ∷ set_metadata text
              ∷ set_version m.version
              ∷ []))
        if eqb n 0 then set_success db false else verify_renewed

      unfoldable pub renew_found : Option LeaderLock → Action (Scope Bool S) Unit
      renew_found none = set_success db false
      renew_found (some existing) = renew_row existing

      unfoldable pub renew_body : Action (Scope Bool S) Unit
      renew_body = do r ← on (db.first (key_is key ∷ value_is value ∷ [])); renew_found r

      -- RenewLock
      unfoldable pub renew_lock : Action S Bool
      renew_lock = retried db "RenewLock" false (db.transaction renew_body) (λ success. success)

    -- A lock that is still there after the deletion is deleted whoever holds it.
    unfoldable pub verify_gone : Action (Scope Bool S) Unit
    verify_gone = do
      n ← on (db.count (key_is key ∷ []))
      if ltb 0 n then (on (db.delete (key_is key ∷ [])) >> pure tt) else pure tt

    unfoldable pub note_gone : ℕ → Action (Scope Bool S) Unit
    note_gone n = do set_success db (affected db n); if affected db n then verify_gone else pure tt

    unfoldable pub release_body : Action (Scope Bool S) Unit
    release_body = do n ← on (db.delete (key_is key ∷ value_is value ∷ [])); note_gone n

    -- ReleaseLock
    unfoldable pub release_lock : Action S Bool
    release_lock = retried db "ReleaseLock" false (db.transaction release_body) (λ success. success)

  -- The row that is read into the captured variable; one that is not found leaves it as it is.
  unfoldable pub note_row : Option LeaderLock → Action (Scope LeaderLock S) Unit
  note_row none = pure tt
  note_row (some l) = store l

  unfoldable pub read_running : String → Action (Scope LeaderLock S) Unit
  read_running key = do
    now ← time_now db
    r ← on (db.first (key_is key ∷ expires_after now ∷ []))
    note_row r

  unfoldable pub read_lock : String → String → Action S LeaderLock
  read_lock operation key = retried db operation zero_lock (read_running key) (λ l. l)

  -- The metadata and its TTL, which time.Until gives, below zero if the lock has expired since.
  unfoldable pub info_of_row : Result LockMetadata → LeaderLock → ℕ → LockMetadata × ℤ
  info_of_row (ok m) l now =
      (record m { expires_at = l.expires_at; version = l.version }, difference l.expires_at now)
  info_of_row (err e) l now = (
    record {
      value = l.value;
      cluster_name = l.cluster_name;
      created_at = l.created_at;
      updated_at = l.updated_at;
      expires_at = l.expires_at;
      ttl = 0;
      version = l.version;
    },
    difference l.expires_at now,
  )

  unfoldable pub info_answer : LeaderLock → Action S (Option (LockMetadata × ℤ))
  info_answer l = do
    now ← gets db.now
    pure (if l.key == "" then none else some (info_of_row (db.unmarshal l.metadata) l now))

  -- GetLockInfo. The TTL stands beside the metadata, whose own is not used.
  unfoldable pub get_lock_info : String → Action S (Option (LockMetadata × ℤ))
  get_lock_info key = read_lock "GetLockInfo" key >>= info_answer

  unfoldable pub value_answer : LeaderLock → Action S String
  value_answer l = pure (if l.value == "" then "" else l.value)

  -- GetLockValue
  unfoldable pub get_lock_value : String → Action S String
  get_lock_value key = read_lock "GetLockValue" key >>= value_answer

  unfoldable pub ttl_answer : LeaderLock → Action S ℤ
  ttl_answer l = do
    now ← gets db.now
    pure (if eqb l.expires_at 0 then pos 0 else difference l.expires_at now)

  -- GetLockTTL
  unfoldable pub get_lock_ttl : String → Action S ℤ
  get_lock_ttl key = read_lock "GetLockTTL" key >>= ttl_answer

  -- The listing of the locks for the log, whose error is logged too.
  unfoldable pub list_expired : Action (Scope Unit S) Unit
  list_expired = do now ← time_now db; attempt_of (on (db.find (expires_before now ∷ []))); pure tt

  -- cleanupExpiredLocks
  unfoldable pub cleanup_body : Action (Scope Unit S) Unit
  cleanup_body = do
    now ← time_now db
    n ← on (db.count (expires_before now ∷ []))
    if ltb 0 n then list_expired else pure tt
    later ← time_now db
    on (db.delete (expires_before later ∷ []))
    pure tt

  unfoldable pub cleanup_expired_locks : S → Option GoError × S
  cleanup_expired_locks s =
      let (r, c) = db.transaction cleanup_body (record { local = tt; outside = s }) in
      (failure_of r, c.outside)
