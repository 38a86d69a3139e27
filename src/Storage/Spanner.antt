-- ===== src/Storage/Spanner.antt =====
-- pkg/storage/spanner_storage.go: SpannerStorage, over the Spanner client, which is outside. The
-- body of a transaction is a function of what its statements and the clock answer: to an error,
-- or to the value of the variable that it captures and the writes that it makes, in their order.
pub mod Table
pub mod Leases
pub mod Steps
pub mod Calls
pub mod Tests
use k8_highlander.Prelude.{
  ℕ, ◌+◌, ◌-◌, ◌%◌, ◌^◌, String, Bool, true, false, Option, none, some, List, [], ◌∷◌, Result, ok,
  err, GoError, wrap, ltb, ◌==◌, if◌then◌else◌,
}
use k8_highlander.Storage.Lock.{LockMetadata}
use k8_highlander.Storage.Memory.{next_version}

-- A row of LeaderLocks, beside its key. The version is an INT64, as its 64 bits.
pub record SpannerRow : Type 0 where
  pub value : String
  pub cluster_name : String
  pub metadata : String
  pub created_at : ℕ
  pub updated_at : ℕ
  pub expires_at : ℕ
  pub version : ℕ

-- The columns that an UpdateMap sets; `commit_updated_at` is updated_at at the time of the commit.
pub data Column : Type 0 where
  set_value set_cluster_name set_metadata : String → Column
  set_expires_at set_version : ℕ → Column
  commit_updated_at : Column

-- The writes of a transaction: its deletions by DML, of the rows of a key that expire by
-- CURRENT_TIMESTAMP() or of all rows that expire before it, and its mutations. The times of an
-- inserted row are those of the commit.
pub data Write : Type 0 where
  delete_expired : String → Write
  delete_all_expired : Write
  insert_map : String → SpannerRow → Write
  update_map : String → List Column → Write
  delete_row : String → Write

-- What the statements answer: the rows of a key that are not expired, those of them with a given
-- value, and the value of a key's row; whether a deletion fails; the clock and encoding/json.
pub record Answers : Type 0 where
  pub live_row : String → Result (Option SpannerRow)
  pub own_row : String → String → Result (Option SpannerRow)
  pub value_at : String → Result (Option String)
  pub deletion : Option GoError
  pub now : ℕ
  pub marshal : LockMetadata → Result String

abbrev pub Body : Type 0
Body = Answers → Result (Bool × List Write)

-- ReadWriteTransaction gives its error and the value of the captured variable; then Single's
-- query, and the clock.
pub record SpannerClient (S : Type 0) : Type 0 where
  pub read_write_transaction : Body → S → (Option GoError × Bool) × S
  pub query_live : String → S → Result (Option SpannerRow) × S
  pub now : S → ℕ

unfoldable pub write_text : Result String → (String → Write) → Result (Bool × List Write)
write_text (err e) write = err (wrap "failed to marshal metadata: " e "")
write_text (ok text) write = ok (true, write text ∷ [])

unfoldable pub with_metadata :
    Answers → LockMetadata → (String → Write) → Result (Bool × List Write)
with_metadata a meta write = write_text (a.marshal meta) write

unfoldable pub then_writes : Write → Result (Bool × List Write) → Result (Bool × List Write)
then_writes w (ok (b, ws)) = ok (b, w ∷ ws)
then_writes w (err e) = err e

unfoldable pub first_metadata : String → String → ℕ → ℕ → LockMetadata
first_metadata value cluster_name ttl now = record {
  value = value;
  cluster_name = cluster_name;
  created_at = now;
  updated_at = now;
  expires_at = now + ttl;
  ttl = ttl;
  version = now % 2 ^ 64;
}

unfoldable pub first_row : String → String → ℕ → ℕ → String → SpannerRow
first_row value cluster_name ttl now text = record {
  value = value;
  cluster_name = cluster_name;
  metadata = text;
  created_at = 0;
  updated_at = 0;
  expires_at = now + ttl;
  version = (first_metadata value cluster_name ttl now).version;
}

-- No active lock exists: a new one, once the expired ones are deleted.
unfoldable pub acquire_new : Option GoError → String → String → String → ℕ → Body
acquire_new (some e) key value cluster_name ttl a =
    err (wrap "failed to cleanup expired locks: " e "")
acquire_new none key value cluster_name ttl a = then_writes (delete_expired key) (
    with_metadata a (first_metadata value cluster_name ttl a.now)
      λ text. insert_map key (first_row value cluster_name ttl a.now text))

-- The metadata of a lock that is renewed.
unfoldable pub later_metadata : String → String → ℕ → ℕ → SpannerRow → LockMetadata
later_metadata value cluster_name ttl now row = record {
  value = value;
  cluster_name = cluster_name;
  created_at = row.created_at;
  updated_at = now;
  expires_at = now + ttl;
  ttl = ttl;
  version = next_version row.version;
}

unfoldable pub acquire_own : String → String → String → ℕ → SpannerRow → Body
acquire_own key value cluster_name ttl row a =
    let meta = later_metadata value cluster_name ttl a.now row in
    with_metadata a meta λ text. update_map key (
      set_value value
      ∷ set_cluster_name cluster_name
      ∷ set_metadata text
      ∷ commit_updated_at
      ∷ set_expires_at (a.now + ttl)
      ∷ set_version meta.version
      ∷ [])

unfoldable pub acquire_seen : Option SpannerRow → String → String → String → ℕ → Body
acquire_seen none key value cluster_name ttl a = acquire_new a.deletion key value cluster_name ttl a
acquire_seen (some row) key value cluster_name ttl a =
    let own = acquire_own key value cluster_name ttl row a in
    if row.value == value then own else ok (false, [])

unfoldable pub acquire_queried : Result (Option SpannerRow) → String → String → String → ℕ → Body
acquire_queried (err e) key value cluster_name ttl a =
    err (wrap "failed to query existing lock: " e "")
acquire_queried (ok row) key value cluster_name ttl a =
    acquire_seen row key value cluster_name ttl a

-- The transaction of TryAcquireLock.
unfoldable pub acquire_transaction : String → String → String → ℕ → Body
acquire_transaction key value cluster_name ttl a =
    acquire_queried (a.live_row key) key value cluster_name ttl a

unfoldable pub renew_seen : Option SpannerRow → String → String → ℕ → Body
renew_seen none key value ttl a = ok (false, [])
renew_seen (some row) key value ttl a =
    let meta = later_metadata value row.cluster_name ttl a.now row in
    with_metadata a meta λ text. update_map key (
      set_metadata text
      ∷ commit_updated_at
      ∷ set_expires_at (a.now + ttl)
      ∷ set_version meta.version
      ∷ [])

unfoldable pub renew_queried : Result (Option SpannerRow) → String → String → ℕ → Body
renew_queried (err e) key value ttl a = err (wrap "failed to query lock for renewal: " e "")
renew_queried (ok row) key value ttl a = renew_seen row key value ttl a

-- The transaction of RenewLock.
unfoldable pub renew_transaction : String → String → ℕ → Body
renew_transaction key value ttl a = renew_queried (a.own_row key value) key value ttl a

-- currentValue: "" where there is no row
unfoldable pub current_value : Option String → String
current_value none = ""
current_value (some v) = v

unfoldable pub release_seen : String → String → String → Result (Bool × List Write)
release_seen key value current =
    if current == ""
    then ok (false, [])
    else if current == value
    then ok (true, delete_row key ∷ [])
    else ok (false, [])

unfoldable pub release_queried :
    Result (Option String) → String → String → Result (Bool × List Write)
release_queried (err e) key value = err (wrap "failed to query lock for release: " e "")
release_queried (ok v) key value = release_seen key value (current_value v)

-- The transaction of ReleaseLock.
unfoldable pub release_transaction : String → String → Body
release_transaction key value a = release_queried (a.value_at key) key value

-- The transaction of cleanupExpiredLocks.
unfoldable pub cleanup_transaction : Body
cleanup_transaction a = elim a.deletion [
  | some e ↦ err e
  | none ↦ ok (false, delete_all_expired ∷ [])
]

module _ {S : Type 0} (c : SpannerClient S) where
  -- TryAcquireLock
  unfoldable pub try_acquire_lock : String → String → String → ℕ → S → Result Bool × S
  try_acquire_lock key value cluster_name ttl s =
      let ((e, acquired), s') =
        c.read_write_transaction (acquire_transaction key value cluster_name ttl) s in
      (elim e [ some x ↦ err (wrap "transaction failed: " x "") | none ↦ ok acquired ], s')

  -- RenewLock and ReleaseLock give the variable together with the error, whatever that is.
  unfoldable pub renew_lock : String → String → ℕ → S → (Option GoError × Bool) × S
  renew_lock key value ttl s = c.read_write_transaction (renew_transaction key value ttl) s

  unfoldable pub release_lock : String → String → S → (Option GoError × Bool) × S
  release_lock key value s = c.read_write_transaction (release_transaction key value) s

  -- cleanupExpiredLocks
  unfoldable pub cleanup_expired_locks : S → Option GoError × S
  cleanup_expired_locks s =
      let ((e, captured), s') = c.read_write_transaction cleanup_transaction s in (e, s')

  unfoldable pub info_of_live : Option SpannerRow → ℕ → Option LockMetadata
  info_of_live none now = none
  info_of_live (some row) now = some (record {
    value = row.value;
    cluster_name = row.cluster_name;
    created_at = row.created_at;
    updated_at = row.updated_at;
    expires_at = row.expires_at;
    ttl = row.expires_at - now;
    version = row.version;
  })

  -- GetLockInfo. The TTL is 0 once the lock has expired.
  unfoldable pub get_lock_info : String → S → Result (Option LockMetadata) × S
  get_lock_info key s =
      let (r, s') = c.query_live key s in
      (
        elim r [
          | err e ↦ err (wrap "failed to get lock info: " e "")
          | ok row ↦ ok (info_of_live row (c.now s'))
        ],
        s',
      )

  -- GetLockValue and GetLockTTL
  unfoldable pub get_lock_value : String → S → Result String × S
  get_lock_value key s =
      let (r, s') = get_lock_info key s in
      (elim r [ err e ↦ err e | ok meta ↦ ok (elim meta [ none ↦ "" | some m ↦ m.value ]) ], s')

  unfoldable pub get_lock_ttl : String → S → Result ℕ × S
  get_lock_ttl key s =
      let (r, s') = get_lock_info key s in
      (elim r [ err e ↦ err e | ok meta ↦ ok (elim meta [ none ↦ 0 | some m ↦ m.ttl ]) ], s')
