-- ===== src/Storage/Memory.antt =====
-- pkg/storage/memory_storage.go: InMemoryStorage. Each method holds the storage's mutex from its
-- first line to its end, so a method is one step: a function from the locks to its result and the
-- locks that it leaves. `now` is what its call of time.Now gives.
pub mod Laws
pub mod Exclusion
pub mod Entries
pub mod Tests
use k8_highlander.Prelude.{
  ℕ, ◌+◌, ◌-◌, ◌%◌, ◌^◌, String, Bool, true, false, Option, none, some, [], Map, lookup, insert,
  delete, ltb, ◌==◌, ◌!=◌, if◌then◌else◌,
}
use k8_highlander.Storage.Lock.{LockMetadata}

pub record InMemoryStorage : Type 0 where
  pub locks : Map LockMetadata

-- NewInMemoryStorage
unfoldable pub new_in_memory_storage : InMemoryStorage
new_in_memory_storage = record { locks = [] }

-- uint64
abbrev pub next_version : ℕ → ℕ
next_version v = (v + 1) % 2 ^ 64

-- The entry of a new lock, and an entry renewed in place.
pub new_entry : String → String → ℕ → ℕ → LockMetadata
new_entry value cluster_name ttl now = record {
  value = value;
  cluster_name = cluster_name;
  created_at = now;
  updated_at = now;
  expires_at = now + ttl;
  ttl = ttl;
  version = 1;
}

pub renew_entry : LockMetadata → ℕ → ℕ → LockMetadata
renew_entry entry ttl now = record entry {
  updated_at = now;
  expires_at = now + ttl;
  ttl = ttl;
  version = next_version entry.version;
}

-- s.locks[key] = entry
put : String → LockMetadata → InMemoryStorage → InMemoryStorage
put key entry s = record s { locks = insert key entry s.locks }

acquire_over :
    Option LockMetadata
    → String
    → String
    → String
    → ℕ
    → ℕ
    → InMemoryStorage
    → Bool × InMemoryStorage
unfolding put new_entry renew_entry
acquire_over none key value cluster_name ttl now s =
    (true, put key (new_entry value cluster_name ttl now) s)
acquire_over (some entry) key value cluster_name ttl now s =
    if ltb entry.expires_at now
    then (true, put key (new_entry value cluster_name ttl now) s)
    else (if entry.value == value
        then (true, put key (renew_entry entry ttl now) s)
        else (false, s))

-- TryAcquireLock
unfoldable pub try_acquire_lock :
    String → String → String → ℕ → ℕ → InMemoryStorage → Bool × InMemoryStorage
unfolding acquire_over
try_acquire_lock key value cluster_name ttl now s =
    acquire_over (lookup key s.locks) key value cluster_name ttl now s

renew_over :
    Option LockMetadata → String → String → ℕ → ℕ → InMemoryStorage → Bool × InMemoryStorage
unfolding put renew_entry
renew_over none key value ttl now s = (false, s)
renew_over (some entry) key value ttl now s =
    if entry.value != value
    then (false, s)
    else (if ltb entry.expires_at now
        then (false, s)
        else (true, put key (renew_entry entry ttl now) s))

-- RenewLock
unfoldable pub renew_lock : String → String → ℕ → ℕ → InMemoryStorage → Bool × InMemoryStorage
unfolding renew_over
renew_lock key value ttl now s = renew_over (lookup key s.locks) key value ttl now s

release_over : Option LockMetadata → String → String → InMemoryStorage → Bool × InMemoryStorage
release_over none key value s = (false, s)
release_over (some entry) key value s =
    if entry.value == value then (true, record s { locks = delete key s.locks }) else (false, s)

-- ReleaseLock
unfoldable pub release_lock : String → String → InMemoryStorage → Bool × InMemoryStorage
unfolding release_over
release_lock key value s = release_over (lookup key s.locks) key value s

-- time.Until(expires), at 0 when it has passed
remaining : ℕ → ℕ → ℕ
remaining expires later = if ltb expires later then 0 else expires - later

info_of : Option LockMetadata → ℕ → ℕ → Option LockMetadata
unfolding remaining
info_of none now later = none
info_of (some entry) now later =
    if ltb entry.expires_at now
    then none
    else some (record entry { ttl = remaining entry.expires_at later })

-- GetLockInfo. `later` is the time that time.Until reads.
unfoldable pub get_lock_info : String → ℕ → ℕ → InMemoryStorage → Option LockMetadata
unfolding info_of
get_lock_info key now later s = info_of (lookup key s.locks) now later

value_of : Option LockMetadata → String
value_of none = ""
value_of (some metadata) = metadata.value

-- GetLockValue
unfoldable pub get_lock_value : String → ℕ → ℕ → InMemoryStorage → String
unfolding value_of get_lock_info
get_lock_value key now later s = value_of (get_lock_info key now later s)

ttl_of : Option LockMetadata → ℕ
ttl_of none = 0
ttl_of (some metadata) = metadata.ttl

-- GetLockTTL
unfoldable pub get_lock_ttl : String → ℕ → ℕ → InMemoryStorage → ℕ
unfolding ttl_of get_lock_info
get_lock_ttl key now later s = ttl_of (get_lock_info key now later s)

-- Close
unfoldable pub close : InMemoryStorage → InMemoryStorage
close s = record s { locks = [] }
