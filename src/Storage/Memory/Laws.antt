-- ===== src/Storage/Memory/Laws.antt =====
-- InMemoryStorage against a table of leases: what the lock promises, with no metadata.
use k8_highlander.Prelude.{
  ℕ, ◌+◌, String, Bool, true, false, Option, none, some, ◌≡◌, refl, arith, eq_iff, leb, ◌==◌,
  if◌then◌else◌, lookup, lookup-insert, lookup-delete,
}
use k8_highlander.Storage.Lock.{LockMetadata, Lease}
use k8_highlander.Storage.Memory.{
  InMemoryStorage, new_entry, renew_entry, acquire_over, renew_over, try_acquire_lock, renew_lock,
  release_lock,
}

unfoldable pub lease_of : Option LockMetadata → Option Lease
lease_of none = none
lease_of (some e) = some (record { owner = e.value; until = e.expires_at })

-- The leases that a storage stands for.
unfoldable pub leases : InMemoryStorage → String → Option Lease
unfolding lease_of
leases s key = lease_of (lookup key s.locks)

-- The lease is running at `now`, and is another's than `value`.
unfoldable pub blocked : Option Lease → String → ℕ → Bool
blocked none value now = false
blocked (some l) value now = if l.owner == value then false else leb now l.until

-- `value` has the lease, whether it runs or not.
unfoldable pub owned : Option Lease → String → Bool
owned none value = false
owned (some l) value = l.owner == value

unfoldable pub running : Option Lease → ℕ → Bool
running none now = false
running (some l) now = leb now l.until

-- The calls that change locks, each with its time where it reads one.
pub data Call : Type 0 where
  acquires : (key value cluster_name : String) (ttl now : ℕ) → Call
  renews : (key value : String) (ttl now : ℕ) → Call
  releases : (key value : String) → Call

unfoldable pub step : Call → InMemoryStorage → Bool × InMemoryStorage
step (acquires key value cluster_name ttl now) s = try_acquire_lock key value cluster_name ttl now s
step (renews key value ttl now) s = renew_lock key value ttl now s
step (releases key value) s = release_lock key value s

-- What a call promises: whether it is granted, by the lease of its key before it.
unfoldable pub granted : Call → Option Lease → Bool
unfolding blocked owned running
granted (acquires key value cluster_name ttl now) l = if blocked l value now then false else true
granted (renews key value ttl now) l = if owned l value then running l now else false
granted (releases key value) l = owned l value

unfoldable pub call_key : Call → String
call_key (acquires key value cluster_name ttl now) = key
call_key (renews key value ttl now) = key
call_key (releases key value) = key

unfoldable pub lease_after : Call → Option Lease
lease_after (acquires key value cluster_name ttl now) =
    some (record { owner = value; until = now + ttl })
lease_after (renews key value ttl now) = some (record { owner = value; until = now + ttl })
lease_after (releases key value) = none

-- A granted call sets the lease of its key, and nothing else changes: the lease of `key` after
-- the call, from that before it.
unfoldable pub spec_step : Call → String → Option Lease → Option Lease
unfolding granted call_key lease_after
spec_step c key l = if call_key c == key then (if granted c l then lease_after c else l) else l

module _ (s : InMemoryStorage) where
  -- Every call, on any locks, is granted exactly when the leases alone say so: an acquisition unless
  -- a running lease of another is in its way, a renewal with one's own running lease, and a release
  -- with one's own lease, running or not.
  pub step-granted : (c : Call) → (step c s).0 ≡ granted c (leases s (call_key c))
  unfolding step granted call_key leases try_acquire_lock renew_lock release_lock
  step-granted (acquires key value cluster_name ttl now) = ground arith
  step-granted (renews key value ttl now) = ground arith
  step-granted (releases key value) = ground arith

  -- The leases after a step that starts from the entry `o` of its key.
  module _ (key value k : String) (ttl now : ℕ) where
    acquire_over-leases :
        (cluster_name : String) (o : Option LockMetadata)
        → lookup key s.locks ≡ o
        → leases (acquire_over o key value cluster_name ttl now s).1 k
          ≡ spec_step (acquires key value cluster_name ttl now) k (leases s k)
    unfolding spec_step leases acquire_over
    acquire_over-leases cluster_name none e =
        ground
          (arith, eq_iff key k, lookup-insert key k (new_entry value cluster_name ttl now) s.locks)
    acquire_over-leases cluster_name (some x) e = ground (
      arith,
      eq_iff key k,
      eq_iff x.value value,
      lookup-insert key k (new_entry value cluster_name ttl now) s.locks,
      lookup-insert key k (renew_entry x ttl now) s.locks,
    )

    renew_over-leases :
        (o : Option LockMetadata)
        → lookup key s.locks ≡ o
        → leases (renew_over o key value ttl now s).1 k
          ≡ spec_step (renews key value ttl now) k (leases s k)
    unfolding spec_step leases renew_over
    renew_over-leases none e = ground (arith, eq_iff key k)
    renew_over-leases (some x) e = ground (
      arith,
      eq_iff key k,
      eq_iff x.value value,
      lookup-insert key k (renew_entry x ttl now) s.locks,
    )

  -- After every call, the leases are those of the lease table: a granted call sets or removes the
  -- lease of its key, a refused one changes none, and no call changes the lease of another key.
  pub leases-step : (c : Call) (k : String) → leases (step c s).1 k ≡ spec_step c k (leases s k)
  unfolding step try_acquire_lock renew_lock
  leases-step (acquires key value cluster_name ttl now) k =
      acquire_over-leases key value k ttl now cluster_name (lookup key s.locks) refl
  leases-step (renews key value ttl now) k =
      renew_over-leases key value k ttl now (lookup key s.locks) refl
  leases-step (releases key value) k =
      unfold spec_step leases release_lock in
      ground (arith, eq_iff key k, lookup-delete key k s.locks)
