-- ===== src/Storage/Memory/Entries.antt =====
-- What the methods keep true of the metadata of each lock, and what the readers make of it.
use k8_highlander.Prelude.{
  ℕ, ◌+◌, ◌≤◌, ◌-◌, String, Option, none, some, ◌≡◌, refl, arith, List, [], ◌∷◌, if◌then◌else◌,
  lookup, insert, delete, lookup-insert, lookup-delete, lookup-empty,
}
use k8_highlander.Storage.Lock.{LockMetadata, Lease}
use k8_highlander.Storage.Memory.{
  InMemoryStorage, new_entry, renew_entry, acquire_over, renew_over, try_acquire_lock, renew_lock,
  release_lock, get_lock_value, get_lock_ttl, new_in_memory_storage,
}
use k8_highlander.Storage.Memory.Laws.{Call, acquires, renews, releases, step, leases, running}
use k8_highlander.Storage.Memory.Exclusion.{run}

-- An entry whose times fit together, made or renewed no later than `now`.
pub record IsSane (now : ℕ) (e : LockMetadata) : Type 0 where
  pub created : e.created_at ≤ e.updated_at
  pub updated : e.updated_at ≤ now
  pub expiry : e.expires_at ≡ e.updated_at + e.ttl

pub record IsWellFormed (now : ℕ) (s : InMemoryStorage) : Type 0 where
  pub entry : (k : String) (e : LockMetadata) → lookup k s.locks ≡ some e → IsSane now e

new_in_memory_storage-IsWellFormed : (now : ℕ) → IsWellFormed now new_in_memory_storage
unfolding new_in_memory_storage
new_in_memory_storage-IsWellFormed now = record {
  entry = λ k e p. absurd (cc (lookup-empty {V = LockMetadata} k));
}

module _ (now : ℕ) where
  IsSane-mono : (before : ℕ) (e : LockMetadata) → before ≤ now → IsSane before e → IsSane now e
  IsSane-mono before e h v = omega arith

  new_entry-IsSane :
      (value cluster_name : String) (ttl : ℕ) → IsSane now (new_entry value cluster_name ttl now)
  unfolding new_entry
  new_entry-IsSane value cluster_name ttl = omega arith

  renew_entry-IsSane :
      (before : ℕ) (e : LockMetadata) (ttl : ℕ)
      → before ≤ now
      → IsSane before e
      → IsSane now (renew_entry e ttl now)
  unfolding renew_entry
  renew_entry-IsSane before e ttl h v = omega arith

module _ (before now : ℕ) (s : InMemoryStorage) (h : before ≤ now) (v : IsWellFormed before s) where
  insert-IsWellFormed :
      (key : String) (x : LockMetadata)
      → IsSane now x
      → IsWellFormed now (record s { locks = insert key x s.locks })
  insert-IsWellFormed key x n = record {
    entry = λ k e p. let q = lookup-insert key k x s.locks in ground (arith, v.entry k e);
  }

  delete-IsWellFormed : (key : String) → IsWellFormed now (record s { locks = delete key s.locks })
  delete-IsWellFormed key = record {
    entry = λ k e p. let q = lookup-delete key k s.locks in ground (arith, v.entry k e);
  }

  IsWellFormed-mono : IsWellFormed now s
  IsWellFormed-mono = record { entry = λ k e p. IsSane-mono now before e h (v.entry k e p) }

  acquire_over-IsWellFormed :
      (key value cluster_name : String) (ttl : ℕ) (o : Option LockMetadata)
      → lookup key s.locks ≡ o
      → IsWellFormed now (acquire_over o key value cluster_name ttl now s).1
  unfolding acquire_over
  acquire_over-IsWellFormed key value cluster_name ttl none e =
      insert-IsWellFormed key _ (new_entry-IsSane now value cluster_name ttl)
  acquire_over-IsWellFormed key value cluster_name ttl (some x) e = ground (
    arith,
    insert-IsWellFormed key (new_entry value cluster_name ttl now)
        (new_entry-IsSane now value cluster_name ttl),
    insert-IsWellFormed key (renew_entry x ttl now)
        (renew_entry-IsSane now before x ttl h (v.entry key x e)),
    IsWellFormed-mono,
  )

  renew_over-IsWellFormed :
      (key value : String) (ttl : ℕ) (o : Option LockMetadata)
      → lookup key s.locks ≡ o
      → IsWellFormed now (renew_over o key value ttl now s).1
  unfolding renew_over
  renew_over-IsWellFormed key value ttl none e = IsWellFormed-mono
  renew_over-IsWellFormed key value ttl (some x) e = ground (
    arith,
    insert-IsWellFormed key (renew_entry x ttl now)
        (renew_entry-IsSane now before x ttl h (v.entry key x e)),
    IsWellFormed-mono,
  )

  release_lock-IsWellFormed : (key value : String) → IsWellFormed now (release_lock key value s).1
  unfolding release_lock
  release_lock-IsWellFormed key value = ground (arith, delete-IsWellFormed key, IsWellFormed-mono)

-- The time after a call: a release reads no clock.
abbrev pub time_after : ℕ → Call → ℕ
time_after t (acquires key value cluster_name ttl now) = now
time_after t (renews key value ttl now) = now
time_after t (releases key value) = t

-- The clock does not go back from call to call.
abbrev pub Ordered : ℕ → List Call → Type 0
Ordered t [] = Unit {0}
Ordered t (c ∷ cs) = (t ≤ time_after t c) × Ordered (time_after t c) cs

abbrev pub last_time : ℕ → List Call → ℕ
last_time t [] = t
last_time t (c ∷ cs) = last_time (time_after t c) cs

step-IsWellFormed :
    (t : ℕ) (c : Call) (s : InMemoryStorage)
    → t ≤ time_after t c
    → IsWellFormed t s
    → IsWellFormed (time_after t c) (step c s).1
unfolding step try_acquire_lock renew_lock
step-IsWellFormed t (acquires key value cluster_name ttl now) s h v =
    acquire_over-IsWellFormed t now s h v key value cluster_name ttl (lookup key s.locks) refl
step-IsWellFormed t (renews key value ttl now) s h v =
    renew_over-IsWellFormed t now s h v key value ttl (lookup key s.locks) refl
step-IsWellFormed t (releases key value) s h v = release_lock-IsWellFormed t t s h v key value

run-IsWellFormed_from :
    (t : ℕ) (cs : List Call) (s : InMemoryStorage)
    → Ordered t cs
    → IsWellFormed t s
    → IsWellFormed (last_time t cs) (run cs s)
unfolding run
run-IsWellFormed_from t [] s o v = v
run-IsWellFormed_from t (c ∷ cs) s o v =
    run-IsWellFormed_from (time_after t c) cs (step c s).1 o.1 (step-IsWellFormed t c s o.0 v)

-- After any calls on a new storage, with a clock that does not go back, every entry was created
-- no later than it was renewed, was renewed no later than the last call, and expires its TTL after that.
pub run-IsWellFormed :
    (t : ℕ) (cs : List Call)
    → Ordered t cs
    → IsWellFormed (last_time t cs) (run cs new_in_memory_storage)
run-IsWellFormed t cs o = run-IsWellFormed_from t cs _ o (new_in_memory_storage-IsWellFormed t)

unfoldable pub owner_of : Option Lease → String
owner_of none = ""
owner_of (some l) = l.owner

unfoldable pub until_of : Option Lease → ℕ
until_of none = 0
until_of (some l) = l.until

module _ (key : String) (now later : ℕ) (s : InMemoryStorage) where
  -- The readers see the owner of a running lease and the time that it has left, and of a lock
  -- whose lease has ended, or that nobody took, the empty text and zero.
  pub reads_lease :
      (get_lock_value key now later s
        ≡ (if running (leases s key) now then owner_of (leases s key) else ""))
      × (get_lock_ttl key now later s
          ≡ (if running (leases s key) now then until_of (leases s key) - later else 0))
  unfolding get_lock_value get_lock_ttl running leases owner_of until_of
  reads_lease = ground arith
