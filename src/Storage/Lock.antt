-- ===== src/Storage/Lock.antt =====
-- pkg/storage/storage.go: the data that every lock storage keeps for a lock.
use k8_highlander.Prelude.{ℕ, String}

-- LockMetadata. Times are nanoseconds of one clock, durations too.
pub record LockMetadata : Type 0 where
  pub value : String
  pub cluster_name : String
  pub created_at : ℕ
  pub updated_at : ℕ
  pub expires_at : ℕ
  pub ttl : ℕ
  pub version : ℕ

-- A lease: who holds the lock, and the last moment at which it does.
pub record Lease : Type 0 where
  pub owner : String
  pub until : ℕ
