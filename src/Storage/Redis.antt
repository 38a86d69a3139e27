-- ===== src/Storage/Redis.antt =====
-- pkg/storage/redis_storage.go: RedisStorage, over the commands of the Redis client, which are
-- outside. The two Lua scripts are modelled too, over the commands that they call.
pub mod Lease
pub mod Frame
pub mod Rivals
pub mod Server
pub mod Tests
use Prim.Native.Nat.{◌/◌}
use k8_highlander.Prelude.{
  ℕ, ◌+◌, ◌%◌, ◌^◌, String, Bool, true, false, Option, none, some, Result, ok, err, GoError, ◌==◌,
  ◌!=◌, not, ◌||◌, ◌&&◌, if◌then◌else◌, ℤ, pos, negate, shift, Action, pure, fail, gets, ◌>>=◌,
  ◌>>◌, attempt_of,
}
use k8_highlander.Storage.Memory.{next_version}
use k8_highlander.Monitoring.{second}

-- LockMetadata with signed times and TTL: Redis gives a TTL below zero for a key without one.
pub record Metadata : Type 0 where
  pub value : String
  pub cluster_name : String
  pub created_at : ℤ
  pub updated_at : ℕ
  pub expires_at : ℤ
  pub ttl : ℤ
  pub version : ℕ

-- The client's commands, each of which may fail; `get` gives the error redis.Nil for a missing key.
-- `eval` runs a script as one step, in which the script's own commands are `call_get` (none is the
-- `false` of Lua), `call_setex` (seconds, then the value) and `call_del`. `decoded_value` is the
-- field of cjson.decode, which raises an error on other texts. Beside them the clock and
-- encoding/json.
pub record RedisClient (S : Type 0) : Type 0 where
  pub now : S → ℕ
  pub set_nx : String → String → ℕ → Action S Bool
  pub get : String → Action S String
  pub ttl : String → Action S ℤ
  pub del : String → Action S Unit
  pub eval : Action S Bool → Action S Bool
  pub call_get : String → S → Option String
  pub call_setex : String → ℕ → String → Action S Unit
  pub call_del : String → Action S Unit
  pub decoded_value : String → Result (Option String)
  pub marshal : Metadata → Result String
  pub unmarshal : String → Result Metadata

-- decoded.value == ARGV[1]
unfoldable pub is_value : String → Option String → Bool
is_value v none = false
is_value v (some x) = x == v

module _ {S : Type 0} (c : RedisClient S) where
  abbrev pub given : {A : Type 0} → Result A → Action S A
  given r s = (r, s)

  -- A script's guard: the key is there, and its metadata has our value.
  unfoldable pub if_owned : String → Option String → Action S Unit → Action S Bool
  if_owned value none act = pure false
  if_owned value (some text) act = do
    decoded ← given (c.decoded_value text)
    if is_value value decoded then (act >> pure true) else pure false

  -- The scripts of RenewLock and ReleaseLock. 1 and 0 are `true` and `false`.
  unfoldable pub renew_script : String → String → ℕ → String → Action S Bool
  renew_script key value seconds text = do
    found ← gets (c.call_get key)
    if_owned value found (c.call_setex key seconds text)

  unfoldable pub release_script : String → String → Action S Bool
  release_script key value = do found ← gets (c.call_get key); if_owned value found (c.call_del key)

  unfoldable pub new_lock_metadata : String → String → ℕ → ℕ → Metadata
  new_lock_metadata value cluster_name ttl now = record {
    value = value;
    cluster_name = cluster_name;
    created_at = pos now;
    updated_at = now;
    expires_at = pos (now + ttl);
    ttl = pos ttl;
    version = now % 2 ^ 64;
  }

  -- TryAcquireLock
  unfoldable pub try_acquire_lock : String → String → String → ℕ → Action S Bool
  try_acquire_lock key value cluster_name ttl = do
    now ← gets c.now
    text ← given (c.marshal (new_lock_metadata value cluster_name ttl now))
    c.set_nx key text ttl

  -- The TTL of the key; an error is ignored, with a TTL of zero.
  unfoldable pub or_no_ttl : Result ℤ → ℤ
  or_no_ttl (ok t) = t
  or_no_ttl (err e) = pos 0

  -- Metadata that is read: the TTL is the current one. A text that cannot be read is taken for the
  -- value of an old lock.
  unfoldable pub described : String → Result Metadata → ℕ → ℤ → Metadata
  described text (ok m) now ttl = record m { ttl = ttl; expires_at = shift now ttl }
  described text (err e) now ttl = record {
    value = text;
    cluster_name = "unknown";
    created_at = shift now (negate ttl);
    updated_at = now;
    expires_at = shift now ttl;
    ttl = ttl;
    version = now % 2 ^ 64;
  }

  -- The clock is read before the TTL for an old lock, after it for metadata.
  unfoldable pub describe : String → String → Result Metadata → Action S (Option Metadata)
  describe key text (ok m) = do
    r ← attempt_of (c.ttl key)
    now ← gets c.now
    pure (some (described text (ok m) now (or_no_ttl r)))
  describe key text (err e) = do
    now ← gets c.now
    r ← attempt_of (c.ttl key)
    pure (some (described text (err e) now (or_no_ttl r)))

  unfoldable pub info_from : String → Result String → Action S (Option Metadata)
  info_from key (ok text) = describe key text (c.unmarshal text)
  info_from key (err e) = if e.redis_nil then pure none else fail e

  -- GetLockInfo
  unfoldable pub get_lock_info : String → Action S (Option Metadata)
  get_lock_info key = do r ← attempt_of (c.get key); info_from key r

  unfoldable pub value_from : Option Metadata → String
  value_from none = ""
  value_from (some m) = m.value

  -- GetLockValue
  unfoldable pub get_lock_value : String → Action S String
  get_lock_value key = do m ← get_lock_info key; pure (value_from m)

  -- GetLockTTL
  unfoldable pub get_lock_ttl : String → Action S ℤ
  get_lock_ttl key = c.ttl key

  unfoldable pub renewed : Metadata → ℕ → ℕ → Metadata
  renewed m ttl now = record m {
    updated_at = now;
    expires_at = pos (now + ttl);
    ttl = pos ttl;
    version = next_version m.version;
  }

  -- The lock is ours as far as it was read: the script decides. Redis counts whole seconds.
  unfoldable pub renew_read : String → String → ℕ → Option Metadata → Action S Bool
  renew_read key value ttl none = pure false
  renew_read key value ttl (some m) =
      let ours = do
        now ← gets c.now
        text ← given (c.marshal (renewed m ttl now))
        c.eval (renew_script key value (ttl / second) text)
      in if m.value != value then pure false else ours

  -- RenewLock
  unfoldable pub renew_lock : String → String → ℕ → Action S Bool
  renew_lock key value ttl = do m ← get_lock_info key; renew_read key value ttl m

  -- A key that is still there after its release is deleted, whoever set it; errors are ignored.
  unfoldable pub still_there : Result String → Bool
  still_there (ok text) = text != ""
  still_there (err e) = false

  unfoldable pub verify_released : String → Action S Unit
  verify_released key = do
    r ← attempt_of (c.get key)
    if still_there r then (attempt_of (c.del key) >> pure tt) else pure tt

  unfoldable pub verify_if_released : String → Bool → Action S Bool
  verify_if_released key success =
      let verified = verify_released key >> pure true in if success then verified else pure false

  -- ReleaseLock
  unfoldable pub release_lock : String → String → Action S Bool
  release_lock key value = do
    success ← c.eval (release_script key value)
    verify_if_released key success
