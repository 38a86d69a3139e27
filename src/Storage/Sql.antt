-- ===== src/Storage/Sql.antt =====
-- pkg/storage/db_storage.go: DBStorage, over the statements of the database, which are outside.
pub mod Acquire
pub mod Lease
pub mod Frame
pub mod Late
pub mod Exclusion
pub mod Retries
pub mod Rivals
pub mod Table
pub mod Tests
pub mod Calls
use Prim.Native.Nat.{◌/◌}
use k8_highlander.Prelude.{
  ℕ, ◌+◌, ◌%◌, ◌^◌, String, Bool, true, false, Option, none, some, Result, ok, err, GoError, List,
  [], ◌∷◌, ltb, leb, eqb, ◌==◌, ◌!=◌, ◌&&◌, ◌||◌, not, if◌then◌else◌, contains, Action, pure, fail,
  gets, ◌>>=◌, ◌>>◌, Scope, on, store, attempt_of,
}
use k8_highlander.Storage.Lock.{LockMetadata}
use k8_highlander.Storage.Memory.{next_version}
use k8_highlander.Storage.Retry.{retry_on_lock_error}

-- LeaderLock, a row of the table of locks. The time of a row is never the zero time, which is 0.
pub record LeaderLock : Type 0 where
  pub key : String
  pub value : String
  pub cluster_name : String
  pub metadata : String
  pub created_at : ℕ
  pub updated_at : ℕ
  pub expires_at : ℕ
  pub version : ℕ

-- The conditions of the WHERE clauses: on `key`, `value` and `version` with `=`, on `expires_at`
-- with `>`, `<=` and `<`.
pub data Condition : Type 0 where
  key_is value_is : String → Condition
  version_is expires_after expires_by expires_before : ℕ → Condition

-- The columns that an update sets.
pub data Change : Type 0 where
  set_updated_at set_expires_at set_version : ℕ → Change
  set_metadata : String → Change
  next_version_of_row : Change

unfoldable pub satisfies : Condition → LeaderLock → Bool
satisfies (key_is k) l = l.key == k
satisfies (value_is v) l = l.value == v
satisfies (version_is n) l = eqb l.version n
satisfies (expires_after t) l = ltb t l.expires_at
satisfies (expires_by t) l = leb l.expires_at t
satisfies (expires_before t) l = ltb l.expires_at t

-- Whether a row is one of those that a statement is about.
unfoldable pub matches : List Condition → LeaderLock → Bool
matches [] l = true
matches (c ∷ cs) l = satisfies c l && matches cs l

-- The database through gorm: its dialect, the statements on the table of locks, each of which may
-- fail, and Transaction. `first` gives `none` for ErrRecordNotFound; `delete` and `update` give the
-- number of rows affected. With them the clock and encoding/json.
pub record Database (S : Type 0) : Type 1 where
  pub dialect : String
  pub now : S → ℕ
  pub sleep : ℕ → S → S
  pub first : List Condition → Action S (Option LeaderLock)
  pub find : List Condition → Action S (List LeaderLock)
  pub count : List Condition → Action S ℕ
  pub delete : List Condition → Action S ℕ
  pub update : List Condition → List Change → Action S ℕ
  pub create : LeaderLock → Action S Unit
  pub transaction : {L : Type 0} → Action (Scope L S) Unit → Action (Scope L S) Unit
  pub marshal : LockMetadata → Result String
  pub unmarshal : String → Result LockMetadata

abbrev pub given : {S A : Type 0} → Result A → Action S A
given r s = (r, s)

-- A record that is not found is an answer, `none`, of the test errors.Is(err, ErrRecordNotFound).
unfoldable pub failure_of : {A : Type 0} → Result A → Option GoError
failure_of (ok a) = none
failure_of (err e) = some e

module _ {S : Type 0} (db : Database S) where
  -- time.Now within a closure
  abbrev pub time_now : {L : Type 0} → Action (Scope L S) ℕ
  time_now = gets λ c. db.now c.outside

  -- retryOnLockError of a closure that captures a variable, `zero` at first; then the result from
  -- that variable, or the error.
  unfoldable pub retried :
      {L A : Type 0} → String → L → Action (Scope L S) Unit → (L → A) → Action S A
  retried operation zero body result s =
      let (e, c) =
        retry_on_lock_error operation (λ c. (failure_of (body c).0, (body c).1))
          (λ d c. record c { outside = db.sleep d c.outside })
          (record { local = zero; outside = s }) in
      (elim e [ none ↦ ok (result c.local) | some x ↦ err x ], c.outside)

  abbrev pub set_success : Bool → Action (Scope Bool S) Unit
  set_success b = store b

  -- Whether an insert failed for a row with the same key.
  unfoldable pub is_conflict : GoError → Bool
  is_conflict e = contains e.message "unique constraint" || contains e.message "duplicate key"

  -- success, of the rows affected
  unfoldable pub affected : ℕ → Bool
  affected n = ltb 0 n
