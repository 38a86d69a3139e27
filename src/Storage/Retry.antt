-- ===== src/Storage/Retry.antt =====
-- pkg/storage/db_storage.go: the retries of a database operation on a lock error.
pub mod Outcome
pub mod Keeps
pub mod Tests
use Prim.Native.String.{len, slice}
use k8_highlander.Prelude.{
  ℕ, zero, suc, ◌+◌, ◌-◌, ◌*◌, ◌^◌, String, cat, Bool, true, false, not, ◌&&◌, ◌||◌, Option, none,
  some, List, [], ◌∷◌, GoError, wrap, ltb, if◌then◌else◌, ◌==◌, ◌!=◌,
}
use Prim.Native.Nat.{◌/◌}

-- contains: whether `substr` is a proper suffix of `s`
unfoldable pub contains_at_end : String → String → Bool
contains_at_end s substr =
    s != ""
    && substr != ""
    && s != substr
    && ltb (len substr) (len s)
    && slice s (len s - len substr) (len s) == substr

unfoldable pub any_at_end : List String → String → Bool
any_at_end [] s = false
any_at_end (t ∷ ts) s = contains_at_end s t || any_at_end ts s

-- isLockError of an error that is not nil
unfoldable pub is_lock_error : GoError → Bool
is_lock_error e =
    any_at_end
      ("database is locked" ∷ "database table is locked" ∷ "database schema is locked"
        ∷ "cannot commit transaction" ∷ "deadlock detected" ∷ "could not obtain lock"
        ∷ "Lock wait timeout exceeded" ∷ "Deadlock found" ∷ [])
      e.message

-- maxRetries, and initialBackoff in nanoseconds
abbrev pub max_retries : ℕ
max_retries = 5

abbrev pub initial_backoff : ℕ
initial_backoff = 10 ^ 7

-- backoff * 1.5, exact for the few waits that are made
abbrev pub longer : ℕ → ℕ
longer backoff = backoff * 3 / 2

-- No attempts are left: the last error, wrapped.
unfoldable pub give_up_retries : String → Option GoError → Option GoError
give_up_retries operation none = none
give_up_retries operation (some e) =
    some (wrap (cat "operation " (cat operation " failed after 5 retries: ")) e "")

-- The end of an attempt: another one, if its error is a lock error.
abbrev pub settle : {S : Type 0} → Option GoError → S → Option GoError × S → Option GoError × S
settle none s again = (none, s)
settle (some x) s again = if is_lock_error x then again else (some x, s)

-- `fn` is the operation, on the state of the database, and `sleep` time.Sleep.
module _ {S : Type 0} (operation : String) (fn : S → Option GoError × S) (sleep : ℕ → S → S) where
  -- The loop, with `retries` attempts left after the error `last`.
  unfoldable pub retry_loop : ℕ → ℕ → Option GoError → S → Option GoError × S
  retry_loop zero backoff last s = (give_up_retries operation last, s)
  retry_loop (suc retries) backoff last s =
      let (e, s') = fn s in
      let again = retry_loop retries (longer backoff) e (sleep backoff s') in settle e s' again

  -- retryOnLockError
  unfoldable pub retry_on_lock_error : S → Option GoError × S
  retry_on_lock_error s = retry_loop max_retries initial_backoff none s
