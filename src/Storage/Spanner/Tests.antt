-- ===== src/Storage/Spanner/Tests.antt =====
-- A Spanner for the tests, whose transactions run one at a time, and calls of SpannerStorage on it.
use k8_highlander.Prelude.{
  ok-injective, ℕ, suc, Bool, true, false, Option, none, some, List, Result, ok, err, GoError,
  new_error, ◌≡◌, refl, arith, sym, ap, ◌∙◌,
}
use mathlib.Core.Option.{none-ne-some}
use k8_highlander.Storage.Memory.Laws.{acquires, renews, releases}
use k8_highlander.Storage.Spanner.{
  Write, Answers, Body, SpannerClient, acquire_transaction, renew_transaction, release_transaction,
  release_queried, release_seen, current_value, acquire_queried, acquire_seen, acquire_new,
  acquire_own, write_text, with_metadata, then_writes, first_metadata, first_row, try_acquire_lock,
  renew_lock, release_lock, renew_queried, renew_seen,
}
use k8_highlander.Storage.Spanner.Table.{
  Rows, set_row, if_live, if_own, value_in, apply, apply_all, insert_over, update_over, IsTruthful,
  Observed, Committed, SpannerContract,
}
use k8_highlander.Storage.Spanner.Calls.{TookPlace, spanner_calls}

record Spanner : Type 0 where
  time : ℕ
  rows : Rows

unfoldable answers_of : Spanner → Answers
answers_of s = record {
  live_row = λ key. ok (if_live s.time (s.rows key));
  own_row = λ key value. ok (if_own value (if_live s.time (s.rows key)));
  value_at = λ key. ok (value_in (s.rows key));
  deletion = none;
  now = s.time;
  marshal = λ m. ok m.value;
}

finish : Option Rows → Bool → Spanner → (Option GoError × Bool) × Spanner
finish none b s = ((some (new_error "row exists"), b), s)
finish (some rows) b s = ((none, b), record { time = suc s.time; rows = rows })

run : Result (Bool × List Write) → Spanner → (Option GoError × Bool) × Spanner
unfolding finish
run (err e) s = ((some e, false), s)
run (ok (b, ws)) s = finish (apply_all s.time s.time ws s.rows) b s

unfoldable spanner : SpannerClient Spanner
unfolding run
spanner = record {
  read_write_transaction = λ body s. run (body (answers_of s)) s;
  query_live = λ key s. (ok (if_live s.time (s.rows key)), s);
  now = λ s. s.time;
}

truthful : (s : Spanner) → IsTruthful s.rows s.time (answers_of s)
unfolding answers_of
truthful s = record {
  live_row_lem = λ key r e. sym (ok-injective _ _ e);
  own_row_lem = λ key value r e. sym (ok-injective _ _ e);
  value_at_lem = λ key r e. sym (ok-injective _ _ e);
}

-- The transactions run one at a time, so that no others come in between.
abbrev alone : Observed Spanner
alone = record { rows_of = λ s. s.rows; clock = λ s. s.time; others = λ r r'. r ≡ r' }

spanner-SpannerContract : SpannerContract spanner alone
unfolding spanner run finish answers_of
spanner-SpannerContract = record {
  committed = λ body b s e. by_result body s b (body (answers_of s)) refl e;
}
  where
    by_finish :
        (body : Body) (s : Spanner) (b v : Bool) (ws : List Write) (o : Option Rows)
        → body (answers_of s) ≡ ok (v, ws)
        → apply_all s.time s.time ws s.rows ≡ o
        → (finish o v s).0 ≡ (none, b)
        → Committed spanner alone body b s (finish o v s).1
    by_finish body s b v ws none q g e = absurd (none-ne-some _ (sym (ap (λ r. r.0) e)))
    by_finish body s b v ws (some after) q g e = record {
      rows = s.rows;
      after = after;
      time = s.time;
      commit = s.time;
      answers = answers_of s;
      writes = ws;
      truthful = truthful s;
      ran = q ∙ ap (λ z. ok (z, ws)) (ap (λ r. r.1) e);
      written = g;
      before_it = refl;
      after_it = refl;
      no_earlier = omega arith;
      no_later = omega arith;
      read_from = omega arith;
      read_until = omega arith;
    }

    by_result :
        (body : Body) (s : Spanner) (b : Bool) (r : Result (Bool × List Write))
        → body (answers_of s) ≡ r
        → (run r s).0 ≡ (none, b)
        → Committed spanner alone body b s (run r s).1
    by_result body s b (err x) q e = absurd (none-ne-some _ (sym (ap (λ r. r.0) e)))
    by_result body s b (ok (v, ws)) q e =
        by_finish body s b v ws (apply_all s.time s.time ws s.rows) q refl e

abbrev empty : Spanner
empty = record { time = 5; rows = λ k. none }

-- "a" acquires the lock at 5 for ten; a second later it is refused to "b", and it is again when
-- the lease has ended at 15.
abbrev taken : Spanner
taken = (spanner.read_write_transaction (acquire_transaction "lock" "a" "east" 10) empty).1

granted_then_refused :
    ((try_acquire_lock spanner "lock" "a" "east" 10 empty).0 ≡ ok true)
    × ((try_acquire_lock spanner "lock" "b" "east" 10 taken).0 ≡ ok false)
    × ((try_acquire_lock spanner "lock" "b" "east" 10 (record taken { time = 15 })).0 ≡ ok true)
unfolding spanner run finish try_acquire_lock acquire_transaction acquire_queried acquire_seen
    acquire_new answers_of if_live write_text with_metadata then_writes apply_all apply set_row
    insert_over first_row first_metadata
granted_then_refused = (refl, refl, refl)

-- The calls of the witness are granted.
all_granted :
    ((try_acquire_lock spanner "lock" "a" "east" 10 taken).0 ≡ ok true)
    × ((renew_lock spanner "lock" "a" 10 taken).0 ≡ (none, true))
    × ((release_lock spanner "lock" "a" taken).0 ≡ (none, true))
unfolding spanner run finish try_acquire_lock acquire_transaction acquire_queried acquire_seen
    acquire_new acquire_own answers_of if_live if_own value_in write_text with_metadata then_writes
    apply_all apply set_row insert_over update_over first_row first_metadata renew_lock
    renew_transaction renew_queried renew_seen release_lock release_transaction release_queried
    release_seen current_value
all_granted = (refl, refl, refl)

spanner_calls_example :
    ((try_acquire_lock spanner "lock" "a" "east" 10 taken).0 ≡ ok true
      → TookPlace spanner alone taken
          (try_acquire_lock spanner "lock" "a" "east" 10 taken).1
          true
          (acquires "lock" "a" "east" 10))
    × ((renew_lock spanner "lock" "a" 10 taken).0 ≡ (none, true)
        → TookPlace spanner alone taken
            (renew_lock spanner "lock" "a" 10 taken).1
            true
            (renews "lock" "a" 10))
    × ((release_lock spanner "lock" "a" taken).0 ≡ (none, true)
        → TookPlace spanner alone taken
            (release_lock spanner "lock" "a" taken).1
            true
            (λ now. releases "lock" "a"))
spanner_calls_example =
    spanner_calls spanner alone spanner-SpannerContract "lock" "a" "east" 10 taken true
