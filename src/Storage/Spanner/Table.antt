-- ===== src/Storage/Spanner/Table.antt =====
-- What Cloud Spanner documents of a read-write transaction: its statements and mutations on the
-- table of locks, all at one moment.
use k8_highlander.Prelude.{
  ℕ, String, Bool, Option, none, some, List, [], ◌∷◌, ok, ◌≡◌, ◌≤◌, ltb, ◌==◌, if◌then◌else◌,
}
use k8_highlander.Storage.Spanner.{
  SpannerRow, Column, set_value, set_cluster_name, set_metadata, set_expires_at, set_version,
  commit_updated_at, Write, delete_expired, delete_all_expired, insert_map, update_map, delete_row,
  Answers, Body, SpannerClient,
}

abbrev pub Rows : Type 0
Rows = String → Option SpannerRow

unfoldable pub set_row : String → Option SpannerRow → Rows → Rows
set_row key row rows k = if key == k then row else rows k

-- WHERE expires_at > CURRENT_TIMESTAMP()
unfoldable pub if_live : ℕ → Option SpannerRow → Option SpannerRow
if_live time none = none
if_live time (some row) = if ltb time row.expires_at then some row else none

-- WHERE lock_value = @value
unfoldable pub if_own : String → Option SpannerRow → Option SpannerRow
if_own value none = none
if_own value (some row) = if row.value == value then some row else none

unfoldable pub value_in : Option SpannerRow → Option String
value_in none = none
value_in (some row) = some row.value

unfoldable pub set_column : ℕ → Column → SpannerRow → SpannerRow
set_column commit (set_value v) row = record row { value = v }
set_column commit (set_cluster_name n) row = record row { cluster_name = n }
set_column commit (set_metadata text) row = record row { metadata = text }
set_column commit (set_expires_at t) row = record row { expires_at = t }
set_column commit (set_version n) row = record row { version = n }
set_column commit commit_updated_at row = record row { updated_at = commit }

unfoldable pub set_columns : ℕ → List Column → SpannerRow → SpannerRow
set_columns commit [] row = row
set_columns commit (c ∷ cs) row = set_columns commit cs (set_column commit c row)

-- An insert of a row that is there fails, as does the update of one that is not there; then the
-- transaction does.
unfoldable pub insert_over : Option SpannerRow → ℕ → String → SpannerRow → Rows → Option Rows
insert_over none commit key row rows =
    some (set_row key (some (record row { created_at = commit; updated_at = commit })) rows)
insert_over (some old) commit key row rows = none

unfoldable pub update_over : Option SpannerRow → ℕ → String → List Column → Rows → Option Rows
update_over none commit key cs rows = none
update_over (some row) commit key cs rows =
    some (set_row key (some (set_columns commit cs row)) rows)

-- One write, at a CURRENT_TIMESTAMP() and a commit timestamp.
unfoldable pub apply : ℕ → ℕ → Write → Rows → Option Rows
apply time commit (delete_expired key) rows = some (set_row key (if_live time (rows key)) rows)
apply time commit delete_all_expired rows = some (λ k. kept (rows k))
  where
    kept : Option SpannerRow → Option SpannerRow
    kept none = none
    kept (some row) = if ltb row.expires_at time then none else some row
apply time commit (insert_map key row) rows = insert_over (rows key) commit key row rows
apply time commit (update_map key cs) rows = update_over (rows key) commit key cs rows
apply time commit (delete_row key) rows = some (set_row key none rows)

unfoldable pub apply_all : ℕ → ℕ → List Write → Rows → Option Rows
apply_all time commit [] rows = some rows
apply_all time commit (w ∷ ws) rows = elim (apply time commit w rows) [
  | none ↦ none
  | some rows' ↦ apply_all time commit ws rows'
]

-- What the statements answer, if they do not fail.
pub record IsTruthful (rows : Rows) (time : ℕ) (a : Answers) : Type 0 where
  pub live_row_lem :
      (key : String) (r : Option SpannerRow) → a.live_row key ≡ ok r → r ≡ if_live time (rows key)
  pub own_row_lem :
      (key value : String) (r : Option SpannerRow)
      → a.own_row key value ≡ ok r
      → r ≡ if_own value (if_live time (rows key))
  pub value_at_lem :
      (key : String) (r : Option String) → a.value_at key ≡ ok r → r ≡ value_in (rows key)

-- What can be told of the states of a Spanner: the table of locks and the clock; and `others`, what
-- the transactions of other clients may make of a table.
pub record Observed (S : Type 0) : Type 1 where
  pub rows_of : S → Rows
  pub clock : S → ℕ
  pub others : Rows → Rows → Type 0

-- A transaction that has committed between `s` and `s'`, with the value `b` of the captured variable:
-- at a time in between, its body ran without an error on what the table of that moment answered,
-- and all its writes went through. What came before it in the call, and after, was the others'. The
-- client's clock was read within the call.
pub record Committed {S : Type 0} (c : SpannerClient S) (v : Observed S) (body : Body) (b : Bool)
    (s s' : S) : Type 0 where
  pub rows : Rows
  pub after : Rows
  pub time : ℕ
  pub commit : ℕ
  pub answers : Answers
  pub writes : List Write
  pub truthful : IsTruthful rows time answers
  pub ran : body answers ≡ ok (b, writes)
  pub written : apply_all time commit writes rows ≡ some after
  pub before_it : v.others (v.rows_of s) rows
  pub after_it : v.others after (v.rows_of s')
  pub no_earlier : v.clock s ≤ time
  pub no_later : time ≤ v.clock s'
  pub read_from : c.now s ≤ answers.now
  pub read_until : answers.now ≤ c.now s'

-- ReadWriteTransaction commits each transaction that it gives no error for.
pub record SpannerContract {S : Type 0} (c : SpannerClient S) (v : Observed S) : Type 0 where
  pub committed :
      (body : Body) (b : Bool) (s : S)
      → (c.read_write_transaction body s).0 ≡ (none, b)
      → Committed c v body b s (c.read_write_transaction body s).1
