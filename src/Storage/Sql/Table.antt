-- ===== src/Storage/Sql/Table.antt =====
-- A database for the tests: a table of one row for each key, whose statements run one at a time and
-- take a nanosecond each.
pub mod Contract
use k8_highlander.Prelude.{
  ℕ, zero, suc, ◌+◌, ◌≤◌, ◌<◌, ◌&&◌, String, Bool, true, false, Option, none, some, Result, ok, err,
  new_error, List, [], ◌∷◌, ◌≡◌, refl, sym, ap, ◌∙◌, arith, eq_iff, ◌==◌, if◌then◌else◌, Action,
  Scope, Bool-cases, inl, inr,
}
use mathlib.Core.Bool.{false≢true}
use k8_highlander.Storage.Sql.Late.{succeeded}
use mathlib.Core.Option.{none-ne-some, some-injective}
use k8_highlander.Storage.Lock.{LockMetadata}
use k8_highlander.Storage.Sql.{
  LeaderLock, Database, Condition, Change, matches, satisfies, key_is, value_is, version_is,
  expires_after, expires_by, expires_before, set_updated_at, set_expires_at, set_version,
  set_metadata, next_version_of_row,
}
use k8_highlander.Storage.Sql.Lease.{
  SqlContract, Standing, Stands, Spared, Seen, Committed, Stands-refl,
}

pub record Table : Type 0 where
  pub time : ℕ
  pub rows : String → Option LeaderLock

tick : Table → Table
tick s = record s { time = suc s.time }

key_of : List Condition → Option String
key_of (key_is k ∷ w) = some k
key_of _ = none

keep_unless : List Condition → Option LeaderLock → Option LeaderLock
keep_unless w none = none
keep_unless w (some l) = if matches w l then none else some l

unfoldable pub keep_if : List Condition → Option LeaderLock → Option LeaderLock
keep_if w none = none
keep_if w (some l) = if matches w l then some l else none

apply : List Change → LeaderLock → LeaderLock
apply [] l = l
apply (set_updated_at n ∷ cs) l = apply cs (record l { updated_at = n })
apply (set_expires_at n ∷ cs) l = apply cs (record l { expires_at = n })
apply (set_version n ∷ cs) l = apply cs (record l { version = n })
apply (set_metadata m ∷ cs) l = apply cs (record l { metadata = m })
apply (next_version_of_row ∷ cs) l = apply cs (record l { version = suc l.version })

change_if : List Condition → List Change → Option LeaderLock → Option LeaderLock
change_if w cs none = none
change_if w cs (some l) = if matches w l then some (apply cs l) else some l

number : Option LeaderLock → ℕ
number none = 0
number (some l) = 1

-- The row of a statement on one key.
single : List Condition → Table → Option LeaderLock
unfolding key_of keep_if
single w s = elim (key_of w) as (λ _. Option LeaderLock) [
  | none ↦ none
  | some k ↦ keep_if w (s.rows k)
]

insert_over : Option LeaderLock → LeaderLock → Table → Result (Unit {0}) × Table
insert_over none l s = (ok tt, record s { rows = λ k. if k == l.key then some l else s.rows k })
insert_over (some x) l s = (err (new_error "ERROR: duplicate key value"), s)

settle_transaction :
    {L : Type 0}
    → Scope L Table
    → Result (Unit {0})
    → Scope L Table
    → Result (Unit {0}) × Scope L Table
settle_transaction c (ok u) d = (ok u, d)
settle_transaction c (err e) d =
    (err e, record d { outside = record (c.outside) { time = (d.outside).time } })

unfoldable pub table : String → Database Table
unfolding tick key_of keep_if single number keep_unless apply change_if insert_over
    settle_transaction
table dialect = record {
  dialect = dialect;
  now = λ s. s.time;
  sleep = λ d s. record s { time = s.time + d };
  first = λ w s. (ok (single w s), tick s);
  find = λ w s. (ok [], tick s);
  count = λ w s. (ok (number (single w s)), tick s);
  delete = λ w s. (
    ok (number (single w s)),
    record s { time = suc s.time; rows = λ k. keep_unless w (s.rows k) },
  );
  update = λ w cs s. (
    ok (number (single w s)),
    record s { time = suc s.time; rows = λ k. change_if w cs (s.rows k) },
  );
  create = λ l s. let (r, s') = insert_over (s.rows l.key) l s in (r, tick s');
  transaction = λ body c. settle_transaction c (body c).0 (body c).1;
  marshal = λ m. ok m.value;
  unmarshal = λ t. err (new_error "unexpected end of JSON input");
}
