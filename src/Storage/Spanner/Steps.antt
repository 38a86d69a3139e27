-- ===== src/Storage/Spanner/Steps.antt =====
-- The transactions of SpannerStorage against the table of leases of Storage.Memory.Laws.
use k8_highlander.Prelude.{
  err-ne-ok, ℕ, String, Bool, true, false, Option, none, some, List, [], ◌∷◌, Result, ok, err,
  GoError, ◌≡◌, refl, sym, ap, ◌∙◌, arith, eq_iff, ltb, ◌==◌, if◌then◌else◌,
}
use mathlib.Core.Option.{none-ne-some, some-injective}
use k8_highlander.Storage.Memory.Laws.{acquires, renews, releases, call_key, lease_after, owned}
use k8_highlander.Storage.Spanner.{
  SpannerRow, Write, delete_row, Answers, acquire_new, acquire_queried, renew_queried,
  release_queried, first_row, acquire_own, acquire_seen, acquire_transaction, renew_seen,
  renew_transaction, release_seen, release_transaction, current_value, later_metadata,
}
use k8_highlander.Storage.Spanner.Table.{
  Rows, set_row, if_live, if_own, value_in, set_column, set_columns, apply, apply_all, IsTruthful,
}
use k8_highlander.Storage.Spanner.Leases.{
  lease_of_row, in_force, spanner_granted, Stepped, same-Stepped, set-Stepped, update-Stepped,
  insert-Stepped, with_metadata-ok, then_writes-ok, answered, lease_of_row-set_row,
}

-- A live row is the row of its key, and has not expired; with none, the lease is not in force.
live_row-is_there :
    (time : ℕ) (o : Option SpannerRow) (row : SpannerRow)
    → some row ≡ if_live time o
    → (o ≡ some row) × (in_force (lease_of_row o) time ≡ true)
unfolding if_live in_force lease_of_row
live_row-is_there time none row e = absurd (none-ne-some row (sym e))
live_row-is_there time (some x) row e = by_time (ltb time x.expires_at) refl e
  where
    by_time :
        (b : Bool)
        → ltb time x.expires_at ≡ b
        → some row ≡ (if b then some x else none)
        → (some x ≡ some row) × (ltb time x.expires_at ≡ true)
    by_time true h e = (sym e, h)
    by_time false h e = absurd (none-ne-some row (sym e))

no_live_row :
    (time : ℕ) (o : Option SpannerRow)
    → none ≡ if_live time o
    → in_force (lease_of_row o) time ≡ false
unfolding if_live in_force lease_of_row
no_live_row time none e = refl
no_live_row time (some x) e = by_time (ltb time x.expires_at) e
  where
    by_time : (b : Bool) → none ≡ (if b then some x else none) → b ≡ false
    by_time true e = absurd (none-ne-some x e)
    by_time false e = refl

own_row-is_there :
    (value : String) (o : Option SpannerRow) (row : SpannerRow)
    → some row ≡ if_own value o
    → (o ≡ some row) × ((row.value == value) ≡ true)
unfolding if_own
own_row-is_there value none row e = absurd (none-ne-some row (sym e))
own_row-is_there value (some x) row e = by_value (x.value == value) refl e
  where
    by_value :
        (b : Bool)
        → (x.value == value) ≡ b
        → some row ≡ (if b then some x else none)
        → (some x ≡ some row) × ((row.value == value) ≡ true)
    by_value true h e = (sym e, ap (λ r. r.value == value) (some-injective _ _ e) ∙ h)
    by_value false h e = absurd (none-ne-some row (sym e))

no_own_row :
    (time : ℕ) (value : String) (o : Option SpannerRow)
    → none ≡ if_own value (if_live time o)
    → (if in_force (lease_of_row o) time then owned (lease_of_row o) value else false) ≡ false
unfolding in_force lease_of_row owned if_own
no_own_row time value none e = refl
no_own_row time value (some x) e =
    by_tests (ltb time x.expires_at) (x.value == value)
      (opened (ltb time x.expires_at) (unfold if_live in e))
  where
    opened :
        (b : Bool)
        → none ≡ if_own value (if b then some x else none)
        → none ≡ (if b then (if x.value == value then some x else none) else none)
    opened true e = e
    opened false e = e

    by_tests :
        (b c : Bool)
        → none ≡ (if b then (if c then some x else none) else none)
        → (if b then c else false) ≡ false
    by_tests true true e = absurd (none-ne-some x e)
    by_tests true false e = refl
    by_tests false c e = refl

-- What is released is a value that is not empty, and the key's.
releasable : Option SpannerRow → String → Bool
releasable o value =
    if current_value (value_in o) == "" then false else current_value (value_in o) == value

releasable-granted :
    (time : ℕ) (o : Option SpannerRow) (key value : String)
    → spanner_granted time (releases key value) (lease_of_row o) ≡ releasable o value
unfolding spanner_granted releasable lease_of_row owned current_value value_in
releasable-granted time none key value = ground (arith, eq_iff "" value)
releasable-granted time (some row) key value =
    ground (arith, eq_iff row.value value, eq_iff row.value "", eq_iff value "")

module _ (rows : Rows) (time commit : ℕ) (a : Answers) where
  acquire_new-Stepped :
      (d : Option GoError) (key value cluster_name : String) (ttl : ℕ) (b : Bool) (ws : List Write)
      → none ≡ if_live time (rows key)
      → acquire_new d key value cluster_name ttl a ≡ ok (b, ws)
      → Stepped rows time commit ws b (acquires key value cluster_name ttl a.now)
  unfolding acquire_new
  acquire_new-Stepped (some e) key value cluster_name ttl b ws n p = absurd (err-ne-ok _ _ p)
  acquire_new-Stepped none key value cluster_name ttl b ws n p =
      let (later, q, w) = then_writes-ok _ _ b ws p in
      let (text, t, l) = with_metadata-ok a _ _ b later q in
      rw (w, l, t)
        (insert-Stepped rows time commit (acquires key value cluster_name ttl a.now) key
          (first_row value cluster_name ttl a.now text) (unfold call_key in refl) (sym n)
          (unfold lease_of_row first_row lease_after in refl)
          (unfold spanner_granted call_key in rw (no_live_row time (rows key) n) refl))

  acquire_own-Stepped :
      (key value cluster_name : String) (ttl : ℕ) (row : SpannerRow) (b : Bool) (ws : List Write)
      → some row ≡ if_live time (rows key)
      → (row.value == value) ≡ true
      → acquire_own key value cluster_name ttl row a ≡ ok (b, ws)
      → Stepped rows time commit ws b (acquires key value cluster_name ttl a.now)
  unfolding acquire_own
  acquire_own-Stepped key value cluster_name ttl row b ws n v p =
      let (there, alive) = live_row-is_there time (rows key) row n in
      let (text, t, l) = with_metadata-ok a _ _ b ws p in
      rw (l, t)
        (unfold call_key in
          update-Stepped rows time commit (acquires key value cluster_name ttl a.now) _ row there
            (unfold lease_of_row set_columns set_column later_metadata lease_after in refl)
            (unfold spanner_granted in rw (alive, there) (unfold lease_of_row owned in v)))

  acquire_seen-Stepped :
      (o : Option SpannerRow) (key value cluster_name : String) (ttl : ℕ) (b : Bool)
      (ws : List Write)
      → o ≡ if_live time (rows key)
      → acquire_seen o key value cluster_name ttl a ≡ ok (b, ws)
      → Stepped rows time commit ws b (acquires key value cluster_name ttl a.now)
  unfolding acquire_seen
  acquire_seen-Stepped none key value cluster_name ttl b ws n p =
      acquire_new-Stepped a.deletion key value cluster_name ttl b ws n p
  acquire_seen-Stepped (some row) key value cluster_name ttl b ws n p =
      by_owner (row.value == value) refl p
    where
      by_owner :
          (own : Bool)
          → (row.value == value) ≡ own
          → (if own then acquire_own key value cluster_name ttl row a else ok (false, []))
            ≡ ok (b, ws)
          → Stepped rows time commit ws b (acquires key value cluster_name ttl a.now)
      by_owner true v p = acquire_own-Stepped key value cluster_name ttl row b ws n v p
      by_owner false v p =
          let (there, alive) = live_row-is_there time (rows key) row n in
          let (f, l) = answered b false ws [] p in
          rw (l, f)
            (same-Stepped rows time commit (acquires key value cluster_name ttl a.now) (
              unfold spanner_granted call_key in
              rw (alive, there) (unfold lease_of_row owned in v)))

  renew_seen-Stepped :
      (o : Option SpannerRow) (key value : String) (ttl : ℕ) (b : Bool) (ws : List Write)
      → o ≡ if_own value (if_live time (rows key))
      → renew_seen o key value ttl a ≡ ok (b, ws)
      → Stepped rows time commit ws b (renews key value ttl a.now)
  unfolding renew_seen
  renew_seen-Stepped none key value ttl b ws n p =
      let (f, l) = answered b false ws [] p in
      rw (l, f)
        (same-Stepped rows time commit (renews key value ttl a.now)
          unfold spanner_granted call_key in no_own_row time value (rows key) n)
  renew_seen-Stepped (some row) key value ttl b ws n p =
      let (live, v) = own_row-is_there value _ row n in
      let (there, alive) = live_row-is_there time (rows key) row (sym live) in
      let (text, t, l) = with_metadata-ok a _ _ b ws p in
      rw (l, t)
        (unfold call_key in
          update-Stepped rows time commit (renews key value ttl a.now) _ row there
            (unfold set_columns set_column lease_of_row lease_after later_metadata in
              rw ((eq_iff row.value value).0 v) refl)
            (unfold spanner_granted in rw (alive, there) (unfold lease_of_row owned in v)))

  release_seen-Stepped :
      (o : Option SpannerRow) (key value : String) (b : Bool) (ws : List Write)
      → rows key ≡ o
      → release_seen key value (current_value (value_in o)) ≡ ok (b, ws)
      → Stepped rows time commit ws b (releases key value)
  unfolding release_seen
  release_seen-Stepped o key value b ws e p =
      by_value (current_value (value_in o) == "") (current_value (value_in o) == value) refl refl p
    where
      granted_is :
          (g : Bool)
          → releasable o value ≡ g
          → spanner_granted time (releases key value) (lease_of_row (rows key)) ≡ g
      granted_is g r =
          ap (λ x. spanner_granted time (releases key value) (lease_of_row x)) e
          ∙ releasable-granted time o key value
          ∙ r

      by_value :
          (x y : Bool)
          → (current_value (value_in o) == "") ≡ x
          → (current_value (value_in o) == value) ≡ y
          → ◌≡◌ {A = Result (Bool × List Write)}
              (if x
                then ok (false, [])
                else if y
                then ok (true, delete_row key ∷ [])
                else ok (false, []))
              (ok (b, ws))
          → Stepped rows time commit ws b (releases key value)
      by_value true y h g p =
          let (f, l) = answered b false ws [] p in
          rw (l, f)
            (same-Stepped rows time commit (releases key value)
              (unfold call_key in granted_is false (unfold releasable in rw h refl)))
      by_value false false h g p =
          let (f, l) = answered b false ws [] p in
          rw (l, f)
            (same-Stepped rows time commit (releases key value)
              (unfold call_key in granted_is false (unfold releasable in rw (h, g) refl)))
      by_value false true h g p =
          let (f, l) = answered b true ws (delete_row key ∷ []) p in
          rw (l, f)
            (set-Stepped rows time commit (releases key value) (delete_row key ∷ [])
              (set_row key none rows) (unfold apply_all apply in refl)
              (λ k.
                unfold call_key lease_after in
                lease_of_row-set_row key k none rows ∙ (unfold lease_of_row in refl))
              (unfold call_key in granted_is true (unfold releasable in rw (h, g) refl)))

  module _ (truthful : IsTruthful rows time a) where
    pub acquire_transaction-Stepped :
        (key value cluster_name : String) (ttl : ℕ) (b : Bool) (ws : List Write)
        → acquire_transaction key value cluster_name ttl a ≡ ok (b, ws)
        → Stepped rows time commit ws b (acquires key value cluster_name ttl a.now)
    unfolding acquire_transaction acquire_queried
    acquire_transaction-Stepped key value cluster_name ttl b ws p = by_read (a.live_row key) refl p
      where
        by_read :
            (r : Result (Option SpannerRow))
            → a.live_row key ≡ r
            → acquire_queried r key value cluster_name ttl a ≡ ok (b, ws)
            → Stepped rows time commit ws b (acquires key value cluster_name ttl a.now)
        by_read (err e) q p = absurd (err-ne-ok _ _ p)
        by_read (ok o) q p =
            acquire_seen-Stepped o key value cluster_name ttl b ws (truthful.live_row_lem key o q) p

    pub renew_transaction-Stepped :
        (key value : String) (ttl : ℕ) (b : Bool) (ws : List Write)
        → renew_transaction key value ttl a ≡ ok (b, ws)
        → Stepped rows time commit ws b (renews key value ttl a.now)
    unfolding renew_transaction renew_queried
    renew_transaction-Stepped key value ttl b ws p = by_read (a.own_row key value) refl p
      where
        by_read :
            (r : Result (Option SpannerRow))
            → a.own_row key value ≡ r
            → renew_queried r key value ttl a ≡ ok (b, ws)
            → Stepped rows time commit ws b (renews key value ttl a.now)
        by_read (err e) q p = absurd (err-ne-ok _ _ p)
        by_read (ok o) q p =
            renew_seen-Stepped o key value ttl b ws (truthful.own_row_lem key value o q) p

    pub release_transaction-Stepped :
        (key value : String) (b : Bool) (ws : List Write)
        → release_transaction key value a ≡ ok (b, ws)
        → Stepped rows time commit ws b (releases key value)
    unfolding release_transaction release_queried
    release_transaction-Stepped key value b ws p = by_read (a.value_at key) refl p
      where
        by_read :
            (r : Result (Option String))
            → a.value_at key ≡ r
            → release_queried r key value ≡ ok (b, ws)
            → Stepped rows time commit ws b (releases key value)
        by_read (err e) q p = absurd (err-ne-ok _ _ p)
        by_read (ok v) q p = release_seen-Stepped (rows key) key value b ws refl (
            ap (λ x. release_seen key value (current_value x)) (sym (truthful.value_at_lem key v q))
            ∙ p)
