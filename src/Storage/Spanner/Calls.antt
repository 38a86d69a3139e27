-- ===== src/Storage/Spanner/Calls.antt =====
-- The calls of SpannerStorage, as steps of the table of leases.
use k8_highlander.Prelude.{
  ok-injective, err-ne-ok, ℕ, String, Bool, Option, none, some, Result, ok, err, GoError, wrap, ◌≡◌,
  ◌≤◌, sym, ◌∙◌, ap,
}
use mathlib.Core.Option.{some-injective}
use k8_highlander.Storage.Memory.Laws.{Call, call_key, acquires, renews, releases}
use k8_highlander.Storage.Spanner.{
  Body, SpannerClient, acquire_transaction, renew_transaction, release_transaction,
  try_acquire_lock, renew_lock, release_lock,
}
use k8_highlander.Storage.Spanner.Table.{Rows, Observed, Committed, SpannerContract}
use k8_highlander.Storage.Spanner.Leases.{Stepped, lease_of_row, spanner_granted, spanner_step}
use k8_highlander.Storage.Spanner.Steps.{
  acquire_transaction-Stepped, renew_transaction-Stepped, release_transaction-Stepped,
}

-- The call, from `s` to `s'`, took place in one transaction, at one moment within it: `rows` is the
-- table just before that moment and `after` just after it, and what leads from `s` to the one and
-- from the other to `s'` is the work of others. At the moment the call was a step of the table of
-- leases; what the call is depends on what the
-- transaction read as the time, on the client's clock and within the call.
pub record TookPlace {S : Type 0} (c : SpannerClient S) (v : Observed S) (s s' : S) (b : Bool)
    (call : ℕ → Call) : Type 0 where
  pub rows : Rows
  pub after : Rows
  pub time : ℕ
  pub read : ℕ
  pub before_it : v.others (v.rows_of s) rows
  pub after_it : v.others after (v.rows_of s')
  pub no_earlier : v.clock s ≤ time
  pub no_later : time ≤ v.clock s'
  pub read_from : c.now s ≤ read
  pub read_until : read ≤ c.now s'
  pub granted : b ≡ spanner_granted time (call read) (lease_of_row (rows (call_key (call read))))
  pub stepped :
      (k : String)
      → lease_of_row (after k) ≡ spanner_step time (call read) k (lease_of_row (rows k))

module _ {S : Type 0} (c : SpannerClient S) (v : Observed S) (con : SpannerContract c v) where
  took_place :
      (body : Body) (b : Bool) (s s' : S) (call : ℕ → Call) (t : Committed c v body b s s')
      → Stepped t.rows t.time t.commit t.writes b (call t.answers.now)
      → TookPlace c v s s' b call
  took_place body b s s' call t (after, written, granted, stepped) = record {
    rows = t.rows;
    after = t.after;
    time = t.time;
    read = t.answers.now;
    before_it = t.before_it;
    after_it = t.after_it;
    no_earlier = t.no_earlier;
    no_later = t.no_later;
    read_from = t.read_from;
    read_until = t.read_until;
    granted = granted;
    stepped = λ k.
        ap (λ (r : Rows). lease_of_row (r k)) (some-injective _ _ (sym t.written ∙ written))
        ∙ stepped k;
  }

  transaction_acquired :
      (key value cluster_name : String) (ttl : ℕ) (s : S) (b : Bool)
      → (try_acquire_lock c key value cluster_name ttl s).0 ≡ ok b
      → (c.read_write_transaction (acquire_transaction key value cluster_name ttl) s).0 ≡ (none, b)
  unfolding try_acquire_lock
  transaction_acquired key value cluster_name ttl s b p =
      by_error (c.read_write_transaction (acquire_transaction key value cluster_name ttl) s).0 p
    where
      by_error :
          (r : Option GoError × Bool)
          → ◌≡◌ {A = Result Bool}
              (elim r.0 [ some x ↦ err (wrap "transaction failed: " x "") | none ↦ ok r.1 ])
              (ok b)
          → r ≡ (none, b)
      by_error (some x, v) p = absurd (err-ne-ok _ _ p)
      by_error (none, v) p = ap (λ z. (none, z)) (ok-injective _ _ p)

  -- On a Spanner that keeps the contract: a call of TryAcquireLock, RenewLock or ReleaseLock that
  -- gives no error took place at one moment within the call: what lies between the table at its
  -- beginning and the table just before that moment, and between the table just after it and that
  -- at the call's end, is the work of others alone. The call was granted, and gave true, exactly
  -- if the leases of that moment say so: an acquisition unless a lease of another is in force, a
  -- renewal with one's own lease in force, a release with one's own lease and a value that is not
  -- empty. The leases just after it are those just before, but that of the call's key, if the call
  -- was granted: the caller's until the TTL from the time that it read, or none after a release.
  -- That time lies within the call, on the client's clock.
  pub spanner_calls :
      (key value cluster_name : String) (ttl : ℕ) (s : S) (b : Bool)
      → ((try_acquire_lock c key value cluster_name ttl s).0 ≡ ok b
          → TookPlace c v s
              (try_acquire_lock c key value cluster_name ttl s).1
              b
              (acquires key value cluster_name ttl))
        × ((renew_lock c key value ttl s).0 ≡ (none, b)
            → TookPlace c v s (renew_lock c key value ttl s).1 b (renews key value ttl))
        × ((release_lock c key value s).0 ≡ (none, b)
            → TookPlace c v s (release_lock c key value s).1 b (λ now. releases key value))
  unfolding try_acquire_lock renew_lock release_lock
  spanner_calls key value cluster_name ttl s b = (
    λ p.
        let t =
          con.committed (acquire_transaction key value cluster_name ttl) b s
            (transaction_acquired key value cluster_name ttl s b p) in
        took_place _ b s _ (acquires key value cluster_name ttl) t (
          acquire_transaction-Stepped t.rows t.time t.commit t.answers t.truthful key value
            cluster_name ttl b t.writes t.ran),
    λ p.
        let t = con.committed (renew_transaction key value ttl) b s p in
        took_place _ b s _ (renews key value ttl) t (
          renew_transaction-Stepped t.rows t.time t.commit t.answers t.truthful key value ttl b
            t.writes t.ran),
    λ p.
        let t = con.committed (release_transaction key value) b s p in
        took_place _ b s _ (λ now. releases key value) t
          (release_transaction-Stepped t.rows t.time t.commit t.answers t.truthful key value b
            t.writes t.ran),
  )
