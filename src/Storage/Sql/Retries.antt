-- ===== src/Storage/Sql/Retries.antt =====
-- What the retries of a closure of DBStorage keep, and RenewLock's closure.
use k8_highlander.Prelude.{
  ℕ, ◌≤◌, String, Bool, true, false, Option, none, some, Result, ok, err, GoError, List, ◌≡◌, ◌≢◌,
  refl, sym, ap, ◌∙◌, arith, eq_iff, Action, Scope, on, store, Keeps, continue_with,
}
use mathlib.Core.Bool.{false≢true}
use mathlib.Core.Option.{none-ne-some}
use k8_highlander.Storage.Retry.{retry_on_lock_error}
use k8_highlander.Storage.Retry.Keeps.{retry-P, retry-Q}
use k8_highlander.Storage.Sql.{
  LeaderLock, Database, Condition, matches, satisfies, retried, failure_of,
}
use k8_highlander.Storage.Sql.Lease.{SqlContract, Stands, Standing, frame}
use k8_highlander.Storage.Sql.Late.{Late, succeeded}
use k8_highlander.Storage.Sql.Frame.Calls.{Keeps-renew_found}
use k8_highlander.Storage.Sql.Exclusion.{read-over}
use k8_highlander.Storage.Sql.Calls.{renew_found, renew_body}

succeeded-eq : (r : Result (Unit {0})) → succeeded r ≡ true → r ≡ ok tt
unfolding succeeded
succeeded-eq (ok u) p = refl
succeeded-eq (err e) p = absurd (false≢true p)

none-succeeded : {A : Type 0} (r : Result A) → failure_of r ≡ none → succeeded r ≡ true
unfolding succeeded failure_of
none-succeeded (ok a) p = refl
none-succeeded (err e) p = absurd (none-ne-some e (sym p))

is_granted : Result Bool → Bool
is_granted (ok b) = b
is_granted (err e) = false

module _ {S : Type 0} (db : Database S) (row : S → String → Option LeaderLock) (key owner : String)
    (t : ℕ) (c : SqlContract db row key owner t) where
  module _ (value : String) (ttl : ℕ) (other : value ≢ owner) where
    after_read :
        (r : Result (Option LeaderLock)) (w : List Condition) (x : Scope Bool S)
        → ((l : LeaderLock) → matches w l ≡ true → (l.key ≡ key) × (l.value ≡ value))
        → Standing db row key owner t x.outside
        → (db.first w x.outside).0 ≡ r
        → succeeded
            (continue_with r
              (renew_found db key value ttl)
              (record { local = x.local; outside = (db.first w x.outside).1 })).0
          ≡ true
        → (continue_with r
            (renew_found db key value ttl)
            (record { local = x.local; outside = (db.first w x.outside).1 })).1.local
          ≡ true
        → t
          ≤ db.now
              (continue_with r
                (renew_found db key value ttl)
                (record { local = x.local; outside = (db.first w x.outside).1 })).1.outside
    unfolding continue_with renew_found succeeded store
    after_read (err e) w x k st p r g = absurd (false≢true r)
    after_read (ok none) w x k st p r g = absurd (false≢true g)
    after_read (ok (some l)) w x k st p r g =
        let seen = c.first_Seen w x.outside l p in
        let mine = k l (ap (matches w) (sym seen.1) ∙ seen.0.matching) in
        let over =
          read-over db row key owner t c w x.outside l st p (λ _. mine.0)
            (λ o. other (sym mine.1 ∙ o)) in
        let kept = Keeps-renew_found db row key owner t c key value other ttl 0 (some l) in
        let (a, y) =
          kept.kept (record { local = x.local; outside = (db.first w x.outside).1 }) (omega arith)
            (c.first_Stands w x.outside st).1 in
        omega (arith, a, over)

    Late-renew_body : Late db row key owner t 0 (renew_body db key value ttl)
    unfolding renew_body on matches satisfies
    Late-renew_body = record {
      late = λ x h st.
          after_read _ _ x
            (λ l m. (ground (arith, m, eq_iff l.key key), ground (arith, m, eq_iff l.value value)))
            st refl;
    }

    over-Standing : (s : S) → t ≤ db.now s → Standing db row key owner t s
    over-Standing s h g = absurd (omega (arith, h, g))

    pub Late-renew : Late db row key owner t 0 (db.transaction (renew_body db key value ttl))
    unfolding succeeded
    Late-renew = record {
      late = λ x h st r g.
          let k = c.transaction_Committed _ x (succeeded-eq _ r) in
          let over =
            Late-renew_body.late k.start (omega arith) (k.begun st).1 (ap succeeded k.returned)
              (sym k.captured ∙ g) in
          omega (arith, over, (k.committed (over-Standing _ over)).0);
    }

  -- The retries, their waits included, let the lease stand.
  pub retried-Stands :
      {L A : Type 0} (operation : String) (z : L) (body : Action (Scope L S) Unit) (f : L → A)
      (s : S)
      → Keeps (frame db row key owner t 0) body
      → Stands db row key owner t s (retried db operation z body f s).1
  unfolding retried
  retried-Stands operation z body f s k st =
      retry-P operation _ _
        (λ x. (db.now s ≤ db.now x.outside) × Standing db row key owner t x.outside)
        (λ x p. let (a, y) = k.kept x (omega arith) p.1 in (omega (arith, p.0, a), y))
        (λ d x p. let (a, y) = c.sleep_Stands d x.outside p.1 in (omega (arith, p.0, a), y))
        (record { local = z; outside = s }) (omega arith, st)

  -- A success after retries is the success of an attempt.
  pub retried-Late :
      (operation : String) (body : Action (Scope Bool S) Unit) (s : S)
      → Keeps (frame db row key owner t 0) body
      → Late db row key owner t 0 body
      → Standing db row key owner t s
      → (retried db operation false body (λ b. b) s).0 ≡ ok true
      → t ≤ db.now (retried db operation false body (λ b. b) s).1
  unfolding retried retry_on_lock_error is_granted
  retried-Late operation body s k l st r = by_end _ refl r
    where
      run : Option GoError × Scope Bool S
      run =
          retry_on_lock_error operation (λ x. (failure_of (body x).0, (body x).1))
            (λ d x. record x { outside = db.sleep d x.outside })
            (record { local = false; outside = s })

      by_end :
          (e : Option GoError)
          → run.0 ≡ e
          → (elim e as (λ _. Result Bool) [ none ↦ ok run.1.local | some x ↦ err x ]) ≡ ok true
          → t ≤ db.now run.1.outside
      by_end none p q =
          retry-Q operation _ _ (λ x. Standing db row key owner t x.outside)
            (λ x y. (k.kept x (omega arith) y).1) (λ d x y. (c.sleep_Stands d x.outside y).1)
            (λ x. x.local ≡ true → t ≤ db.now x.outside)
            (λ x y n. l.late x (omega arith) y (none-succeeded _ n))
            (record { local = false; outside = s }) st p (ap is_granted q)
      by_end (some x) p q = absurd (false≢true (ap is_granted q))
