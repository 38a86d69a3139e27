-- ===== src/Storage/Sql/Exclusion.antt =====
-- One holder at a time in the SQL storage.
use k8_highlander.Prelude.{
  ℕ, ◌≤◌, String, Bool, true, false, Option, none, some, Result, ok, err, List, [], ◌∷◌, ◌≡◌, ◌≢◌,
  refl, sym, ap, ◌∙◌, inl, inr, arith, eq_iff, pure, Scope, on, store, continue_with, if◌then◌else◌,
  Bool-cases, ◌==◌,
}
use mathlib.Core.Bool.{false≢true}
use k8_highlander.Storage.Sql.{
  LeaderLock, Database, Condition, matches, satisfies, key_is, set_success,
}
use k8_highlander.Storage.Sql.Lease.{
  SqlContract, Standing, seen-over, Keeps-given, Keeps-transaction,
}
use k8_highlander.Storage.Sql.Late.{Late, Late-false, Late->>=, Late-verify, Late-clock, succeeded}
use k8_highlander.Storage.Sql.Frame.{Keeps-meet, Keeps-replace_row}
use k8_highlander.Storage.Sql.Acquire.{
  meet, verified, verify_created, take, take_or_meet, acquire_once,
}

module _ {S : Type 0} (db : Database S) (row : S → String → Option LeaderLock) (key owner : String)
    (t : ℕ) (c : SqlContract db row key owner t) where
  -- A read gives a row of the key with another's value: then the lease is over.
  pub read-over :
      (w : List Condition) (s : S) (l : LeaderLock)
      → Standing db row key owner t s
      → (db.first w s).0 ≡ ok (some l)
      → (matches w l ≡ true → l.key ≡ key)
      → l.value ≢ owner
      → t ≤ db.now (db.first w s).1
  read-over w s l st r k v =
      let (x, e) = c.first_Seen w s l r in
      seen-over db row key owner t w s _ x st
        (ap (λ (y : LeaderLock). y.key) e ∙ k (ap (matches w) (sym e) ∙ x.matching))
        (λ o. v (ap (λ (y : LeaderLock). y.value) (sym e) ∙ o))

  module _ (value cluster_name : String) (ttl : ℕ) (other : value ≢ owner) where
    -- Reading back a row of ours: the lease of the other is over.
    verified-over :
        (r : Result (Option LeaderLock)) (s : S)
        → Standing db row key owner t s
        → (db.first (key_is key ∷ []) s).0 ≡ r
        → verified db key value cluster_name ttl r ≡ true
        → t ≤ db.now (db.first (key_is key ∷ []) s).1
    unfolding verified matches satisfies
    verified-over (err e) s st p v = absurd (false≢true v)
    verified-over (ok none) s st p v = absurd (false≢true v)
    verified-over (ok (some l)) s st p v =
        read-over (key_is key ∷ []) s l st p (λ m. ground (arith, m, eq_iff l.key key))
          (λ o. other (sym ((eq_iff l.value value).0 v) ∙ o))

    Late-verify_created :
        (from : ℕ) → Late db row key owner t from (verify_created db key value cluster_name ttl)
    unfolding verify_created continue_with on store
    Late-verify_created from = record { late = λ x h st. by_answer x st _ refl }
      where
        by_answer :
            (x : Scope Bool S)
            → Standing db row key owner t x.outside
            → (b : Bool)
            → verified db key value cluster_name ttl (db.first (key_is key ∷ []) x.outside).0 ≡ b
            → succeeded
                ((if b then pure tt else set_success db false)
                  record { local = x.local; outside = (db.first (key_is key ∷ []) x.outside).1 }).0
              ≡ true
            → ((if b then pure tt else set_success db false) record {
              local = x.local;
              outside = (db.first (key_is key ∷ []) x.outside).1;
            }).1.local
              ≡ true
            → t
              ≤ db.now
                  ((if b then pure tt else set_success db false) record {
                    local = x.local;
                    outside = (db.first (key_is key ∷ []) x.outside).1;
                  }).1.outside
        by_answer x st true e r l = verified-over _ x.outside st refl e
        by_answer x st false e r l = absurd (false≢true l)

    Late-take :
        (from : ℕ)
        → (db.dialect == "sqlite") ≡ false
        → Late db row key owner t from (take db key value cluster_name ttl)
    unfolding take
    Late-take from d = Late-clock db row key owner t from _ λ n.
        Late->>= db row key owner t n _ _ (Keeps-given db row key owner t n _) λ text.
          Late->>= db row key owner t n _ _
            (Keeps-transaction db row key owner t c n _
              (Keeps-replace_row db row key owner t c key value cluster_name ttl other n _ d))
            λ _. Late-verify db row key owner t n _ (Late-verify_created n)

    Late-meet_other :
        (l : LeaderLock)
        → (l.value == value) ≡ false
        → Late db row key owner t 0 (meet db key value cluster_name ttl l)
    unfolding meet
    Late-meet_other l e = rw e (Late-false db row key owner t 0)

    -- An own lock is met: another had none.
    Late-meet :
        (s : Scope Bool S) (l : LeaderLock)
        → Standing db row key owner t s.outside
        → (l.value ≢ owner → t ≤ db.now s.outside)
        → succeeded (meet db key value cluster_name ttl l s).0 ≡ true
        → (meet db key value cluster_name ttl l s).1.local ≡ true
        → t ≤ db.now (meet db key value cluster_name ttl l s).1.outside
    Late-meet s l st o r g = elim (Bool-cases (l.value == value)) [
      | inl e ↦
          let kept = Keeps-meet db row key owner t c key value cluster_name ttl other 0 l in
          let (a, y) = kept.kept s (omega arith) st in
          omega (arith, a, o (λ p. other (sym ((eq_iff l.value value).0 e) ∙ p)))
      | inr e ↦ (Late-meet_other l e).late s (omega arith) st r g
    ]

    after_read :
        (from : ℕ) (r : Result (Option LeaderLock)) (w : List Condition) (x : Scope Bool S)
        → ((l : LeaderLock) → matches w l ≡ true → l.key ≡ key)
        → (db.dialect == "sqlite") ≡ false
        → from ≤ db.now x.outside
        → Standing db row key owner t x.outside
        → (db.first w x.outside).0 ≡ r
        → succeeded
            (continue_with r
              (take_or_meet db key value cluster_name ttl)
              (record { local = x.local; outside = (db.first w x.outside).1 })).0
          ≡ true
        → (continue_with r
            (take_or_meet db key value cluster_name ttl)
            (record { local = x.local; outside = (db.first w x.outside).1 })).1.local
          ≡ true
        → t
          ≤ db.now
              (continue_with r
                (take_or_meet db key value cluster_name ttl)
                (record { local = x.local; outside = (db.first w x.outside).1 })).1.outside
    unfolding continue_with take_or_meet succeeded
    after_read from (err e) w x k d h st p r g = absurd (false≢true r)
    after_read from (ok none) w x k d h st p r g =
        let (a, y) = c.first_Stands w x.outside st in
        (Late-take from d).late _ (omega (arith, h, a)) y r g
    after_read from (ok (some l)) w x k d h st p r g =
        Late-meet _ l (c.first_Stands w x.outside st).1 (read-over w x.outside l st p (k l)) r g

    -- An attempt to acquire the lock succeeds only when the lease of another is over.
    pub Late-acquire_once :
        (from : ℕ)
        → (db.dialect == "sqlite") ≡ false
        → Late db row key owner t from (acquire_once db key value cluster_name ttl)
    unfolding acquire_once on matches satisfies
    Late-acquire_once from d = Late-clock db row key owner t from _ λ n. record {
      late = λ x h st. after_read n _ _ x (λ l m. ground (arith, m, eq_iff l.key key)) d h st refl;
    }
