-- ===== src/Storage/Sql/Frame.antt =====
-- No call of another instance touches a lease that runs.
pub mod Calls
use k8_highlander.Prelude.{
  ℕ, ◌≤◌, ◌+◌, String, Bool, true, false, Option, none, some, Result, ok, err, GoError, List, [],
  ◌∷◌, ◌≡◌, refl, sym, ap, ◌∙◌, ◌≢◌, suc, zero, arith, eq_iff, Action, pure, gets, ◌>>=◌, ◌>>◌,
  Scope, on, store, attempt_of, Keeps, Keeps-attempt, Keeps->>=, Keeps-if, Keeps-pure, Keeps-fail,
  Keeps-gets, ltb, ◌==◌, ◌!=◌,
}
use k8_highlander.Storage.Sql.{
  LeaderLock, Database, Condition, Change, matches, satisfies, key_is, value_is, version_is,
  expires_by, expires_after, expires_before, time_now, given, is_conflict, affected, set_success,
}
use k8_highlander.Storage.Sql.Lease.{
  SqlContract, Stands, Standing, Spared, Stands-refl, Stands-trans, frame, Keeps-on, Keeps-store,
  Keeps-given, Keeps-clock, Keeps-transaction,
}
use k8_highlander.Storage.Sql.Acquire.{
  meet, after_create, insert_row, replace_row, verified, verify_created, take, take_or_meet,
  acquire_once, new_row, new_metadata,
}

module _ {S : Type 0} (db : Database S) (row : S → String → Option LeaderLock) (key owner : String)
    (t : ℕ) (c : SqlContract db row key owner t) where
  pub Spared-other :
      (k value : String) (w : List Condition) (s : S)
      → value ≢ owner
      → Spared db row key owner t (key_is k ∷ value_is value ∷ w) s
  unfolding matches satisfies
  Spared-other k value w s v h l k' o u = ground (arith, eq_iff l.value value)

  Spared-expired :
      (k : String) (n : ℕ) (s : S)
      → n ≤ db.now s
      → Spared db row key owner t (key_is k ∷ expires_by n ∷ []) s
  unfolding matches satisfies
  Spared-expired k n s p h l k' o u = ground arith

  pub Spared-old :
      (n : ℕ) (s : S) → n ≤ db.now s → Spared db row key owner t (expires_before n ∷ []) s
  unfolding matches satisfies
  Spared-old n s p h l k' o u = ground arith

  module _ (k value cluster_name : String) (ttl : ℕ) (other : value ≢ owner) where
    pub Keeps-meet :
        (from : ℕ) (l : LeaderLock)
        → Keeps (frame db row key owner t from) (meet db k value cluster_name ttl l)
    unfolding meet
    Keeps-meet from l =
        Keeps-if _ (l.value != value) _ _ (Keeps-store db row key owner t from false) (
          Keeps-clock db row key owner t from _ λ n.
            Keeps->>= _ _ _
              (Keeps-on db row key owner t n _
                λ s _. c.update_Stands _ _ s (Spared-other k value _ s other))
              λ a. Keeps-store db row key owner t n _)

    Keeps-after_create :
        (from : ℕ) (r : Result (Unit {0}))
        → Keeps (frame db row key owner t from) (after_create db k value cluster_name ttl r)
    unfolding after_create
    Keeps-after_create from (ok u) = Keeps-store db row key owner t from true
    Keeps-after_create from (err e) =
        Keeps-if _ (is_conflict db e) _ _ (Keeps-store db row key owner t from false)
          (Keeps-fail _ _ e)

    Keeps-insert_row :
        (from : ℕ) (l : LeaderLock)
        → Keeps (frame db row key owner t from) (insert_row db k value cluster_name ttl l)
    unfolding insert_row
    Keeps-insert_row from l =
        Keeps->>= _ _ _
          (Keeps-attempt _ _ (Keeps-on db row key owner t from _ λ s _. c.create_Stands l s))
          (Keeps-after_create from)

    pub Keeps-replace_row :
        (now : ℕ) (l : LeaderLock)
        → (db.dialect == "sqlite") ≡ false
        → Keeps (frame db row key owner t now) (replace_row db k value cluster_name ttl now l)
    unfolding replace_row
    Keeps-replace_row now l d = rw d (
        Keeps->>= _ _ _
          (Keeps-on db row key owner t now _ λ s h. c.delete_Stands _ s (Spared-expired k now s h))
          λ _. Keeps->>= _ _ _ (Keeps-on db row key owner t now _ λ s _. c.count_Stands _ s) λ n.
            Keeps-if _ (ltb 0 n) _ _ (Keeps-store db row key owner t now false)
              (Keeps-insert_row now l))

    Keeps-verify_created :
        (from : ℕ)
        → Keeps (frame db row key owner t from) (verify_created db k value cluster_name ttl)
    unfolding verify_created
    Keeps-verify_created from =
        Keeps->>= _ _ _
          (Keeps-attempt _ _ (Keeps-on db row key owner t from _ λ s _. c.first_Stands _ s))
          λ r.
            Keeps-if _ (verified db k value cluster_name ttl r) _ _ (Keeps-pure _ tt)
              (Keeps-store db row key owner t from false)

    Keeps-take :
        (from : ℕ)
        → (db.dialect == "sqlite") ≡ false
        → Keeps (frame db row key owner t from) (take db k value cluster_name ttl)
    unfolding take
    Keeps-take from d = Keeps-clock db row key owner t from _ λ n.
        Keeps->>= _ _ _ (Keeps-given db row key owner t n _) λ text.
          Keeps->>= _ _ _ (Keeps-transaction db row key owner t c n _ (Keeps-replace_row n _ d))
            λ _.
              Keeps->>= _ _ _ (Keeps-gets _ _)
                λ b. Keeps-if _ b _ _ (Keeps-verify_created n) (Keeps-pure _ tt)

    Keeps-take_or_meet :
        (from : ℕ) (r : Option LeaderLock)
        → (db.dialect == "sqlite") ≡ false
        → Keeps (frame db row key owner t from) (take_or_meet db k value cluster_name ttl r)
    unfolding take_or_meet
    Keeps-take_or_meet from none d = Keeps-take from d
    Keeps-take_or_meet from (some l) d = Keeps-meet from l

    -- One attempt to acquire any lock.
    pub Keeps-acquire_once :
        (from : ℕ)
        → (db.dialect == "sqlite") ≡ false
        → Keeps (frame db row key owner t from) (acquire_once db k value cluster_name ttl)
    unfolding acquire_once
    Keeps-acquire_once from d = Keeps-clock db row key owner t from _ λ n.
        Keeps->>= _ _ _ (Keeps-on db row key owner t n _ λ s _. c.first_Stands _ s)
          λ r. Keeps-take_or_meet n r d
