-- ===== src/Storage/Sql/Frame/Calls.antt =====
-- The same for RenewLock, ReleaseLock, the reads and the cleanup.
use k8_highlander.Prelude.{
  ℕ, ◌≤◌, String, Bool, false, Option, none, some, Result, ok, err, [], ◌∷◌, ◌≡◌, refl, ◌≢◌, suc,
  zero, arith, eq_iff, Scope, on, Keeps, Keeps-attempt, Keeps->>=, Keeps-if, Keeps-pure, ltb, eqb,
  ◌==◌, Bool-cases, inl, inr, continue_with,
}
use k8_highlander.Storage.Sql.{
  LeaderLock, Database, matches, satisfies, key_is, value_is, expires_before, affected,
}
use k8_highlander.Storage.Sql.Lease.{
  SqlContract, Stands, Standing, Spared, Stands-trans, frame, Keeps-on, Keeps-store, Keeps-given,
  Keeps-clock, Keeps-transaction, seen-over,
}
use k8_highlander.Storage.Sql.Frame.{Spared-other, Spared-old}
use k8_highlander.Storage.Sql.Calls.{
  verify_renewed, renew_row, renew_found, renew_body, verify_gone, note_gone, release_body,
  note_row, read_running, list_expired, cleanup_body,
}

module _ {S : Type 0} (db : Database S) (row : S → String → Option LeaderLock) (key owner : String)
    (t : ℕ) (c : SqlContract db row key owner t) where
  module _ (k value : String) (other : value ≢ owner) where
    Keeps-verify_renewed :
        (ttl from : ℕ) → Keeps (frame db row key owner t from) (verify_renewed db k value ttl)
    unfolding verify_renewed
    Keeps-verify_renewed ttl from =
        Keeps->>= _ _ _
          (Keeps-attempt _ _ (Keeps-on db row key owner t from _ λ s _. c.first_Stands _ s))
          λ r. Keeps-store db row key owner t from _

    Keeps-renew_row :
        (ttl from : ℕ) (l : LeaderLock)
        → Keeps (frame db row key owner t from) (renew_row db k value ttl l)
    unfolding renew_row
    Keeps-renew_row ttl from l = Keeps-clock db row key owner t from _ λ n.
        Keeps->>= _ _ _ (Keeps-given db row key owner t n _) λ text.
          Keeps->>= _ _ _
            (Keeps-on db row key owner t n _
              λ s _. c.update_Stands _ _ s (Spared-other db row key owner t c k value _ s other))
            λ m.
              Keeps-if _ (eqb m 0) _ _ (Keeps-store db row key owner t n false)
                (Keeps-verify_renewed ttl n)

    pub Keeps-renew_found :
        (ttl from : ℕ) (r : Option LeaderLock)
        → Keeps (frame db row key owner t from) (renew_found db k value ttl r)
    unfolding renew_found
    Keeps-renew_found ttl from none = Keeps-store db row key owner t from false
    Keeps-renew_found ttl from (some l) = Keeps-renew_row ttl from l

    -- One attempt to renew a lock.
    pub Keeps-renew :
        (ttl from : ℕ)
        → Keeps (frame db row key owner t from) (db.transaction (renew_body db k value ttl))
    unfolding renew_body
    Keeps-renew ttl from = Keeps-transaction db row key owner t c from _ (
        Keeps->>= _ _ _ (Keeps-on db row key owner t from _ λ s _. c.first_Stands _ s)
          (Keeps-renew_found ttl from))

    Keeps-verify_gone :
        (from : ℕ)
        → ((s : S) → from ≤ db.now s → Spared db row key owner t (key_is k ∷ []) s)
        → Keeps (frame db row key owner t from) (verify_gone db k value)
    unfolding verify_gone
    Keeps-verify_gone from p =
        Keeps->>= _ _ _ (Keeps-on db row key owner t from _ λ s _. c.count_Stands _ s) λ n.
          Keeps-if _ (ltb 0 n) _ _
            (Keeps->>= _ _ _ (Keeps-on db row key owner t from _ λ s h. c.delete_Stands _ s (p s h))
              λ _. Keeps-pure _ tt)
            (Keeps-pure _ tt)

    Spared-elsewhere : (s : S) → k ≢ key → Spared db row key owner t (key_is k ∷ []) s
    unfolding matches satisfies
    Spared-elsewhere s e h l y o u = ground (arith, eq_iff l.key k)

    -- A row of ours that is deleted was seen, so that the owner's lease of the same lock is over.
    deleted-over :
        (s : S) (n : ℕ)
        → k ≡ key
        → (db.delete (key_is k ∷ value_is value ∷ []) s).0 ≡ ok (suc n)
        → Standing db row key owner t s
        → t ≤ db.now (db.delete (key_is k ∷ value_is value ∷ []) s).1
    unfolding matches satisfies
    deleted-over s n e r st =
        let x = c.delete_Seen _ s n (Spared-other db row key owner t c k value [] s other) r in
        let m = x.matching in
        seen-over db row key owner t _ s _ x st (ground (arith, m, eq_iff x.found.key k, e))
          (λ o. other (ground (arith, m, o, eq_iff x.found.value value)))

    Keeps-note_gone :
        (from n : ℕ)
        → ((s : S) → from ≤ db.now s → Spared db row key owner t (key_is k ∷ []) s)
        → Keeps (frame db row key owner t from) (note_gone db k value n)
    unfolding note_gone
    Keeps-note_gone from n p =
        Keeps->>= _ _ _ (Keeps-store db row key owner t from _)
          λ _. Keeps-if _ (affected db n) _ _ (Keeps-verify_gone from p) (Keeps-pure _ tt)

    none_gone : Keeps (frame db row key owner t 0) (note_gone db k value zero)
    unfolding note_gone affected
    none_gone = Keeps->>= _ _ _ (Keeps-store db row key owner t 0 _) λ _. Keeps-pure _ tt

    release-Stands :
        (r : Result ℕ) (w w' : Scope Bool S)
        → (db.delete (key_is k ∷ value_is value ∷ []) w.outside).0 ≡ r
        → w'.outside ≡ (db.delete (key_is k ∷ value_is value ∷ []) w.outside).1
        → Stands db row key owner t w.outside w'.outside
        → Stands db row key owner t w.outside (continue_with r (note_gone db k value) w').1.outside
    unfolding continue_with note_gone affected
    release-Stands (err e) w w' p q st x = st x
    release-Stands (ok zero) w w' p q st x =
        Stands-trans db row key owner t _ _ _ st (none_gone.kept w' (omega arith)) x
    release-Stands (ok (suc n)) w w' p q st x = elim (Bool-cases (k == key)) [
      | inl e ↦
          let gone = Keeps-note_gone t (suc n) λ s h. λ g. absurd (omega (arith, h, g)) in
          let over = deleted-over w.outside n ((eq_iff k key).0 e) p x in
          (Stands-trans db row key owner t _ _ _ st (gone.kept w' (rw q over))) x
      | inr e ↦
          let elsewhere =
            Keeps-note_gone 0 (suc n)
              λ s _. Spared-elsewhere s λ d. ground (arith, e, eq_iff k key, d) in
          (Stands-trans db row key owner t _ _ _ st (elsewhere.kept w' (omega arith))) x
    ]

    -- One attempt to release a lock.
    pub Keeps-release :
        (from : ℕ)
        → Keeps (frame db row key owner t from) (db.transaction (release_body db k value))
    unfolding release_body on
    Keeps-release from = record {
      kept = c.transaction_Stands _ from λ w h. release-Stands _ w _ refl refl (
          c.delete_Stands _ w.outside
            (Spared-other db row key owner t c k value [] w.outside other));
    }

  Keeps-note_row :
      (from : ℕ) (r : Option LeaderLock) → Keeps (frame db row key owner t from) (note_row db r)
  unfolding note_row
  Keeps-note_row from none = Keeps-pure _ tt
  Keeps-note_row from (some l) = Keeps-store db row key owner t from l

  -- A read, of any lock.
  pub Keeps-read_running :
      (k : String) (from : ℕ) → Keeps (frame db row key owner t from) (read_running db k)
  unfolding read_running
  Keeps-read_running k from = Keeps-clock db row key owner t from _ λ n.
      Keeps->>= _ _ _ (Keeps-on db row key owner t n _ λ s _. c.first_Stands _ s) (Keeps-note_row n)

  Keeps-list_expired : (from : ℕ) → Keeps (frame db row key owner t from) (list_expired db)
  unfolding list_expired
  Keeps-list_expired from = Keeps-clock db row key owner t from _ λ n.
      Keeps->>= _ _ _ (Keeps-attempt _ _ (Keeps-on db row key owner t n _ λ s _. c.find_Stands _ s))
        λ _. Keeps-pure _ tt

  -- A cleanup.
  pub Keeps-cleanup :
      (from : ℕ) → Keeps (frame db row key owner t from) (db.transaction (cleanup_body db))
  unfolding cleanup_body
  Keeps-cleanup from = Keeps-transaction db row key owner t c from (cleanup_body db) (
      Keeps-clock db row key owner t from _ λ n.
        Keeps->>= _ _ _
          (Keeps-on db row key owner t n (db.count (expires_before n ∷ []))
            λ s _. c.count_Stands _ s)
          λ m.
            Keeps->>= _ _ _ (Keeps-if _ (ltb 0 m) _ _ (Keeps-list_expired n) (Keeps-pure _ tt)) λ _.
              Keeps-clock db row key owner t n _ λ later.
                Keeps->>= _ _ _
                  (Keeps-on db row key owner t later (db.delete (expires_before later ∷ []))
                    λ s h. c.delete_Stands _ s (Spared-old db row key owner t c later s h))
                  λ _. Keeps-pure _ tt)
