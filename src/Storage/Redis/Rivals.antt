-- ===== src/Storage/Redis/Rivals.antt =====
-- The Redis storage as its users see it: other instances' calls while a lease runs.
use k8_highlander.Prelude.{
  ℕ, ◌≤◌, String, Bool, true, false, Result, ok, err, List, [], ◌∷◌, ◌≡◌, ◌≢◌, refl, sym, ap, arith,
  Order, Keeps, Keeps-pure, Keeps->>=, Keeps-attempt, Keeps-if, continue_with,
}
use k8_highlander.Storage.Redis.{
  RedisClient, release_script, try_acquire_lock, get_lock_info, get_lock_value, get_lock_ttl,
  renew_lock, still_there, verify_released, verify_if_released, release_lock,
}
use k8_highlander.Storage.Redis.Lease.{
  Standing, Stands, Free, RedisContract, Stands-refl, Stands-trans, owned-over, is_granted,
}
use k8_highlander.Storage.Redis.Frame.{
  Keeps-get_lock_info, Keeps-get_lock_value, Keeps-try_acquire_lock, Keeps-renew_lock,
  Over-try_acquire_lock, Over-renew_lock, release_script-Stands, ran-over,
}

-- A call of the storage.
pub data RedisCall : Type 0 where
  acquires : (key value cluster_name : String) (ttl : ℕ) → RedisCall
  renews : (key value : String) (ttl : ℕ) → RedisCall
  releases : (key value : String) → RedisCall
  reads_info reads_value reads_ttl : (key : String) → RedisCall

-- A call that is not under the owner's name.
unfoldable pub IsOther : String → RedisCall → Type 0
IsOther owner (acquires key value cluster_name ttl) = value ≢ owner
IsOther owner (renews key value ttl) = value ≢ owner
IsOther owner (releases key value) = value ≢ owner
IsOther owner (reads_info key) = Unit {0}
IsOther owner (reads_value key) = Unit {0}
IsOther owner (reads_ttl key) = Unit {0}

abbrev pub AllOther : String → List RedisCall → Type 0
AllOther owner [] = Unit {0}
AllOther owner (q ∷ qs) = IsOther owner q × AllOther owner qs

unfoldable pub perform : {S : Type 0} → RedisClient S → RedisCall → S → S
perform c (acquires key value cluster_name ttl) s =
    (try_acquire_lock c key value cluster_name ttl s).1
perform c (renews key value ttl) s = (renew_lock c key value ttl s).1
perform c (releases key value) s = (release_lock c key value s).1
perform c (reads_info key) s = (get_lock_info c key s).1
perform c (reads_value key) s = (get_lock_value c key s).1
perform c (reads_ttl key) s = (get_lock_ttl c key s).1

unfoldable pub run : {S : Type 0} → RedisClient S → List RedisCall → S → S
run c [] s = s
run c (q ∷ qs) s = run c qs (perform c q s)

module _ {S : Type 0} (c : RedisClient S) (until : S → String → ℕ) (key owner : String) (t : ℕ)
    (con : RedisContract c until key owner t) where
  -- The order of an action that may delete the key: its own key, or once the lease is over.
  abbrev late_frame : String → Order S
  late_frame k = record {
    before = λ s u. Free c until key owner t k s → Stands c until key owner t s u;
    same = λ s f. Stands-refl c until key owner t s;
    next = λ s u v p q f x.
        let (a, y) = p f x in
        let (b, z) = q (λ e. omega (arith, a, f e)) y in (omega (arith, a, b), z);
  }

  Keeps-verify_released : (k : String) → Keeps (late_frame k) (verify_released c k)
  unfolding verify_released
  Keeps-verify_released k =
      Keeps->>= _ _ _ (Keeps-attempt _ _ (record { kept = λ s f. con.get_Stands k s })) λ r.
        Keeps-if _ (still_there c r) _ _
          (Keeps->>= _ _ _ (Keeps-attempt _ _ (record { kept = con.del_Stands k }))
            λ a. Keeps-pure _ tt)
          (Keeps-pure _ tt)

  -- After the script of a release has deleted our key, the lease of another on it is over.
  verify_if_released-Stands :
      (k value : String) (s s' : S) (r : Result Bool)
      → Stands c until key owner t s s'
      → (r ≡ ok true → Standing c until key owner t s → Free c until key owner t k s')
      → Stands c until key owner t s (continue_with r (verify_if_released c k) s').1
  unfolding continue_with verify_if_released
  verify_if_released-Stands k value s s' (err e) p f x = p x
  verify_if_released-Stands k value s s' (ok false) p f x = p x
  verify_if_released-Stands k value s s' (ok true) p f x =
      let verified =
        Keeps->>= (late_frame k) _ _ (Keeps-verify_released k)
          λ u. Keeps-pure (late_frame k) true in
      Stands-trans c until key owner t s s' _ p (verified.kept s' (f refl x)) x

  module _ (value : String) (other : value ≢ owner) where
    release_lock-Stands :
        (k : String) (s : S) → Stands c until key owner t s (release_lock c k value s).1
    unfolding release_lock release_script continue_with
    release_lock-Stands k s =
        let kept = release_script-Stands c until key owner t con value other k in
        verify_if_released-Stands k value s _ _ (con.eval_Stands _ s kept) λ g x q.
          ran-over c until key owner t con value other (release_script c k value) s kept
            (λ u y e.
              owned-over c until key owner t value other _ _ u y (ap (λ z. c.call_get z u) (sym q))
                e)
            x g

    -- On a Redis that keeps the contract: when TryAcquireLock or RenewLock gives true to an instance,
    -- every lease of the lock that another had before the call is over at its end.
    pub redis_granted-over :
        (cluster_name : String) (ttl : ℕ) (s : S)
        → Standing c until key owner t s
        → ((try_acquire_lock c key value cluster_name ttl s).0 ≡ ok true
            → t ≤ c.now (try_acquire_lock c key value cluster_name ttl s).1)
          × ((renew_lock c key value ttl s).0 ≡ ok true
              → t ≤ c.now (renew_lock c key value ttl s).1)
    unfolding is_granted
    redis_granted-over cluster_name ttl s x = (
      λ g.
          (Over-try_acquire_lock c until key owner t con value other cluster_name ttl).over s x
            (ap is_granted g),
      λ g. (Over-renew_lock c until key owner t con value other ttl).over s x (ap is_granted g),
    )

  perform-Stands :
      (q : RedisCall) (s : S) → IsOther owner q → Stands c until key owner t s (perform c q s)
  unfolding perform IsOther get_lock_ttl
  perform-Stands (acquires k v n ttl) s o =
      (Keeps-try_acquire_lock c until key owner t con v o k n ttl).kept s
  perform-Stands (renews k v ttl) s o = (Keeps-renew_lock c until key owner t con v o k ttl).kept s
  perform-Stands (releases k v) s o = release_lock-Stands v o k s
  perform-Stands (reads_info k) s o = (Keeps-get_lock_info c until key owner t con k).kept s
  perform-Stands (reads_value k) s o = (Keeps-get_lock_value c until key owner t con k).kept s
  perform-Stands (reads_ttl k) s o = con.ttl_Stands k s

  -- On a Redis that keeps the contract: whatever calls other instances make, in any order and
  -- number, the key of a lease has its owner's metadata up to the end of the lease.
  pub redis_run-Standing :
      (qs : List RedisCall) (s : S)
      → AllOther owner qs
      → Standing c until key owner t s
      → Standing c until key owner t (run c qs s)
  unfolding run
  redis_run-Standing [] s o x = x
  redis_run-Standing (q ∷ qs) s o x = redis_run-Standing qs _ o.1 (perform-Stands q s o.0 x).1
