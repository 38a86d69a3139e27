-- ===== src/Storage/Redis/Frame.antt =====
-- The operations of RedisStorage: what they leave alone, and when they give `true`.
use mathlib.Core.Bool.{false≢true}
use k8_highlander.Prelude.{
  ℕ, ◌≤◌, String, Bool, true, false, Option, none, some, Result, ok, err, ◌≡◌, ◌≢◌, refl, ap, arith,
  Action, pure, ◌>>=◌, Keeps, Keeps-pure, Keeps-fail, Keeps-gets, Keeps->>=, Keeps-attempt,
  Keeps-if, continue_with, if◌then◌else◌, ◌!=◌,
}
use Prim.Native.Nat.{◌/◌}
use k8_highlander.Monitoring.{second}
use k8_highlander.Storage.Redis.{
  RedisClient, Metadata, given, renew_script, release_script, try_acquire_lock, describe, info_from,
  get_lock_info, get_lock_value, renew_read, renew_lock,
}
use k8_highlander.Storage.Redis.Lease.{
  Standing, Stands, RedisContract, Stands-refl, frame, missing-over, owned-Stands, owned-over,
  is_granted,
}

module _ {S : Type 0} (c : RedisClient S) (until : S → String → ℕ) (key owner : String) (t : ℕ)
    (con : RedisContract c until key owner t) where
  Keeps-given : {A : Type 0} (r : Result A) → Keeps (frame c until key owner t) (given c r)
  Keeps-given r = record { kept = Stands-refl c until key owner t }

  Keeps-describe :
      (k text : String) (r : Result Metadata)
      → Keeps (frame c until key owner t) (describe c k text r)
  unfolding describe
  Keeps-describe k text (ok m) =
      Keeps->>= _ _ _ (Keeps-attempt _ _ (record { kept = con.ttl_Stands k }))
        λ r. Keeps->>= _ _ _ (Keeps-gets _ _) λ n. Keeps-pure _ _
  Keeps-describe k text (err e) = Keeps->>= _ _ _ (Keeps-gets _ _) λ n.
      Keeps->>= _ _ _ (Keeps-attempt _ _ (record { kept = con.ttl_Stands k })) λ r. Keeps-pure _ _

  Keeps-info_from :
      (k : String) (r : Result String) → Keeps (frame c until key owner t) (info_from c k r)
  unfolding info_from
  Keeps-info_from k (ok text) = Keeps-describe k text _
  Keeps-info_from k (err e) = Keeps-if _ e.redis_nil _ _ (Keeps-pure _ _) (Keeps-fail _ _ e)

  pub Keeps-get_lock_info : (k : String) → Keeps (frame c until key owner t) (get_lock_info c k)
  unfolding get_lock_info
  Keeps-get_lock_info k =
      Keeps->>= _ _ _ (Keeps-attempt _ _ (record { kept = con.get_Stands k })) (Keeps-info_from k)

  pub Keeps-get_lock_value : (k : String) → Keeps (frame c until key owner t) (get_lock_value c k)
  unfolding get_lock_value
  Keeps-get_lock_value k = Keeps->>= _ _ _ (Keeps-get_lock_info k) λ m. Keeps-pure _ _

  -- An action that gives `true` only when the lease of the other is over.
  pub record Over (m : Action S Bool) : Type 0 where
    pub over :
        (s : S) → Standing c until key owner t s → is_granted (m s).0 ≡ true → t ≤ c.now (m s).1

  Over-continue :
      {A : Type 0} (r : Result A) (f : A → Action S Bool) (s : S)
      → Standing c until key owner t s
      → ((a : A) → Over (f a))
      → is_granted (continue_with r f s).0 ≡ true
      → t ≤ c.now (continue_with r f s).1
  unfolding continue_with is_granted
  Over-continue (ok a) f s x k g = (k a).over s x g
  Over-continue (err e) f s x k g = absurd (false≢true g)

  Over->>= :
      {A : Type 0} (m : Action S A) (f : A → Action S Bool)
      → Keeps (frame c until key owner t) m
      → ((a : A) → Over (f a))
      → Over (m >>= f)
  Over->>= m f p k = record { over = λ s x. Over-continue (m s).0 f (m s).1 (p.kept s x).1 k }

  module _ (value : String) (other : value ≢ owner) where
    pub Keeps-try_acquire_lock :
        (k cluster_name : String) (ttl : ℕ)
        → Keeps (frame c until key owner t) (try_acquire_lock c k value cluster_name ttl)
    unfolding try_acquire_lock
    Keeps-try_acquire_lock k cluster_name ttl =
        Keeps->>= _ _ _ (Keeps-gets _ _) λ n.
          Keeps->>= _ _ _ (Keeps-given _) λ text. record { kept = con.set_nx_Stands k text ttl }

    granted-ok : (r : Result Bool) → is_granted r ≡ true → r ≡ ok true
    unfolding is_granted
    granted-ok (ok b) g = ap ok g
    granted-ok (err e) g = absurd (false≢true g)

    pub Over-try_acquire_lock :
        (cluster_name : String) (ttl : ℕ) → Over (try_acquire_lock c key value cluster_name ttl)
    unfolding try_acquire_lock
    Over-try_acquire_lock cluster_name ttl = Over->>= _ _ (Keeps-gets _ _) λ n.
        Over->>= _ _ (Keeps-given _) λ text. record {
          over = λ s x g.
              let m = con.set_nx_Missing key text ttl s (granted-ok _ g) in
              let (a, y) = m.earlier x in
              let (b, z) = m.later y in
              omega (arith, b, missing-over c until key owner t m.moment y m.absent);
        }

    renew_script-Stands :
        (k : String) (n : ℕ) (text : String) (u : S)
        → Stands c until key owner t u (renew_script c k value n text u).1
    unfolding renew_script continue_with
    renew_script-Stands k n text u =
        owned-Stands c until key owner t value other k _ _ u (λ w f. con.setex_Stands k n text w f)
          refl

    pub release_script-Stands :
        (k : String) (u : S) → Stands c until key owner t u (release_script c k value u).1
    unfolding release_script continue_with
    release_script-Stands k u =
        owned-Stands c until key owner t value other k _ _ u (λ w f. con.call_del_Stands k w f) refl

    -- A script on the lock that answers `true` ran when the lease of the other was over.
    pub ran-over :
        (act : Action S Bool) (s : S)
        → ((u : S) → Stands c until key owner t u (act u).1)
        → ((u : S) → Standing c until key owner t u → (act u).0 ≡ ok true → t ≤ c.now u)
        → Standing c until key owner t s
        → (c.eval act s).0 ≡ ok true
        → t ≤ c.now (c.eval act s).1
    ran-over act s kept over x e =
        let r = con.eval_Ran act s true e in
        let (a, y) = r.earlier x in
        let (b, z) = kept r.moment y in
        let (d, q) = r.later z in omega (arith, b, d, over r.moment y r.answered)

    Over-eval :
        (act : Action S Bool)
        → ((u : S) → Stands c until key owner t u (act u).1)
        → ((u : S) → Standing c until key owner t u → (act u).0 ≡ ok true → t ≤ c.now u)
        → Over (c.eval act)
    Over-eval act kept over = record { over = λ s x g. ran-over act s kept over x (granted-ok _ g) }

    Keeps-renew_read :
        (k : String) (ttl : ℕ) (m : Option Metadata)
        → Keeps (frame c until key owner t) (renew_read c k value ttl m)
    unfolding renew_read
    Keeps-renew_read k ttl none = Keeps-pure _ false
    Keeps-renew_read k ttl (some m) = Keeps-if _ (m.value != value) _ _ (Keeps-pure _ false) (
        Keeps->>= _ _ _ (Keeps-gets _ _) λ n.
          Keeps->>= _ _ _ (Keeps-given _)
            λ text. record { kept = λ s. con.eval_Stands _ s (renew_script-Stands k _ text) })

    pub Keeps-renew_lock :
        (k : String) (ttl : ℕ) → Keeps (frame c until key owner t) (renew_lock c k value ttl)
    unfolding renew_lock
    Keeps-renew_lock k ttl = Keeps->>= _ _ _ (Keeps-get_lock_info k) (Keeps-renew_read k ttl)

    Over-false : Over (pure false)
    unfolding is_granted
    Over-false = record { over = λ s x g. absurd (false≢true g) }

    Over-if : (b : Bool) (m n : Action S Bool) → Over m → Over n → Over (if b then m else n)
    Over-if true m n p q = p
    Over-if false m n p q = q

    Over-renew_script : (n : ℕ) (text : String) → Over (c.eval (renew_script c key value n text))
    unfolding renew_script continue_with
    Over-renew_script n text =
        Over-eval (renew_script c key value n text) (renew_script-Stands key n text)
          λ u x e. owned-over c until key owner t value other _ _ u x refl e

    Over-renew_read : (ttl : ℕ) (m : Option Metadata) → Over (renew_read c key value ttl m)
    unfolding renew_read
    Over-renew_read ttl none = Over-false
    Over-renew_read ttl (some m) = Over-if (m.value != value) _ _ Over-false (
        Over->>= _ _ (Keeps-gets _ _)
          λ n. Over->>= _ _ (Keeps-given _) λ text. Over-renew_script (ttl / second) text)

    pub Over-renew_lock : (ttl : ℕ) → Over (renew_lock c key value ttl)
    unfolding renew_lock
    Over-renew_lock ttl = Over->>= _ _ (Keeps-get_lock_info key) (Over-renew_read ttl)
