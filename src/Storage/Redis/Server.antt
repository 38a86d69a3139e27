-- ===== src/Storage/Redis/Server.antt =====
-- A Redis server for the tests, whose commands run one at a time and take a nanosecond each.
use k8_highlander.Prelude.{
  ℕ, suc, ◌+◌, ◌*◌, ◌-◌, ◌≤◌, ◌<◌, String, Bool, true, false, Option, none, some, Result, ok, err,
  GoError, new_error, ◌≡◌, refl, sym, ap, ◌∙◌, arith, eq_iff, ◌==◌, if◌then◌else◌, ltb, pos,
  Bool-cases, inl, inr, lt→ltb,
}
use k8_highlander.Monitoring.{second}
use k8_highlander.Storage.Redis.{RedisClient}
use k8_highlander.Storage.Redis.Lease.{
  Standing, Stands, Free, Missing, RedisContract, Stands-refl, Stands-trans, missing-over,
  is_granted,
}
use mathlib.Core.Bool.{false≢true}

-- A key's text, and the time from which on it is gone.
pub record Server : Type 0 where
  pub time : ℕ
  pub texts : String → Option String
  pub ends : String → ℕ

abbrev pub ends_at : Server → String → ℕ
ends_at s k = s.ends k

tick : Server → Server
tick s = record s { time = suc s.time }

live : String → Server → Option String
live k s = if ltb s.time (s.ends k) then s.texts k else none

set : String → String → ℕ → Server → Server
set k text until s = record s {
  texts = λ j. if j == k then some text else s.texts j;
  ends = λ j. if j == k then until else s.ends j;
}

drop : String → Server → Server
drop k s = record s { texts = λ j. if j == k then none else s.texts j }

missing : GoError
missing = record (new_error "redis: nil") { redis_nil = true }

answer : Option String → Result String
unfolding missing
answer none = err missing
answer (some text) = ok text

set_over : Option String → String → String → ℕ → Server → Result Bool × Server
unfolding set tick
set_over none k text ttl s = (ok true, tick (set k text (s.time + ttl) s))
set_over (some old) k text ttl s = (ok false, tick s)

-- The text of a lock is its owner's name here.
unfoldable pub server : RedisClient Server
unfolding tick live set drop answer set_over missing
server = record {
  now = λ s. s.time;
  set_nx = λ k text ttl s. set_over (live k s) k text ttl s;
  get = λ k s. (answer (live k s), tick s);
  ttl = λ k s. (ok (pos (s.ends k - s.time)), tick s);
  del = λ k s. (ok tt, tick (drop k s));
  eval = λ act s. let (r, s') = act s in (r, tick s');
  call_get = live;
  call_setex = λ k n text s. (ok tt, set k text (s.time + n * second) s);
  call_del = λ k s. (ok tt, drop k s);
  decoded_value = λ text. ok (some text);
  marshal = λ m. ok m.value;
  unmarshal = λ text. ok (record {
    value = text;
    cluster_name = "";
    created_at = pos 0;
    updated_at = 0;
    expires_at = pos 0;
    ttl = pos 0;
    version = 0;
  });
}

running : (k : String) (s : Server) → s.time < s.ends k → live k s ≡ s.texts k
unfolding live
running k s h = rw (lt→ltb s.time (s.ends k) h) refl

module _ (key owner : String) (t : ℕ) where
  -- A step that leaves the key of the lease alone while it runs.
  step-Stands :
      (s s' : Server)
      → s.time ≤ s'.time
      → (s.time < t → s'.texts key ≡ s.texts key)
      → (s.time < t → s'.ends key ≡ s.ends key)
      → Stands server ends_at key owner t s s'
  unfolding server
  step-Stands s s' h e f st = (h, stays)
    where
      stays : Standing server ends_at key owner t s'
      stays g =
          let early : s.time < t = omega (arith, h, g) in
          let (text, p, d, u) = st early in
          let later : t ≤ s'.ends key = rw (f early) u in
          (
            text,
            running key s' (omega (arith, g, later))
                ∙ e early
                ∙ sym (running key s (omega (arith, early, u)))
                ∙ p,
            d,
            later,
          )

  quiet :
      (s s' : Server)
      → s.time ≤ s'.time
      → s'.texts ≡ s.texts
      → s'.ends ≡ s.ends
      → Stands server ends_at key owner t s s'
  quiet s s' h e f = step-Stands s s' h (λ g. ap (λ r. r key) e) (λ g. ap (λ r. r key) f)

  -- Another key, or a lease that is over: then any value may be put in its place.
  elsewhere :
      {A : Type 0} (k : String) (x y : A) (s : Server)
      → Free server ends_at key owner t k s
      → s.time < t
      → (if key == k then x else y) ≡ y
  unfolding server
  elsewhere k x y s f g = elim (Bool-cases (key == k)) [
    | inl e ↦ absurd (omega (arith, g, f (sym ((eq_iff key k).0 e))))
    | inr e ↦ rw e refl
  ]

  set-Stands :
      (k text : String) (n : ℕ) (s : Server)
      → Free server ends_at key owner t k s
      → Stands server ends_at key owner t s (set k text n s)
  unfolding set
  set-Stands k text n s f =
      step-Stands s (set k text n s) (omega arith)
        (λ g. elsewhere k (some text) (s.texts key) s f g) (λ g. elsewhere k n (s.ends key) s f g)

  drop-Stands :
      (k : String) (s : Server)
      → Free server ends_at key owner t k s
      → Stands server ends_at key owner t s (drop k s)
  unfolding drop
  drop-Stands k s f =
      step-Stands s (drop k s) (omega arith) (λ g. elsewhere k none (s.texts key) s f g) (λ g. refl)

  tick-Stands : (s : Server) → Stands server ends_at key owner t s (tick s)
  unfolding tick
  tick-Stands s = quiet s (tick s) (omega arith) refl refl

  then_tick :
      (s u : Server)
      → Stands server ends_at key owner t s u
      → Stands server ends_at key owner t s (tick u)
  then_tick s u p = Stands-trans server ends_at key owner t s u (tick u) p (tick-Stands u)

  set_over-Stands :
      (o : Option String) (k text : String) (ttl : ℕ) (s : Server)
      → live k s ≡ o
      → Stands server ends_at key owner t s (set_over o k text ttl s).1
  unfolding set_over server
  set_over-Stands (some old) k text ttl s e x = tick-Stands s x
  set_over-Stands none k text ttl s e x =
      then_tick s (set k text (s.time + ttl) s) (set-Stands k text (s.time + ttl) s free) x
    where
      free : Free server ends_at key owner t k s
      free q = missing-over server ends_at key owner t s x (ap (λ z. live z s) (sym q) ∙ e)

  set_over-Missing :
      (o : Option String) (k text : String) (ttl : ℕ) (s : Server)
      → live k s ≡ o
      → is_granted (set_over o k text ttl s).0 ≡ true
      → Missing server ends_at key owner t k s (set_over o k text ttl s).1
  unfolding is_granted set_over server
  set_over-Missing (some old) k text ttl s e g = absurd (false≢true g)
  set_over-Missing none k text ttl s e g = record {
    moment = s;
    earlier = Stands-refl server ends_at key owner t s;
    later = set_over-Stands none k text ttl s e;
    absent = e;
  }

  pub server-RedisContract : RedisContract server ends_at key owner t
  unfolding server is_granted
  server-RedisContract = record {
    set_nx_Stands = λ k text ttl s. set_over-Stands _ k text ttl s refl;
    set_nx_Missing = λ k text ttl s e. set_over-Missing _ k text ttl s refl (ap is_granted e);
    get_Stands = λ k s. tick-Stands s;
    ttl_Stands = λ k s. tick-Stands s;
    del_Stands = λ k s f. then_tick s (drop k s) (drop-Stands k s f);
    setex_Stands = λ k n text s f. set-Stands k text _ s f;
    call_del_Stands = λ k s f. drop-Stands k s f;
    eval_Stands = λ act s kept. then_tick s (act s).1 (kept s);
    eval_Ran = λ act s b e. record {
      moment = s;
      earlier = Stands-refl server ends_at key owner t s;
      later = tick-Stands (act s).1;
      answered = e;
    };
  }
