-- ===== src/Leader/Site.antt =====
-- A site for the controller: pkg/storage/memory_storage.go as its storage, a clock, a cluster in
-- good state, and another instance, named "rival", that calls the same storage whenever the
-- controller sleeps. Storage calls fail by a script. The methods of the storage are those of
-- Storage/Memory.
pub mod Pair
use mathlib.Core.Bool.{false≢true}
use k8_highlander.Prelude.{
  ℕ, suc, ◌+◌, ◌≤◌, String, Bool, true, false, Option, none, some, Result, ok, err, GoError, List,
  [], ◌∷◌, ◌≡◌, ◌≢◌, refl, arith, ap, ◌∙◌, sym,
}
use k8_highlander.Storage.Lock.{Lease}
use k8_highlander.Storage.Memory.{InMemoryStorage, get_lock_value, get_lock_ttl, get_lock_info}
use k8_highlander.Storage.Memory.Laws.{
  Call, acquires, renews, releases, step, leases, call_key, lease_after,
}
use k8_highlander.Storage.Memory.Exclusion.{caller, call_time, call-keeps, granted-lease}
use k8_highlander.Leader.Interfaces.{Outside}
use k8_highlander.Leader.{or_zero}
use k8_highlander.Leader.Contract.{Passes, StorageContract}

-- One call of the rival, which uses the time at which it is made.
pub data Turn : Type 0 where
  takes : (key : String) (ttl : ℕ) → Turn
  keeps_on : (key : String) (ttl : ℕ) → Turn
  drops : (key : String) → Turn

-- `turns` are the rival's next calls, one in each sleep. `faults` says of the next storage calls
-- whether they fail, and how.
pub record Site : Type 0 where
  pub time : ℕ
  pub locks : InMemoryStorage
  pub turns : List Turn
  pub faults : List (Option GoError)
  pub started : Option ℕ
  pub watching : Option ℕ

unfoldable pub call_of : Turn → ℕ → Call
call_of (takes key ttl) now = acquires key "rival" "" ttl now
call_of (keeps_on key ttl) now = renews key "rival" ttl now
call_of (drops key) now = releases key "rival"

unfoldable pub play : List Turn → Site → Site
unfolding call_of
play [] s = s
play (t ∷ ts) s = record s { locks = (step (call_of t s.time) s.locks).1; turns = ts }

-- A sleep: the rival calls, then the time is over.
unfoldable pub rest : ℕ → Site → Site
unfolding play
rest d s = let s' = play s.turns s in record s' { time = s'.time + d }

unfoldable pub perform : Call → Site → Result Bool × Site
perform c s = let (b, l) = step c s.locks in (ok b, record s { locks = l; time = suc s.time })

-- A storage call, by the next fault.
unfoldable pub by_fault :
    {A : Type 0} → List (Option GoError) → (Site → Result A × Site) → Site → Result A × Site
by_fault [] f s = f s
by_fault (none ∷ fs) f s = f (record s { faults = fs })
by_fault (some e ∷ fs) f s = (err e, record s { faults = fs })

unfoldable pub site : Outside Site
site = record {
  clock = record { now = λ s. s.time; sleep = rest };
  storage = record {
    try_acquire_lock =
        λ k v c ttl s. by_fault s.faults (λ s. perform (acquires k v c ttl s.time) s) s;
    renew_lock = λ k v ttl s. by_fault s.faults (λ s. perform (renews k v ttl s.time) s) s;
    release_lock = λ k v s. by_fault s.faults (λ s. perform (releases k v) s) s;
    get_lock_info =
        λ k s. by_fault s.faults (λ s. (ok (get_lock_info k s.time s.time s.locks), s)) s;
    get_lock_value =
        λ k s. by_fault s.faults (λ s. (ok (get_lock_value k s.time s.time s.locks), s)) s;
    get_lock_ttl = λ k s. by_fault s.faults (λ s. (ok (get_lock_ttl k s.time s.time s.locks), s)) s;
  };
  workloads = record {
    start_all = λ n s. (none, record s { started = n });
    stop_all = λ s. (none, record s { started = none });
    get_all_statuses = λ s. [];
    cleanup = λ s. s;
  };
  crd_watcher = record {
    start = λ n s. (none, record s { watching = n });
    stop = λ s. (none, record s { watching = none });
  };
  client = record {
    has_client = λ s. true;
    list_nodes = λ s. (none, s);
    list_pods = λ s. (ok [], s);
    get_pod = λ ns name s. (ok (record { annotations = []; is_running = true }), s);
    get_cron_job = λ ns name s. (ok (record { is_off = false }), s);
    get_deployment = λ ns name s. (ok (record { is_off = false }), s);
    get_stateful_set = λ ns name s. (ok (record { is_off = false }), s);
  };
}

abbrev pub site_lease : Site → String → Option Lease
site_lease s key = leases s.locks key

is_ok : {A : Type 0} → Result A → Bool
is_ok (ok a) = true
is_ok (err e) = false

err≢ok : {A : Type 0} {a : A} {e : GoError} → err e ≢ ok a
unfolding is_ok
err≢ok p = false≢true (ap is_ok p)

rival-caller : (t : Turn) (now : ℕ) → caller (call_of t now) ≡ "rival"
unfolding caller call_of
rival-caller (takes key ttl) now = refl
rival-caller (keeps_on key ttl) now = refl
rival-caller (drops key) now = refl

rival-call_time : (t : Turn) (now : ℕ) → call_time (call_of t now) ≤ now
unfolding call_time call_of
rival-call_time (takes key ttl) now = omega arith
rival-call_time (keeps_on key ttl) now = omega arith
rival-call_time (drops key) now = omega arith

-- A granted call gives its caller the lease, from the time at which it is made.
perform-lease :
    (c : ℕ → Call) (v k : String) (ttl : ℕ) (s : Site) (fs : List (Option GoError))
    → ((n : ℕ) → call_key (c n) ≡ k)
    → ((n : ℕ) → lease_after (c n) ≡ some (record { owner = v; until = n + ttl }))
    → (by_fault fs (λ u. perform (c u.time) u) s).0 ≡ ok true
    → (t : ℕ) × (s.time ≤ t)
      × (t ≤ (by_fault fs (λ u. perform (c u.time) u) s).1.time)
      × (leases (by_fault fs (λ u. perform (c u.time) u) s).1.locks k
          ≡ some (record { owner = v; until = t + ttl }))
unfolding by_fault perform
perform-lease c v k ttl s [] key after g = (
  s.time,
  omega arith,
  omega arith,
  ap (leases (step (c s.time) s.locks).1) (sym (key s.time))
      ∙ granted-lease (c s.time) s.locks (ap (or_zero false) g)
      ∙ after s.time,
)
perform-lease c v k ttl s (none ∷ fs) key after g = (
  s.time,
  omega arith,
  omega arith,
  ap (leases (step (c s.time) s.locks).1) (sym (key s.time))
      ∙ granted-lease (c s.time) s.locks (ap (or_zero false) g)
      ∙ after s.time,
)
perform-lease c v k ttl s (some e ∷ fs) key after g = absurd (err≢ok g)

module _ (me : String) (other : me ≢ "rival") where
  -- A step of the site that leaves the locks alone.
  pub quiet : (s s' : Site) → s.time ≤ s'.time → s'.locks ≡ s.locks → Passes site site_lease me s s'
  unfolding site
  quiet s s' t e = record { time = t; keeps = λ k l h m u. ap (λ x. leases x k) e ∙ h }

  pub by_fault-Passes :
      {A : Type 0} (fs : List (Option GoError)) (r : Site → Result A) (s : Site)
      → Passes site site_lease me s (by_fault fs (λ u. (r u, u)) s).1
  unfolding by_fault
  by_fault-Passes [] r s = quiet _ _ (omega arith) refl
  by_fault-Passes (none ∷ fs) r s = quiet _ _ (omega arith) refl
  by_fault-Passes (some e ∷ fs) r s = quiet _ _ (omega arith) refl

  rest_with-Passes :
      (d : ℕ) (s : Site) (ts : List Turn) → s.turns ≡ ts → Passes site site_lease me s (rest d s)
  unfolding site rest play
  rest_with-Passes d s [] e = rw e (quiet _ _ (omega arith) refl)
  rest_with-Passes d s (t ∷ ts) e = rw e (record {
    time = omega arith;
    keeps = λ k l h m u. call-keeps k l (call_of t s.time) s.locks h (λ _. (
      λ c. other (sym m ∙ sym c ∙ rival-caller t s.time),
      omega (arith, rival-call_time t s.time),
    ));
  })

  pub rest-Passes : (d : ℕ) (s : Site) → Passes site site_lease me s (rest d s)
  rest-Passes d s = rest_with-Passes d s s.turns refl

  -- For an instance of another name than the rival's, the in-memory storage keeps what the
  -- controller relies on, whatever the rival calls while the controller sleeps and whichever calls
  -- fail: reads, waits and failed calls leave a lease of the
  -- instance as it is until it ends, and a granted acquisition or renewal is a lease from a time
  -- within the call, for the TTL asked.
  pub site-StorageContract : StorageContract site site_lease me
  unfolding site call_key lease_after
  site-StorageContract = record {
    sleep_Passes = rest-Passes;
    value_Passes =
        λ k s. by_fault-Passes s.faults (λ u. ok (get_lock_value k u.time u.time u.locks)) s;
    ttl_Passes = λ k s. by_fault-Passes s.faults (λ u. ok (get_lock_ttl k u.time u.time u.locks)) s;
    start_all_Passes = λ n s. quiet _ _ (omega arith) refl;
    watcher_Passes = λ n s. quiet _ _ (omega arith) refl;
    list_pods_Passes = λ s. quiet _ _ (omega arith) refl;
    get_pod_Passes = λ ns name s. quiet _ _ (omega arith) refl;
    get_cron_job_Passes = λ ns name s. quiet _ _ (omega arith) refl;
    get_deployment_Passes = λ ns name s. quiet _ _ (omega arith) refl;
    get_stateful_set_Passes = λ ns name s. quiet _ _ (omega arith) refl;
    acquire_lease = λ k v c ttl s.
        perform-lease (λ n. acquires k v c ttl n) v k ttl s s.faults (λ n. refl) (λ n. refl);
    renew_lease = λ k v ttl s.
        perform-lease (λ n. renews k v ttl n) v k ttl s s.faults (λ n. refl) (λ n. refl);
  }
