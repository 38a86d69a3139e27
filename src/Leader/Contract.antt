-- ===== src/Leader/Contract.antt =====
-- What the controller relies on in its storage and its clock: the promise of pkg/storage's
-- interface LeaderStorage, as leases. Other instances may use the same storage at any time.
use k8_highlander.Prelude.{ℕ, ◌+◌, ◌≤◌, String, true, Option, some, ok, ◌≡◌, arith}
use k8_highlander.Storage.Lock.{Lease}
use k8_highlander.Leader.{World, get_current_leader, read_leader}
use k8_highlander.Leader.Reads.{get_current_leader_induction, nap}
use k8_highlander.Monitoring.{second}
use k8_highlander.Leader.Interfaces.{Outside}

-- `lease s key` is the lease of `key` in `s`, and `me` the name of the instance, which no other uses.
module _ {S : Type 0} (o : Outside S) (lease : S → String → Option Lease) (me : String) where
  -- From `s` to `s'` the clock does not go back, and a lease of `me` that still runs in `s'`
  -- stands: others cannot take it.
  pub record Passes (s s' : S) : Type 0 where
    pub time : o.clock.now s ≤ o.clock.now s'
    pub keeps :
        (k : String) (l : Lease)
        → lease s k ≡ some l
        → l.owner ≡ me
        → o.clock.now s' ≤ l.until
        → lease s' k ≡ some l

  -- The reads and the clock only pass, and so does every call of the workload manager, the CRD
  -- watcher and the cluster; a granted lock is a lease from a time within the call.
  pub record StorageContract : Type 0 where
    pub sleep_Passes : (d : ℕ) (s : S) → Passes s (o.clock.sleep d s)
    pub value_Passes : (k : String) (s : S) → Passes s (o.storage.get_lock_value k s).1
    pub ttl_Passes : (k : String) (s : S) → Passes s (o.storage.get_lock_ttl k s).1
    pub start_all_Passes : (n : Option ℕ) (s : S) → Passes s (o.workloads.start_all n s).1
    pub watcher_Passes : (n : Option ℕ) (s : S) → Passes s (o.crd_watcher.start n s).1
    pub list_pods_Passes : (s : S) → Passes s (o.client.list_pods s).1
    pub get_pod_Passes : (ns name : String) (s : S) → Passes s (o.client.get_pod ns name s).1
    pub get_cron_job_Passes :
        (ns name : String) (s : S) → Passes s (o.client.get_cron_job ns name s).1
    pub get_deployment_Passes :
        (ns name : String) (s : S) → Passes s (o.client.get_deployment ns name s).1
    pub get_stateful_set_Passes :
        (ns name : String) (s : S) → Passes s (o.client.get_stateful_set ns name s).1
    pub acquire_lease :
        (k v c : String) (ttl : ℕ) (s : S)
        → (o.storage.try_acquire_lock k v c ttl s).0 ≡ ok true
        → (t : ℕ) × (o.clock.now s ≤ t)
          × (t ≤ o.clock.now (o.storage.try_acquire_lock k v c ttl s).1)
          × (lease (o.storage.try_acquire_lock k v c ttl s).1 k
              ≡ some (record { owner = v; until = t + ttl }))
    pub renew_lease :
        (k v : String) (ttl : ℕ) (s : S)
        → (o.storage.renew_lock k v ttl s).0 ≡ ok true
        → (t : ℕ) × (o.clock.now s ≤ t)
          × (t ≤ o.clock.now (o.storage.renew_lock k v ttl s).1)
          × (lease (o.storage.renew_lock k v ttl s).1 k
              ≡ some (record { owner = v; until = t + ttl }))

  pub Passes-refl : (s : S) → Passes s s
  Passes-refl s = record { time = omega arith; keeps = λ k l e m h. e }

  pub Passes-trans : (s t u : S) → Passes s t → Passes t u → Passes s u
  Passes-trans s t u p q = record {
    time = omega arith;
    keeps = λ k l e m h. q.keeps k l (p.keeps k l e m (omega arith)) m h;
  }

  module _ (c : StorageContract) (w : World S) where
    -- Reading the current leader, retries and waits included, only passes.
    pub get_current_leader-Passes :
        (retries : ℕ) → Passes w.outside (get_current_leader o retries w).1.outside
    unfolding read_leader nap
    get_current_leader-Passes retries =
        get_current_leader_induction o (λ u. Passes w.outside u.outside)
          (λ u p. Passes-trans _ _ _ p (c.value_Passes u.lc.leader_lock_key u.outside))
          (λ u p. Passes-trans _ _ _ p (c.sleep_Passes second u.outside)) retries w
          (Passes-refl w.outside)
