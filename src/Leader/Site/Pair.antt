-- ===== src/Leader/Site/Pair.antt =====
-- A second instance on the site: its calls leave the leases of the first alone while they run.
use k8_highlander.Prelude.{
  ℕ, ◌≤◌, String, Option, none, some, GoError, List, [], ◌∷◌, ◌≡◌, ◌≢◌, refl, sym, ◌∙◌, arith,
}
use k8_highlander.Storage.Memory.{get_lock_value, get_lock_ttl}
use k8_highlander.Storage.Memory.Laws.{Call, acquires, renews}
use k8_highlander.Storage.Memory.Exclusion.{caller, call_time, call-keeps}
use k8_highlander.Prelude.{ok}
use k8_highlander.Leader.Contract.{Passes}
use k8_highlander.Leader.Bystander.{KeepsOrder}
use k8_highlander.Leader.Bystander.Leaders.{lease_order}
use k8_highlander.Leader.Site.{
  Site, site, site_lease, by_fault, perform, quiet, by_fault-Passes, rest-Passes,
}

module _ (a b : String) (known : a ≢ "rival") (other : b ≢ a) where
  perform-Passes :
      (c : ℕ → Call) (fs : List (Option GoError)) (s : Site)
      → ((n : ℕ) → caller (c n) ≡ b)
      → ((n : ℕ) → call_time (c n) ≤ n)
      → Passes site site_lease a s (by_fault fs (λ u. perform (c u.time) u) s).1
  unfolding site by_fault perform
  perform-Passes c [] s who time = record {
    time = omega arith;
    keeps = λ k l h m u.
        call-keeps k l (c s.time) s.locks h
          (λ _. (λ e. other (sym (who s.time) ∙ e ∙ m), omega (arith, time s.time, u)));
  }
  perform-Passes c (none ∷ fs) s who time = record {
    time = omega arith;
    keeps = λ k l h m u.
        call-keeps k l (c s.time) s.locks h
          (λ _. (λ e. other (sym (who s.time) ∙ e ∙ m), omega (arith, time s.time, u)));
  }
  perform-Passes c (some e ∷ fs) s who time = quiet a known _ _ (omega arith) refl

  pub site-KeepsOrder : KeepsOrder (lease_order site site_lease a) site b
  unfolding site caller call_time
  site-KeepsOrder = record {
    sleep_kept = rest-Passes a known;
    acquire_kept = λ k c ttl s.
        perform-Passes (λ n. acquires k b c ttl n) s.faults s (λ n. refl) (λ n. omega arith);
    renew_kept =
        λ k ttl s. perform-Passes (λ n. renews k b ttl n) s.faults s (λ n. refl) (λ n. omega arith);
    value_kept = λ k s.
        by_fault-Passes a known s.faults (λ u. ok (get_lock_value k u.time u.time u.locks)) s;
    ttl_kept =
        λ k s. by_fault-Passes a known s.faults (λ u. ok (get_lock_ttl k u.time u.time u.locks)) s;
    start_all_kept = λ n s. quiet a known _ _ (omega arith) refl;
    stop_all_kept = λ s. quiet a known _ _ (omega arith) refl;
    watcher_start_kept = λ n s. quiet a known _ _ (omega arith) refl;
    watcher_stop_kept = λ s. quiet a known _ _ (omega arith) refl;
    list_pods_kept = λ s. quiet a known _ _ (omega arith) refl;
    get_pod_kept = λ ns name s. quiet a known _ _ (omega arith) refl;
    get_cron_job_kept = λ ns name s. quiet a known _ _ (omega arith) refl;
    get_deployment_kept = λ ns name s. quiet a known _ _ (omega arith) refl;
    get_stateful_set_kept = λ ns name s. quiet a known _ _ (omega arith) refl;
  }
