-- ===== src/Leader/Renew/Outcome.antt =====
-- What a renewal that keeps the leadership rests on, and how many failures of the storage it takes
-- to lose it.
use k8_highlander.Prelude.{
  ℕ, suc, ◌≤◌, ◌<◌, String, Bool, true, false, Option, Result, ok, err, GoError, ◌≡◌, refl, arith,
  ◌∙◌, ap, ◌⊎◌, inl, inr, ltb, wrap, if◌then◌else◌, ◌&&◌, ◌==◌, ◌!=◌,
}
use mathlib.Core.Path.{subst₂}
use k8_highlander.Common.{degraded}
use k8_highlander.Storage.Lock.{Lease}
use k8_highlander.Leader.{
  World, lock_ttl, timed, call, measure, report, max_consecutive_db_failures,
}
use k8_highlander.Leader.Interfaces.{Outside}
use k8_highlander.Leader.Connection.{restore_db, is_connection_error, note_db_failure}
use k8_highlander.Leader.Contract.{StorageContract}
use k8_highlander.Leader.Acquire.Frame.{Same, Same-refl, restore_db-Same, measure-Same}
use k8_highlander.Leader.Acquire.Holds.{
  Holds, Leased, Holds-after, Holds-earlier, try_acquire_leadership-Holds,
}
use k8_highlander.Leader.Acquire.{try_acquire_leadership}
use k8_highlander.Leader.Renew.{
  renew_leadership, renew_failed, tolerate, after_check, after_renew, renew_held, taken_over,
  read_ttl, set_lock_ttl,
}

-- The storage failed, but not three times in a row yet.
pub record Tolerated {S : Type 0} (w : World S) : Type 0 where
  pub failing : 0 < w.lc.db_failure_count
  pub few : w.lc.db_failure_count < max_consecutive_db_failures
  pub state : w.lc.controller_state ≡ degraded

module _ {S : Type 0} where
  note_db_failure-degraded : (w : World S) → (note_db_failure w).lc.controller_state ≡ degraded
  unfolding note_db_failure
  note_db_failure-degraded w = ground arith

  pub note_db_failure-count :
      (w : World S) → (note_db_failure w).lc.db_failure_count ≡ suc w.lc.db_failure_count
  unfolding note_db_failure
  note_db_failure-count w = ground arith

  pub set_lock_ttl-Same : (r : Result ℕ) (w : World S) → Same w (set_lock_ttl r w)
  unfolding set_lock_ttl
  set_lock_ttl-Same (ok ttl) w = measure-Same _ w
  set_lock_ttl-Same (err e) w = Same-refl w

  pub tolerate-answer : (w : World S) → (tolerate w).0 ≡ ltb (suc w.lc.db_failure_count) 3
  unfolding tolerate
  tolerate-answer w = rw note_db_failure-count (ground arith)

  tolerate-Tolerated : (w : World S) → (tolerate w).0 ≡ true → Tolerated (tolerate w).1
  unfolding tolerate
  tolerate-Tolerated w g = record {
    failing = rw note_db_failure-count (omega arith);
    few = rw note_db_failure-count (ground (arith, note_db_failure-count w));
    state = note_db_failure-degraded w;
  }

  -- A failed call keeps the leadership exactly when it is a connection error, and not the third
  -- in a row.
  pub renew_failed-answer :
      (text : String) (e : GoError) (w : World S)
      → (renew_failed text e w).0 ≡ (is_connection_error e && ltb (suc w.lc.db_failure_count) 3)
  unfolding renew_failed
  renew_failed-answer text e w = by_kind (is_connection_error e)
    where
      by_kind :
          (b : Bool)
          → (if b
              then tolerate (report (wrap text e "") w)
              else (false, report (wrap text e "") w)).0
            ≡ (b && ltb (suc w.lc.db_failure_count) 3)
      by_kind true = unfold report in tolerate-answer (report (wrap text e "") w)
      by_kind false = refl

  renew_failed-Tolerated :
      (text : String) (e : GoError) (w : World S)
      → (renew_failed text e w).0 ≡ true
      → Tolerated (renew_failed text e w).1
  unfolding renew_failed
  renew_failed-Tolerated text e w = by_kind (is_connection_error e)
    where
      by_kind :
          (b : Bool)
          → (if b
              then tolerate (report (wrap text e "") w)
              else (false, report (wrap text e "") w)).0
            ≡ true
          → Tolerated
              (if b
                then tolerate (report (wrap text e "") w)
                else (false, report (wrap text e "") w)).1
      by_kind true g = tolerate-Tolerated _ g
      by_kind false g = cc

-- A lease of the lock, or a storage that failed once or twice in a row.
abbrev pub Entitled :
    {S : Type 0} → Outside S → (S → String → Option Lease) → S → World S → World S → Type 0
Entitled o lease s w w' = Holds o lease s w'.outside w.lc.leader_lock_key w.lc.id ⊎ Tolerated w'

module _ {S : Type 0} (o : Outside S) (lease : S → String → Option Lease) (me : String)
    (c : StorageContract o lease me) where
  read_ttl-outside :
      (w : World S)
      → (read_ttl o w).outside ≡ (o.storage.get_lock_ttl w.lc.leader_lock_key w.outside).1
  unfolding read_ttl call
  read_ttl-outside w = after_ttl (o.storage.get_lock_ttl w.lc.leader_lock_key w.outside).0
    where
      after_ttl :
          (r : Result ℕ)
          → (set_lock_ttl r (record w {
            outside = (o.storage.get_lock_ttl w.lc.leader_lock_key w.outside).1;
          })).outside
            ≡ (o.storage.get_lock_ttl w.lc.leader_lock_key w.outside).1
      after_ttl r = (set_lock_ttl-Same r _).outside

  after_renew-Entitled :
      (r : Result Bool) (s : S) (w : World S)
      → w.lc.id ≡ me
      → (after_renew o r w).0 ≡ true
      → (r ≡ ok true → Leased o lease s w.outside w.lc.leader_lock_key w.lc.id)
      → Entitled o lease s w (after_renew o r w).1
  unfolding after_renew
  after_renew-Entitled (err e) s w m g l = inr (renew_failed-Tolerated _ e w g)
  after_renew-Entitled (ok false) s w m g l = cc
  after_renew-Entitled (ok true) s w m g l =
      let (t, h, h', e) = l refl in
      let w' = restore_db w in
      let same = restore_db-Same w in
      inl (
        Holds-after o lease me s w'.outside _ w.lc.leader_lock_key w.lc.id t h (rw same.outside h')
          (ap (λ u. lease u w.lc.leader_lock_key) same.outside ∙ e) m
          (rw (read_ttl-outside w') (c.ttl_Passes w'.lc.leader_lock_key w'.outside)))

  renew_held-Entitled :
      (s : S) (w : World S)
      → o.clock.now s ≤ o.clock.now w.outside
      → w.lc.id ≡ me
      → (renew_held o w).0 ≡ true
      → Entitled o lease s w (renew_held o w).1
  unfolding renew_held timed call measure
  renew_held-Entitled s w h m g = after_renew-Entitled _ s _ m g λ e.
      let (t, early, ended, held) =
        c.renew_lease w.lc.leader_lock_key w.lc.id lock_ttl w.outside e in
      (t, omega arith, ended, held)

  after_check-Entitled :
      (r : Result String) (s : S) (w : World S)
      → o.clock.now s ≤ o.clock.now w.outside
      → w.lc.id ≡ me
      → (after_check o r w).0 ≡ true
      → Entitled o lease s w (after_check o r w).1
  unfolding after_check
  after_check-Entitled (err e) s w h m g = inr (renew_failed-Tolerated _ e w g)
  after_check-Entitled (ok val) s w h m g = pick (val == "") (val != w'.lc.id) g
    where
      w' : World S
      w' = restore_db w

      same : Same w w'
      same = restore_db-Same w

      later : o.clock.now s ≤ o.clock.now w'.outside
      later = rw same.outside h

      pick :
          (free other : Bool)
          → (if free
              then try_acquire_leadership o w'
              else if other
              then (false, taken_over val w')
              else renew_held o w').0
            ≡ true
          → Entitled o lease s w
              (if free
                then try_acquire_leadership o w'
                else if other
                then (false, taken_over val w')
                else renew_held o w').1
      pick true other g' = inl (
          Holds-earlier o lease s w'.outside _ w.lc.leader_lock_key w.lc.id later (
            subst₂ (λ k i. Holds o lease w'.outside (try_acquire_leadership o w').1.outside k i)
              same.key same.id (try_acquire_leadership-Holds o lease me c w' (same.id ∙ m) g')))
      pick false true g' = cc
      pick false false g' =
          subst₂
            (λ k i. Holds o lease s (renew_held o w').1.outside k i ⊎ Tolerated (renew_held o w').1)
            same.key same.id (renew_held-Entitled s w' later (same.id ∙ m) g')

  -- When RenewLeadership returns true, the instance has a lease of its lock for the whole TTL
  -- from a time within the call, which stands unless its time is over; or else its storage could
  -- not be reached, once or twice in a row, and the controller is degraded.
  pub renew_leadership-Entitled :
      (w : World S)
      → w.lc.id ≡ me
      → (renew_leadership o w).0 ≡ true
      → Entitled o lease w.outside w (renew_leadership o w).1
  unfolding renew_leadership timed call measure
  renew_leadership-Entitled w m g =
      after_check-Entitled _ w.outside _ (c.value_Passes w.lc.leader_lock_key w.outside).time m g
