-- ===== src/Leader/Acquire/Holds.antt =====
-- TryAcquireLeadership says true only of a lock that the instance holds.
use k8_highlander.Prelude.{
  ℕ, ◌+◌, ◌≤◌, ◌<◌, String, Bool, true, false, Option, some, Result, ok, err, ◌≡◌, refl, arith, ◌∙◌,
  ap, ◌⊎◌, inl, inr, Bool-cases, ltb, ltb→lt, ltb→le, if◌then◌else◌,
}
use mathlib.Core.Path.{subst₂}
use k8_highlander.Storage.Lock.{Lease}
use k8_highlander.Leader.{
  World, LeaderController, lock_ttl, timed, call, measure, get_current_leader,
}
use k8_highlander.Leader.Interfaces.{Outside}
use k8_highlander.Leader.Connection.{restore_db}
use k8_highlander.Leader.Reads.{lc-get_current_leader}
use k8_highlander.Leader.Contract.{Passes, StorageContract, get_current_leader-Passes}
use k8_highlander.Leader.Acquire.{
  try_acquire_leadership, contend, try_lock, prepare, after_acquire, acquired,
}
use k8_highlander.Leader.Acquire.Frame.{Same-trans, prepare-Same, acquired-Same, restore_db-Same}

module _ {S : Type 0} (o : Outside S) (lease : S → String → Option Lease) where
  -- A call that began in `s` and ended in `s'` left `id` a lease of `key`, taken during the call
  -- for the whole TTL: it stands in `s'`, or its time is over already.
  abbrev pub Holds : S → S → String → String → Type 0
  Holds s s' key id =
      (t : ℕ) × (o.clock.now s ≤ t)
      × (t ≤ o.clock.now s')
      × ((t + lock_ttl < o.clock.now s')
          ⊎ (lease s' key ≡ some (record { owner = id; until = t + lock_ttl })))

  abbrev pub Leased : S → S → String → String → Type 0
  Leased s s' key id =
      (t : ℕ) × (o.clock.now s ≤ t)
      × (t ≤ o.clock.now s')
      × (lease s' key ≡ some (record { owner = id; until = t + lock_ttl }))

  pub Holds-earlier :
      (s u s' : S) (key id : String)
      → o.clock.now s ≤ o.clock.now u
      → Holds u s' key id
      → Holds s s' key id
  Holds-earlier s u s' key id h (t, e, e', p) = (t, omega arith, e', p)

module _ {S : Type 0} (o : Outside S) (lease : S → String → Option Lease) (me : String) where
  pub Holds-after :
      (s u s' : S) (key id : String) (t : ℕ)
      → o.clock.now s ≤ t
      → t ≤ o.clock.now u
      → lease u key ≡ some (record { owner = id; until = t + lock_ttl })
      → id ≡ me
      → Passes o lease me u s'
      → Holds o lease s s' key id
  Holds-after s u s' key id t h h' e m p =
      let forth : o.clock.now u ≤ o.clock.now s' = p.time in
      elim (Bool-cases (ltb (t + lock_ttl) (o.clock.now s'))) [
        | inl late ↦ (t, h, omega arith, inl (ltb→lt _ _ late))
        | inr early ↦ (t, h, omega arith, inr (p.keeps key _ e m (ltb→le _ _ early)))
      ]

  pub Holds-later :
      (s u s' : S) (key id : String)
      → id ≡ me
      → Holds o lease s u key id
      → Passes o lease me u s'
      → Holds o lease s s' key id
  Holds-later s u s' key id m (t, h, h', inl late) p =
      let forth : o.clock.now u ≤ o.clock.now s' = p.time in (t, h, omega arith, inl (omega arith))
  Holds-later s u s' key id m (t, h, h', inr e) p = Holds-after s u s' key id t h h' e m p

  module _ (c : StorageContract o lease me) where
    after_acquire-Holds :
        (current : String) (b : Bool) (r : Result Bool) (s : S) (w : World S)
        → w.lc.id ≡ me
        → (after_acquire o current b r w).0 ≡ true
        → (r ≡ ok true → Leased o lease s w.outside w.lc.leader_lock_key w.lc.id)
        → Holds o lease s (after_acquire o current b r w).1.outside w.lc.leader_lock_key w.lc.id
    unfolding after_acquire
    after_acquire-Holds current b (err e) s w m g l = cc
    after_acquire-Holds current b (ok false) s w m g l = cc
    after_acquire-Holds current b (ok true) s w m g l =
        let w' = acquired o current b (restore_db w) in
        let same =
          Same-trans _ _ _ (restore_db-Same w) (acquired-Same o current b (restore_db w)) in
        let (t, h, h', e) = l refl in
        Holds-after s w'.outside _ w.lc.leader_lock_key w.lc.id t h (rw same.outside h')
          (ap (λ u. lease u w.lc.leader_lock_key) same.outside ∙ e) m
          (get_current_leader-Passes o lease me c w' 3)

    try_lock-Holds :
        (current : String) (b : Bool) (start : ℕ) (s : S) (w : World S)
        → o.clock.now s ≤ o.clock.now w.outside
        → w.lc.id ≡ me
        → (try_lock o current b start w).0 ≡ true
        → Holds o lease s (try_lock o current b start w).1.outside w.lc.leader_lock_key w.lc.id
    unfolding try_lock timed measure call
    try_lock-Holds current b start s w h m g = after_acquire-Holds current b _ s _ m g λ e.
        let (t, early, ended, held) =
          c.acquire_lease w.lc.leader_lock_key w.lc.id current lock_ttl w.outside e in
        (t, omega arith, ended, held)

    contend-Holds :
        (w : World S)
        → w.lc.id ≡ me
        → (contend o w).0 ≡ true
        → Holds o lease w.outside (contend o w).1.outside w.lc.leader_lock_key w.lc.id
    unfolding contend
    contend-Holds w m g =
        let r = get_current_leader o 3 w in
        let same = prepare-Same o r.0 r.1 in
        let passes = get_current_leader-Passes o lease me c w 3 in
        let lc = lc-get_current_leader o 3 w in
        (let early : o.clock.now w.outside ≤ o.clock.now (prepare o r.0 r.1).1.outside =
            rw same.outside passes.time in
          subst₂ (λ k i. Holds o lease w.outside (contend o w).1.outside k i)
            (same.key ∙ ap (λ (x : LeaderController). x.leader_lock_key) lc)
            (same.id ∙ ap (λ (x : LeaderController). x.id) lc)
            (try_lock-Holds _ _ _ w.outside (prepare o r.0 r.1).1 early
              (same.id ∙ ap (λ (x : LeaderController). x.id) lc ∙ m) g))

    -- When TryAcquireLeadership returns true, the instance has a lease of its lock, under its own
    -- name and for the whole TTL from a time within the call; at the end of the call the lease
    -- stands, unless its time is over by then.
    pub try_acquire_leadership-Holds :
        (w : World S)
        → w.lc.id ≡ me
        → (try_acquire_leadership o w).0 ≡ true
        → Holds o lease w.outside
            (try_acquire_leadership o w).1.outside
            w.lc.leader_lock_key
            w.lc.id
    unfolding try_acquire_leadership
    try_acquire_leadership-Holds w m = attempt w.lc.remain_follower
      where
        attempt :
            (follower : Bool)
            → (if follower then (false, w) else contend o w).0 ≡ true
            → Holds o lease w.outside
                (if follower then (false, w) else contend o w).1.outside
                w.lc.leader_lock_key
                w.lc.id
        attempt true g = cc
        attempt false g = contend-Holds w m g
