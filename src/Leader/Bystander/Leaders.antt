-- ===== src/Leader/Bystander/Leaders.antt =====
-- Two instances on one storage: what a round of the one means while the other's lease runs.
use mathlib.Core.Path.{subst}
use mathlib.Core.Option.{some-injective}
use k8_highlander.Prelude.{
  ℕ, ◌+◌, ◌≤◌, ◌<◌, String, true, Option, some, ◌≡◌, ◌≢◌, ◌⊎◌, sym, ap, ◌∙◌, inl, inr, arith, Order,
  Bool-cases, ltb, ltb→lt, ltb→le,
}
use k8_highlander.Storage.Lock.{Lease}
use k8_highlander.Leader.{World, lock_ttl}
use k8_highlander.Leader.Interfaces.{Outside}
use k8_highlander.Leader.Contract.{Passes, StorageContract, Passes-refl, Passes-trans}
use k8_highlander.Leader.Ensures.{Ensures}
use k8_highlander.Leader.Acquire.Holds.{Holds}
use k8_highlander.Leader.Renew.Outcome.{Entitled, Tolerated}
use k8_highlander.Leader.Workloads.{returns}
use k8_highlander.Leader.Loop.{election_round}
use k8_highlander.Leader.Loop.Round.{election_round-Entitled}
use k8_highlander.Leader.Bystander.{KeepsOrder, Moved}
use k8_highlander.Leader.Bystander.Loop.{election_round-Moved}

-- The leases of `a` stand while they run, and the clock does not go back.
abbrev pub lease_order : {S : Type 0} → Outside S → (S → String → Option Lease) → String → Order S
lease_order o lease a = record {
  before = Passes o lease a;
  same = Passes-refl o lease a;
  next = Passes-trans o lease a;
}

module _ {S : Type 0} (o : Outside S) (lease : S → String → Option Lease) (a b : String)
    (other : b ≢ a) (c : StorageContract o lease b)
    (k : KeepsOrder (lease_order o lease a) o b) where
  -- A lease of the round is none while that of the other runs.
  not_held :
      (s s' : S) (key : String) (l : Lease)
      → l.owner ≡ a
      → l.until ≤ o.clock.now s + lock_ttl
      → o.clock.now s' ≤ l.until
      → lease s' key ≡ some l
      → Holds o lease s s' key b
      → ⊥
  not_held s s' key l e u h p (t, early, ended, inl late) = omega (arith, early, late, u, h)
  not_held s s' key l e u h p (t, early, ended, inr q) =
      other (ap (λ (x : Lease). x.owner) (some-injective _ _ (sym q ∙ p)) ∙ e)

  -- For two instances of different names on a storage that keeps the lease contract, and on which
  -- the calls of the first leave the leases of the other alone while they run: if the other has a
  -- lease of the lock, of no more than the whole TTL from now, then after a round of the first that
  -- lease is over, or it stands and the first does not lead, unless its storage failed once or twice
  -- in a row and it is degraded.
  pub one_leader :
      (ticks : ℕ) (w w' : World S) (l : Lease)
      → w.lc.id ≡ b
      → lease w.outside w.lc.leader_lock_key ≡ some l
      → l.owner ≡ a
      → l.until ≤ o.clock.now w.outside + lock_ttl
      → election_round o ticks w ≡ returns w'
      → (l.until < o.clock.now w'.outside)
        ⊎ ((lease w'.outside w.lc.leader_lock_key ≡ some l)
            × (w'.lc.is_leader ≡ true → Tolerated w'))
  one_leader ticks w w' l m p e u r = elim (Bool-cases (ltb l.until (o.clock.now w'.outside))) [
    | inl late ↦ inl (ltb→lt _ _ late)
    | inr early ↦
        let moved =
          subst (Ensures (Moved (lease_order o lease a) w)) r
            (election_round-Moved _ o b k ticks w m) in
        let stands = (moved.along).keeps _ l p e (ltb→le _ _ early) in
        inr (
          stands,
          λ g.
              by_ground stands (ltb→le _ _ early)
                (election_round-Entitled o lease b c ticks w w' m r g),
        )
  ]
    where
      by_ground :
          lease w'.outside w.lc.leader_lock_key ≡ some l
          → o.clock.now w'.outside ≤ l.until
          → Entitled o lease w.outside w w'
          → Tolerated w'
      by_ground s h (inl held) = absurd (
          not_held _ _ _ l e u h s
            (subst (Holds o lease w.outside w'.outside w.lc.leader_lock_key) m held))
      by_ground s h (inr tolerated) = tolerated
