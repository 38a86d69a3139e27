-- ===== src/Storage/Memory/Exclusion.antt =====
-- One holder at a time: what others can do to a lock while its lease runs, and after.
use k8_highlander.Prelude.{
  ℕ, ◌≤◌, String, Bool, true, false, some, ◌≡◌, ◌≢◌, refl, sym, ap, ◌∙◌, arith, eq_iff, eq_refl,
  List, [], ◌∷◌, ◌==◌, if◌then◌else◌, not, ◌&&◌, Bool-cases, inl, inr,
}
use k8_highlander.Storage.Lock.{Lease}
use k8_highlander.Storage.Memory.{InMemoryStorage}
use k8_highlander.Storage.Memory.Laws.{
  Call, acquires, renews, releases, step, granted, call_key, lease_after, spec_step, leases,
  step-granted, leases-step,
}

-- Who makes the call, and when (a release reads no clock).
unfoldable pub caller : Call → String
caller (acquires key value cluster_name ttl now) = value
caller (renews key value ttl now) = value
caller (releases key value) = value

unfoldable pub call_time : Call → ℕ
call_time (acquires key value cluster_name ttl now) = now
call_time (renews key value ttl now) = now
call_time (releases key value) = 0

unfoldable pub run : List Call → InMemoryStorage → InMemoryStorage
run [] s = s
run (c ∷ cs) s = run cs (step c s).1

-- Calls on `key` come from others than `value`, up to the time `until`. Other keys are free.
abbrev pub Rivals : String → Lease → List Call → Type 0
Rivals key l [] = Unit {0}
Rivals key l (c ∷ cs) =
    (call_key c ≡ key → (caller c ≢ l.owner) × (call_time c ≤ l.until)) × Rivals key l cs

-- Each call on `key` is refused.
unfoldable pub all_refused : String → List Call → InMemoryStorage → Bool
all_refused key [] s = true
all_refused key (c ∷ cs) s =
    (if call_key c == key then not (step c s).0 else true) && all_refused key cs (step c s).1

denied_call :
    (c : Call) (l : Lease) → caller c ≢ l.owner → call_time c ≤ l.until → granted c (some l) ≡ false
unfolding granted caller call_time
denied_call (acquires key value cluster_name ttl now) l h t = ground (arith, eq_iff l.owner value)
denied_call (renews key value ttl now) l h t = ground (arith, eq_iff l.owner value)
denied_call (releases key value) l h t = ground (arith, eq_iff l.owner value)

module _ (key : String) (l : Lease) where
  is_refused :
      (c : Call) (s : InMemoryStorage)
      → leases s key ≡ some l
      → (call_key c ≡ key → (caller c ≢ l.owner) × (call_time c ≤ l.until))
      → call_key c ≡ key
      → (step c s).0 ≡ false
  is_refused c s e r k =
      step-granted s c ∙ ap (granted c) (ap (leases s) k ∙ e) ∙ denied_call c l (r k).0 (r k).1

  refused_call :
      (c : Call) (s : InMemoryStorage)
      → leases s key ≡ some l
      → (call_key c ≡ key → (caller c ≢ l.owner) × (call_time c ≤ l.until))
      → (if call_key c == key then not (step c s).0 else true) ≡ true
  refused_call c s e r = elim (Bool-cases (call_key c == key)) [
    | inr h ↦ rw h refl
    | inl h ↦ rw (h, is_refused c s e r ((eq_iff (call_key c) key).0 h)) refl
  ]

  pub call-keeps :
      (c : Call) (s : InMemoryStorage)
      → leases s key ≡ some l
      → (call_key c ≡ key → (caller c ≢ l.owner) × (call_time c ≤ l.until))
      → leases (step c s).1 key ≡ some l
  unfolding spec_step
  call-keeps c s e r =
      rw (leases-step s c key, e) (ground (arith, eq_iff (call_key c) key, r, denied_call c l))

  -- While a lease runs, no call of others is granted, and the lease stays as it is.
  pub refused_while_leased :
      (cs : List Call) (s : InMemoryStorage)
      → leases s key ≡ some l
      → Rivals key l cs
      → (leases (run cs s) key ≡ some l) × (all_refused key cs s ≡ true)
  unfolding run all_refused
  refused_while_leased [] s e r = (e, refl)
  refused_while_leased (c ∷ cs) s e r =
      let (held, refused) = refused_while_leased cs (step c s).1 (call-keeps c s e r.0) r.1 in
      (held, rw (refused_call c s e r.0, refused) refl)

pub granted-lease :
    (c : Call) (s : InMemoryStorage)
    → (step c s).0 ≡ true
    → leases (step c s).1 (call_key c) ≡ lease_after c
unfolding spec_step
granted-lease c s g =
    rw (leases-step s c (call_key c), eq_refl (call_key c), sym (step-granted s c), g) refl

-- Mutual exclusion: once an acquisition or a renewal is granted, then up to the end of its lease,
-- and whatever the others call on the lock, in any order, none of their acquisitions, renewals
-- and releases is granted, and the lease stands.
pub lease_exclusion :
    (c : Call) (l : Lease) (s : InMemoryStorage) (cs : List Call)
    → lease_after c ≡ some l
    → (step c s).0 ≡ true
    → Rivals (call_key c) l cs
    → (leases (run cs (step c s).1) (call_key c) ≡ some l)
      × (all_refused (call_key c) cs (step c s).1 ≡ true)
lease_exclusion c l s cs after g r =
    refused_while_leased (call_key c) l cs (step c s).1 (granted-lease c s g ∙ after) r
