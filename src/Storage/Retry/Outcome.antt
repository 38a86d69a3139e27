-- ===== src/Storage/Retry/Outcome.antt =====
-- What the retries give, by the attempts that are made.
use k8_highlander.Prelude.{
  ℕ, zero, suc, ◌<◌, String, Bool, true, false, Option, none, some, GoError, ◌≡◌, refl, arith, ◌∙◌,
  if◌then◌else◌, Bool-cases, inl, inr, is_none,
}
use k8_highlander.Storage.Retry.{
  is_lock_error, retry_loop, retry_on_lock_error, longer, give_up_retries, initial_backoff,
  max_retries,
}

-- The attempt is to be repeated.
unfoldable pub is_locked : Option GoError → Bool
is_locked none = false
is_locked (some e) = is_lock_error e

module _ {S : Type 0} (operation : String) (fn : S → Option GoError × S) (sleep : ℕ → S → S) where
  -- The state before the attempt of number `attempts`, if all before it were locked.
  unfoldable pub before : ℕ → ℕ → S → S
  before zero backoff s = s
  before (suc attempts) backoff s = before attempts (longer backoff) (sleep backoff (fn s).1)

  -- The first `attempts` attempts are locked.
  unfoldable pub all_locked : ℕ → ℕ → S → Bool
  all_locked zero backoff s = true
  all_locked (suc attempts) backoff s =
      let rest = all_locked attempts (longer backoff) (sleep backoff (fn s).1) in
      if is_locked (fn s).0 then rest else false

  again :
      (n backoff : ℕ) (last e : Option GoError) (s : S)
      → (fn s).0 ≡ e
      → is_locked e ≡ true
      → retry_loop operation fn sleep (suc n) backoff last s
        ≡ retry_loop operation fn sleep n (longer backoff) (fn s).0 (sleep backoff (fn s).1)
  unfolding is_locked retry_loop
  again n backoff last none s p l = cc l
  again n backoff last (some x) s p l = cc (p, l)

  ends :
      (n backoff : ℕ) (last e : Option GoError) (s : S)
      → (fn s).0 ≡ e
      → is_locked e ≡ false
      → retry_loop operation fn sleep (suc n) backoff last s ≡ fn s
  unfolding is_locked retry_loop
  ends n backoff last none s p l = cc p
  ends n backoff last (some x) s p l = cc (p, l)

  -- The attempt of number `k` decides, if those before it are locked and it is not.
  loop_settles :
      (k n backoff : ℕ) (last : Option GoError) (s : S)
      → k < n
      → all_locked k backoff s ≡ true
      → is_locked (fn (before k backoff s)).0 ≡ false
      → retry_loop operation fn sleep n backoff last s ≡ fn (before k backoff s)
  unfolding all_locked before
  loop_settles k zero backoff last s h l g = absurd (omega arith)
  loop_settles zero (suc n) backoff last s h l g = ends n backoff last (fn s).0 s refl g
  loop_settles (suc k) (suc n) backoff last s h l g = elim (Bool-cases (is_locked (fn s).0)) [
    | inl e ↦
        again n backoff last (fn s).0 s refl e
        ∙ loop_settles k n (longer backoff) (fn s).0 (sleep backoff (fn s).1) (omega arith)
            (ground (arith, e, l)) g
    | inr e ↦ absurd (cc (e, l))
  ]

  loop_gives_up :
      (n backoff : ℕ) (last : Option GoError) (s : S)
      → all_locked n backoff s ≡ true
      → is_locked last ≡ true
      → ((retry_loop operation fn sleep n backoff last s).1 ≡ before n backoff s)
        × (is_none (retry_loop operation fn sleep n backoff last s).0 ≡ false)
  unfolding all_locked before
  loop_gives_up zero backoff none s l g = unfold is_locked in cc g
  loop_gives_up zero backoff (some e) s l g =
      unfold retry_loop give_up_retries is_none in (refl, refl)
  loop_gives_up (suc n) backoff last s l g = elim (Bool-cases (is_locked (fn s).0)) [
    | inl e ↦ rw (again n backoff last (fn s).0 s refl e) (
        loop_gives_up n (longer backoff) (fn s).0 (sleep backoff (fn s).1) (ground (arith, e, l)) e)
    | inr e ↦ absurd (cc (e, l))
  ]

  -- If the first k < 5 attempts fail with a lock error, and the next succeeds or fails with
  -- another error, then retryOnLockError gives what that attempt gives.
  pub retry_settles :
      (k : ℕ) (s : S)
      → k < max_retries
      → all_locked k initial_backoff s ≡ true
      → is_locked (fn (before k initial_backoff s)).0 ≡ false
      → retry_on_lock_error operation fn sleep s ≡ fn (before k initial_backoff s)
  unfolding retry_on_lock_error
  retry_settles k s h l g = loop_settles k max_retries initial_backoff none s h l g

  -- If all five attempts fail with a lock error, then retryOnLockError ends with an error, after
  -- the five attempts and the waits between and after them.
  pub retry_gives_up :
      (s : S)
      → all_locked max_retries initial_backoff s ≡ true
      → ((retry_on_lock_error operation fn sleep s).1 ≡ before max_retries initial_backoff s)
        × (is_none (retry_on_lock_error operation fn sleep s).0 ≡ false)
  unfolding retry_on_lock_error all_locked before
  retry_gives_up s l = elim (Bool-cases (is_locked (fn s).0)) [
    | inl e ↦ rw (again 4 initial_backoff none (fn s).0 s refl e) (
        loop_gives_up 4 (longer initial_backoff) (fn s).0 (sleep initial_backoff (fn s).1)
          (ground (arith, e, l)) e)
    | inr e ↦ absurd (cc (e, l))
  ]
