-- ===== src/Storage/Retry/Keeps.antt =====
-- What the retries keep, and what holds when they end without an error.
use k8_highlander.Prelude.{
  ℕ, zero, suc, String, Bool, true, false, Option, none, some, GoError, ◌≡◌, ◌≢◌, refl, sym,
  if◌then◌else◌,
}
use mathlib.Core.Option.{none-ne-some}
use k8_highlander.Storage.Retry.{
  is_lock_error, retry_loop, retry_on_lock_error, longer, give_up_retries, initial_backoff, settle,
}

module _ {S : Type 0} (operation : String) (fn : S → Option GoError × S) (sleep : ℕ → S → S)
    (P : S → Type 0) (fn-P : (s : S) → P s → P (fn s).1)
    (sleep-P : (d : ℕ) (s : S) → P s → P (sleep d s)) where
  -- What holds after an attempt, and after the attempts that may follow it.
  step-P :
      (e : Option GoError) (s : S) (again : Option GoError × S)
      → P s
      → P again.1
      → P (settle e s again).1
  step-P none s again p q = p
  step-P (some x) s again p q = by_lock (is_lock_error x)
    where
      by_lock : (b : Bool) → P (if b then again else (some x, s)).1
      by_lock true = q
      by_lock false = p

  loop-P :
      (n backoff : ℕ) (last : Option GoError) (s : S)
      → P s
      → P (retry_loop operation fn sleep n backoff last s).1
  unfolding retry_loop
  loop-P zero backoff last s p = p
  loop-P (suc n) backoff last s p =
      step-P (fn s).0 _ _ (fn-P s p) (loop-P n _ _ _ (sleep-P backoff _ (fn-P s p)))

  pub retry-P : (s : S) → P s → P (retry_on_lock_error operation fn sleep s).1
  unfolding retry_on_lock_error
  retry-P s p = loop-P _ _ _ s p

  module _ (Q : S → Type 0) (fn-Q : (s : S) → P s → (fn s).0 ≡ none → Q (fn s).1) where
    step-Q :
        (e : Option GoError) (s : S) (again : Option GoError × S)
        → (e ≡ none → Q s)
        → (e ≢ none → again.0 ≡ none → Q again.1)
        → (settle e s again).0 ≡ none
        → Q (settle e s again).1
    step-Q none s again p q r = p refl
    step-Q (some x) s again p q r = by_lock (is_lock_error x) r
      where
        by_lock :
            (b : Bool)
            → (if b then again else (some x, s)).0 ≡ none
            → Q (if b then again else (some x, s)).1
        by_lock true h = q (λ e. none-ne-some x (sym e)) h
        by_lock false h = absurd (none-ne-some _ (sym h))

    loop-Q :
        (n backoff : ℕ) (last : Option GoError) (s : S)
        → P s
        → last ≢ none
        → (retry_loop operation fn sleep n backoff last s).0 ≡ none
        → Q (retry_loop operation fn sleep n backoff last s).1
    unfolding retry_loop give_up_retries
    loop-Q zero backoff none s p l r = absurd (l refl)
    loop-Q zero backoff (some x) s p l r = absurd (none-ne-some _ (sym r))
    loop-Q (suc n) backoff last s p l r =
        step-Q (fn s).0 _ _ (fn-Q s p) (loop-Q n _ _ _ (sleep-P backoff _ (fn-P s p))) r

    -- Attempts that end without an error end with one that has none.
    pub retry-Q :
        (s : S)
        → P s
        → (retry_on_lock_error operation fn sleep s).0 ≡ none
        → Q (retry_on_lock_error operation fn sleep s).1
    unfolding retry_on_lock_error retry_loop
    retry-Q s p r =
        step-Q (fn s).0 _ _ (fn-Q s p)
          (loop-Q 4 (longer initial_backoff) _ _ (sleep-P initial_backoff _ (fn-P s p))) r
