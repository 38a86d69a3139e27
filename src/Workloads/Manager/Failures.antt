-- ===== src/Workloads/Manager/Failures.antt =====
-- Workloads that fail to start, and their retries.
use k8_highlander.Prelude.{
  is_empty, is_none, ℕ, zero, suc, ◌-◌, ◌*◌, ◌^◌, ◌≤◌, ◌<◌, ℤ, pos, negsuc, String, Bool, true,
  false, ◌&&◌, Option, none, some, List, [], ◌∷◌, ◌++◌, Map, insert, GoError, ◌≡◌, refl, arith, ◌∙◌,
  sym, ltb, if◌then◌else◌, lt→ltb, le→ltb, ltb→le, ltb→lt, Bool-cases, inl, inr,
}
use k8_highlander.Monitoring.{second}
use k8_highlander.Workloads.Manager.{
  Workload, ManagerImpl, Calls, note_start, error_list, measure_operation, start_each, start_all,
  stop_each, stop_all, retry_round, startup_error, severe_errors, to_duration, at_most, backoff,
  too_early,
}

and_true : (b : Bool) → (b && true) ≡ b
and_true b = ground arith

module _ {S : Type 0} (o : Calls S) where
  note_start-is_empty :
      (name : String) (w : Workload) (now : ℕ) (e : Option GoError) (m : ManagerImpl)
      → is_empty (note_start name w now e m).failed_workloads
        ≡ (is_none e && is_empty m.failed_workloads)
  unfolding note_start is_none insert is_empty
  note_start-is_empty name w now none m = refl
  note_start-is_empty name w now (some e) m = refl

  error_list-is_empty :
      (e : Option GoError) (es : List GoError)
      → is_empty (error_list e ++ es) ≡ (is_none e && is_empty es)
  unfolding error_list is_none is_empty
  error_list-is_empty none es = refl
  error_list-is_empty (some e) es = refl

  start_each-is_empty :
      (ctx : Option ℕ) (ws : Map Workload) (m : ManagerImpl) (s : S)
      → is_empty (start_each o ctx ws m s).1.failed_workloads
        ≡ (is_empty (start_each o ctx ws m s).0 && is_empty m.failed_workloads)
  unfolding start_each
  start_each-is_empty ctx [] m s = unfold is_empty in refl
  start_each-is_empty ctx ((name, w) ∷ ws) m s =
      let (e, s') = o.start w ctx s in
      let m1 = measure_operation name w "startup" (o.now s' - o.now s) e m in
      rw
        (
          start_each-is_empty ctx ws (note_start name w (o.now s') e m1) s',
          note_start-is_empty name w (o.now s') e m1,
          error_list-is_empty e _,
        )
        (unfold measure_operation in ground arith)

  startup_error-is_none_over :
      (l es : List GoError) (e : GoError) → is_none (startup_error l (e ∷ es)) ≡ false
  unfolding startup_error is_none
  startup_error-is_none_over [] es e = refl
  startup_error-is_none_over (x ∷ l) es e = refl

  startup_error-is_none :
      (es : List GoError) → is_none (startup_error (severe_errors es) es) ≡ is_empty es
  unfolding is_empty
  startup_error-is_none [] = unfold startup_error severe_errors is_none in refl
  startup_error-is_none (e ∷ es) = startup_error-is_none_over (severe_errors (e ∷ es)) es e

  -- StartAll returns nil exactly when no workload is left to retry after it.
  pub start_all-is_none :
      (ctx : Option ℕ) (m : ManagerImpl) (s : S)
      → is_none (start_all o ctx m s).0 ≡ is_empty (start_all o ctx m s).1.failed_workloads
  unfolding start_all is_empty
  start_all-is_none ctx m s =
      startup_error-is_none _ ∙ sym (start_each-is_empty ctx m.workloads _ s ∙ and_true _)

  stop_each-is_shutting_down :
      (ws : Map Workload) (m : ManagerImpl) (s : S)
      → (stop_each o ws m s).1.is_shutting_down ≡ m.is_shutting_down
  unfolding stop_each measure_operation
  stop_each-is_shutting_down [] m s = refl
  stop_each-is_shutting_down ((name, w) ∷ ws) m s = stop_each-is_shutting_down ws _ _

  idle_round : (m : ManagerImpl) (s : S) → m.is_shutting_down ≡ true → retry_round o m s ≡ (m, s)
  unfolding retry_round
  idle_round m s e = ground (arith, e)

  -- After StopAll a tick of the retry process starts nothing and changes nothing, whichever
  -- workloads have failed before.
  pub retry_round-stop_all :
      (m : ManagerImpl) (s : S)
      → retry_round o (stop_all o m s).1 (stop_all o m s).2
        ≡ ((stop_all o m s).1, (stop_all o m s).2)
  unfolding stop_all
  retry_round-stop_all m s = idle_round _ _ (stop_each-is_shutting_down m.workloads _ s)

power_positive : (k : ℕ) → 1 ≤ 2 ^ k
power_positive zero = omega arith
power_positive (suc k) = omega (arith, power_positive k)

power_bound_by : (n k : ℕ) → k ≤ n → 2 ^ k ≤ 2 ^ n
power_bound_by zero k h = rw (zero_of k h) (omega arith)
  where
    zero_of : (k : ℕ) → k ≤ 0 → k ≡ 0
    zero_of k h = omega arith
power_bound_by (suc n) k h = elim (Bool-cases (ltb n k)) [
  | inl e ↦ rw (last k n h (ltb→lt n k e)) (omega arith)
  | inr e ↦ let early = power_bound_by n k (ltb→le n k e) in omega arith
]
  where
    last : (k n : ℕ) → k ≤ suc n → n < k → k ≡ suc n
    last k n h g = omega arith

module _ {S : Type 0} (o : Calls S) where
  -- Between five seconds and five minutes.
  abbrev pub Reasonable : ℤ → Type 0
  Reasonable z = (d : ℕ) × (z ≡ pos d) × (5 * second ≤ d) × (d ≤ 300 * second)

  capped :
      (n : ℕ)
      → 5 * second ≤ n
      → n < 2 ^ 63
      → Reasonable (at_most o (300 * second) (to_duration o n))
  unfolding at_most to_duration
  capped n low high = rw (lt→ltb n (2 ^ 63) high) (by_size (ltb (300 * second) n) refl)
    where
      by_size :
          (b : Bool)
          → ltb (300 * second) n ≡ b
          → Reasonable (if b then pos (300 * second) else pos n)
      by_size true e = (300 * second, refl, omega arith, omega arith)
      by_size false e = (n, refl, low, ltb→le (300 * second) n e)

  -- After 1 to 31 failures in a row the wait before the next retry is between five seconds and
  -- five minutes.
  pub backoff_bounds :
      (failures : ℕ) → 1 ≤ failures → failures ≤ 31 → Reasonable (backoff o failures)
  unfolding backoff
  backoff_bounds n g h =
      capped (5 * second * 2 ^ (n - 1)) (omega (arith, power_positive (n - 1)))
        (omega (arith, power_bound_by 30 (n - 1) (omega arith)))

  -- From 32 failures on, the wait leaves the range of int64. Where the conversion then gives a
  -- negative number, no retry is too early: a workload is tried again at each tick.
  pub too_early-backoff :
      (to : ℕ → ℕ)
      → ((x : ℕ) → o.out_of_range x ≡ negsuc (to x))
      → (failures last_attempt now : ℕ) → 32 ≤ failures
      → too_early o last_attempt now (backoff o failures) ≡ false
  unfolding backoff to_duration
  too_early-backoff to negative n last now h =
      rw
        (
          le→ltb (5 * second * 2 ^ (n - 1)) (2 ^ 63)
              (omega (arith, power_bound_by (n - 1) 31 (omega arith))),
          negative (5 * second * 2 ^ (n - 1)),
        )
        (unfold at_most too_early in refl)
