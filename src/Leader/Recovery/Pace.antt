-- ===== src/Leader/Recovery/Pace.antt =====
-- The pace of the restarts of an unhealthy workload.
use k8_highlander.Prelude.{
  ℕ, zero, suc, ◌+◌, ◌-◌, ◌≤◌, String, Bool, true, false, Option, some, [], ◌∷◌, Map, lookup,
  lookup-insert, lookup-delete, ◌≡◌, refl, sym, ap, ◌∙◌, arith, eq_iff, ltb, ltb→le, if◌then◌else◌,
  ◌==◌, Bool-cases, inl, inr,
}
use k8_highlander.Common.{WorkloadStatus}
use k8_highlander.Leader.{World, call, now}
use k8_highlander.Leader.Interfaces.{Outside}
use k8_highlander.Leader.Recovery.{
  Members, Restarts, count_of, backoff_delay, backs_off, recover, recover_if_due, recover_one,
  recover_each, forget, needs_recovery, needs_recovery,
}

-- The waits before the restarts after the first `n` of those that follow `attempts` restarts.
unfoldable pub waits : ℕ → ℕ → ℕ
waits attempts zero = 0
waits attempts (suc n) = waits attempts n + backoff_delay (attempts + n)

-- The clock runs on while a workload is stopped or started; and `starts` counts the starts of the
-- workload `name`: only those are counted, and each of them.
pub record Counts {S : Type 0} (o : Outside S) (p : Members S) (ctx : Option ℕ) (name : String)
    (starts : S → ℕ) : Type 0 where
  pub stop_now :
      (other : String) (s : S) → o.clock.now s ≤ o.clock.now (p.stop_workload other ctx s).1
  pub start_now :
      (other : String) (s : S) → o.clock.now s ≤ o.clock.now (p.start_workload other ctx s).1
  pub stop_starts : (other : String) (s : S) → starts (p.stop_workload other ctx s).1 ≡ starts s
  pub start_starts :
      (other : String) (s : S)
      → starts (p.start_workload other ctx s).1
        ≡ (if other == name then suc (starts s) else starts s)

-- No status of `name` says that it is healthy.
unfoldable pub AllSick : String → Map WorkloadStatus → Type 0
AllSick name [] = Unit {0}
AllSick name ((other, status) ∷ rest) =
    ((other == name) ≡ true → status.healthy ≡ false) × AllSick name rest

module _ {S : Type 0} (o : Outside S) (p : Members S) (ctx : Option ℕ) (name : String)
    (starts : S → ℕ) (base a t : ℕ) where
  -- Since the restart at `t`, which was the `a`-th, there were `n` more starts, each of them counted
  -- as a restart, and the last of them no earlier than the waits allow.
  pub record Paced (r : Restarts) (w : World S) : Type 0 where
    pub n : ℕ
    pub last : ℕ
    pub started : starts w.outside ≡ base + n
    pub attempts_are : lookup name r.attempts ≡ some (a + n)
    pub last_is : lookup name r.last ≡ some last
    pub waited : t + waits a n ≤ last
    pub past : last ≤ now o w

  pub Paced-later :
      (r : Restarts) (w u : World S)
      → now o w ≤ now o u
      → starts u.outside ≡ starts w.outside
      → Paced r w
      → Paced r u
  Paced-later r w u h s x = record {
    n = x.n;
    last = x.last;
    started = s ∙ x.started;
    attempts_are = x.attempts_are;
    last_is = x.last_is;
    waited = x.waited;
    past = omega (arith, h, x.past);
  }

  module _ (c : Counts o p ctx name starts) where
    recover-now :
        (other : String) (r : Restarts) (w : World S)
        → now o w ≤ now o (recover o p ctx other r w).1
    unfolding recover call now
    recover-now other r w =
        let g = c.stop_now other w.outside in
        let h = c.start_now other (p.stop_workload other ctx w.outside).1 in omega (arith, g, h)

    recover-starts :
        (other : String) (r : Restarts) (w : World S)
        → starts (recover o p ctx other r w).1.outside
          ≡ (if other == name then suc (starts w.outside) else starts w.outside)
    unfolding recover call
    recover-starts other r w =
        c.start_starts other (p.stop_workload other ctx w.outside).1
        ∙ ap (λ n. if other == name then suc n else n) (c.stop_starts other w.outside)

    -- A restart that is not held back comes after the wait.
    due :
        (r : Restarts) (w : World S) (x : Paced r w)
        → backs_off
            (lookup name r.last)
            (backoff_delay (count_of (lookup name r.attempts)))
            (now o w)
          ≡ false
        → x.last + backoff_delay (a + x.n) ≤ now o w
    unfolding backs_off count_of
    due r w x b =
        let late = ltb→le (now o w - x.last) (backoff_delay (a + x.n)) (
          sym (
            ap (λ l. backs_off l (backoff_delay (count_of (lookup name r.attempts))) (now o w))
              x.last_is
            ∙ ap (λ n. ltb (now o w - x.last) (backoff_delay (count_of n))) x.attempts_are)
          ∙ b) in
        omega (arith, late, x.past)

    recover-Paced :
        (other : String) (r : Restarts) (w : World S)
        → backs_off
            (lookup other r.last)
            (backoff_delay (count_of (lookup other r.attempts)))
            (now o w)
          ≡ false
        → Paced r w
        → Paced (recover o p ctx other r w).0 (recover o p ctx other r w).1
    recover-Paced other r w b x = by_name (other == name) refl
      where
        then_next : (n d s l m : ℕ) → t + s ≤ l → l + d ≤ m → t + (s + d) ≤ m
        then_next n d s l m h g = omega (arith, h, g)

        one_more : (m n : ℕ) → m + n + 1 ≡ m + suc n
        one_more m n = omega arith

        one_later : (m n : ℕ) → suc (m + n) ≡ m + suc n
        one_later m n = omega arith

        by_name :
            (same : Bool)
            → (other == name) ≡ same
            → Paced (recover o p ctx other r w).0 (recover o p ctx other r w).1
        by_name true e =
            let is_it : other ≡ name = (eq_iff other name).0 e in
            let ready = due r w x (
              ap
                (λ m.
                  backs_off (lookup m r.last) (backoff_delay (count_of (lookup m r.attempts)))
                    (now o w))
                (sym is_it)
              ∙ b) in
            let later = recover-now other r w in
            record {
              n = suc x.n;
              last = now o (recover o p ctx other r w).1;
              started = recover-starts other r w ∙ rw (e, x.started) (one_later base x.n);
              attempts_are =
                  unfold recover in
                  lookup-insert other name _ r.attempts
                  ∙ rw (e, ap (λ m. lookup m r.attempts) is_it, x.attempts_are)
                      (unfold count_of in ap some (one_more a x.n));
              last_is = unfold recover in lookup-insert other name _ r.last ∙ rw e refl;
              waited =
                  unfold waits in then_next x.n _ _ x.last _ x.waited (omega (arith, ready, later));
              past = omega arith;
            }
        by_name false e = record {
          n = x.n;
          last = x.last;
          started = recover-starts other r w ∙ rw e x.started;
          attempts_are =
              unfold recover in lookup-insert other name _ r.attempts ∙ rw e x.attempts_are;
          last_is = unfold recover in lookup-insert other name _ r.last ∙ rw e x.last_is;
          waited = x.waited;
          past = let later = recover-now other r w in omega (arith, later, x.past);
        }

    -- A choice between two outcomes, each of them on pace.
    either-Paced :
        (b : Bool) (x y : Restarts × World S)
        → Paced x.0 x.1
        → Paced y.0 y.1
        → Paced (if b then x else y).0 (if b then x else y).1
    either-Paced true x y h g = h
    either-Paced false x y h g = g

    recover_if_due-Paced :
        (other : String) (status : WorkloadStatus) (r : Restarts) (w : World S)
        → Paced r w
        → Paced
            (recover_if_due o p ctx other status r w).0
            (recover_if_due o p ctx other status r w).1
    unfolding recover_if_due
    recover_if_due-Paced other status r w x = either-Paced _ _ _ x (
        either-Paced _ _ _ x (
          by_wait
            (backs_off (lookup other r.last) (backoff_delay (count_of (lookup other r.attempts)))
              (now o w))
            refl))
      where
        by_wait :
            (b : Bool)
            → backs_off
                (lookup other r.last)
                (backoff_delay (count_of (lookup other r.attempts)))
                (now o w)
              ≡ b
            → Paced
                (if b
                  then (r, w)
                  else if p.has_workload other w.outside
                  then recover o p ctx other r w
                  else (r, w)).0
                (if b
                  then (r, w)
                  else if p.has_workload other w.outside
                  then recover o p ctx other r w
                  else (r, w)).1
        by_wait true e = x
        by_wait false e = either-Paced _ _ _ (recover-Paced other r w e x) x

    forget-Paced :
        (other : String) (r : Restarts) (w : World S)
        → (other == name) ≡ false
        → Paced r w
        → Paced (forget other r) w
    unfolding forget
    forget-Paced other r w e x = record {
      n = x.n;
      last = x.last;
      started = x.started;
      attempts_are = lookup-delete other name r.attempts ∙ rw e x.attempts_are;
      last_is = lookup-delete other name r.last ∙ rw e x.last_is;
      waited = x.waited;
      past = x.past;
    }

    recover_one-Paced :
        (other : String) (status : WorkloadStatus) (r : Restarts) (w : World S)
        → ((other == name) ≡ true → status.healthy ≡ false)
        → Paced r w
        → Paced (recover_one o p ctx other status r w).0 (recover_one o p ctx other status r w).1
    unfolding recover_one
    recover_one-Paced other status r w sick x =
        either-Paced (needs_recovery status w) (recover_if_due o p ctx other status r w)
          (if status.healthy then (forget other r, w) else (r, w))
          (recover_if_due-Paced other status r w x)
          (elim (Bool-cases (other == name)) [
            | inl e ↦ rw (sick e) x
            | inr e ↦ either-Paced status.healthy _ _ (forget-Paced other r w e x) x
          ])

    pub recover_each-Paced :
        (statuses : Map WorkloadStatus) (r : Restarts) (w : World S)
        → AllSick name statuses
        → Paced r w
        → Paced (recover_each o p ctx statuses r w).0 (recover_each o p ctx statuses r w).1
    unfolding recover_each AllSick
    recover_each-Paced [] r w sick x = x
    recover_each-Paced ((other, status) ∷ rest) r w sick x =
        recover_each-Paced rest _ _ sick.1 (recover_one-Paced other status r w sick.0 x)
