-- ===== src/Workloads/Process/Lifecycle.antt =====
-- What every operation of a process workload keeps.
use k8_highlander.Prelude.{
  ℕ, zero, suc, String, Bool, true, false, not, ◌&&◌, Option, none, some, GoError, wrap, ◌≡◌, refl,
  sym, ap, ◌∙◌, lookup, contains, if◌then◌else◌,
}
use mathlib.Core.Bool.{false≢true}
use k8_highlander.Workloads.Process.{
  LivePod, PodCalls, Process, close_channel, inactive, create_or_update_pod, pod_started,
  start_process, stop_result, stop_process, watch_deletion, shutdown_annotation,
}
use k8_highlander.Workloads.Process.Health.{
  Health, is_passed, unhealthy, is_last, unless_done, step_health, retry_health_check, check_pod,
  check_health, recovered, recreate_missing, update_status,
}
use k8_highlander.Workloads.Process.Alike.{Alike, alike, create_or_update_pod-Alike}

-- What stays through every operation: a channel is closed exactly if the workload was stopped, as
-- it was if it was so before, no transition was noted, and a healthy workload has no error.
pub record Sane (before : Bool) (p : Process) : Type 0 where
  pub stays : before ≡ true → p.stopped ≡ true
  pub closed_is : p.channel_closed ≡ p.stopped
  pub no_transition : p.status.last_transition ≡ none
  pub no_error : p.status.healthy ≡ true → p.status.last_error ≡ ""

pub Alike-Sane : (b : Bool) (p q : Process) → Alike p q → Sane b p → Sane b q
Alike-Sane b p q a x = record {
  stays = λ h. a.same_stopped ∙ x.stays h;
  closed_is = a.same_channel ∙ x.closed_is ∙ sym a.same_stopped;
  no_transition = a.same_transition ∙ x.no_transition;
  no_error = λ h. a.same_error ∙ x.no_error (sym a.same_healthy ∙ h);
}

module _ {S : Type 0} (o : PodCalls S) where
  -- A health check that ends healthy has no text.
  retry_health_check-text :
      (retries interval : ℕ) (check : S → Health × S) (last : Health) (s : S)
      → (retry_health_check o retries interval check last s).0.0 ≡ true
      → (retry_health_check o retries interval check last s).0.1 ≡ ""
  unfolding retry_health_check
  retry_health_check-text zero interval check last s e = absurd (false≢true (unfold unhealthy in e))
  retry_health_check-text (suc retries) interval check last s e =
      let (h, s1) = check s in
      let (ended, s2) = o.wait_or_done interval s1 in
      by_tests (is_passed h) (is_last retries) ended h s1 s2 _
        (retry_health_check-text retries interval check h s2) e
    where
      by_tests :
          (b c : Bool) (ended : Option GoError) (h : Health) (s1 s2 : S) (again : Health × S)
          → (again.0.0 ≡ true → again.0.1 ≡ "")
          → ◌≡◌ {A = Bool}
              (if b
                then ((true, "", none), s1)
                else if c
                then (unhealthy h, s1)
                else unless_done ended s2 again).0.0
              true
          → ◌≡◌ {A = String}
              (if b
                then ((true, "", none), s1)
                else if c
                then (unhealthy h, s1)
                else unless_done ended s2 again).0.1
              ""
      by_tests true c ended h s1 s2 again k e = refl
      by_tests false true ended h s1 s2 again k e = absurd (false≢true (unfold unhealthy in e))
      by_tests false false none h s1 s2 again k e =
          unfold unless_done in k (unfold unless_done in e)
      by_tests false false (some x) h s1 s2 again k e =
          absurd (false≢true (unfold unless_done in e))

  and_first : (b c : Bool) → (b && c) ≡ true → b ≡ true
  and_first true c e = refl
  and_first false c e = e

  check_health-Sane : (b : Bool) (p : Process) (s : S) → Sane b p → Sane b (check_health o p s).1
  unfolding check_health step_health
  check_health-Sane b p s x = record {
    stays = x.stays;
    closed_is = x.closed_is;
    no_transition = x.no_transition;
    no_error =
        λ h. retry_health_check-text 5 _ (check_pod o p) (false, "", none) s (and_first _ _ h);
  }

  abbrev process_of : Process × S → Process
  process_of x = x.0

  unless_it : (b : Bool) (x y : Process) → b ≡ false → (if b then x else y) ≡ y
  unless_it b x y e = rw e refl

  no_text : (text : String) → text ≡ "" → contains text "Pod not found" ≡ false
  unfolding contains
  no_text text e = ap (λ u. contains u "Pod not found") e

  never_both : (a b : Bool) → (b ≡ true → a ≡ false) → (a && b) ≡ false
  never_both true true h = h refl
  never_both true false h = refl
  never_both false b h = refl

  -- So no transition is ever noted: the text that it looks for is that of an unhealthy pod.
  recovered-same : (b : Bool) (p : Process) (s : S) → Sane b p → recovered o p s ≡ p
  unfolding recovered
  recovered-same b p s x =
      unless_it _ _ p (never_both _ _ λ h. no_text p.status.last_error (x.no_error h))

  recreate_missing-Alike :
      (e : GoError) (p : Process) (s : S) → Alike p (recreate_missing o e p s).0
  unfolding recreate_missing
  recreate_missing-Alike e p s = choose (p.status.active && o.is_not_found e)
    where
      choose :
          (b : Bool)
          → Alike p (
              process_of (
                if b
                then ((create_or_update_pod o p s).1, (create_or_update_pod o p s).2)
                else (p, s)))
      choose true = create_or_update_pod-Alike o p s
      choose false = alike p

  pub update_status-Sane :
      (b : Bool) (p : Process) (s : S) → Sane b p → Sane b (update_status o p s).0
  unfolding update_status
  update_status-Sane b p s x =
      let (e, p', s') = check_health o p s in by_error e p' s' (check_health-Sane b p s x)
    where
      by_error :
          (e : Option GoError) (p' : Process) (s' : S)
          → Sane b p'
          → Sane b
              (elim e as (λ z. Process × S) [
                | some y ↦ recreate_missing o y p' s'
                | none ↦ (recovered o p' s', s')
              ]).0
      by_error none p' s' y = rw (recovered-same b p' s' y) y
      by_error (some e) p' s' y = Alike-Sane b p' _ (recreate_missing-Alike e p' s') y

  pod_started-Sane :
      (b : Bool) (e : Option GoError) (p : Process) (s : S)
      → Sane b p
      → Sane b (pod_started o e p s).1
  unfolding pod_started
  pod_started-Sane b none p s x = record {
    stays = x.stays;
    closed_is = x.closed_is;
    no_transition = x.no_transition;
    no_error = x.no_error;
  }
  pod_started-Sane b (some e) p s x = x

  pub start_process-Sane :
      (b : Bool) (p : Process) (s : S) → Sane b p → Sane b (start_process o p s).1
  unfolding start_process
  start_process-Sane b p s x =
      pod_started-Sane b _ _ _ (Alike-Sane b p _ (create_or_update_pod-Alike o p s) x)

  close_channel-Sane : (b : Bool) (p : Process) → Sane b p → Sane true (close_channel p)
  unfolding close_channel
  close_channel-Sane b p x = by_stopped p.stopped refl
    where
      by_stopped :
          (c : Bool)
          → p.stopped ≡ c
          → Sane true
              (if c then p else record p { channel_closed = not p.channel_closed; stopped = true })
      by_stopped true e = record {
        stays = λ h. e;
        closed_is = x.closed_is;
        no_transition = x.no_transition;
        no_error = x.no_error;
      }
      by_stopped false e = record {
        stays = λ h. refl;
        closed_is = ap not (x.closed_is ∙ e);
        no_transition = x.no_transition;
        no_error = x.no_error;
      }

  inactive-Sane : (b : Bool) (p : Process) → Sane b p → Sane b (inactive p)
  unfolding inactive
  inactive-Sane b p x = record {
    stays = x.stays;
    closed_is = x.closed_is;
    no_transition = x.no_transition;
    no_error = λ h. absurd (false≢true h);
  }

  stop_result-Sane :
      (b : Bool) (e : Option GoError) (p : Process) → Sane b p → Sane b (stop_result o e p).1
  unfolding stop_result
  stop_result-Sane b none p x = inactive-Sane b p x
  stop_result-Sane b (some e) p x = choose (o.is_not_found e)
    where
      choose :
          (c : Bool)
          → Sane b
              (if◌then◌else◌ {A = Option GoError × Process} c
                (none, inactive p)
                (some (wrap "failed to delete pod: " e ""), p)).1
      choose true = inactive-Sane b p x
      choose false = x

  pub stop_process-Sane :
      (b : Bool) (p : Process) (s : S) → Sane b p → Sane true (stop_process o p s).1
  unfolding stop_process
  stop_process-Sane b p s x = stop_result-Sane true _ (close_channel p) (close_channel-Sane b p x)

  pub watch_deletion-Alike :
      (pod : LivePod) (p : Process) (s : S) → Alike p (watch_deletion o pod p s).0
  unfolding watch_deletion
  watch_deletion-Alike pod p s = by_mark (lookup shutdown_annotation pod.annotations)
    where
      by_mark :
          (m : Option String)
          → Alike p (
              process_of (elim m [
                | some v ↦ (p, s)
                | none ↦ ((create_or_update_pod o p s).1, (create_or_update_pod o p s).2)
              ]))
      by_mark none = create_or_update_pod-Alike o p s
      by_mark (some v) = alike p
