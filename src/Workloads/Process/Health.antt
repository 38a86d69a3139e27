-- ===== src/Workloads/Process/Health.antt =====
-- pkg/workloads/process/process.go: the health of the pod, with RetryHealthCheck of
-- pkg/common/kubernetes.go, and a tick of periodicStatusUpdater.
use k8_highlander.Prelude.{
  ℕ, zero, suc, ◌-◌, ◌*◌, String, cat, Bool, true, false, ◌&&◌, Option, none, some, List, [], ◌∷◌,
  Result, ok, err, GoError, new_error, ltb, contains, if◌then◌else◌,
}
use k8_highlander.Monitoring.{second}
use k8_highlander.Workloads.Process.{
  Phase, pending, running, succeeded, failed, other_phase, ContainerStatus, LivePod, PodCalls,
  Process, create_or_update_pod,
}

unfoldable pub are_ready : List ContainerStatus → Bool
are_ready [] = true
are_ready (c ∷ cs) = c.ready && are_ready cs

-- The first container that terminated with an exit code that is not 0.
unfoldable pub failure_text : List ContainerStatus → String
failure_text [] = "Pod failed"
failure_text (c ∷ cs) = elim c.failure [
  | none ↦ failure_text cs
  | some (code, message) ↦
      cat "Container "
        (cat c.name (cat " terminated with exit code " (cat code (cat ": " message))))
]

unfoldable pub pending_text : List String → String
pending_text [] = "Pod in Pending state"
pending_text (reason ∷ reasons) = cat "Pod in Pending state: " reason

-- A check: whether the pod is healthy, a text, and an error.
abbrev pub Health : Type 0
Health = Bool × String × Option GoError

unfoldable pub health_of : Phase → LivePod → Health
health_of running pod =
    if are_ready pod.containers
    then (true, "", none)
    else (false, "Not all containers are ready", none)
health_of succeeded pod = (true, "", none)
health_of failed pod =
    let text = failure_text pod.containers in
    (false, text, some (new_error (cat "failed to get pod info: " text)))
health_of pending pod = (false, pending_text pod.unscheduled, none)
health_of (other_phase name) pod = (false, cat "Pod in " (cat name " state"), none)

-- time.Since(lastTransition) < 30*time.Second
unfoldable pub in_grace : Option ℕ → ℕ → Bool
in_grace none now = false
in_grace (some t) now = ltb (now - t) (30 * second)

unfoldable pub step_health : Health → Process → Process
step_health (healthy, text, e) p = record p {
  status = record (p.status) { healthy = healthy; last_error = text };
}

-- err == nil && healthy
unfoldable pub is_passed : Health → Bool
is_passed (healthy, text, none) = healthy
is_passed (healthy, text, some e) = false

unfoldable pub unhealthy : Health → Health
unhealthy (healthy, text, e) = (false, text, e)

unfoldable pub is_last : ℕ → Bool
is_last zero = true
is_last (suc n) = false

unfoldable pub unless_done : {S : Type 0} → Option GoError → S → Health × S → Health × S
unless_done none s again = again
unless_done (some e) s again = ((false, "Context cancelled during health check", some e), s)

module _ {S : Type 0} (o : PodCalls S) where
  unfoldable pub health_found : Result LivePod → Process → S → Health
  health_found (ok pod) p s = health_of pod.phase pod
  health_found (err e) p s =
      if o.is_not_found e
      then (if in_grace p.status.last_transition (o.now s)
          then (false, "Pod not found, but within grace period", none)
          else (false, cat "Pod not found: " e.message, some e))
      else (false, cat "Error getting pod: " e.message, some e)

  -- The function that checkHealth retries.
  unfoldable pub check_pod : Process → S → Health × S
  check_pod p s =
      let (r, s') = o.get p.workload.namespace p.workload.pod_name s in (health_found r p s', s')

  -- RetryHealthCheck, with `retries` checks left and the outcome of the last one.
  unfoldable pub retry_health_check : ℕ → ℕ → (S → Health × S) → Health → S → Health × S
  retry_health_check zero interval check last s = (unhealthy last, s)
  retry_health_check (suc retries) interval check last s =
      let (h, s1) = check s in
      let (ended, s2) = o.wait_or_done interval s1 in
      let again = retry_health_check retries interval check h s2 in
      if is_passed h
      then ((true, "", none), s1)
      else if is_last retries
      then (unhealthy h, s1)
      else unless_done ended s2 again

  -- checkHealth
  unfoldable pub check_health : Process → S → Option GoError × Process × S
  check_health p s =
      let ((healthy, text, e), s') =
        retry_health_check 5 second (check_pod p) (false, "", none) s in
      (e, step_health (healthy && o.leads_normally s', text, e) p, s')

  unfoldable pub recovered : Process → S → Process
  recovered p s =
      if contains p.status.last_error "Pod not found" && p.status.healthy
      then record p { status = record (p.status) { last_transition = some (o.now s) } }
      else p

  -- A pod that is missing is made again; an error is logged only.
  unfoldable pub recreate_missing : GoError → Process → S → Process × S
  recreate_missing e p s =
      let (e', p', s') = create_or_update_pod o p s in
      if p.status.active && o.is_not_found e then (p', s') else (p, s)

  -- A tick of periodicStatusUpdater.
  unfoldable pub update_status : Process → S → Process × S
  update_status p s =
      let (e, p', s') = check_health p s in
      elim e [ some x ↦ recreate_missing x p' s' | none ↦ (recovered p' s', s') ]
