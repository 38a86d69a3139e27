-- ===== src/Workloads/Process/Tests.antt =====
-- A cluster with one pod, and the life of a process workload in it.
use k8_highlander.Prelude.{
  ℕ, ◌+◌, String, Bool, true, false, Option, none, some, [], ◌∷◌, insert, Result, ok, err, GoError,
  new_error, ok-injective, err-ne-ok, ◌≡◌, refl, sym, ap, ◌==◌,
}
use mathlib.Core.Option.{none-ne-some}
use k8_highlander.Workloads.Processes.Tests.{echo_process}
use k8_highlander.Workloads.Process.{
  pending, failed, LivePod, PodCalls, Process, new_process, is_pod_terminated, first_command,
  set_active, pod_of, build_pod, pod_created, recreate, over_existing, with_pod,
  create_or_update_pod, pod_started, start_process,
}
use k8_highlander.Workloads.Process.History.{starts, ticks, stopped_between, stopped_between-closed}
use k8_highlander.Workloads.Process.Starts.{PodContract, Runs, start_process-Runs}

-- The time, and the pod "echo-pod" if it is there.
record Cluster : Type 0 where
  time : ℕ
  pod : Option LivePod

missing : GoError
missing = new_error "not found"

answer : Option LivePod → Result LivePod
unfolding missing
answer none = err missing
answer (some pod) = ok pod

new_pod : LivePod
new_pod = record {
  phase = pending;
  containers = [];
  unscheduled = [];
  annotations = [];
  deletion = none;
  finalizers = false;
}

marked : String → Option LivePod → Option LivePod
marked text none = none
marked text (some pod) = some (record pod { annotations = insert text "true" pod.annotations })

create_in : Option LivePod → Cluster → Option GoError × Cluster
unfolding new_pod
create_in none s = (none, record s { pod = some new_pod })
create_in (some pod) s = (some (new_error "already exists"), s)

delete_in : Option LivePod → Cluster → Option GoError × Cluster
unfolding missing
delete_in none s = (some missing, s)
delete_in (some pod) s = (none, record s { pod = none })

-- One attempt of an operation that is retried, and one poll.
attempt : Result Bool × Cluster → Option GoError × Cluster
attempt (err e, s) = (some e, s)
attempt (ok true, s) = (none, s)
attempt (ok false, s) = (some (new_error "timed out"), s)

unfoldable cluster : PodCalls Cluster
unfolding answer marked create_in delete_in attempt
cluster = record {
  build_containers = λ base s. ok base.image;
  now = λ s. s.time;
  sleep = λ d s. record s { time = s.time + d };
  get = λ ns name s. (answer s.pod, s);
  create = λ pod s. create_in s.pod s;
  annotate = λ ns name text s. (none, record s { pod = marked text s.pod });
  drop_finalizers = λ ns name s. (none, s);
  delete = λ ns name grace s. delete_in s.pod s;
  is_not_found = λ e. e.message == "not found";
  is_already_exists = λ e. e.message == "already exists";
  exponential_backoff = λ n f s. attempt (f s);
  poll = λ d f s. attempt (f s);
  retry_on_conflict = λ f s. f s;
  wait_or_done = λ d s. (none, record s { time = s.time + d });
  leads_normally = λ s. true;
  record_operation = λ name operation d e s. s;
  update_workload_status = λ name ns b s. s;
}

pods : Cluster → String → String → Option LivePod
pods s ns name = s.pod

answer-pod : (o : Option LivePod) (pod : LivePod) → answer o ≡ ok pod → o ≡ some pod
unfolding answer
answer-pod none pod e = absurd (err-ne-ok _ _ e)
answer-pod (some p) pod e = ap some (ok-injective _ _ e)

create_in-pod :
    (o : Option LivePod) (s : Cluster)
    → (create_in o s).0 ≡ none
    → (q : LivePod) × ((create_in o s).1.pod ≡ some q) × (is_pod_terminated q ≡ false)
unfolding create_in new_pod is_pod_terminated
create_in-pod none s e = (new_pod, refl, refl)
create_in-pod (some pod) s e = absurd (none-ne-some _ (sym e))

cluster-PodContract : PodContract cluster pods
unfolding cluster pods
cluster-PodContract = record {
  get_lem = λ ns name pod s e. answer-pod s.pod pod e;
  create_lem = λ pod s e. create_in-pod s.pod s e;
  record_lem = λ name operation d e s ns pod. refl;
  update_lem = λ name ns b s ns' pod. refl;
}

-- A pod that has failed is there at first.
abbrev with_failed : Cluster
with_failed = record {
  time = 5;
  pod = some (record {
    phase = failed;
    containers = [];
    unscheduled = [];
    annotations = [];
    deletion = none;
    finalizers = false;
  });
}

abbrev echo_new : Process
echo_new = new_process (echo_process "id-1")

starts_well : (start_process cluster echo_new with_failed).0 ≡ none
unfolding cluster start_process create_or_update_pod build_pod pod_of with_pod over_existing
    recreate pod_created pod_started is_pod_terminated answer create_in delete_in new_process
    set_active first_command
starts_well = refl

start_process-Runs_example :
    Runs cluster pods cluster-PodContract echo_new.workload
      (start_process cluster echo_new with_failed).1
      (start_process cluster echo_new with_failed).2
start_process-Runs_example =
    start_process-Runs cluster pods cluster-PodContract echo_new with_failed starts_well

stopped_between-closed_example :
    let p =
      stopped_between cluster
        (starts ∷ ticks ∷ [])
        (starts ∷ ticks ∷ [])
        (echo_process "id-1")
        with_failed in
    (p.channel_closed ≡ true) × (p.status.last_transition ≡ none)
stopped_between-closed_example =
    stopped_between-closed cluster (starts ∷ ticks ∷ []) (starts ∷ ticks ∷ []) (echo_process "id-1")
      with_failed
