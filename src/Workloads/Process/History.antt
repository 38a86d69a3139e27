-- ===== src/Workloads/Process/History.antt =====
-- Histories of a process workload: starts, stops, ticks of its updater and deletions of its pod.
use k8_highlander.Prelude.{Bool, true, false, none, List, [], ◌∷◌, ◌≡◌, refl, ◌∙◌}
use mathlib.Core.Bool.{false≢true}
use k8_highlander.Workloads.Processes.{ProcessWorkload}
use k8_highlander.Workloads.Process.{
  LivePod, PodCalls, Process, new_process, start_process, stop_process, watch_deletion,
}
use k8_highlander.Workloads.Process.Health.{update_status}
use k8_highlander.Workloads.Process.Lifecycle.{
  Sane, Alike-Sane, update_status-Sane, start_process-Sane, stop_process-Sane, watch_deletion-Alike,
}

-- `meanwhile` is a change of the outside.
pub data Event (S : Type 0) : Type 0 where
  starts stops ticks : Event S
  deletes : LivePod → Event S
  meanwhile : (S → S) → Event S

module _ {S : Type 0} (o : PodCalls S) where
  unfoldable pub happens : Event S → Process → S → Process × S
  happens starts p s = let (e, p', s') = start_process o p s in (p', s')
  happens stops p s = let (e, p', s') = stop_process o p s in (p', s')
  happens ticks p s = update_status o p s
  happens (deletes pod) p s = watch_deletion o pod p s
  happens (meanwhile f) p s = (p, f s)

  unfoldable pub process_history : List (Event S) → Process → S → Process × S
  process_history [] p s = (p, s)
  process_history (e ∷ es) p s = let (p', s') = happens e p s in process_history es p' s'

  new_process-Sane : (w : ProcessWorkload) → Sane false (new_process w)
  unfolding new_process
  new_process-Sane w = record {
    stays = λ h. absurd (false≢true h);
    closed_is = refl;
    no_transition = refl;
    no_error = λ h. refl;
  }

  weaker : (b : Bool) (p : Process) → Sane true p → Sane b p
  weaker b p x = record {
    stays = λ h. x.stays refl;
    closed_is = x.closed_is;
    no_transition = x.no_transition;
    no_error = x.no_error;
  }

  happens-Sane :
      (b : Bool) (e : Event S) (p : Process) (s : S) → Sane b p → Sane b (happens e p s).0
  unfolding happens
  happens-Sane b starts p s x = start_process-Sane o b p s x
  happens-Sane b stops p s x = weaker b _ (stop_process-Sane o b p s x)
  happens-Sane b ticks p s x = update_status-Sane o b p s x
  happens-Sane b (deletes pod) p s x = Alike-Sane b p _ (watch_deletion-Alike o pod p s) x
  happens-Sane b (meanwhile f) p s x = x

  process_history-Sane :
      (b : Bool) (es : List (Event S)) (p : Process) (s : S)
      → Sane b p
      → Sane b (process_history es p s).0
  unfolding process_history
  process_history-Sane b [] p s x = x
  process_history-Sane b (e ∷ es) p s x = process_history-Sane b es _ _ (happens-Sane b e p s x)

  -- The workload after some events, a Stop, and some events more.
  abbrev pub stopped_between : List (Event S) → List (Event S) → ProcessWorkload → S → Process
  stopped_between before after w s =
      let (p, s') = process_history before (new_process w) s in
      let (e, p', s'') = stop_process o p s' in (process_history after p' s'').0

  -- After a Stop, whatever comes before it and after it, starts included, and whatever the outside
  -- answers: the stop channel is closed, so that every updater and every watcher that a later Start
  -- begins may end at once; and no time of a transition was ever noted, so that a missing pod has no
  -- grace period.
  pub stopped_between-closed :
      (before after : List (Event S)) (w : ProcessWorkload) (s : S)
      → ((stopped_between before after w s).channel_closed ≡ true)
        × ((stopped_between before after w s).status.last_transition ≡ none)
  stopped_between-closed before after w s =
      let x = process_history-Sane true after _ _ (
        stop_process-Sane o false _ _
          (process_history-Sane false before _ s (new_process-Sane w))) in
      (x.closed_is ∙ x.stays refl, x.no_transition)
