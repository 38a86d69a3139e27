-- ===== src/Workloads/Processes/Sound/Requests.antt =====
-- The entries of the table after any requests.
use k8_highlander.Prelude.{
  String, Bool, Option, some, List, [], ◌∷◌, lookup, GoError, ◌≡◌, ◌∙◌, sym, lookup-empty, ℕ,
}
use mathlib.Core.Option.{none-ne-some}
use k8_highlander.Config.Validation.{validate_process, validation_errors}
use k8_highlander.Workloads.Processes.{
  ProcessWorkload, ProcessManager, ProcessCalls, AnyConfig, process_config, other_config, add_any,
  get_process, new_process_manager, add_process, remove_process,
}
use k8_highlander.Workloads.Processes.Load.{start_processes}
use k8_highlander.Workloads.Processes.Sound.{
  IsProcessOf, IsSound, add_valid-IsSound, remove_found-IsSound,
}
use k8_highlander.Workloads.Processes.Sound.Load.{
  load_process_configs-IsSound, start_loaded-IsSound,
}

module _ {S : Type 0} (o : ProcessCalls S) where
  -- What a manager is asked to do.
  pub data Request : Type 0 where
    add : AnyConfig → Request
    remove : String → Request
    start : Option ℕ → Request

  unfoldable pub serve : Request → ProcessManager → S → Option GoError × ProcessManager × S
  serve (add cfg) m s = add_any o cfg m s
  serve (remove name) m s = remove_process o name m s
  serve (start ctx) m s = start_processes o ctx m s

  -- The table after the requests, whatever each of them answers.
  unfoldable pub serve_all : List Request → ProcessManager → S → ProcessManager × S
  serve_all [] m s = (m, s)
  serve_all (r ∷ rs) m s = let (e, m', s') = serve r m s in serve_all rs m' s'

  add_any-IsSound :
      (cfg : AnyConfig) (m : ProcessManager) (s : S) → IsSound m → IsSound (add_any o cfg m s).1
  unfolding add_any add_process
  add_any-IsSound (process_config cfg) m s old =
      add_valid-IsSound o (validation_errors (validate_process cfg "").0) _ m s old
  add_any-IsSound (other_config name) m s old = old

  serve-IsSound : (r : Request) (m : ProcessManager) (s : S) → IsSound m → IsSound (serve r m s).1
  unfolding serve
  serve-IsSound (add cfg) m s old = add_any-IsSound cfg m s old
  serve-IsSound (remove name) m s old =
      unfold remove_process in remove_found-IsSound o (lookup name m.processes) name m s old
  serve-IsSound (start ctx) m s old =
      unfold start_processes in
      start_loaded-IsSound o ctx _ _ _ (load_process_configs-IsSound o m s old)

  serve_all-IsSound :
      (rs : List Request) (m : ProcessManager) (s : S) → IsSound m → IsSound (serve_all rs m s).0
  unfolding serve_all
  serve_all-IsSound [] m s old = old
  serve_all-IsSound (r ∷ rs) m s old = serve_all-IsSound rs _ _ (serve-IsSound r m s old)

  empty-IsSound :
      (namespace dir : String) (c : Bool) → IsSound (new_process_manager namespace dir c)
  unfolding new_process_manager
  empty-IsSound namespace dir c = record {
    entry = λ name p e. absurd (none-ne-some p (sym (lookup-empty name) ∙ e));
  }

  -- From a new manager on, and whatever is added, removed or loaded in whatever order, and
  -- whichever of these calls fail: the workload that stands under a name has a configuration of
  -- that name that is valid, a namespace, and a pod with the name and "-pod" for its name.
  pub serve_all-entry :
      (rs : List Request) (namespace dir : String) (c : Bool) (s : S) (name : String)
      (p : ProcessWorkload)
      → get_process name (serve_all rs (new_process_manager namespace dir c) s).0 ≡ some p
      → IsProcessOf name p
  unfolding get_process
  serve_all-entry rs namespace dir c s name p e =
      (serve_all-IsSound rs _ s (empty-IsSound namespace dir c)).entry name p e
