-- ===== src/Workloads/Processes/Sound.antt =====
-- The entries of the table of processes, and that AddProcess and RemoveWorkload keep them sound.
mod Load
pub mod Requests
use k8_highlander.Prelude.{
  String, cat, Bool, true, false, not, ◌&&◌, Option, none, some, List, [], ◌∷◌, ◌++◌, Map, lookup,
  insert, delete, Result, ok, err, GoError, severe_error, ◌≡◌, refl, arith, ◌∙◌, sym, ap, is_none,
  if◌then◌else◌, ◌==◌, ◌!=◌, Bool-cases, inl, inr, lookup-insert, lookup-delete, lookup-empty,
  eq_iff, ℕ,
}
use mathlib.Core.Option.{none-ne-some, some-injective}
use mathlib.Core.Path.{subst₂}
use k8_highlander.Config.{ProcessConfig, BaseConfig}
use k8_highlander.Config.Validation.{
  validate_process, validation_errors, with_defaults, check_name_and_image,
}
use k8_highlander.Workloads.Processes.{
  ProcessWorkload, ProcessManager, ProcessCalls, AnyConfig, process_config, other_config, add_any,
  get_process, made, in_namespace, with_process, make_valid, new_process_workload,
  new_process_manager, add_made, add_free, add_valid, add_process, remove_stopped, remove_found,
  remove_process,
}
use k8_highlander.Workloads.Processes.Load.{
  load_each, load_file, load_files, parse_configs, load_process_configs, start_loaded,
  start_processes,
}
use k8_highlander.Workloads.Processes.Add.{validate_process-namespace}

-- The workload is one of a valid configuration with that name, and its pod is named after it.
pub record IsProcessOf (name : String) (p : ProcessWorkload) : Type 0 where
  pub is_valid : validation_errors (validate_process p.config "").0 ≡ none
  pub is_named : p.config.base.name ≡ name
  pub has_namespace : (p.namespace != "") ≡ true
  pub has_pod : p.pod_name ≡ cat name "-pod"

pub record IsSound (m : ProcessManager) : Type 0 where
  pub entry :
      (name : String) (p : ProcessWorkload) → lookup name m.processes ≡ some p → IsProcessOf name p

made-IsProcessOf :
    (cfg : ProcessConfig) (id : String)
    → validation_errors (validate_process cfg "").0 ≡ none
    → IsProcessOf cfg.base.name (made id (validate_process cfg "").1)
made-IsProcessOf cfg id valid = record {
  is_valid = unfold made validate_process with_defaults check_name_and_image in valid;
  is_named = unfold made validate_process with_defaults in refl;
  has_namespace = unfold made in validate_process-namespace cfg;
  has_pod = unfold made validate_process with_defaults in refl;
}

pub with_process-IsSound :
    (name : String) (p : ProcessWorkload) (m : ProcessManager)
    → IsProcessOf name p
    → IsSound m
    → IsSound (with_process name p m)
unfolding with_process
with_process-IsSound name p m new old = record {
  entry = λ other q e.
      by_name other q (name == other) refl (sym (lookup-insert name other p m.processes) ∙ e);
}
  where
    by_name :
        (other : String) (q : ProcessWorkload) (b : Bool)
        → (name == other) ≡ b
        → (if b then some p else lookup other m.processes) ≡ some q
        → IsProcessOf other q
    by_name other q true h e =
        subst₂ IsProcessOf ((eq_iff name other).0 h) (some-injective _ _ e) new
    by_name other q false h e = old.entry other q e

delete-IsSound :
    (name : String) (m : ProcessManager)
    → IsSound m
    → IsSound (record m { processes = delete name m.processes })
delete-IsSound name m old = record {
  entry =
      λ other q e. by_name other q (name == other) (sym (lookup-delete name other m.processes) ∙ e);
}
  where
    by_name :
        (other : String) (q : ProcessWorkload) (b : Bool)
        → (if b then none else lookup other m.processes) ≡ some q
        → IsProcessOf other q
    by_name other q true e = absurd (none-ne-some q e)
    by_name other q false e = old.entry other q e

module _ {S : Type 0} (o : ProcessCalls S) where
  -- What NewProcessWorkload makes is sound.
  unfoldable pub IsNew : String → Result ProcessWorkload → Type 0
  IsNew name (err e) = Unit {0}
  IsNew name (ok p) = IsProcessOf name p

  make_valid-IsNew :
      (e : Option GoError) (cfg : ProcessConfig) (c : Bool) (s : S)
      → validation_errors (validate_process cfg "").0 ≡ e
      → IsNew cfg.base.name (make_valid o e (validate_process cfg "").1 c s).0
  unfolding make_valid IsNew
  make_valid-IsNew (some e) cfg c s h = tt
  make_valid-IsNew none cfg true s h = made-IsProcessOf cfg _ h
  make_valid-IsNew none cfg false s h = tt

  pub new_process_workload-IsNew :
      (cfg : ProcessConfig) (c : Bool) (s : S)
      → IsNew cfg.base.name (new_process_workload o cfg c s).0
  unfolding new_process_workload
  new_process_workload-IsNew cfg c s = make_valid-IsNew _ cfg c s refl

  abbrev pub table_of : Option GoError × ProcessManager × S → ProcessManager
  table_of r = r.1

  either-IsSound :
      (b : Bool) (x y : Option GoError × ProcessManager × S)
      → IsSound x.1
      → IsSound y.1
      → IsSound (if b then x else y).1
  either-IsSound true x y h g = h
  either-IsSound false x y h g = g

  add_made-IsSound :
      (p : Result ProcessWorkload) (name : String) (m : ProcessManager) (s : S)
      → IsNew name p
      → IsSound m
      → IsSound (add_made o p name m s).1
  unfolding add_made IsNew
  add_made-IsSound (err e) name m s new old = old
  add_made-IsSound (ok p) name m s new old =
      either-IsSound m.has_client _ _ (with_process-IsSound name p m new old)
        (with_process-IsSound name p m new old)

  add_free-IsSound :
      (found : Option ProcessWorkload) (cfg : ProcessConfig) (m : ProcessManager) (s : S)
      → IsSound m
      → IsSound (add_free o found cfg m s).1
  unfolding add_free
  add_free-IsSound (some p) cfg m s old = old
  add_free-IsSound none cfg m s old =
      add_made-IsSound _ cfg.base.name m _
        (unfold in_namespace in
          new_process_workload-IsNew (in_namespace m.namespace cfg) m.has_client s)
        old

  pub add_valid-IsSound :
      (e : Option GoError) (cfg : ProcessConfig) (m : ProcessManager) (s : S)
      → IsSound m
      → IsSound (add_valid o e cfg m s).1
  unfolding add_valid
  add_valid-IsSound (some e) cfg m s old = old
  add_valid-IsSound none cfg m s old = add_free-IsSound _ cfg m s old

  remove_stopped-IsSound :
      (e : Option GoError) (name : String) (m : ProcessManager)
      → IsSound m
      → IsSound (remove_stopped o e name m).1
  unfolding remove_stopped
  remove_stopped-IsSound none name m old = delete-IsSound name m old
  remove_stopped-IsSound (some e) name m old = old

  pub remove_found-IsSound :
      (found : Option ProcessWorkload) (name : String) (m : ProcessManager) (s : S)
      → IsSound m
      → IsSound (remove_found o found name m s).1
  unfolding remove_found
  remove_found-IsSound none name m s old = old
  remove_found-IsSound (some p) name m s old = remove_stopped-IsSound _ name m old
