-- ===== src/Workloads/Processes/Add.antt =====
-- AddProcess: when it succeeds, and what it leaves.
use k8_highlander.Prelude.{
  String, Bool, true, false, ◌&&◌, Option, none, some, lookup, Result, ok, err, GoError, ◌≡◌, refl,
  arith, is_none, if◌then◌else◌, ◌==◌, ◌!=◌, Bool-cases, inl, inr, lookup-insert,
}
use k8_highlander.Config.{ProcessConfig}
use k8_highlander.Config.Validation.{validate_process, validation_errors, with_defaults}
use k8_highlander.Config.Validation.Laws.{namespace_or_set, validate_process_idempotent}
use k8_highlander.Workloads.Processes.{
  ProcessWorkload, ProcessManager, ProcessCalls, made, in_namespace, with_process, start_failure,
  make_valid, new_process_workload, add_made, add_free, add_valid, add_process,
}

not_empty : (n : String) → (n != "") ≡ true → (n == "") ≡ false
not_empty n h = ground (arith, h)

-- A namespace that is set stays.
in_namespace_stays :
    (ns : String) (cfg : ProcessConfig)
    → (cfg.base.namespace != "") ≡ true
    → in_namespace ns cfg ≡ cfg
unfolding in_namespace
in_namespace_stays ns cfg h = rw (not_empty cfg.base.namespace h) refl

pub validate_process-namespace :
    (cfg : ProcessConfig) → ((validate_process cfg "").1.base.namespace != "") ≡ true
unfolding validate_process with_defaults
validate_process-namespace cfg = namespace_or_set "" cfg.base.namespace

-- Validation always sets a namespace, so that of the manager never comes in.
pub in_namespace-validate_process :
    (ns : String) (cfg : ProcessConfig)
    → in_namespace ns (validate_process cfg "").1 ≡ (validate_process cfg "").1
in_namespace-validate_process ns cfg = in_namespace_stays ns _ (validate_process-namespace cfg)

abbrev pub moved : String → ProcessManager → ProcessManager
moved ns m = record m { namespace = ns }

module _ {S : Type 0} (o : ProcessCalls S) where
  abbrev pub moved_result :
      String → Option GoError × ProcessManager × S → Option GoError × ProcessManager × S
  moved_result ns r = (r.0, moved ns r.1, r.2)

  add_made-moved :
      (p : Result ProcessWorkload) (name ns : String) (m : ProcessManager) (s : S)
      → add_made o p name (moved ns m) s ≡ moved_result ns (add_made o p name m s)
  unfolding add_made with_process
  add_made-moved (err e) name ns m s = refl
  add_made-moved (ok p) name ns m s = elim (Bool-cases m.has_client) [
    | inl e ↦ rw e refl
    | inr e ↦ rw e refl
  ]

  add_free-moved :
      (found : Option ProcessWorkload) (cfg : ProcessConfig) (ns : String) (m : ProcessManager)
      (s : S)
      → add_free o found (validate_process cfg "").1 (moved ns m) s
        ≡ moved_result ns (add_free o found (validate_process cfg "").1 m s)
  unfolding add_free
  add_free-moved (some p) cfg ns m s = refl
  add_free-moved none cfg ns m s =
      rw (in_namespace-validate_process ns cfg, in_namespace-validate_process m.namespace cfg)
        (add_made-moved _ _ ns m _)

  add_valid-moved :
      (e : Option GoError) (cfg : ProcessConfig) (ns : String) (m : ProcessManager) (s : S)
      → add_valid o e (validate_process cfg "").1 (moved ns m) s
        ≡ moved_result ns (add_valid o e (validate_process cfg "").1 m s)
  unfolding add_valid
  add_valid-moved (some e) cfg ns m s = refl
  add_valid-moved none cfg ns m s = add_free-moved _ cfg ns m s

  -- AddProcess does not depend on the namespace of the manager: two managers that differ in it
  -- only give the same error, end with tables that are the same, and leave the same outside.
  pub add_process-moved :
      (cfg : ProcessConfig) (ns : String) (m : ProcessManager) (s : S)
      → add_process o cfg (moved ns m) s ≡ moved_result ns (add_process o cfg m s)
  unfolding add_process
  add_process-moved cfg ns m s = add_valid-moved _ cfg ns m s

  -- The workload that AddProcess makes of a configuration.
  abbrev pub added : ProcessConfig → S → ProcessWorkload
  added cfg s = made (o.make_id s).0 (validate_process cfg "").1

  -- What NewProcessWorkload gives for a configuration that AddProcess has found to be valid.
  new_process_workload-valid :
      (cfg : ProcessConfig) (c : Bool) (s : S)
      → validation_errors (validate_process cfg "").0 ≡ none
      → new_process_workload o (validate_process cfg "").1 c s
        ≡ make_valid o none (validate_process cfg "").1 c s
  unfolding new_process_workload
  new_process_workload-valid cfg c s valid = rw (validate_process_idempotent "" "" cfg, valid) refl

  abbrev pub Outcome :
      ProcessConfig → ProcessManager → S → Bool → Option GoError × ProcessManager × S → Type 0
  Outcome cfg m s possible r =
      (is_none r.0
        ≡ (possible && m.has_client && is_none (o.start (added cfg s) none (o.make_id s).1).0))
      × ((name : String)
          → lookup name r.1.processes ≡ (
              if possible && m.has_client && cfg.base.name == name
              then some (added cfg s)
              else lookup name m.processes))

  is_none-start_failure : (e : Option GoError) → is_none (start_failure e) ≡ is_none e
  unfolding start_failure is_none
  is_none-start_failure none = refl
  is_none-start_failure (some e) = refl

  add_made-Outcome :
      (cfg : ProcessConfig) (m : ProcessManager) (s : S) (c : Bool)
      → m.has_client ≡ c
      → Outcome cfg m s true (
          let (p, s') = make_valid o none (validate_process cfg "").1 c s in
          add_made o p cfg.base.name m s')
  unfolding make_valid add_made with_process
  add_made-Outcome cfg m s true e =
      rw e (
        is_none-start_failure _,
        λ name. lookup-insert cfg.base.name name (added cfg s) m.processes,
      )
  add_made-Outcome cfg m s false e = rw e (unfold is_none in refl, λ name. refl)

  add_free-Outcome :
      (found : Option ProcessWorkload) (cfg : ProcessConfig) (m : ProcessManager) (s : S)
      → validation_errors (validate_process cfg "").0 ≡ none
      → Outcome cfg m s (is_none found) (add_free o found (validate_process cfg "").1 m s)
  unfolding add_free is_none validate_process with_defaults
  add_free-Outcome (some p) cfg m s valid = (refl, λ name. refl)
  add_free-Outcome none cfg m s valid =
      rw
        (
          in_namespace-validate_process m.namespace cfg,
          new_process_workload-valid cfg m.has_client s valid,
        )
        (add_made-Outcome cfg m s m.has_client refl)

  add_valid-Outcome :
      (e : Option GoError) (cfg : ProcessConfig) (m : ProcessManager) (s : S)
      → validation_errors (validate_process cfg "").0 ≡ e
      → Outcome cfg m s
          (is_none e && is_none (lookup cfg.base.name m.processes))
          (add_valid o e (validate_process cfg "").1 m s)
  unfolding add_valid is_none
  add_valid-Outcome (some e) cfg m s invalid = (refl, λ name. refl)
  add_valid-Outcome none cfg m s valid =
      unfold validate_process with_defaults in add_free-Outcome _ cfg m s valid

  -- AddProcess succeeds exactly when the configuration is valid, its name is free, there is a
  -- client, and the new workload starts. If the first three hold, the new workload stands under
  -- the name afterwards, started or not; in every other case, and under every other name, the
  -- table has what it had.
  pub add_process-Outcome :
      (cfg : ProcessConfig) (m : ProcessManager) (s : S)
      → Outcome cfg m s
          (is_none (validation_errors (validate_process cfg "").0)
            && is_none (lookup cfg.base.name m.processes))
          (add_process o cfg m s)
  unfolding add_process
  add_process-Outcome cfg m s = add_valid-Outcome _ cfg m s refl
