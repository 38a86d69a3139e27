-- ===== src/Workloads/Processes/Load.antt =====
-- ProcessManager: the configuration files, Start and Stop (process_manager.go).
use k8_highlander.Prelude.{
  ℕ, String, cat, Option, none, some, List, [], ◌∷◌, ◌++◌, Map, Result, ok, err, GoError,
  severe_error,
}
use k8_highlander.Config.{ProcessConfig}
use k8_highlander.Workloads.Processes.{
  ProcessWorkload, ProcessManager, ProcessCalls, in_namespace, with_process, new_process_workload,
}

module _ {S : Type 0} (o : ProcessCalls S) where
  -- The loop over the configurations of a file.
  unfoldable pub load_each :
      List ProcessConfig → ProcessManager → S → Option GoError × ProcessManager × S
  load_each [] m s = (none, m, s)
  load_each (c ∷ cs) m s =
      let (made, s') = new_process_workload o (in_namespace m.namespace c) m.has_client s in
      elim made [ err e ↦ (some e, m, s') | ok p ↦ load_each cs (with_process c.base.name p m) s' ]

  -- A file has a list of configurations, or one.
  unfoldable pub parse_configs : String → String → Result (List ProcessConfig)
  parse_configs path text = elim (o.parse_list text) [
    | ok cs ↦ ok cs
    | err e ↦ elim (o.parse_one text) [
      | ok c ↦ ok (c ∷ [])
      | err e' ↦
          err (severe_error "ProcessManager" (cat "failed to parse process config file: " path) e')
    ]
  ]

  -- loadProcessConfigFile
  unfoldable pub load_file : String → ProcessManager → S → Option GoError × ProcessManager × S
  load_file path m s =
      let (content, s') = o.read_file path s in
      elim content [
        | err e ↦ (
          some (severe_error "ProcessManager" (cat "failed to read config file: " path) e),
          m,
          s',
        )
        | ok text ↦ elim (parse_configs path text) [
          | err e ↦ (some e, m, s')
          | ok cs ↦ load_each cs m s'
        ]
      ]

  unfoldable pub load_files : List String → ProcessManager → S → Option GoError × ProcessManager × S
  load_files [] m s = (none, m, s)
  load_files (path ∷ paths) m s =
      let (e, m', s') = load_file path m s in
      elim e [ some e' ↦ (some e', m', s') | none ↦ load_files paths m' s' ]

  -- loadProcessConfigs: the files that end in .yaml, then those that end in .yml.
  unfoldable pub load_process_configs : ProcessManager → S → Option GoError × ProcessManager × S
  load_process_configs m s =
      let (yaml, s') = o.glob (o.join_path m.config_dir "process-*.yaml") s in
      elim yaml [
        | err e ↦ (
          some (severe_error "ProcessManager" "failed to find process yaml config files" e),
          m,
          s',
        )
        | ok paths ↦
            let (yml, s'') = o.glob (o.join_path m.config_dir "process-*.yml") s' in
            elim yml [
              | err e ↦ (
                some (severe_error "ProcessManager" "failed to find process yml config files" e),
                m,
                s'',
              )
              | ok more ↦ load_files (paths ++ more) m s''
            ]
      ]

  -- Errors are logged only.
  unfoldable pub start_members : Option ℕ → Map ProcessWorkload → S → S
  start_members ctx [] s = s
  start_members ctx ((name, p) ∷ ps) s = start_members ctx ps (o.start p ctx s).1

  unfoldable pub stop_members : Option ℕ → Map ProcessWorkload → S → S
  stop_members ctx [] s = s
  stop_members ctx ((name, p) ∷ ps) s = stop_members ctx ps (o.stop p ctx s).1

  unfoldable pub start_loaded :
      Option ℕ → Option GoError → ProcessManager → S → Option GoError × ProcessManager × S
  start_loaded ctx none m s = (none, m, start_members ctx m.processes s)
  start_loaded ctx (some e) m s =
      (some (severe_error "ProcessManager" "failed to load process configs" e), m, s)

  -- ProcessManager.Start
  unfoldable pub start_processes :
      Option ℕ → ProcessManager → S → Option GoError × ProcessManager × S
  start_processes ctx m s = let (e, m', s') = load_process_configs m s in start_loaded ctx e m' s'

  -- ProcessManager.Stop: it never fails.
  unfoldable pub stop_processes : Option ℕ → ProcessManager → S → Option GoError × S
  stop_processes ctx m s = (none, stop_members ctx m.processes s)
