-- ===== src/Workloads/Processes/Sound/Load.antt =====
-- Loading configurations keeps the entries sound.
use k8_highlander.Prelude.{
  String, cat, Option, none, some, List, [], ◌∷◌, ◌++◌, Result, ok, err, GoError, severe_error, ℕ,
}
use k8_highlander.Config.{ProcessConfig}
use k8_highlander.Workloads.Processes.{
  ProcessWorkload, ProcessManager, ProcessCalls, in_namespace, with_process, new_process_workload,
}
use k8_highlander.Workloads.Processes.Load.{
  load_each, load_file, load_files, parse_configs, load_process_configs, start_loaded,
}
use k8_highlander.Workloads.Processes.Sound.{
  IsSound, with_process-IsSound, new_process_workload-IsNew, IsNew, table_of,
}

module _ {S : Type 0} (o : ProcessCalls S) where
  load_each-IsSound :
      (cs : List ProcessConfig) (m : ProcessManager) (s : S)
      → IsSound m
      → IsSound (load_each o cs m s).1
  unfolding load_each
  load_each-IsSound [] m s old = old
  load_each-IsSound (c ∷ cs) m s old =
      let (p, s') = new_process_workload o (in_namespace m.namespace c) m.has_client s in
      by_result (λ m' z h. load_each-IsSound cs m' z h) p s'
        (unfold in_namespace in
          new_process_workload-IsNew o (in_namespace m.namespace c) m.has_client s)
    where
      by_result :
          ((m' : ProcessManager) (z : S) → IsSound m' → IsSound (load_each o cs m' z).1)
          → (p : Result ProcessWorkload) (s' : S) → IsNew o c.base.name p
          → IsSound (
              table_of o (elim p [
                | err e ↦ (some e, m, s')
                | ok p ↦ load_each o cs (with_process c.base.name p m) s'
              ]))
      by_result later (err e) s' new = old
      by_result later (ok p) s' new =
          later _ s' (with_process-IsSound c.base.name p m (unfold IsNew in new) old)

  load_file-IsSound :
      (path : String) (m : ProcessManager) (s : S) → IsSound m → IsSound (load_file o path m s).1
  unfolding load_file
  load_file-IsSound path m s old = let (content, s') = o.read_file path s in by_content content s'
    where
      by_configs :
          (r : Result (List ProcessConfig)) (s' : S)
          → IsSound (table_of o (elim r [ err e ↦ (some e, m, s') | ok cs ↦ load_each o cs m s' ]))
      by_configs (err e) s' = old
      by_configs (ok cs) s' = load_each-IsSound cs m s' old

      by_content :
          (content : Result String) (s' : S)
          → IsSound (
              table_of o (elim content [
                | err e ↦ (
                  some (severe_error "ProcessManager" (cat "failed to read config file: " path) e),
                  m,
                  s',
                )
                | ok text ↦ elim (parse_configs o path text) [
                  | err e ↦ (some e, m, s')
                  | ok cs ↦ load_each o cs m s'
                ]
              ]))
      by_content (err e) s' = old
      by_content (ok text) s' = by_configs (parse_configs o path text) s'

  load_files-IsSound :
      (paths : List String) (m : ProcessManager) (s : S)
      → IsSound m
      → IsSound (load_files o paths m s).1
  unfolding load_files
  load_files-IsSound [] m s old = old
  load_files-IsSound (path ∷ paths) m s old =
      let (e, m', s') = load_file o path m s in
      by_error e m' s' (load_file-IsSound path m s old) (λ z. load_files-IsSound paths m' z)
    where
      by_error :
          (e : Option GoError) (m' : ProcessManager) (s' : S)
          → IsSound m'
          → ((z : S) → IsSound m' → IsSound (load_files o paths m' z).1)
          → IsSound
              (table_of o (elim e [ some x ↦ (some x, m', s') | none ↦ load_files o paths m' s' ]))
      by_error none m' s' h later = later s' h
      by_error (some e) m' s' h later = h

  pub load_process_configs-IsSound :
      (m : ProcessManager) (s : S) → IsSound m → IsSound (load_process_configs o m s).1
  unfolding load_process_configs
  load_process_configs-IsSound m s old =
      let (yaml, s') = o.glob (o.join_path m.config_dir "process-*.yaml") s in by_yaml yaml s'
    where
      by_yml :
          (paths : List String) (yml : Result (List String)) (z : S)
          → IsSound (
              table_of o (elim yml [
                | err e ↦ (
                  some (severe_error "ProcessManager" "failed to find process yml config files" e),
                  m,
                  z,
                )
                | ok more ↦ load_files o (paths ++ more) m z
              ]))
      by_yml paths (err e) z = old
      by_yml paths (ok more) z = load_files-IsSound (paths ++ more) m z old

      by_yaml :
          (yaml : Result (List String)) (s' : S)
          → IsSound (
              table_of o (elim yaml [
                | err e ↦ (
                  some (severe_error "ProcessManager" "failed to find process yaml config files" e),
                  m,
                  s',
                )
                | ok paths ↦
                    let (yml, s'') = o.glob (o.join_path m.config_dir "process-*.yml") s' in
                    elim yml [
                      | err e ↦ (
                        some (
                            severe_error "ProcessManager" "failed to find process yml config files"
                              e),
                        m,
                        s'',
                      )
                      | ok more ↦ load_files o (paths ++ more) m s''
                    ]
              ]))
      by_yaml (err e) s' = old
      by_yaml (ok paths) s' =
          let (yml, s'') = o.glob (o.join_path m.config_dir "process-*.yml") s' in
          by_yml paths yml s''

  pub start_loaded-IsSound :
      (ctx : Option ℕ) (e : Option GoError) (m : ProcessManager) (s : S)
      → IsSound m
      → IsSound (start_loaded o ctx e m s).1
  unfolding start_loaded
  start_loaded-IsSound ctx none m s old = old
  start_loaded-IsSound ctx (some e) m s old = old
