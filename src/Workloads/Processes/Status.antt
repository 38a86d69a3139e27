-- ===== src/Workloads/Processes/Status.antt =====
-- ProcessManager.GetStatus.
use k8_highlander.Prelude.{
  String, Bool, true, ◌&&◌, ◌||◌, none, some, [], ◌∷◌, Map, ◌≡◌, refl, arith, ◌==◌, Bool-cases, inl,
  inr, lookup,
}
use k8_highlander.Common.{WorkloadStatus}
use k8_highlander.Workloads.Processes.{
  ProcessWorkload, ProcessManager, ProcessCalls, note_status, status_of_each, note_each,
  get_process_status, get_process,
}

-- Healthy, or with no error yet.
unfoldable pub is_fine : WorkloadStatus → Bool
is_fine member = member.healthy || member.last_error == ""

unfoldable pub are_fine : {S : Type 0} → ProcessCalls S → Map ProcessWorkload → S → Bool
are_fine o [] s = true
are_fine o ((name, p) ∷ ps) s = is_fine (o.status p s) && are_fine o ps s

note_status-healthy :
    (name : String) (member all : WorkloadStatus)
    → (note_status name member all).healthy ≡ (all.healthy && is_fine member)
unfolding note_status is_fine
note_status-healthy name member all = ground arith

module _ {S : Type 0} (o : ProcessCalls S) where
  note_each-healthy :
      (ps : Map ProcessWorkload) (s : S) (all : WorkloadStatus)
      → (note_each o (status_of_each o ps s) all).healthy ≡ (all.healthy && are_fine o ps s)
  unfolding note_each status_of_each are_fine
  note_each-healthy [] s all = ground arith
  note_each-healthy ((name, p) ∷ ps) s all =
      rw
        (
          note_each-healthy ps s (note_status name (o.status p s) all),
          note_status-healthy name (o.status p s) all,
        )
        (ground arith)

  lookup-status_of_each :
      (ps : Map ProcessWorkload) (s : S) (name : String)
      → lookup name (status_of_each o ps s)
        ≡ elim (lookup name ps) [ none ↦ none | some p ↦ some (o.status p s) ]
  unfolding status_of_each lookup
  lookup-status_of_each [] s name = refl
  lookup-status_of_each ((other, p) ∷ ps) s name = elim (Bool-cases (other == name)) [
    | inl e ↦ rw e refl
    | inr e ↦ rw e (lookup-status_of_each ps s name)
  ]

  -- The manager is healthy exactly when each of its workloads is healthy or has no error yet, in
  -- particular when it has none; its details have the status of each workload under its name.
  pub get_process_status-healthy :
      (m : ProcessManager) (s : S)
      → ((get_process_status o m s).0.healthy ≡ are_fine o m.processes s)
        × ((name : String)
            → lookup name (get_process_status o m s).1
              ≡ elim (get_process name m) [ none ↦ none | some p ↦ some (o.status p s) ])
  unfolding get_process_status get_process
  get_process_status-healthy m s =
      (note_each-healthy m.processes s _, λ name. lookup-status_of_each m.processes s name)
