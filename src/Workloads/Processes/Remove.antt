-- ===== src/Workloads/Processes/Remove.antt =====
-- RemoveWorkload of what AddProcess has added.
use k8_highlander.Prelude.{
  String, Bool, true, false, ◌&&◌, Option, none, some, lookup, GoError, ◌≡◌, refl, is_none,
  if◌then◌else◌, ◌==◌, lookup-delete,
}
use k8_highlander.Workloads.Processes.{
  ProcessWorkload, ProcessManager, ProcessCalls, remove_stopped, remove_found, remove_process,
  get_process,
}

module _ {S : Type 0} (o : ProcessCalls S) where
  -- Whether RemoveWorkload finds the name, and the workload stops, if there is a client to stop it.
  unfoldable pub can_remove : Option ProcessWorkload → Bool → S → Bool
  can_remove none c s = false
  can_remove (some p) c s = if c then is_none (o.stop p none s).0 else true

  remove_found-get_process :
      (found : Option ProcessWorkload) (name : String) (m : ProcessManager) (s : S)
      → (is_none (remove_found o found name m s).0 ≡ can_remove found m.has_client s)
        × ((other : String)
            → lookup other (remove_found o found name m s).1.processes ≡ (
                if can_remove found m.has_client s && name == other
                then none
                else lookup other m.processes))
  unfolding remove_found can_remove is_none
  remove_found-get_process none name m s = (refl, λ other. refl)
  remove_found-get_process (some p) name m s = by_client m.has_client (o.stop p none s).0
    where
      by_client :
          (c : Bool) (e : Option GoError)
          → (is_none (remove_stopped o (if c then e else none) name m).0
              ≡ (if c then is_none e else true))
            × ((other : String)
                → lookup other (remove_stopped o (if c then e else none) name m).1.processes ≡ (
                    if (if c then is_none e else true) && name == other
                    then none
                    else lookup other m.processes))
      by_client true none =
          unfold remove_stopped is_none in (refl, λ other. lookup-delete name other m.processes)
      by_client true (some e) = unfold remove_stopped is_none in (refl, λ other. refl)
      by_client false e =
          unfold remove_stopped is_none in (refl, λ other. lookup-delete name other m.processes)

  -- RemoveWorkload succeeds exactly when the name stands in the table and, if there is a client,
  -- its workload stops. The name is free afterwards; if it fails, and under every other name, the
  -- table has what it had.
  pub remove_process-get_process :
      (name : String) (m : ProcessManager) (s : S)
      → (is_none (remove_process o name m s).0 ≡ can_remove (get_process name m) m.has_client s)
        × ((other : String)
            → get_process other (remove_process o name m s).1 ≡ (
                if can_remove (get_process name m) m.has_client s && name == other
                then none
                else get_process other m))
  unfolding remove_process get_process
  remove_process-get_process name m s = remove_found-get_process (lookup name m.processes) name m s
