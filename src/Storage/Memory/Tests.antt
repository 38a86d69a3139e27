-- ===== src/Storage/Memory/Tests.antt =====
-- Runs of InMemoryStorage, and its theorems at concrete inputs.
use mathlib.Core.Bool.{false≢true}
use k8_highlander.Prelude.{
  String, ◌≡◌, refl, true, false, some, List, [], ◌∷◌, lookup, insert, arith, eq_iff,
}
use k8_highlander.Storage.Memory.{
  InMemoryStorage, new_in_memory_storage, try_acquire_lock, renew_lock, get_lock_value,
  get_lock_ttl,
}
use k8_highlander.Storage.Memory.Laws.{
  Call, acquires, renews, releases, step, leases, granted, spec_step, call_key, step-granted,
  leases-step, lease_after, running,
}
use k8_highlander.Storage.Memory.Exclusion.{
  Rivals, all_refused, caller, call_time, run, lease_exclusion,
}
use k8_highlander.Storage.Memory.Entries.{
  IsWellFormed, run-IsWellFormed, reads_lease, owner_of, until_of,
}

-- "a" takes the lock "k" at 10 for 100.
abbrev a_acquires : Call
a_acquires = acquires "k" "a" "east" 100 10

abbrev others : List Call
others = acquires "k" "b" "west" 100 110 ∷ renews "k" "b" 100 50 ∷ releases "k" "b" ∷ []

held_by_a : InMemoryStorage
unfolding new_in_memory_storage step try_acquire_lock
held_by_a = (step a_acquires new_in_memory_storage).1

other_is_refused : (try_acquire_lock "k" "b" "west" 100 110 held_by_a).0 ≡ false
unfolding held_by_a try_acquire_lock lookup insert
other_is_refused = refl

other_takes_over : (try_acquire_lock "k" "b" "west" 100 111 held_by_a).0 ≡ true
unfolding held_by_a try_acquire_lock lookup insert
other_takes_over = refl

a_renews : (renew_lock "k" "a" 100 60 held_by_a).0 ≡ true
unfolding held_by_a renew_lock lookup insert
a_renews = refl

reads_a : get_lock_value "k" 60 60 held_by_a ≡ "a"
unfolding held_by_a get_lock_value lookup insert
reads_a = refl

b≢a : ◌≡◌ {A = String} "b" "a" → ⊥
b≢a p = false≢true ((eq_iff "b" "a").1 p)

others-Rivals : Rivals "k" (record { owner = "a"; until = 110 }) others
unfolding caller call_time call_key
others-Rivals =
    ((λ _. (b≢a, omega arith)), ((λ _. (b≢a, omega arith)), ((λ _. (b≢a, omega arith)), tt)))

step-granted_example :
    (step a_acquires new_in_memory_storage).0
    ≡ granted a_acquires (leases new_in_memory_storage "k")
unfolding call_key
step-granted_example = step-granted new_in_memory_storage a_acquires

lease_exclusion_example :
    (leases (run others held_by_a) "k" ≡ some (record { owner = "a"; until = 110 }))
    × (all_refused "k" others held_by_a ≡ true)
unfolding held_by_a step try_acquire_lock lookup lease_after call_key new_in_memory_storage
lease_exclusion_example =
    lease_exclusion a_acquires (record { owner = "a"; until = 110 }) new_in_memory_storage others
      refl refl others-Rivals

leases-step_example :
    leases (step a_acquires new_in_memory_storage).1 "k"
    ≡ spec_step a_acquires "k" (leases new_in_memory_storage "k")
leases-step_example = leases-step new_in_memory_storage a_acquires "k"

run-IsWellFormed_example :
    IsWellFormed 60
      (run (a_acquires ∷ renews "k" "a" 100 60 ∷ releases "k" "b" ∷ []) new_in_memory_storage)
run-IsWellFormed_example =
    run-IsWellFormed 5 (a_acquires ∷ renews "k" "a" 100 60 ∷ releases "k" "b" ∷ []) (omega arith)

reads_lease_example :
    (get_lock_value "k" 60 61 held_by_a ≡ "a") × (get_lock_ttl "k" 60 61 held_by_a ≡ 49)
unfolding held_by_a step try_acquire_lock new_in_memory_storage lookup insert running leases
    owner_of until_of
reads_lease_example = reads_lease "k" 60 61 held_by_a
