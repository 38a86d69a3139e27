-- ===== src/Workloads/Manager/Table.antt =====
-- The manager's table of workloads.
use k8_highlander.Prelude.{
  String, Bool, true, false, Option, none, some, ◌≡◌, refl, arith, ◌∙◌, sym, eq_iff, lookup,
  lookup-insert, lookup-delete, if◌then◌else◌, ◌==◌, inl, inr, not, Bool-cases, ap, eq_refl,
}
use mathlib.Core.Bool.{false≢true}
use k8_highlander.Workloads.Manager.{
  Workload, ManagerImpl, add_workload, remove_workload, get_workload, add_over, remove_over,
}

-- The workload that stands under `name` once `w` was asked to stand there.
unfoldable pub first_of : Option Workload → Workload → Workload
first_of none w = w
first_of (some x) w = x

unfoldable pub is_some : {A : Type 0} → Option A → Bool
is_some none = false
is_some (some a) = true

add_over-get_workload :
    (o : Option Workload) (w : Workload) (m : ManagerImpl) (name : String)
    → lookup w.name m.workloads ≡ o
    → (is_some (add_over o w m).0 ≡ is_some o)
      × (get_workload name (add_over o w m).1
          ≡ (if w.name == name then some (first_of o w) else get_workload name m))
unfolding add_over get_workload is_some first_of
add_over-get_workload none w m name e = (refl, lookup-insert w.name name w m.workloads)
add_over-get_workload (some x) w m name e = (refl, ground (arith, eq_iff w.name name))

-- AddWorkload fails exactly when the name is taken, and after it the first workload that was
-- added under the name stands there; every other name has what it had.
pub add_workload-get_workload :
    (w : Workload) (m : ManagerImpl) (name : String)
    → (is_some (add_workload w m).0 ≡ is_some (get_workload w.name m))
      × (get_workload name (add_workload w m).1 ≡ (
          if w.name == name
          then some (first_of (get_workload w.name m) w)
          else get_workload name m))
unfolding add_workload
add_workload-get_workload w m name =
    unfold get_workload in add_over-get_workload (lookup w.name m.workloads) w m name refl

remove_over-get_workload :
    (o : Option Workload) (removed : String) (m : ManagerImpl) (name : String)
    → lookup removed m.workloads ≡ o
    → (is_some (remove_over o removed m).0 ≡ not (is_some o))
      × (get_workload name (remove_over o removed m).1
          ≡ (if removed == name then none else get_workload name m))
unfolding remove_over get_workload is_some
remove_over-get_workload none removed m name e = (refl, ground (arith, eq_iff removed name))
remove_over-get_workload (some x) removed m name e = (refl, lookup-delete removed name m.workloads)

-- RemoveWorkload fails exactly when the name is free, and after it the name is free; every other
-- name has what it had.
pub remove_workload-get_workload :
    (removed : String) (m : ManagerImpl) (name : String)
    → (is_some (remove_workload removed m).0 ≡ not (is_some (get_workload removed m)))
      × (get_workload name (remove_workload removed m).1
          ≡ (if removed == name then none else get_workload name m))
unfolding remove_workload
remove_workload-get_workload removed m name =
    unfold get_workload in remove_over-get_workload (lookup removed m.workloads) removed m name refl

is_some-none : {A : Type 0} (x : Option A) → is_some x ≡ false → x ≡ none
unfolding is_some
is_some-none none h = refl
is_some-none (some a) h = absurd (false≢true (sym h))

-- A workload that is added under a free name stands there, with no error; and when it is removed
-- again, with no error either, every name has what it had before.
pub remove_workload-add_workload :
    (w : Workload) (m : ManagerImpl) (name : String)
    → get_workload w.name m ≡ none
    → ((add_workload w m).0 ≡ none)
      × (get_workload w.name (add_workload w m).1 ≡ some w)
      × ((remove_workload w.name (add_workload w m).1).0 ≡ none)
      × (get_workload name (remove_workload w.name (add_workload w m).1).1 ≡ get_workload name m)
remove_workload-add_workload w m name free = (
  is_some-none _
      ((add_workload-get_workload w m w.name).0 ∙ ap is_some free ∙ (unfold is_some in refl)),
  added,
  is_some-none _ (
      (remove_workload-get_workload w.name (add_workload w m).1 w.name).0
      ∙ ap (λ x. not (is_some x)) added
      ∙ (unfold is_some in refl)),
  (remove_workload-get_workload w.name (add_workload w m).1 name).1
      ∙ (elim (Bool-cases (w.name == name)) [
        | inl e ↦ rw e (sym (ap (λ k. get_workload k m) (sym ((eq_iff w.name name).0 e)) ∙ free))
        | inr e ↦ rw e ((add_workload-get_workload w m name).1 ∙ rw e refl)
      ]),
)
  where
    added : get_workload w.name (add_workload w m).1 ≡ some w
    added =
        (add_workload-get_workload w m w.name).1
        ∙ rw (eq_refl w.name, free) (unfold first_of in refl)
