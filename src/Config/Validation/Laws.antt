-- ===== src/Config/Validation/Laws.antt =====
-- What the validation of workloads accepts, and the defaults that it sets.
use k8_highlander.Prelude.{
  is_empty, ℕ, suc, ℤ, pos, exceeds, String, Bool, true, false, ◌&&◌, Option, none, some, List, [],
  ◌∷◌, ◌++◌, ◌≡◌, refl, arith, ap, Bool-cases, inl, inr, if◌then◌else◌, ◌==◌, ◌!=◌, not,
}
use k8_highlander.Config.{
  BaseConfig, ProcessConfig, CronJobConfig, ServiceConfig, VolumeConfig, PersistentConfig,
}
use k8_highlander.Config.Validation.{
  unless, grace_or, namespace_or, with_defaults, check_name_and_image, check_script, check_replicas,
  check_volumes, validate_process, validate_cron_job, validate_service, validate_persistent,
}

unfoldable pub has_commands : Option (List String) → Bool
has_commands none = false
has_commands (some []) = false
has_commands (some (c ∷ commands)) = true

-- A workload has a name, an image and a script with commands.
unfoldable pub is_complete : BaseConfig → Bool
is_complete cfg = (cfg.name != "") && (cfg.image != "") && has_commands cfg.script

-- Every volume has a name, a mount path and a size.
unfoldable pub are_complete : List VolumeConfig → Bool
are_complete [] = true
are_complete (v ∷ vs) = (v.name != "") && (v.mount_path != "") && (v.size != "") && are_complete vs

abbrev pub HasDefaults : BaseConfig → Type 0
HasDefaults cfg = ((cfg.namespace != "") ≡ true) × (exceeds 0 cfg.termination_grace_period ≡ true)

pub is_empty-append :
    {A : Type 0} (xs ys : List A) → is_empty (xs ++ ys) ≡ (is_empty xs && is_empty ys)
unfolding is_empty
is_empty-append [] ys = refl
is_empty-append (x ∷ xs) ys = refl

is_empty-unless : (b : Bool) (field message : String) → is_empty (unless b field message) ≡ b
unfolding is_empty unless
is_empty-unless true field message = refl
is_empty-unless false field message = refl

is_empty-check_script :
    (script : Option (List String)) → is_empty (check_script script) ≡ has_commands script
unfolding is_empty check_script has_commands
is_empty-check_script none = refl
is_empty-check_script (some []) = refl
is_empty-check_script (some (c ∷ commands)) = refl

is_empty-check_volumes :
    (i : ℕ) (vs : List VolumeConfig) → is_empty (check_volumes i vs) ≡ are_complete vs
unfolding check_volumes are_complete
is_empty-check_volumes i [] = unfold is_empty in refl
is_empty-check_volumes i (v ∷ vs) =
    rw
      (
        is_empty-append,
        is_empty-append,
        is_empty-append,
        is_empty-unless,
        is_empty-unless,
        is_empty-unless,
        is_empty-check_volumes (suc i) vs,
      )
      (bool_assoc (v.name != "") _ _ _)
  where
    bool_assoc : (a b c d : Bool) → (a && (b && (c && d))) ≡ (a && b && c && d)
    bool_assoc a b c d = ground arith

ruleset accepts = (is_empty-append, is_empty-unless, is_empty-check_script, is_empty-check_volumes)

pub process_accepted :
    (d : String) (p : ProcessConfig) → is_empty (validate_process p d).0 ≡ is_complete p.base
unfolding validate_process check_name_and_image is_complete
process_accepted d p = simp accepts (ground arith)

pub cron_job_accepted :
    (d : String) (c : CronJobConfig)
    → is_empty (validate_cron_job c d).0 ≡ (is_complete c.base && (c.schedule != ""))
unfolding validate_cron_job check_name_and_image is_complete
cron_job_accepted d c = simp accepts (ground arith)

pub service_accepted :
    (d : String) (s : ServiceConfig)
    → is_empty (validate_service s d).0 ≡ (is_complete s.base && exceeds 0 s.base.replicas)
unfolding validate_service check_name_and_image check_replicas is_complete
service_accepted d s = simp accepts (ground arith)

pub persistent_accepted :
    (d : String) (v : PersistentConfig)
    → is_empty (validate_persistent v d).0
      ≡ (is_complete v.base && exceeds 0 v.base.replicas && are_complete v.persistent_volumes)
unfolding validate_persistent check_name_and_image check_replicas is_complete
persistent_accepted d v = simp accepts (ground arith)

-- Each kind of workload is accepted exactly when it is complete: it has a name, an image and a
-- script with commands, a cron job has a schedule too, a service and a stateful set more than
-- zero replicas, and every volume of a stateful set a name, a mount path and a size.
pub validate-is_empty :
    (d : String) (p : ProcessConfig) (c : CronJobConfig) (s : ServiceConfig) (v : PersistentConfig)
    → (is_empty (validate_process p d).0 ≡ is_complete p.base)
      × (is_empty (validate_cron_job c d).0 ≡ (is_complete c.base && (c.schedule != "")))
      × (is_empty (validate_service s d).0 ≡ (is_complete s.base && exceeds 0 s.base.replicas))
      × (is_empty (validate_persistent v d).0
          ≡ (is_complete v.base && exceeds 0 v.base.replicas && are_complete v.persistent_volumes))
validate-is_empty d p c s v =
    (process_accepted d p, cron_job_accepted d c, service_accepted d s, persistent_accepted d v)

pub namespace_or_set : (d n : String) → (namespace_or d n != "") ≡ true
unfolding namespace_or
namespace_or_set d n = elim (Bool-cases (n != "")) [
  | inl e ↦ rw e e
  | inr e ↦ rw e (elim (Bool-cases (d == "")) [ inl h ↦ rw h refl | inr h ↦ rw h (ap not h) ])
]

namespace_or_stays : (d n : String) → (n != "") ≡ true → namespace_or d n ≡ n
unfolding namespace_or
namespace_or_stays d n e = rw e refl

grace_or_set : (z : ℤ) → exceeds 0 (grace_or 0 28 z) ≡ true
unfolding grace_or
grace_or_set z = elim (Bool-cases (exceeds 0 z)) [
  | inl e ↦ rw e e
  | inr e ↦ rw e (unfold exceeds in refl)
]

grace_or_stays : (z : ℤ) → exceeds 0 z ≡ true → grace_or 0 28 z ≡ z
unfolding grace_or
grace_or_stays z e = rw e refl

defaults : (d : String) (cfg : BaseConfig) → HasDefaults (with_defaults d cfg)
unfolding with_defaults
defaults d cfg = (namespace_or_set d cfg.namespace, grace_or_set cfg.termination_grace_period)

-- The defaults of a workload, once set, stay.
with_defaults_idempotent :
    (d d' : String) (cfg : BaseConfig)
    → with_defaults d' (with_defaults d cfg) ≡ with_defaults d cfg
unfolding with_defaults
with_defaults_idempotent d d' cfg =
    rw
      (
        namespace_or_stays d' (namespace_or d cfg.namespace) (namespace_or_set d cfg.namespace),
        grace_or_stays (grace_or 0 28 cfg.termination_grace_period)
            (grace_or_set cfg.termination_grace_period),
      )
      refl

restarts_stay :
    (z : ℤ)
    → (if exceeds 0 (if exceeds 0 z then z else pos 5)
        then (if exceeds 0 z then z else pos 5)
        else pos 5)
      ≡ (if exceeds 0 z then z else pos 5)
restarts_stay z = elim (Bool-cases (exceeds 0 z)) [
  | inl e ↦ rw (e, e) refl
  | inr e ↦ rw e (unfold exceeds in refl)
]

-- A second validation of a process.
pub validate_process_idempotent :
    (d d' : String) (p : ProcessConfig)
    → validate_process (validate_process p d).1 d' ≡ validate_process p d
unfolding validate_process with_defaults check_name_and_image
validate_process_idempotent d d' p =
    cc (with_defaults_idempotent d d' p.base, restarts_stay p.max_restarts)

-- A second validation of a workload, whatever default namespace it is given, finds the errors of
-- the first, and changes nothing that the first has set.
pub validate_idempotent :
    (d d' : String) (p : ProcessConfig) (c : CronJobConfig) (s : ServiceConfig)
    (v : PersistentConfig)
    → (validate_process (validate_process p d).1 d' ≡ validate_process p d)
      × (validate_cron_job (validate_cron_job c d).1 d' ≡ validate_cron_job c d)
      × (validate_service (validate_service s d).1 d' ≡ validate_service s d)
      × (validate_persistent (validate_persistent v d).1 d' ≡ validate_persistent v d)
unfolding validate_process validate_cron_job validate_service validate_persistent with_defaults
    check_name_and_image check_replicas
validate_idempotent d d' p c s v = (
  validate_process_idempotent d d' p,
  cc (with_defaults_idempotent d d' c.base),
  cc (with_defaults_idempotent d d' s.base),
  cc (with_defaults_idempotent d d' v.base),
)

-- A validated workload has a namespace, and a grace period above zero.
pub validate-defaults :
    (d : String) (p : ProcessConfig) (c : CronJobConfig) (s : ServiceConfig) (v : PersistentConfig)
    → HasDefaults (validate_process p d).1.base
      × HasDefaults (validate_cron_job c d).1.base
      × HasDefaults (validate_service s d).1.base
      × HasDefaults (validate_persistent v d).1.base
unfolding validate_process validate_cron_job validate_service validate_persistent
validate-defaults d p c s v =
    (defaults d p.base, defaults d c.base, defaults d s.base, defaults d v.base)
