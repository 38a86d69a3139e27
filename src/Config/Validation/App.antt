-- ===== src/Config/Validation/App.antt =====
-- What the validation of the whole configuration accepts.
use k8_highlander.Prelude.{
  is_empty, is_none, String, Bool, true, false, ◌&&◌, ◌||◌, Option, none, some, List, [], ◌∷◌, ◌≡◌,
  refl, arith, ◌∙◌, ap, eq_iff, Bool-cases, inl, inr, if◌then◌else◌, ◌==◌, ◌!=◌, Result, ok, err,
  GoError, exceeds,
}
use k8_highlander.Config.{ProcessConfig, CronJobConfig, ServiceConfig, PersistentConfig, AppConfig}
use k8_highlander.Config.Validation.{
  ValidationError, validate_process, validate_cron_job, validate_service, validate_persistent,
  all_errors, validation_errors, check_settings, workload_errors, app_defaults, check_app,
  finish_app, named_app, validate_app,
}
use k8_highlander.Config.Validation.Laws.{
  is_complete, are_complete, is_empty-append, process_accepted, cron_job_accepted, service_accepted,
  persistent_accepted,
}

unfoldable pub all : {A : Type 0} → (A → Bool) → List A → Bool
all p [] = true
all p (x ∷ xs) = p x && all p xs

-- The settings of the storage that the configuration chooses are there.
unfoldable pub has_storage : AppConfig → Bool
has_storage cfg =
    if cfg.storage_type == "" || cfg.storage_type == "redis"
    then cfg.redis_addr != ""
    else if cfg.storage_type == "db"
    then cfg.database_url != ""
    else if cfg.storage_type == "spanner"
    then (cfg.spanner_project != "") && (cfg.spanner_instance != "") && (cfg.spanner_database != "")
    else false

unfoldable pub has_id : Result String → AppConfig → Bool
has_id (ok hostname) cfg = true
has_id (err e) cfg = cfg.id != ""

unfoldable pub are_all_complete : AppConfig → Bool
are_all_complete cfg =
    all (λ (p : ProcessConfig). is_complete p.base) cfg.processes
    && all (λ (c : CronJobConfig). is_complete c.base && (c.schedule != "")) cfg.cron_jobs
    && all
        (λ (v : PersistentConfig).
          is_complete v.base && exceeds 0 v.base.replicas && are_complete v.persistent_volumes)
        cfg.persistent_sets
    && all (λ (s : ServiceConfig). is_complete s.base && exceeds 0 s.base.replicas) cfg.services

check_settings-is_none :
    (cfg : AppConfig) → is_none (check_settings cfg) ≡ (has_storage cfg && (cfg.cluster_name != ""))
unfolding check_settings has_storage is_none
check_settings-is_none cfg = elim (Bool-cases (cfg.storage_type == "")) [
  | inl e ↦ rw ((eq_iff cfg.storage_type "").0 e) (ground arith)
  | inr e ↦ elim (Bool-cases (cfg.storage_type == "redis")) [
    | inl r ↦ rw ((eq_iff cfg.storage_type "redis").0 r) (ground arith)
    | inr r ↦ elim (Bool-cases (cfg.storage_type == "db")) [
      | inl d ↦ rw ((eq_iff cfg.storage_type "db").0 d) (ground arith)
      | inr d ↦ elim (Bool-cases (cfg.storage_type == "spanner")) [
        | inl s ↦ rw ((eq_iff cfg.storage_type "spanner").0 s) (ground arith)
        | inr s ↦ rw (e, r, d, s) refl
      ]
    ]
  ]
]

is_empty-all_errors :
    {A : Type 0} (validate : A → String → List ValidationError × A) (p : A → Bool) (d : String)
    → ((a : A) → is_empty (validate a d).0 ≡ p a)
    → (xs : List A) → is_empty (all_errors validate d xs) ≡ all p xs
unfolding all_errors all
is_empty-all_errors validate p d h [] = unfold is_empty in refl
is_empty-all_errors validate p d h (x ∷ xs) =
    rw (is_empty-append, h x, is_empty-all_errors validate p d h xs) refl

validation_errors-is_none :
    (es : List ValidationError) → is_none (validation_errors es) ≡ is_empty es
unfolding validation_errors is_none is_empty
validation_errors-is_none [] = refl
validation_errors-is_none (e ∷ es) = refl

workload_errors-is_empty : (cfg : AppConfig) → is_empty (workload_errors cfg) ≡ are_all_complete cfg
unfolding workload_errors are_all_complete
workload_errors-is_empty cfg =
    rw
      (
        is_empty-append,
        is_empty-append,
        is_empty-append,
        is_empty-all_errors validate_process _ cfg.namespace (process_accepted cfg.namespace)
            cfg.processes,
        is_empty-all_errors validate_cron_job _ cfg.namespace (cron_job_accepted cfg.namespace)
            cfg.cron_jobs,
        is_empty-all_errors validate_persistent _ cfg.namespace (persistent_accepted cfg.namespace)
            cfg.persistent_sets,
        is_empty-all_errors validate_service _ cfg.namespace (service_accepted cfg.namespace)
            cfg.services,
      )
      (ground arith)

finish_app-is_none :
    (o : Option GoError) (cfg : AppConfig)
    → is_none (finish_app o cfg).0 ≡ (is_none o && are_all_complete cfg)
unfolding finish_app is_none all
finish_app-is_none (some e) cfg = refl
finish_app-is_none none cfg =
    unfold are_all_complete in validation_errors-is_none _ ∙ workload_errors-is_empty _

is_known : Result String → Bool
is_known (ok id) = true
is_known (err e) = false

named_app-is_none :
    (r : Result String) (cfg : AppConfig)
    → is_none (named_app r cfg).0
      ≡ (is_known r && (has_storage cfg && (cfg.cluster_name != "") && are_all_complete cfg))
unfolding named_app is_known
named_app-is_none (err e) cfg = unfold is_none in refl
named_app-is_none (ok id) cfg =
    unfold check_app app_defaults has_storage are_all_complete in
    finish_app-is_none (check_settings (app_defaults id cfg)) (app_defaults id cfg)
    ∙ ap (λ b. b && are_all_complete (app_defaults id cfg))
        (check_settings-is_none (app_defaults id cfg))

known_id :
    (hostname : Result String) (cfg : AppConfig)
    → is_known (if cfg.id == "" then hostname else ok cfg.id) ≡ has_id hostname cfg
unfolding is_known has_id
known_id (ok h) cfg = ground arith
known_id (err e) cfg = ground arith

-- The configuration is accepted exactly when the host's name is known or not needed, the storage
-- that it chooses is known and has its settings, the cluster has a name, and every workload is
-- complete.
pub validate_app-is_none :
    (hostname : Result String) (cfg : AppConfig)
    → is_none (validate_app hostname cfg).0 ≡ (
        has_id hostname cfg
        && (has_storage cfg && (cfg.cluster_name != "") && are_all_complete cfg))
unfolding validate_app
validate_app-is_none hostname cfg =
    named_app-is_none (if cfg.id == "" then hostname else ok cfg.id) cfg
    ∙ ap (λ b. b && (has_storage cfg && (cfg.cluster_name != "") && are_all_complete cfg))
        (known_id hostname cfg)

-- The workloads of two configurations are the same.
record SameWorkloads (cfg cfg' : AppConfig) : Type 0 where
  processes : cfg'.processes ≡ cfg.processes
  cron_jobs : cfg'.cron_jobs ≡ cfg.cron_jobs
  services : cfg'.services ≡ cfg.services
  persistent_sets : cfg'.persistent_sets ≡ cfg.persistent_sets

finish_app-SameWorkloads :
    (o : Option GoError) (cfg : AppConfig) → SameWorkloads cfg (finish_app o cfg).1
unfolding finish_app
finish_app-SameWorkloads (some e) cfg = record {
  processes = refl;
  cron_jobs = refl;
  services = refl;
  persistent_sets = refl;
}
finish_app-SameWorkloads none cfg = record {
  processes = refl;
  cron_jobs = refl;
  services = refl;
  persistent_sets = refl;
}

named_app-SameWorkloads :
    (r : Result String) (cfg : AppConfig) → SameWorkloads cfg (named_app r cfg).1
unfolding named_app check_app app_defaults
named_app-SameWorkloads (err e) cfg = record {
  processes = refl;
  cron_jobs = refl;
  services = refl;
  persistent_sets = refl;
}
named_app-SameWorkloads (ok id) cfg =
    let same =
      finish_app-SameWorkloads (check_settings (app_defaults id cfg)) (app_defaults id cfg) in
    record {
      processes = same.processes;
      cron_jobs = same.cron_jobs;
      services = same.services;
      persistent_sets = same.persistent_sets;
    }

-- Validating the whole configuration leaves its workloads as they were written, without the
-- defaults that the validation of a workload sets.
pub workloads-validate_app :
    (hostname : Result String) (cfg : AppConfig)
    → ((validate_app hostname cfg).1.processes ≡ cfg.processes)
      × ((validate_app hostname cfg).1.cron_jobs ≡ cfg.cron_jobs)
      × ((validate_app hostname cfg).1.services ≡ cfg.services)
      × ((validate_app hostname cfg).1.persistent_sets ≡ cfg.persistent_sets)
unfolding validate_app
workloads-validate_app hostname cfg =
    let same = named_app-SameWorkloads (if cfg.id == "" then hostname else ok cfg.id) cfg in
    (same.processes, same.cron_jobs, same.services, same.persistent_sets)
