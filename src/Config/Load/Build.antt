-- ===== src/Config/Load/Build.antt =====
-- The storage of a configuration that was loaded can be built.
use k8_highlander.Prelude.{
  String, Bool, true, false, none, ok, ℤ, not, ◌||◌, ◌≡◌, ◌≢◌, refl, sym, ap, ◌∙◌, ◌&&◌, ◌==◌,
  if◌then◌else◌, Bool-cases, inl, inr, eq_iff,
}
use mathlib.Core.Bool.{false≢true}
use k8_highlander.Config.{AppConfig}
use k8_highlander.Config.Validation.App.{has_storage}
use k8_highlander.Config.Load.{
  Environment, Parsed, init_config_from_file, StorageClients, built, redis_built, database_built,
  spanner_built, default_storage, build_of_type, build_storage_config, spanner_name,
}
use k8_highlander.Config.Load.Accepted.{init_config_from_file-Accepted}

none_empty : (a b c : Bool) → (not a && not b && not c) ≡ true → (a || b || c) ≡ false
none_empty false false false h = refl
none_empty false false true h = absurd (false≢true h)
none_empty false true c h = absurd (false≢true h)
none_empty true b c h = absurd (false≢true h)

-- The services of the storages are up: every client connects.
pub record AllConnect {S : Type 0} (c : StorageClients S) : Type 0 where
  pub pings : (addr password : String) (db : ℤ) (s : S) → (c.ping_redis addr password db s).0 ≡ none
  pub opens : (url : String) (s : S) → (c.open_database url s).0 ≡ none
  pub makes : (name : String) (s : S) → (c.new_spanner name s).0 ≡ none

storage-spanner :
    (cfg : AppConfig)
    → cfg.storage_type ≡ "spanner"
    → has_storage cfg ≡ true
    → (cfg.spanner_project == "" || cfg.spanner_instance == "" || cfg.spanner_database == "")
      ≡ false
unfolding has_storage
storage-spanner cfg e h =
    none_empty (cfg.spanner_project == "") (cfg.spanner_instance == "") (cfg.spanner_database == "")
      (sym at_spanner ∙ h)
  where
    at_spanner : has_storage cfg ≡ (
        not (cfg.spanner_project == "")
        && not (cfg.spanner_instance == "")
        && not (cfg.spanner_database == ""))
    at_spanner = rw e refl

storage-known :
    (cfg : AppConfig)
    → (cfg.storage_type == "") ≡ false
    → (cfg.storage_type == "redis") ≡ false
    → (cfg.storage_type == "db") ≡ false
    → (cfg.storage_type == "spanner") ≡ false
    → has_storage cfg ≡ false
unfolding has_storage
storage-known cfg e r d p = rw (e, r, d, p) refl

module _ {S : Type 0} (c : StorageClients S) (up : AllConnect c) where
  redis-built :
      (cfg : AppConfig) (s : S)
      → cfg.storage_type ≡ "redis"
      → (build_of_type c cfg s).0 ≡ built cfg.storage_type
  unfolding build_of_type redis_built
  redis-built cfg s e = rw (e, up.pings cfg.redis_addr cfg.redis_password cfg.redis_db s) refl

  database-built :
      (cfg : AppConfig) (s : S)
      → cfg.storage_type ≡ "db"
      → (build_of_type c cfg s).0 ≡ built cfg.storage_type
  unfolding build_of_type database_built
  database-built cfg s e = rw (e, up.opens cfg.database_url s) refl

  spanner-built :
      (cfg : AppConfig) (s : S)
      → cfg.storage_type ≡ "spanner"
      → has_storage cfg ≡ true
      → (build_of_type c cfg s).0 ≡ built cfg.storage_type
  unfolding build_of_type spanner_built spanner_name
  spanner-built cfg s e h = rw (e, storage-spanner cfg e h, up.makes (spanner_name cfg) s) refl

  named_type-built :
      (cfg : AppConfig) (s : S)
      → (cfg.storage_type == "") ≡ false
      → has_storage cfg ≡ true
      → (build_of_type c cfg s).0 ≡ built cfg.storage_type
  named_type-built cfg s e h = elim (Bool-cases (cfg.storage_type == "redis")) [
    | inl r ↦ redis-built cfg s ((eq_iff cfg.storage_type "redis").0 r)
    | inr r ↦ elim (Bool-cases (cfg.storage_type == "db")) [
      | inl d ↦ database-built cfg s ((eq_iff cfg.storage_type "db").0 d)
      | inr d ↦ elim (Bool-cases (cfg.storage_type == "spanner")) [
        | inl p ↦ spanner-built cfg s ((eq_iff cfg.storage_type "spanner").0 p) h
        | inr p ↦ absurd (false≢true (sym (storage-known cfg e r d p) ∙ h))
      ]
    ]
  ]

  storage_type-redis :
      (cfg : AppConfig)
      → (cfg.storage_type == "") ≡ true
      → (default_storage cfg).storage_type ≡ "redis"
  unfolding default_storage
  storage_type-redis cfg e = rw e refl

  default_storage-same :
      (cfg : AppConfig) → (cfg.storage_type == "") ≡ false → default_storage cfg ≡ cfg
  unfolding default_storage
  default_storage-same cfg e = rw e refl

  build_storage_config-built :
      (cfg : AppConfig) (s : S)
      → has_storage cfg ≡ true
      → (build_storage_config c cfg s).0 ≡ built (default_storage cfg).storage_type
  unfolding build_storage_config
  build_storage_config-built cfg s h = elim (Bool-cases (cfg.storage_type == "")) [
    | inl e ↦ redis-built (default_storage cfg) s (storage_type-redis cfg e)
    | inr e ↦ rw (default_storage-same cfg e) (named_type-built cfg s e h)
  ]

  -- When the clients of the storages connect: for every configuration that initConfigFromFile gives
  -- without an error, BuildStorageConfig gives a storage of the type that it names, Redis if it names
  -- none; and the path of its kubeconfig is not empty.
  pub init_config_from_file-build_storage_config :
      (env : Environment) (p : Parsed) (cfg : AppConfig) (s : S)
      → init_config_from_file env p ≡ ok cfg
      → ((build_storage_config c cfg s).0
          ≡ built (if cfg.storage_type == "" then "redis" else cfg.storage_type))
        × (cfg.kubeconfig ≢ "")
  unfolding default_storage
  init_config_from_file-build_storage_config env p cfg s h =
      let a = init_config_from_file-Accepted env p cfg h in
      (
        build_storage_config-built cfg s a.storage,
        λ e. false≢true (sym a.kubeconfig ∙ ap (λ x. x == "") e),
      )
