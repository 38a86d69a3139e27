-- ===== src/Config/Load/Accepted.antt =====
-- What holds of a configuration that was loaded.
use k8_highlander.Prelude.{
  String, Bool, true, false, Option, none, some, Result, ok, err, GoError, err-ne-ok, ok-injective,
  is_none, ◌≡◌, refl, sym, ap, ◌∙◌, ◌&&◌, ◌==◌, ◌!=◌, if◌then◌else◌, Bool-cases, inl, inr,
}
use mathlib.Core.Bool.{false≢true}
use mathlib.Core.Option.{none-ne-some}
use k8_highlander.Config.{AppConfig}
use k8_highlander.Config.Validation.{
  check_settings, app_defaults, finish_app, check_app, named_app, validate_app,
}
use k8_highlander.Config.Validation.App.{
  has_storage, has_id, are_all_complete, validate_app-is_none,
}
use k8_highlander.Config.Load.{
  Environment, Parsed, from_yaml, from_viper, apply_environment_overrides, with_kubeconfig,
  validated, identified, overridden, init_config_from_file,
}

-- An accepted configuration: its storage has its settings, and a kubeconfig is named.
pub record Accepted (cfg : AppConfig) : Type 0 where
  pub storage : has_storage cfg ≡ true
  pub kubeconfig : (cfg.kubeconfig == "") ≡ false

finish_app-storage :
    (e : Option GoError) (cfg : AppConfig) → has_storage (finish_app e cfg).1 ≡ has_storage cfg
unfolding finish_app has_storage
finish_app-storage (some e) cfg = refl
finish_app-storage none cfg = refl

named_app-storage :
    (id : Result String) (cfg : AppConfig) → has_storage (named_app id cfg).1 ≡ has_storage cfg
unfolding named_app check_app
named_app-storage (err e) cfg = unfold has_storage in refl
named_app-storage (ok id) cfg =
    finish_app-storage (check_settings (app_defaults id cfg)) (app_defaults id cfg)
    ∙ (unfold has_storage app_defaults in refl)

finish_app-kubeconfig :
    (e : Option GoError) (cfg : AppConfig)
    → (finish_app e cfg).0 ≡ none
    → ((finish_app e cfg).1.kubeconfig == "") ≡ false
unfolding finish_app
finish_app-kubeconfig (some e) cfg h = absurd (none-ne-some e (sym h))
finish_app-kubeconfig none cfg h = elim (Bool-cases (cfg.kubeconfig == "")) [
  | inl e ↦ rw e refl
  | inr e ↦ rw (e, e) refl
]

named_app-kubeconfig :
    (id : Result String) (cfg : AppConfig)
    → (named_app id cfg).0 ≡ none
    → ((named_app id cfg).1.kubeconfig == "") ≡ false
unfolding named_app check_app
named_app-kubeconfig (err e) cfg h = absurd (none-ne-some e (sym h))
named_app-kubeconfig (ok id) cfg h =
    finish_app-kubeconfig (check_settings (app_defaults id cfg)) (app_defaults id cfg) h

validated-cases :
    (r : Option GoError × AppConfig) (cfg : AppConfig)
    → validated r ≡ ok cfg
    → (r.0 ≡ none) × (r.1 ≡ cfg)
unfolding validated
validated-cases (some e, c) cfg h = absurd (err-ne-ok _ cfg h)
validated-cases (none, c) cfg h = (refl, ok-injective c cfg h)

and-middle : (a b c d : Bool) → (a && (b && c && d)) ≡ true → b ≡ true
and-middle true true c d h = refl
and-middle true false c d h = absurd (false≢true h)
and-middle false b c d h = absurd (false≢true h)

validate_app-storage :
    (hostname : Result String) (cfg : AppConfig)
    → (validate_app hostname cfg).0 ≡ none
    → has_storage cfg ≡ true
validate_app-storage hostname cfg h =
    and-middle (has_id hostname cfg) (has_storage cfg) (cfg.cluster_name != "")
      (are_all_complete cfg)
      (sym (validate_app-is_none hostname cfg) ∙ (rw h (unfold is_none in refl)))

validated-Accepted :
    (hostname : Result String) (c cfg : AppConfig)
    → validated (validate_app hostname c) ≡ ok cfg
    → Accepted cfg
unfolding validate_app
validated-Accepted hostname c cfg h =
    let id = if c.id == "" then hostname else ok c.id in
    let (e, p) = validated-cases (validate_app hostname c) cfg h in
    record {
      storage = ap has_storage (sym p) ∙ named_app-storage id c ∙ validate_app-storage hostname c e;
      kubeconfig = ap (λ (x : AppConfig). x.kubeconfig == "") (sym p) ∙ named_app-kubeconfig id c e;
    }

identified-Accepted :
    (env : Environment) (id : Result String) (c cfg : AppConfig)
    → identified env id c ≡ ok cfg
    → Accepted cfg
unfolding identified
identified-Accepted env (err e) c cfg h = absurd (err-ne-ok _ cfg h)
identified-Accepted env (ok id) c cfg h =
    validated-Accepted env.hostname (with_kubeconfig env (record c { id = id })) cfg h

pub init_config_from_file-Accepted :
    (env : Environment) (p : Parsed) (cfg : AppConfig)
    → init_config_from_file env p ≡ ok cfg
    → Accepted cfg
unfolding init_config_from_file overridden
init_config_from_file-Accepted env (from_yaml (err e)) cfg h = absurd (err-ne-ok _ cfg h)
init_config_from_file-Accepted env (from_viper (err e)) cfg h = absurd (err-ne-ok _ cfg h)
init_config_from_file-Accepted env (from_yaml (ok c)) cfg h =
    let c' = apply_environment_overrides env c in
    identified-Accepted env (if c'.id == "" then env.hostname else ok c'.id) c' cfg h
init_config_from_file-Accepted env (from_viper (ok c)) cfg h =
    let c' = apply_environment_overrides env c in
    identified-Accepted env (if c'.id == "" then env.hostname else ok c'.id) c' cfg h
