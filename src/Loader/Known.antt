-- ===== src/Loader/Known.antt =====
-- What a configuration that was loaded maps to, and what is left of a load that fails.
use mathlib.Core.Path.{subst}
use ai_proxy.Common.{
  String, ◌≡◌, refl, inl, inr, ◌↔◌, true, Option, none, some, [], ◌∷◌, contains, Bool-cases, All,
}
use ai_proxy.Dict
use ai_proxy.Dict.{Dict}
use ai_proxy.Config.{AppConfig}
use ai_proxy.RateLimiter.{build_rate_limiters}
use ai_proxy.Mappings.{parse_mapping}
use ai_proxy.Loader.{
  Libraries, read_config, validate_model_mappings, checked, load_config, reload_config,
}
use ai_proxy.Loader.Registry.{Active, build_registry, config_file_changed}

-- Every mapping of the models is to a provider of the configuration.
abbrev pub IsKnown : AppConfig → String × String → Type 0
IsKnown config (client_model, mapping) =
    contains (parse_mapping mapping).0 (Dict.keys config.providers) ≡ true

abbrev pub AreKnown : AppConfig → Type 0
AreKnown config = All (IsKnown config) config.model_mappings

validate_model_mappings_iff :
    (config : AppConfig) (model_mappings : Dict String)
    → (validate_model_mappings model_mappings (Dict.keys config.providers) ≡ true)
      ↔ All (IsKnown config) model_mappings
unfolding validate_model_mappings
validate_model_mappings_iff config [] = (λ h. tt, λ h. refl)
validate_model_mappings_iff config ((client_model, mapping) ∷ model_mappings) =
    let rest = validate_model_mappings_iff config model_mappings in
    elim (Bool-cases (contains (parse_mapping mapping).0 (Dict.keys config.providers))) [
      | inl known ↦ (λ h. (known, rest.0 (rw known at h)), λ (k, h). rw known (rest.1 h))
      | inr unknown ↦ (λ h. absurd (cc), λ (k, h). absurd (cc))
    ]

-- `load_config` gives a configuration exactly where the files have it and its models are all mapped to
-- providers that it has.
pub load_config_iff :
    (lib : Libraries) (active : Option AppConfig) (config_path : String)
    (secrets_path : Option String) (config : AppConfig)
    → ((load_config lib active config_path secrets_path).result ≡ some config)
      ↔ ((read_config lib config_path secrets_path ≡ some config) × AreKnown config)
unfolding load_config
load_config_iff lib active config_path secrets_path config =
    by_config (read_config lib config_path secrets_path)
  where
    by_config :
        (o : Option AppConfig)
        → ((checked active o).result ≡ some config) ↔ ((o ≡ some config) × AreKnown config)
    by_config none = (λ h. absurd (cc), λ (h, k). absurd (cc))
    by_config (some c) =
        let valid = validate_model_mappings_iff c c.model_mappings in
        elim (Bool-cases (validate_model_mappings c.model_mappings (Dict.keys c.providers))) [
          | inl known ↦
              rw known
                (λ h. let e : c ≡ config = cc in (h, subst AreKnown e (valid.0 known)), λ (h, k). h)
          | inr unknown ↦ rw unknown (
            λ h. absurd (cc),
            λ (h, k).
                let e : config ≡ c = cc in let known = valid.1 (subst AreKnown e k) in absurd (cc),
          )
        ]

module _ (lib : Libraries) (environ : String → Option String) (active : Active)
    (config_path : String) (secrets_path : Option String) where
  -- A change after which the files cannot be read or have a section that is not valid leaves the
  -- configuration, the adapters and the limiters as they are.
  pub config_file_changed-invalid :
      read_config lib config_path secrets_path ≡ none
      → config_file_changed lib environ active config_path secrets_path ≡ active
  unfolding config_file_changed reload_config load_config
  config_file_changed-invalid h = rw h refl

  -- A change after which the files have a configuration whose models are mapped to its providers puts
  -- it in place, with the adapters that are built from it.
  pub config_file_changed-known :
      (config : AppConfig)
      → read_config lib config_path secrets_path ≡ some config
      → AreKnown config
      → let after = config_file_changed lib environ active config_path secrets_path in
        (after.app_config ≡ some config)
        × (after.registry ≡ build_registry environ config)
        × (after.limiters ≡ build_rate_limiters active.limiters config.providers)
  unfolding config_file_changed reload_config load_config
  config_file_changed-known config h k =
      rw (h, (validate_model_mappings_iff config config.model_mappings).1 k) (refl, refl, refl)

  -- A change after which the files map a model to a provider that they do not have fails only when
  -- the configuration is in place: it stays there, with the adapters and the limiters of the one
  -- before it.
  pub config_file_changed-unknown :
      (config : AppConfig)
      → read_config lib config_path secrets_path ≡ some config
      → ¬ AreKnown config
      → config_file_changed lib environ active config_path secrets_path
        ≡ record active { app_config = some config }
  unfolding config_file_changed reload_config load_config
  config_file_changed-unknown config h unknown =
      let valid = validate_model_mappings_iff config config.model_mappings in
      elim (Bool-cases
        (validate_model_mappings config.model_mappings (Dict.keys config.providers))) [
          | inl known ↦ absurd (unknown (valid.0 known))
          | inr not_known ↦ rw (h, not_known) refl
        ]
