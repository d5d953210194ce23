-- ===== src/Loader/Routed.antt =====
-- The adapters of a configuration that was loaded.
use ai_proxy.Common.{
  String, ◌≡◌, refl, ◌∙◌, inl, inr, true, Option, some, [], ◌∷◌, ◌==◌, eq_iff, Bool-cases, All,
  contains,
}
use ai_proxy.Dict
use ai_proxy.Dict.{Dict}
use ai_proxy.Dict.Laws.{get-set}
use ai_proxy.Config.{AppConfig, ProviderConfig}
use ai_proxy.Adapter.{BaseAdapter, make_adapter}
use ai_proxy.Mappings.{parse_mapping}
use ai_proxy.Loader.{Libraries, load_config}
use ai_proxy.Loader.Known.{IsKnown, load_config_iff}
use ai_proxy.Loader.Registry.{key_variable, register, register_all, build_registry}

-- A provider has an adapter, which is for it.
abbrev pub HasAdapter : Dict BaseAdapter → String → Type 0
HasAdapter registry name =
    (adapter : BaseAdapter) × (Dict.get registry name ≡ some adapter)
    × (adapter.provider_name ≡ name)

-- The type is one that there is an adapter for.
abbrev pub IsSupported : String × ProviderConfig → Type 0
IsSupported (name, prov) = (prov.type == "openai_compatible") ≡ true

module _ (environ : String → Option String) where
  abbrev adapter_of : String → ProviderConfig → BaseAdapter
  adapter_of name prov =
      make_adapter name prov.endpoint (environ (key_variable name prov)) prov.headers prov.timeout

  register-HasAdapter :
      (name other : String) (prov : ProviderConfig) (registry : Dict BaseAdapter)
      → IsSupported (name, prov)
      → HasAdapter registry other
      → HasAdapter (register environ name prov registry) other
  unfolding register make_adapter
  register-HasAdapter name other prov registry h (adapter, found, its) =
      elim (Bool-cases (name == other)) [
        | inl same ↦ rw h (
          adapter_of name prov,
          get-set registry name other (adapter_of name prov) ∙ rw same refl,
          (eq_iff name other).0 same,
        )
        | inr differs ↦
            rw h
              (adapter, get-set registry name other (adapter_of name prov) ∙ rw differs found, its)
      ]

  register_self :
      (name : String) (prov : ProviderConfig) (registry : Dict BaseAdapter)
      → IsSupported (name, prov)
      → HasAdapter (register environ name prov registry) name
  unfolding register make_adapter
  register_self name prov registry h = rw h (
    adapter_of name prov,
    get-set registry name name (adapter_of name prov) ∙ rw ((eq_iff name name).1 refl) refl,
    refl,
  )

  register_all-kept :
      (providers : Dict ProviderConfig) (name : String) (registry : Dict BaseAdapter)
      → All IsSupported providers
      → HasAdapter registry name
      → HasAdapter (register_all environ providers registry) name
  unfolding register_all
  register_all-kept [] name registry h a = a
  register_all-kept ((k, prov) ∷ providers) name registry (s, h) a =
      register_all-kept providers name _ h (register-HasAdapter k name prov registry s a)

  register_all-HasAdapter :
      (providers : Dict ProviderConfig) (name : String) (registry : Dict BaseAdapter)
      → All IsSupported providers
      → contains name (Dict.keys providers) ≡ true
      → HasAdapter (register_all environ providers registry) name
  unfolding register_all
  register_all-HasAdapter [] name registry h c = absurd (cc)
  register_all-HasAdapter ((k, prov) ∷ providers) name registry (s, h) c =
      elim (Bool-cases (k == name)) [
        | inl same ↦
            rw (← (eq_iff k name).0 same)
              (register_all-kept providers k _ h (register_self k prov registry s))
        | inr other ↦ register_all-HasAdapter providers name _ h (rw other at c)
      ]

  -- Each model of a configuration that was loaded is mapped to a provider that has an adapter, of its
  -- own name, where all providers are of the type that there is an adapter for.
  pub load_config-HasAdapter :
      (lib : Libraries) (active : Option AppConfig) (config_path : String)
      (secrets_path : Option String) (config : AppConfig)
      → (load_config lib active config_path secrets_path).result ≡ some config
      → All IsSupported config.providers
      → All
          (λ (m : String × String).
            HasAdapter (build_registry environ config) (parse_mapping m.1).0)
          config.model_mappings
  unfolding build_registry
  load_config-HasAdapter lib active config_path secrets_path config h supported =
      mapped config.model_mappings
        ((load_config_iff lib active config_path secrets_path config).0 h).1
    where
      mapped :
          (ms : Dict String)
          → All (IsKnown config) ms
          → All
              (λ (m : String × String).
                HasAdapter (register_all environ config.providers []) (parse_mapping m.1).0)
              ms
      mapped [] k = tt
      mapped ((client_model, mapping) ∷ ms) (known, k) =
          (register_all-HasAdapter config.providers _ [] supported known, mapped ms k)
