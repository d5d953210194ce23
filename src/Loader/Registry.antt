-- ===== src/Loader/Registry.antt =====
-- adapters/registry.py, and the reload that `_watch_loop` of config/watcher.py makes of a change. The
-- environment is an argument.
use ai_proxy.Common.{String, append, Option, none, some, [], ◌∷◌, ◌==◌, if◌then◌else◌}
use ai_proxy.Dict
use ai_proxy.Dict.{Dict}
use ai_proxy.Text.{upper}
use ai_proxy.Config.{AppConfig, ProviderConfig}
use ai_proxy.Adapter.{BaseAdapter, make_adapter}
use ai_proxy.RateLimiter.{Limiter, build_rate_limiters}
use ai_proxy.Loader.{Libraries, LoadResult, reload_config}

-- The variable with the key of a provider.
unfoldable pub key_variable : String → ProviderConfig → String
unfolding upper
key_variable name prov = elim prov.api_key_env [
  | none ↦ append (upper name) "_API_KEY"
  | some env_var ↦ if env_var == "" then append (upper name) "_API_KEY" else env_var
]

module _ (environ : String → Option String) where
  unfoldable pub register : String → ProviderConfig → Dict BaseAdapter → Dict BaseAdapter
  unfolding key_variable
  register name prov registry =
      if prov.type == "openai_compatible"
      then Dict.set registry name (
          make_adapter name prov.endpoint (environ (key_variable name prov)) prov.headers
            prov.timeout)
      else registry

  unfoldable pub register_all : Dict ProviderConfig → Dict BaseAdapter → Dict BaseAdapter
  unfolding register
  register_all [] registry = registry
  register_all ((name, prov) ∷ providers) registry =
      register_all providers (register name prov registry)

  unfoldable pub build_registry : AppConfig → Dict BaseAdapter
  unfolding register_all
  build_registry config = register_all config.providers []

-- What the proxy has in place.
pub record Active : Type 0 where
  pub app_config : Option AppConfig
  pub registry : Dict BaseAdapter
  pub limiters : Dict Limiter

-- One relevant change of the files: an exception is logged, and what was assigned before it stays.
abbrev pub reloaded : (String → Option String) → Active → LoadResult → Active
reloaded environ active loaded = elim loaded.result [
  | none ↦ record active { app_config = loaded.app_config }
  | some config ↦ record {
    app_config = loaded.app_config;
    registry = build_registry environ config;
    limiters = build_rate_limiters active.limiters config.providers;
  }
]

unfoldable pub config_file_changed :
    Libraries → (String → Option String) → Active → String → Option String → Active
unfolding build_registry build_rate_limiters reload_config
config_file_changed lib environ active config_path secrets_path =
    reloaded environ active (reload_config lib active.app_config config_path secrets_path)
