-- ===== src/Loader.antt =====
-- The loading of the configuration: config/loader.py, adapters/registry.py and what the loop of
-- config/watcher.py does with a change. The files are an argument, as what YAML reads in them, with the
-- keys of a mapping as texts; so are the checks that pydantic makes of a section, SHA-256 and `str`.
-- An exception is `none`: its text goes to the log alone.
pub mod Registry
pub mod Conflicts
pub mod Consistent
pub mod Known
pub mod Hashed
pub mod Routed
use Prim.Native.String
use Prim.Native.String.{count}
use ai_proxy.Common.{
  ℕ, String, append, Bool, true, false, not, ◌&&◌, Option, none, some, List, [], ◌∷◌, ◌==◌,
  if◌then◌else◌, contains, ◌>>=◌, nat_eq,
}
use ai_proxy.Dict
use ai_proxy.Dict.{Dict}
use ai_proxy.Text.{has_char, split, strip, strip_all}
use ai_proxy.Json.{
  Json, null, bool, int, float, str, arr, obj, object, array, to_list, to_dict, JsonObject,
  as_object, as_str, truthy,
}
use ai_proxy.Config.{
  AppConfig, ProviderConfig, ResponseConfig, AccessRule, ModificationRule, BypassConfig,
  KeyMappingEntry, LoggingConfig, GroupingConfig,
}
use ai_proxy.Mappings.{parse_mapping}

-- A file: there is none, it is no YAML, or it has a value.
pub data File : Type 0 where
  missing : File
  invalid : File
  parsed : Json → File

-- What the loader uses of its libraries. The checks of pydantic give the value of a class, or `none`.
pub record Libraries : Type 0 where
  pub read : String → File
  pub hash_key : String → String
  pub to_text : Json → String
  pub provider : JsonObject → Option ProviderConfig
  pub key_mapping : JsonObject → Option KeyMappingEntry
  pub response : Json → Option ResponseConfig
  pub access_rules : Json → Option (Dict AccessRule)
  pub modification_rules : Json → Option (List ModificationRule)
  pub bypass : Json → Option BypassConfig
  pub logging : Json → Option LoggingConfig
  pub grouping : Json → Option GroupingConfig

-- `_expect_mapping`
unfoldable pub expect_mapping : Option Json → Option JsonObject
expect_mapping none = some []
expect_mapping (some null) = some []
expect_mapping (some v) = as_object v

-- `_looks_like_hash`
unfoldable pub all_hex : String → Bool
unfolding has_char
all_hex String.[] = true
all_hex (String.◌∷◌ c s) = has_char c "0123456789abcdef" && all_hex s

unfoldable pub looks_like_hash : String → Bool
unfolding all_hex
looks_like_hash value = nat_eq (count value) 64 && all_hex value

-- `d.get(key, {})`
abbrev pub get_or_empty : JsonObject → String → Json
get_or_empty d key = elim (Dict.get d key) [ none ↦ object [] | some v ↦ v ]

module _ (lib : Libraries) where
  -- What is left of a file: a falsy value is an empty dict, and one that is no dict has no `get`.
  abbrev pub mapping_or_empty : Json → Option JsonObject
  mapping_or_empty v = if truthy v then as_object v else some []

  -- `_load_yaml`
  unfoldable pub load_yaml : String → Option JsonObject
  load_yaml path = elim (lib.read path) [
    | missing ↦ some []
    | invalid ↦ none
    | parsed v ↦ mapping_or_empty v
  ]

  -- `_load_providers`, on the mapping of the providers
  unfoldable pub load_providers_from :
      JsonObject → Dict ProviderConfig → Option (Dict ProviderConfig)
  unfolding expect_mapping
  load_providers_from [] providers = some providers
  load_providers_from ((name, prov_data) ∷ raw_providers) providers = do
    provider_data ← expect_mapping (some prov_data)
    provider ← lib.provider provider_data
    load_providers_from raw_providers (Dict.set providers name provider)

  unfoldable pub load_providers : JsonObject → Option (Dict ProviderConfig)
  unfolding load_providers_from
  load_providers raw = expect_mapping (Dict.get raw "providers") >>= λ raw_providers.
      load_providers_from raw_providers []

  unfoldable pub hashed_key : String → String
  unfolding looks_like_hash
  hashed_key client_key = if looks_like_hash client_key then client_key else lib.hash_key client_key

  -- `_load_key_mappings`: a mapping that is none is skipped.
  unfoldable pub load_key_mappings_from :
      JsonObject → Dict KeyMappingEntry → Option (Dict KeyMappingEntry)
  unfolding hashed_key
  load_key_mappings_from [] result = some result
  load_key_mappings_from ((client_key, obj fields) ∷ raw_mappings) result = do
    entry ← lib.key_mapping (to_dict fields)
    load_key_mappings_from raw_mappings (Dict.set result (hashed_key client_key) entry)
  load_key_mappings_from ((client_key, mapping_data) ∷ raw_mappings) result =
      load_key_mappings_from raw_mappings result

  unfoldable pub texts_of : List Json → List String
  texts_of [] = []
  texts_of (v ∷ vs) = lib.to_text v ∷ texts_of vs

  -- `_load_api_keys`
  unfoldable pub load_api_keys : JsonObject → List String
  unfolding split strip_all texts_of
  load_api_keys secrets = elim (Dict.get secrets "api_keys") [
    | some (str s) ↦ strip_all (split "," s)
    | some (arr vs) ↦ strip_all (texts_of (to_list vs))
    | _ ↦ []
  ]

  -- `_load_model_mappings`, on the mapping of the models
  unfoldable pub load_model_mappings_from : JsonObject → Dict String → Option (Dict String)
  load_model_mappings_from [] model_mappings = some model_mappings
  load_model_mappings_from ((client_model, mapping) ∷ raw_model_mappings) model_mappings =
      as_str mapping >>= λ s.
      load_model_mappings_from raw_model_mappings (Dict.set model_mappings client_model s)

  unfoldable pub load_model_mappings : JsonObject → Option (Dict String)
  unfolding load_model_mappings_from expect_mapping
  load_model_mappings raw = expect_mapping (Dict.get raw "model_mappings") >>= λ raw_model_mappings.
      load_model_mappings_from raw_model_mappings []

  -- `_build_app_config`
  unfoldable pub build_app_config :
      JsonObject
      → Dict ProviderConfig
      → Dict String
      → Dict KeyMappingEntry
      → List String
      → String
      → Option AppConfig
  build_app_config raw providers model_mappings key_mappings api_keys ui_api_key = do
    response ← lib.response (get_or_empty raw "response")
    access_rules ← lib.access_rules (get_or_empty raw "access_rules")
    modification_rules ←
        lib.modification_rules
          (elim (Dict.get raw "modification_rules") [ none ↦ array [] | some v ↦ v ])
    bypass ← lib.bypass (get_or_empty raw "bypass")
    logging ← lib.logging (get_or_empty raw "logging")
    grouping ← lib.grouping (get_or_empty raw "grouping")
    some (record {
      providers = providers;
      model_mappings = model_mappings;
      response = response;
      access_rules = access_rules;
      modification_rules = modification_rules;
      bypass = bypass;
      key_mappings = key_mappings;
      api_keys = api_keys;
      ui_api_key = ui_api_key;
      logging = logging;
      grouping = grouping;
    })

  -- `_load_secrets`, where there is a path
  unfoldable pub load_secrets : Option String → Option JsonObject
  unfolding load_yaml
  load_secrets none = some []
  load_secrets (some path) = if path == "" then some [] else load_yaml path

  -- `secrets.get("key_mappings", raw.get("key_mappings", {})) or {}`
  abbrev pub raw_key_mappings : JsonObject → JsonObject → Json
  raw_key_mappings raw secrets =
      let given : Json = elim (Dict.get secrets "key_mappings") [
        | none ↦ get_or_empty raw "key_mappings"
        | some v ↦ v
      ] in
      if truthy given then given else object []

  -- `str(secrets.get("ui_api_key", "")) or ""`
  abbrev pub ui_key_of : JsonObject → String
  ui_key_of secrets = elim (Dict.get secrets "ui_api_key") [ none ↦ "" | some v ↦ lib.to_text v ]

  -- `load_config` up to the assignment of `_app_config`
  unfoldable pub read_config : String → Option String → Option AppConfig
  unfolding load_yaml load_secrets load_providers load_key_mappings_from load_model_mappings
      build_app_config load_api_keys
  read_config config_path secrets_path = do
    raw ← load_yaml config_path
    secrets ← load_secrets secrets_path
    providers ← load_providers raw
    key_data ← expect_mapping (some (raw_key_mappings raw secrets))
    key_mappings ← load_key_mappings_from key_data []
    model_mappings ← load_model_mappings raw
    build_app_config raw providers model_mappings key_mappings (load_api_keys secrets)
        (ui_key_of secrets)

-- `_validate_model_mappings`, as whether it does not raise
unfoldable pub validate_model_mappings : Dict String → List String → Bool
unfolding parse_mapping
validate_model_mappings [] provider_names = true
validate_model_mappings ((client_model, mapping) ∷ model_mappings) provider_names =
    contains (parse_mapping mapping).0 provider_names
    && validate_model_mappings model_mappings provider_names

-- The global `_app_config`, and what a call that may raise gives.
pub record LoadResult : Type 0 where
  pub app_config : Option AppConfig
  pub result : Option AppConfig

abbrev pub checked : Option AppConfig → Option AppConfig → LoadResult
checked active none = record { app_config = active; result = none }
checked active (some config) = record {
  app_config = some config;
  result =
      if validate_model_mappings config.model_mappings (Dict.keys config.providers)
      then some config
      else none;
}

module _ (lib : Libraries) where
  unfoldable pub load_config : Option AppConfig → String → Option String → LoadResult
  unfolding read_config validate_model_mappings
  load_config active config_path secrets_path =
      checked active (read_config lib config_path secrets_path)

  unfoldable pub reload_config : Option AppConfig → String → Option String → LoadResult
  unfolding load_config
  reload_config active config_path secrets_path = load_config active config_path secrets_path

-- `get_app_config`, which raises where none is loaded
unfoldable pub get_app_config : Option AppConfig → Option AppConfig
get_app_config active = active

unfoldable pub reset_config : Option AppConfig → Option AppConfig
reset_config active = none
