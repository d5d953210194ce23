-- ===== src/KeyResolution.antt =====
-- core/key_resolution.py: which key goes to the provider. `none` is the adapter's own key.
use ai_proxy.Common.{String, Bool, Option, none, some, if◌then◌else◌, ◌>>=◌, or_else}
use ai_proxy.Dict
use ai_proxy.Dict.{Dict}
use ai_proxy.Config.{AppConfig, KeyMappingEntry}

-- The mapped key of a client for a provider. (An empty `key_mappings` has no entry.)
unfoldable pub mapped_key :
    (String → String) → Dict KeyMappingEntry → String → String → Option String
mapped_key hash_api_key key_mappings client_api_key provider_name = do
  mapping ← Dict.get key_mappings (hash_api_key client_api_key)
  Dict.get mapping.provider_keys provider_name

unfoldable pub resolve_provider_key :
    (String → String) → AppConfig → String → String → Bool → Option String
unfolding mapped_key
resolve_provider_key hash_api_key config client_api_key provider_name is_known_key =
    or_else (mapped_key hash_api_key config.key_mappings client_api_key provider_name)
      (if is_known_key then none else if config.bypass.enabled then some client_api_key else none)
