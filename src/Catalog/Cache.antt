-- ===== src/Catalog/Cache.antt =====
-- The cache of services/model_catalog.py: the models that a provider lists, for 300 seconds. A call
-- looks into the cache, waits for the lock of the provider and looks again before it asks the provider;
-- what happens to the cache while it waits is an argument.
use ai_proxy.Common.{
  ℕ, ◌+◌, String, Bool, true, false, not, ◌&&◌, Option, none, some, List, [], ◌∷◌, ◌++◌, ◌==◌,
  if◌then◌else◌, ltb, contains,
}
use ai_proxy.Dict
use ai_proxy.Dict.{Dict}
use ai_proxy.Json.{JsonObject, get_str}
use ai_proxy.Config.{AppConfig}
use ai_proxy.Adapter.{BaseAdapter}
use ai_proxy.Mappings.{parse_mapping}
use ai_proxy.Catalog.{ProviderModels, normalize_provider_model}

-- In milliseconds.
abbrev pub provider_models_ttl : ℕ
provider_models_ttl = 300000

-- The models that are kept of those that a provider lists, by their order and by their ids.
abbrev pub keep_model :
    String
    → JsonObject
    → Option String
    → List JsonObject × Dict JsonObject
    → List JsonObject × Dict JsonObject
keep_model provider_name model none (sanitized, by_id) = (sanitized, by_id)
keep_model provider_name model (some model_id) (sanitized, by_id) =
    if model_id == "" then (sanitized, by_id) else (
      sanitized ++ normalize_provider_model provider_name model ∷ [],
      Dict.set by_id model_id (normalize_provider_model provider_name model),
    )

unfoldable pub sanitize_models :
    String → List JsonObject → List JsonObject × Dict JsonObject → List JsonObject × Dict JsonObject
unfolding normalize_provider_model
sanitize_models provider_name [] kept = kept
sanitize_models provider_name (model ∷ raw_models) kept =
    sanitize_models provider_name raw_models
      (keep_model provider_name model (get_str model "id") kept)

abbrev pub or_no_models : Option (List JsonObject) → List JsonObject
or_no_models none = []
or_no_models (some models) = models

-- The entry for what the provider lists, or for nothing where the call raises.
unfoldable pub fetched_entry : String → Option (List JsonObject) → ℕ → ProviderModels
unfolding sanitize_models
fetched_entry provider_name listed now =
    let kept = sanitize_models provider_name (or_no_models listed) ([], []) in
    record { expires_at = now + provider_models_ttl; models = kept.0; models_by_id = kept.1 }

-- `cached is not None and cached.expires_at > now`
abbrev pub if_fresh : ℕ → Option ProviderModels → Option ProviderModels
if_fresh now none = none
if_fresh now (some entry) = if ltb now entry.expires_at then some entry else none

-- The cache after a call, its result, and whether it asked the provider.
pub record Cached : Type 0 where
  pub cache : Dict ProviderModels
  pub entry : ProviderModels
  pub fetched : Bool

abbrev pub from_cache : Dict ProviderModels → ProviderModels → Cached
from_cache cache entry = record { cache = cache; entry = entry; fetched = false }

-- What a call does when it has the lock; it asks the provider from `now` to `done`.
unfoldable pub with_lock : Dict ProviderModels → String → Option (List JsonObject) → ℕ → ℕ → Cached
unfolding fetched_entry
with_lock cache provider_name listed now done = elim (if_fresh now (Dict.get cache provider_name)) [
  | some entry ↦ from_cache cache entry
  | none ↦
      let entry = fetched_entry provider_name listed done in
      record { cache = Dict.set cache provider_name entry; entry = entry; fetched = true }
]

-- `_get_cached_provider_models`: at `start` with the cache as it is, at `now` with what it has become.
unfoldable pub get_cached_provider_models :
    Dict ProviderModels
    → Dict ProviderModels
    → String
    → Option (List JsonObject)
    → ℕ
    → ℕ
    → ℕ
    → Cached
unfolding with_lock
get_cached_provider_models cache later provider_name listed start now done =
    elim (if_fresh start (Dict.get cache provider_name)) [
      | some entry ↦ from_cache cache entry
      | none ↦ with_lock later provider_name listed now done
    ]

-- `invalidate_model_catalog`
unfoldable pub invalidate_model_catalog : Dict ProviderModels → Option String → Dict ProviderModels
invalidate_model_catalog cache none = []
invalidate_model_catalog cache (some provider_name) = Dict.pop cache provider_name

-- The providers of the mappings that have an adapter, each once.
unfoldable pub mapped_providers : Dict String → Dict BaseAdapter → List String → List String
unfolding parse_mapping
mapped_providers [] registry seen = seen
mapped_providers ((client_model, mapping) ∷ mappings) registry seen =
    let provider_name = (parse_mapping mapping).0 in
    mapped_providers mappings registry (
      if Dict.contains registry provider_name && not (contains provider_name seen)
      then seen ++ provider_name ∷ []
      else seen)

-- `_get_provider_models_for_mappings`, with the calls for the providers as an argument
unfoldable pub gather :
    (String → ProviderModels) → List String → Dict ProviderModels → Dict ProviderModels
gather models_for [] results = results
gather models_for (name ∷ names) results =
    gather models_for names (Dict.set results name (models_for name))

unfoldable pub get_provider_models_for_mappings :
    AppConfig → Dict BaseAdapter → (String → ProviderModels) → Dict ProviderModels
unfolding mapped_providers gather
get_provider_models_for_mappings config registry models_for =
    gather models_for (mapped_providers config.model_mappings registry []) []
