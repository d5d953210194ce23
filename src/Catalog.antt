-- ===== src/Catalog.antt =====
-- services/model_catalog.py: the models that the proxy offers, and the cache of the models that the
-- providers list. Time is in milliseconds.
pub mod Cache
pub mod Fresh
use ai_proxy.Common.{
  ℕ, String, Bool, true, false, not, ◌&&◌, Option, none, some, List, [], ◌∷◌, ◌==◌, if◌then◌else◌,
  ltb, ◌>>=◌,
}
use ai_proxy.Dict
use ai_proxy.Dict.{Dict}
use ai_proxy.Text.Glob.{fnmatch}
use ai_proxy.Json.{str, ℤ, pos, negsuc, JsonObject, get_str, get_int}
use ai_proxy.Config.{AppConfig}
use ai_proxy.Mappings.{has_glob, parse_mapping}

pub record CatalogModel : Type 0 where
  pub client_model : String
  pub provider_name : String
  pub mapped_model : String
  pub pinned_providers : Option (List String)
  pub metadata : Option JsonObject

-- `_ProviderModelsCacheEntry`
pub record ProviderModels : Type 0 where
  pub expires_at : ℕ
  pub models : List JsonObject
  pub models_by_id : Dict JsonObject

unfoldable pub serialize_catalog_model : CatalogModel → JsonObject
serialize_catalog_model entry = elim entry.metadata [
  | none ↦
      ("id", str entry.client_model) ∷ ("object", str "model") ∷ ("owned_by", str "ai-proxy") ∷ []
  | some metadata ↦
      Dict.set_default
        (Dict.set_default (Dict.set metadata "id" (str entry.client_model)) "object" (str "model"))
        "owned_by" (str entry.provider_name)
]

abbrev is_before : ℤ → ℕ → Bool
is_before (pos n) bound = ltb n bound
is_before (negsuc n) bound = true

abbrev pub created_too_early : Option ℤ → Bool
created_too_early none = false
created_too_early (some created) = is_before created 946684800

unfoldable pub normalize_provider_model : String → JsonObject → JsonObject
normalize_provider_model provider_name model_payload =
    if provider_name == "nvidia" && created_too_early (get_int model_payload "created")
    then Dict.pop model_payload "created"
    else model_payload

unfoldable pub resolve_catalog_model_name : String → String → Option String
resolve_catalog_model_name client_model mapped_model_pattern =
    if mapped_model_pattern == "*"
    then some client_model
    else if has_glob mapped_model_pattern
    then (if fnmatch client_model mapped_model_pattern then some client_model else none)
    else some mapped_model_pattern

unfoldable pub resolve_expanded_catalog_client_model : String → String → String → Option String
resolve_expanded_catalog_client_model client_model_pattern mapped_model_pattern upstream_id =
    if not (fnmatch upstream_id mapped_model_pattern)
    then none
    else if not (has_glob client_model_pattern)
    then some upstream_id
    else if fnmatch upstream_id client_model_pattern
    then some upstream_id
    else none

-- One listed model under one mapping: the entry that it adds to the catalog, if any.
unfoldable pub expanded_entry :
    String → String → String → Option (List String) → JsonObject → Option CatalogModel
expanded_entry client_model provider_name mapped_model_pattern pinned upstream_model = do
  upstream_id ← get_str upstream_model "id"
  expanded ← resolve_expanded_catalog_client_model client_model mapped_model_pattern upstream_id
  some (record {
    client_model = expanded;
    provider_name = provider_name;
    mapped_model = upstream_id;
    pinned_providers = pinned;
    metadata = some upstream_model;
  })

abbrev pub add_missing : Dict CatalogModel → Option CatalogModel → Dict CatalogModel
add_missing catalog none = catalog
add_missing catalog (some entry) = Dict.set_default catalog entry.client_model entry

unfoldable pub expand_models :
    String
    → String
    → String
    → Option (List String)
    → List JsonObject
    → Dict CatalogModel
    → Dict CatalogModel
expand_models client_model provider_name mapped_model_pattern pinned [] catalog = catalog
expand_models client_model provider_name mapped_model_pattern pinned (m ∷ ms) catalog =
    expand_models client_model provider_name mapped_model_pattern pinned ms (
      add_missing catalog (expanded_entry client_model provider_name mapped_model_pattern pinned m))

abbrev models_of : Option ProviderModels → List JsonObject
models_of none = []
models_of (some entry) = entry.models

unfoldable pub expand_mapping :
    Dict ProviderModels → String → String → Dict CatalogModel → Dict CatalogModel
expand_mapping provider_models client_model mapping catalog =
    let (provider_name, mapped_model_pattern, pinned) = parse_mapping mapping in
    if not (has_glob mapped_model_pattern)
    then catalog
    else expand_models client_model provider_name mapped_model_pattern pinned
        (models_of (Dict.get provider_models provider_name)) catalog

unfoldable pub expand_wildcard_catalog_entries :
    Dict ProviderModels → Dict String → Dict CatalogModel → Dict CatalogModel
expand_wildcard_catalog_entries provider_models [] catalog = catalog
expand_wildcard_catalog_entries provider_models ((client_model, mapping) ∷ mappings) catalog =
    expand_wildcard_catalog_entries provider_models mappings
      (expand_mapping provider_models client_model mapping catalog)

-- The entry of a mapping whose client name is no pattern.
unfoldable pub exact_entry : Dict ProviderModels → String → String → CatalogModel
exact_entry provider_models client_model mapping =
    let (provider_name, mapped_model_pattern, pinned) = parse_mapping mapping in
    let concrete = resolve_catalog_model_name client_model mapped_model_pattern in
    record {
      client_model = client_model;
      provider_name = provider_name;
      mapped_model = elim concrete [
        | none ↦ mapped_model_pattern
        | some name ↦ (if name == "" then mapped_model_pattern else name)
      ];
      pinned_providers = pinned;
      metadata = do
        entry ← Dict.get provider_models provider_name
        name ← concrete
        Dict.get entry.models_by_id name;
    }

unfoldable pub add_exact_entries :
    Dict ProviderModels → Dict String → Dict CatalogModel → Dict CatalogModel
add_exact_entries provider_models [] catalog = catalog
add_exact_entries provider_models ((client_model, mapping) ∷ mappings) catalog =
    add_exact_entries provider_models mappings (
      if has_glob client_model
      then catalog
      else Dict.set catalog client_model (exact_entry provider_models client_model mapping))

unfoldable pub get_proxy_model_catalog : AppConfig → Dict ProviderModels → Dict CatalogModel
get_proxy_model_catalog config provider_models =
    add_exact_entries provider_models config.model_mappings
      (expand_wildcard_catalog_entries provider_models config.model_mappings [])
