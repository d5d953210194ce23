-- ===== src/Routing.antt =====
-- core/routing.py: which provider and which upstream model a request goes to.
pub mod Gives
pub mod Consistent
pub mod Listed
pub mod Configured
pub mod Precedence
use ai_proxy.Common.{
  String, append, Bool, true, false, not, ◌&&◌, ◌||◌, Option, none, some, List, [], ◌∷◌, ◌++◌, ◌==◌,
  if◌then◌else◌, is_given, or_else, texts_eq, ◌>>=◌,
}
use ai_proxy.Dict
use ai_proxy.Dict.{Dict}
use ai_proxy.Text.{lower}
use ai_proxy.Text.Glob.{fnmatch}
use ai_proxy.Json.{JsonObject}
use ai_proxy.Config.{AppConfig}
use ai_proxy.Adapter.{BaseAdapter}
use ai_proxy.Mappings.{
  has_glob, parse_mapping, strip_client_provider_suffix, merge_pinned, format_route_label,
  extract_body_provider_slugs, build_provider_qualified_key,
}
use ai_proxy.Catalog.{CatalogModel, ProviderModels, get_proxy_model_catalog}

pub record RouteResult : Type 0 where
  pub provider_name : String
  pub mapped_model : String
  pub adapter : BaseAdapter
  pub pinned_providers : Option (List String)
  pub route_label : String
  pub provider_aware_match : Bool

-- The constructor: a label that is not given, or is empty, is made from the parts.
unfoldable pub route_result :
    String → String → BaseAdapter → Option (List String) → Option String → RouteResult
route_result provider_name mapped_model adapter pinned label = record {
  provider_name = provider_name;
  mapped_model = mapped_model;
  adapter = adapter;
  pinned_providers = pinned;
  route_label = elim label [
    | none ↦ format_route_label provider_name mapped_model pinned
    | some given ↦
        if given == "" then format_route_label provider_name mapped_model pinned else given
  ];
  provider_aware_match = false;
}

unfoldable pub resolve_mapped_model_name : String → String → String → Option String
resolve_mapped_model_name lookup_model client_pattern mapped_model_pattern =
    if mapped_model_pattern == client_pattern || mapped_model_pattern == "*"
    then some lookup_model
    else if has_glob mapped_model_pattern
    then (if fnmatch lookup_model mapped_model_pattern then some lookup_model else none)
    else some mapped_model_pattern

module _ (registry : Dict BaseAdapter) where
  unfoldable pub build_route_result :
      String → String → String → Option (List String) → Option RouteResult
  build_route_result lookup_model client_pattern mapping client_pinned =
      let (provider_name, mapped_model_pattern, config_pinned) = parse_mapping mapping in
      do
        mapped_model ← resolve_mapped_model_name lookup_model client_pattern mapped_model_pattern
        let pinned = merge_pinned config_pinned client_pinned
        adapter ← Dict.get registry provider_name
        some (
            route_result provider_name mapped_model adapter pinned
              (some (format_route_label provider_name mapped_model pinned)))

  unfoldable pub resolve_wildcard_mapping :
      String → Option (List String) → Dict String → Option RouteResult
  resolve_wildcard_mapping lookup_model client_pinned [] = none
  resolve_wildcard_mapping lookup_model client_pinned ((pattern_text, mapping) ∷ model_mappings) =
      let rest = resolve_wildcard_mapping lookup_model client_pinned model_mappings in
      if fnmatch lookup_model pattern_text
      then or_else (build_route_result lookup_model pattern_text mapping client_pinned) rest
      else rest

  unfoldable pub resolve_exact_mapping :
      String → Option (List String) → Dict String → Option RouteResult
  resolve_exact_mapping lookup_model client_pinned model_mappings = do
    mapping ← Dict.get model_mappings lookup_model
    build_route_result lookup_model lookup_model mapping client_pinned

  -- One round of the loop over the slugs.
  unfoldable pub resolve_slug : String → Dict String → Dict String → String → Option RouteResult
  resolve_slug lookup_model ci_keys model_mappings slug = do
    actual_key ← Dict.get ci_keys (lower (build_provider_qualified_key lookup_model slug))
    mapping ← Dict.get model_mappings actual_key
    route ← build_route_result lookup_model actual_key mapping none
    some (record route { provider_aware_match = true })

  unfoldable pub resolve_slugs :
      String → Dict String → Dict String → List String → Option RouteResult
  resolve_slugs lookup_model ci_keys model_mappings [] = none
  resolve_slugs lookup_model ci_keys model_mappings (slug ∷ slugs) =
      or_else (resolve_slug lookup_model ci_keys model_mappings slug)
        (resolve_slugs lookup_model ci_keys model_mappings slugs)

-- `{key.lower(): key for key in model_mappings}`: of two keys that differ in case alone the later
-- one stays.
ci_keys_from : Dict String → Dict String → Dict String
ci_keys_from found [] = found
ci_keys_from found ((key, mapping) ∷ model_mappings) =
    ci_keys_from (Dict.set found (lower key) key) model_mappings

unfoldable pub ci_mapping_keys : Dict String → Dict String
unfolding ci_keys_from
ci_mapping_keys model_mappings = ci_keys_from [] model_mappings

abbrev slugs_of : Option (List String) → List String
slugs_of none = []
slugs_of (some slugs) = slugs

-- `provider_sources`, one list after the other. A missing list of slugs counts as an empty one,
-- which no list of the body's is equal to.
unfoldable pub provider_sources : Option (List String) → Option (List String) → List String
provider_sources client_pinned body_provider_slugs =
    if is_given body_provider_slugs
      && not (texts_eq (slugs_of body_provider_slugs) (slugs_of client_pinned))
    then slugs_of client_pinned ++ slugs_of body_provider_slugs
    else slugs_of client_pinned

unfoldable pub resolve_provider_aware :
    Dict BaseAdapter
    → String
    → Option (List String)
    → Option (List String)
    → Dict String
    → Option RouteResult
resolve_provider_aware registry lookup_model client_pinned body_provider_slugs model_mappings =
    resolve_slugs registry lookup_model (ci_mapping_keys model_mappings) model_mappings
      (provider_sources client_pinned body_provider_slugs)

-- What the catalog adds: a model that a provider lists.
unfoldable pub resolve_catalog :
    Dict BaseAdapter
    → Dict CatalogModel
    → String
    → Option (List String)
    → Option (List String)
    → Option RouteResult
resolve_catalog registry catalog lookup_model client_pinned body_provider_slugs = do
  expanded ← Dict.get catalog lookup_model
  let merged = merge_pinned expanded.pinned_providers client_pinned
  let pinned =
      if not (is_given merged) && is_given body_provider_slugs then body_provider_slugs else merged
  adapter ← Dict.get registry expanded.provider_name
  some (
      route_result expanded.provider_name expanded.mapped_model adapter pinned
        (some (format_route_label expanded.provider_name expanded.mapped_model pinned)))

-- The stages in their order. The models that the providers list are an argument.
unfoldable pub resolve_lookup :
    AppConfig
    → Dict BaseAdapter
    → Dict ProviderModels
    → String
    → Option (List String)
    → Option (List String)
    → Option RouteResult
resolve_lookup config registry provider_models lookup_model client_pinned body_provider_slugs =
    or_else
      (resolve_provider_aware registry lookup_model client_pinned body_provider_slugs
        config.model_mappings)
      (or_else (resolve_exact_mapping registry lookup_model client_pinned config.model_mappings) (
        or_else
          (resolve_catalog registry (get_proxy_model_catalog config provider_models) lookup_model
            client_pinned body_provider_slugs)
          (resolve_wildcard_mapping registry lookup_model client_pinned config.model_mappings)))

-- `ValueError` carries its message.
pub data Resolved : Type 0 where
  found : RouteResult → Resolved
  value_error : String → Resolved

abbrev pub or_no_route : String → Option RouteResult → Resolved
or_no_route lookup_model none = value_error (append "No route found for model: " lookup_model)
or_no_route lookup_model (some route) = found route

unfoldable pub resolve_model :
    AppConfig → Dict BaseAdapter → Dict ProviderModels → String → JsonObject → Resolved
resolve_model config registry provider_models model_requested body =
    let (lookup_model, client_pinned) = strip_client_provider_suffix model_requested in
    or_no_route lookup_model (
      resolve_lookup config registry provider_models lookup_model client_pinned
        (extract_body_provider_slugs body))
