-- ===== src/Routing/Consistent.antt =====
-- Every route that the stages of `resolve_model` give is consistent: its adapter is the registered
-- one of its provider, and its label is the one of its parts.
use ai_proxy.Common.{String, ◌≡◌, true, Option, none, some, List, [], ◌∷◌, arith, ◌>>=◌}
use ai_proxy.Dict
use ai_proxy.Dict.{Dict}
use ai_proxy.Text.{lower}
use ai_proxy.Text.Glob.{fnmatch}
use ai_proxy.Json.{JsonObject}
use ai_proxy.Config.{AppConfig}
use ai_proxy.Adapter.{BaseAdapter}
use ai_proxy.Mappings.{
  parse_mapping, format_route_label, strip_client_provider_suffix, extract_body_provider_slugs,
  build_provider_qualified_key, merge_pinned,
}
use ai_proxy.Catalog.{CatalogModel, ProviderModels}
use ai_proxy.Routing.Gives.{
  Gives, Gives-none, Gives-or_else, Gives-if, Gives-bind, Gives-map, found-or_no_route,
}
use ai_proxy.Routing.{
  RouteResult, route_result, resolve_mapped_model_name, build_route_result,
  resolve_wildcard_mapping, resolve_exact_mapping, resolve_slug, resolve_slugs,
  resolve_provider_aware, resolve_catalog, resolve_lookup, found, resolve_model, provider_sources,
}

pub record IsConsistent (registry : Dict BaseAdapter) (r : RouteResult) : Type 0 where
  pub registered : Dict.get registry r.provider_name ≡ some r.adapter
  pub labelled :
      r.route_label ≡ format_route_label r.provider_name r.mapped_model r.pinned_providers

module _ (registry : Dict BaseAdapter) where
  route_result-IsConsistent :
      (p m : String) (a : BaseAdapter) (pinned : Option (List String))
      → Dict.get registry p ≡ some a
      → Gives
          (IsConsistent registry)
          (some (route_result p m a pinned (some (format_route_label p m pinned))))
  unfolding route_result
  route_result-IsConsistent p m a pinned h = record {
    at = λ r e. record { registered = ground arith; labelled = ground arith };
  }

  Gives-build_route_result :
      (lookup_model client_pattern mapping : String) (client_pinned : Option (List String))
      → Gives
          (IsConsistent registry)
          (build_route_result registry lookup_model client_pattern mapping client_pinned)
  unfolding build_route_result
  Gives-build_route_result lookup_model client_pattern mapping client_pinned =
      let (provider_name, model_pattern, pinned) = parse_mapping mapping in
      Gives-bind (resolve_mapped_model_name lookup_model client_pattern model_pattern) _ λ m named.
        Gives-bind (Dict.get registry provider_name) _ λ a known.
          route_result-IsConsistent provider_name m a (merge_pinned pinned client_pinned) known

  Gives-resolve_exact_mapping :
      (lookup_model : String) (client_pinned : Option (List String)) (mappings : Dict String)
      → Gives
          (IsConsistent registry)
          (resolve_exact_mapping registry lookup_model client_pinned mappings)
  unfolding resolve_exact_mapping
  Gives-resolve_exact_mapping lookup_model client_pinned mappings =
      Gives-bind (Dict.get mappings lookup_model) _
        λ mapping present. Gives-build_route_result lookup_model lookup_model mapping client_pinned

  Gives-resolve_wildcard_mapping :
      (lookup_model : String) (client_pinned : Option (List String)) (mappings : Dict String)
      → Gives
          (IsConsistent registry)
          (resolve_wildcard_mapping registry lookup_model client_pinned mappings)
  unfolding resolve_wildcard_mapping
  Gives-resolve_wildcard_mapping lookup_model client_pinned [] = Gives-none
  Gives-resolve_wildcard_mapping lookup_model client_pinned ((p, mapping) ∷ mappings) =
      let later = Gives-resolve_wildcard_mapping lookup_model client_pinned mappings in
      Gives-if (fnmatch lookup_model p) _ _
        (Gives-or_else _ _ (Gives-build_route_result lookup_model p mapping client_pinned) later)
        later

  Gives-aware :
      (o : Option RouteResult)
      → Gives (IsConsistent registry) o
      → Gives (IsConsistent registry) (o >>= λ r. some (record r { provider_aware_match = true }))
  Gives-aware o g =
      Gives-map _ o (λ r c. record { registered = c.registered; labelled = c.labelled }) g

  Gives-resolve_slugs :
      (lookup_model : String) (ci_keys mappings : Dict String) (slugs : List String)
      → Gives (IsConsistent registry) (resolve_slugs registry lookup_model ci_keys mappings slugs)
  unfolding resolve_slugs resolve_slug
  Gives-resolve_slugs lookup_model ci_keys mappings [] = Gives-none
  Gives-resolve_slugs lookup_model ci_keys mappings (slug ∷ slugs) =
      Gives-or_else _ _
        (Gives-bind (Dict.get ci_keys (lower (build_provider_qualified_key lookup_model slug))) _
          λ key present.
            Gives-bind (Dict.get mappings key) _ λ mapping known.
              Gives-aware _ (Gives-build_route_result lookup_model key mapping none))
        (Gives-resolve_slugs lookup_model ci_keys mappings slugs)

  Gives-resolve_catalog :
      (catalog : Dict CatalogModel) (lookup_model : String) (client body : Option (List String))
      → Gives (IsConsistent registry) (resolve_catalog registry catalog lookup_model client body)
  unfolding resolve_catalog
  Gives-resolve_catalog catalog lookup_model client body =
      Gives-bind (Dict.get catalog lookup_model) _ λ entry listed.
        Gives-bind (Dict.get registry entry.provider_name) _
          λ a known. route_result-IsConsistent entry.provider_name entry.mapped_model a _ known

  Gives-resolve_lookup :
      (config : AppConfig) (provider_models : Dict ProviderModels) (lookup_model : String)
      (client body : Option (List String))
      → Gives
          (IsConsistent registry)
          (resolve_lookup config registry provider_models lookup_model client body)
  unfolding resolve_lookup resolve_provider_aware
  Gives-resolve_lookup config provider_models lookup_model client body =
      Gives-or_else _ _
        (Gives-resolve_slugs lookup_model _ config.model_mappings (provider_sources client body))
        (Gives-or_else _ _ (Gives-resolve_exact_mapping lookup_model client config.model_mappings) (
          Gives-or_else _ _ (Gives-resolve_catalog _ lookup_model client body)
            (Gives-resolve_wildcard_mapping lookup_model client config.model_mappings)))

-- Whatever the stage that a route comes from, `resolve_model` gives only routes whose adapter is
-- the registered one of the route's provider and whose label is the one of its parts.
pub resolve_model-IsConsistent :
    (config : AppConfig) (registry : Dict BaseAdapter) (provider_models : Dict ProviderModels)
    (model_requested : String) (body : JsonObject) (r : RouteResult)
    → resolve_model config registry provider_models model_requested body ≡ found r
    → IsConsistent registry r
unfolding resolve_model
resolve_model-IsConsistent config registry provider_models model_requested body r h =
    let (l, client) = strip_client_provider_suffix model_requested in
    (Gives-resolve_lookup registry config provider_models l client
        (extract_body_provider_slugs body)).at
      r (found-or_no_route l _ r h)
