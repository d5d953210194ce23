-- ===== src/Routing/Configured.antt =====
-- Every route goes to a provider that a mapping of the configuration names, and to the model that
-- was asked for or the one that the mapping spells out.
use ai_proxy.Common.{String, ◌≡◌, refl, ◌⊎◌, inl, inr, Option, none, some, List, [], ◌∷◌, arith}
use ai_proxy.Dict
use ai_proxy.Dict.{Dict}
use ai_proxy.Dict.Laws.{HasEntry, get-HasEntry}
use ai_proxy.Text.{lower}
use ai_proxy.Text.Glob.{fnmatch}
use ai_proxy.Json.{JsonObject}
use ai_proxy.Config.{AppConfig}
use ai_proxy.Adapter.{BaseAdapter}
use ai_proxy.Mappings.{
  parse_mapping, strip_client_provider_suffix, extract_body_provider_slugs,
  build_provider_qualified_key,
}
use ai_proxy.Catalog.{CatalogModel, ProviderModels}
use ai_proxy.Routing.Listed.{IsConfigured, IsListed, IsListed-catalog}
use ai_proxy.Routing.Gives.{
  Gives, Gives-none, Gives-or_else, Gives-if, Gives-bind, Gives-map, found-or_no_route,
}
use ai_proxy.Routing.{
  RouteResult, route_result, resolve_mapped_model_name, build_route_result,
  resolve_wildcard_mapping, resolve_exact_mapping, resolve_slug, resolve_slugs,
  resolve_provider_aware, resolve_catalog, resolve_lookup, found, resolve_model, provider_sources,
}

IsConfigured-more :
    {mappings : Dict String} {l p m : String} (j w : String)
    → IsConfigured mappings l p m
    → IsConfigured ((j, w) ∷ mappings) l p m
IsConfigured-more {mappings} j w c = record {
  client_key = c.client_key;
  mapping = c.mapping;
  listed = inr c.listed;
  names = c.names;
  model_from = c.model_from;
}

resolve_mapped_model_name_cases :
    (l k m name : String) → resolve_mapped_model_name l k m ≡ some name → (name ≡ l) ⊎ (name ≡ m)
unfolding resolve_mapped_model_name
resolve_mapped_model_name_cases l k m name h = ground arith

module _ (registry : Dict BaseAdapter) (l : String) where
  abbrev Configured : Dict String → RouteResult → Type 0
  Configured mappings r = IsConfigured mappings l r.provider_name r.mapped_model

  Configured-build_route_result :
      (mappings : Dict String) (key pattern_text mapping : String) (client : Option (List String))
      → HasEntry key mapping mappings
      → Gives (Configured mappings) (build_route_result registry l pattern_text mapping client)
  unfolding build_route_result route_result
  Configured-build_route_result mappings key pattern_text mapping client h =
      Gives-bind (resolve_mapped_model_name l pattern_text (parse_mapping mapping).1) _ λ m named.
        Gives-bind (Dict.get registry (parse_mapping mapping).0) _ λ a known. record {
          at = λ r e. record {
            client_key = key;
            mapping = mapping;
            listed = h;
            names = cc;
            model_from = ground (
              arith,
              resolve_mapped_model_name_cases l pattern_text (parse_mapping mapping).1 m named,
            );
          };
        }

  Configured-wildcard :
      (mappings : Dict String) (client : Option (List String))
      → Gives (Configured mappings) (resolve_wildcard_mapping registry l client mappings)
  unfolding resolve_wildcard_mapping
  Configured-wildcard [] client = Gives-none
  Configured-wildcard ((p, mapping) ∷ mappings) client =
      let later : Gives (Configured ((p, mapping) ∷ mappings))
          (resolve_wildcard_mapping registry l client mappings) =
        record {
          at = λ r e. IsConfigured-more p mapping ((Configured-wildcard mappings client).at r e);
        } in
      Gives-if (fnmatch l p) _ _
        (Gives-or_else _ _
          (Configured-build_route_result ((p, mapping) ∷ mappings) p p mapping client
            (inl (refl, refl)))
          later)
        later

  Configured-exact :
      (mappings : Dict String) (client : Option (List String))
      → Gives (Configured mappings) (resolve_exact_mapping registry l client mappings)
  unfolding resolve_exact_mapping
  Configured-exact mappings client = Gives-bind (Dict.get mappings l) _ λ mapping present.
      Configured-build_route_result mappings l l mapping client
        (get-HasEntry mappings l mapping present)

  Configured-resolve_slugs :
      (ci_keys mappings : Dict String) (slugs : List String)
      → Gives (Configured mappings) (resolve_slugs registry l ci_keys mappings slugs)
  unfolding resolve_slugs resolve_slug
  Configured-resolve_slugs ci_keys mappings [] = Gives-none
  Configured-resolve_slugs ci_keys mappings (slug ∷ slugs) =
      Gives-or_else _ _
        (Gives-bind (Dict.get ci_keys (lower (build_provider_qualified_key l slug))) _
          λ key present. Gives-bind (Dict.get mappings key) _ λ mapping known.
            Gives-map _ _ (λ r c. c)
              (Configured-build_route_result mappings key key mapping none
                (get-HasEntry mappings key mapping known)))
        (Configured-resolve_slugs ci_keys mappings slugs)

  Configured-resolve_catalog :
      (mappings : Dict String) (catalog : Dict CatalogModel) (client body : Option (List String))
      → IsListed mappings catalog
      → Gives (Configured mappings) (resolve_catalog registry catalog l client body)
  unfolding resolve_catalog route_result
  Configured-resolve_catalog mappings catalog client body h =
      Gives-bind (Dict.get catalog l) _ λ entry listed.
        Gives-bind (Dict.get registry entry.provider_name) _ λ a known.
          let c = h.at l entry listed in
          record {
            at = λ r e. record {
              client_key = c.client_key;
              mapping = c.mapping;
              listed = c.listed;
              names = cc;
              model_from = ground arith;
            };
          }

  Configured-resolve_lookup :
      (config : AppConfig) (provider_models : Dict ProviderModels)
      (client body : Option (List String))
      → Gives
          (Configured config.model_mappings)
          (resolve_lookup config registry provider_models l client body)
  unfolding resolve_lookup resolve_provider_aware
  Configured-resolve_lookup config provider_models client body =
      let mappings = config.model_mappings in
      Gives-or_else _ _ (Configured-resolve_slugs _ mappings (provider_sources client body)) (
        Gives-or_else _ _ (Configured-exact mappings client) (
          Gives-or_else _ _
            (Configured-resolve_catalog mappings _ client body
              (IsListed-catalog config provider_models))
            (Configured-wildcard mappings client)))

-- A route goes to the provider of one of the configured mappings, and to the model that was asked
-- for (less the client's suffix) or the one that this mapping spells out, whatever stage it is from.
pub resolve_model-IsConfigured :
    (config : AppConfig) (registry : Dict BaseAdapter) (provider_models : Dict ProviderModels)
    (model_requested : String) (body : JsonObject) (r : RouteResult)
    → resolve_model config registry provider_models model_requested body ≡ found r
    → IsConfigured config.model_mappings
        (strip_client_provider_suffix model_requested).0
        r.provider_name
        r.mapped_model
unfolding resolve_model
resolve_model-IsConfigured config registry provider_models model_requested body r h =
    let (l, client) = strip_client_provider_suffix model_requested in
    (Configured-resolve_lookup registry l config provider_models client
        (extract_body_provider_slugs body)).at
      r (found-or_no_route l _ r h)
