-- ===== src/Routing/Listed.antt =====
-- Every entry of the model catalog goes to a provider that a mapping of the configuration names.
use ai_proxy.Common.{
  String, ◌≡◌, refl, true, false, ◌⊎◌, inl, inr, Option, none, some, List, [], ◌∷◌, arith,
  if◌then◌else◌, Option-cases, Bool-cases, ◌==◌, eq_iff,
}
use mathlib.Core.Path.{subst}
use ai_proxy.Dict
use ai_proxy.Dict.{Dict}
use ai_proxy.Dict.Laws.{HasEntry, get-HasEntry, get-set, get-set_default, get-set_default-none}
use ai_proxy.Json.{JsonObject, get_str}
use ai_proxy.Config.{AppConfig}
use ai_proxy.Mappings.{parse_mapping, has_glob}
use ai_proxy.Catalog.{
  CatalogModel, ProviderModels, get_proxy_model_catalog, resolve_expanded_catalog_client_model,
  add_missing, expanded_entry, expand_models, expand_mapping, expand_wildcard_catalog_entries,
  exact_entry, add_exact_entries, resolve_catalog_model_name,
}
use ai_proxy.Routing.Gives.{Gives, Gives-bind}

-- One of the mappings names the provider, and spells out the model unless it is the one asked for.
pub record IsConfigured (mappings : Dict String) (lookup_model provider model : String)
    : Type 0 where
  pub client_key : String
  pub mapping : String
  pub listed : HasEntry client_key mapping mappings
  pub names : (parse_mapping mapping).0 ≡ provider
  pub model_from : (model ≡ lookup_model) ⊎ (model ≡ (parse_mapping mapping).1)

-- Every entry of a catalog comes from a mapping, for its own key.
pub record IsListed (mappings : Dict String) (catalog : Dict CatalogModel) : Type 0 where
  pub at :
      (k : String) (e : CatalogModel)
      → Dict.get catalog k ≡ some e
      → IsConfigured mappings k e.provider_name e.mapped_model

IsListed-empty : (mappings : Dict String) → IsListed mappings []
IsListed-empty mappings = record { at = λ k e h. cc (Dict.Laws.get-empty {V = CatalogModel} k) }

-- A new entry that comes from a mapping keeps the catalog listed, whether it replaces one or not.
IsListed-set :
    (mappings : Dict String) (catalog : Dict CatalogModel) (j : String) (e : CatalogModel)
    → IsConfigured mappings j e.provider_name e.mapped_model
    → IsListed mappings catalog
    → IsListed mappings (Dict.set catalog j e)
IsListed-set mappings catalog j e c h = record {
  at = λ k x p. choose k x (Bool-cases (j == k)) (rw get-set at p);
}
  where
    choose :
        (k : String) (x : CatalogModel)
        → (j == k ≡ true) ⊎ (j == k ≡ false)
        → (if j == k then some e else Dict.get catalog k) ≡ some x
        → IsConfigured mappings k x.provider_name x.mapped_model
    choose k x (inl same) p =
        let q : e ≡ x = ground arith in
        subst (λ (y : CatalogModel). IsConfigured mappings k y.provider_name y.mapped_model) q
          (subst (λ (i : String). IsConfigured mappings i e.provider_name e.mapped_model)
            ((eq_iff j k).0 same) c)
    choose k x (inr other) p = h.at k x (rw other at p)

IsListed-set_default :
    (mappings : Dict String) (catalog : Dict CatalogModel) (j : String) (e : CatalogModel)
    → IsConfigured mappings j e.provider_name e.mapped_model
    → IsListed mappings catalog
    → IsListed mappings (Dict.set_default catalog j e)
unfolding Dict.set_default
IsListed-set_default mappings catalog j e c h = elim (Option-cases (Dict.get catalog j)) [
  | inl absent ↦ rw absent (IsListed-set mappings catalog j e c h)
  | inr (x, present) ↦ rw present h
]

resolve_expanded_eq :
    (c m u k : String) → resolve_expanded_catalog_client_model c m u ≡ some k → u ≡ k
unfolding resolve_expanded_catalog_client_model
resolve_expanded_eq c m u k h = ground arith

module _ (mappings : Dict String) (c p m mapping : String) (pinned : Option (List String))
    (listed : HasEntry c mapping mappings) (names : (parse_mapping mapping).0 ≡ p) where
  Gives-expanded_entry :
      (u : JsonObject)
      → Gives
          (λ (e : CatalogModel).
            IsConfigured mappings e.client_model e.provider_name e.mapped_model)
          (expanded_entry c p m pinned u)
  unfolding expanded_entry
  Gives-expanded_entry u = Gives-bind (get_str u "id") _ λ id has_id.
      Gives-bind (resolve_expanded_catalog_client_model c m id) _ λ k expanded. record {
        at = λ e q. record {
          client_key = c;
          mapping = mapping;
          listed = listed;
          names = cc;
          model_from = inl (cc (resolve_expanded_eq c m id k expanded));
        };
      }

  IsListed-add_missing :
      (catalog : Dict CatalogModel) (o : Option CatalogModel)
      → Gives
          (λ (e : CatalogModel).
            IsConfigured mappings e.client_model e.provider_name e.mapped_model)
          o
      → IsListed mappings catalog
      → IsListed mappings (add_missing catalog o)
  IsListed-add_missing catalog none g h = h
  IsListed-add_missing catalog (some e) g h =
      IsListed-set_default mappings catalog e.client_model e (g.at e refl) h

  IsListed-expand_models :
      (us : List JsonObject) (catalog : Dict CatalogModel)
      → IsListed mappings catalog
      → IsListed mappings (expand_models c p m pinned us catalog)
  unfolding expand_models
  IsListed-expand_models [] catalog h = h
  IsListed-expand_models (u ∷ us) catalog h =
      IsListed-expand_models us _
        (IsListed-add_missing catalog (expanded_entry c p m pinned u) (Gives-expanded_entry u) h)

module _ (mappings : Dict String) (provider_models : Dict ProviderModels) where
  IsListed-expand_mapping :
      (c mapping : String) (catalog : Dict CatalogModel)
      → HasEntry c mapping mappings
      → IsListed mappings catalog
      → IsListed mappings (expand_mapping provider_models c mapping catalog)
  unfolding expand_mapping
  IsListed-expand_mapping c mapping catalog e h =
      elim (Bool-cases (has_glob (parse_mapping mapping).1)) [
        | inl glob ↦ rw glob (
            IsListed-expand_models mappings c (parse_mapping mapping).0 (parse_mapping mapping).1
              mapping (parse_mapping mapping).2 e refl _ catalog h)
        | inr plain ↦ rw plain h
      ]

  exact_entry-IsConfigured :
      (c mapping : String)
      → HasEntry c mapping mappings
      → (let x = exact_entry provider_models c mapping in
          IsConfigured mappings c x.provider_name x.mapped_model)
  unfolding exact_entry resolve_catalog_model_name
  exact_entry-IsConfigured c mapping e = record {
    client_key = c;
    mapping = mapping;
    listed = e;
    names = refl;
    model_from = ground arith;
  }

  IsListed-expand_wildcard :
      (ms : Dict String) (catalog : Dict CatalogModel)
      → ((c v : String) → HasEntry c v ms → HasEntry c v mappings)
      → IsListed mappings catalog
      → IsListed mappings (expand_wildcard_catalog_entries provider_models ms catalog)
  unfolding expand_wildcard_catalog_entries
  IsListed-expand_wildcard [] catalog inside h = h
  IsListed-expand_wildcard ((c, v) ∷ ms) catalog inside h =
      IsListed-expand_wildcard ms _ (λ d w e. inside d w (inr e))
        (IsListed-expand_mapping c v catalog (inside c v (inl (refl, refl))) h)

  IsListed-add_exact_entries :
      (ms : Dict String) (catalog : Dict CatalogModel)
      → ((c v : String) → HasEntry c v ms → HasEntry c v mappings)
      → IsListed mappings catalog
      → IsListed mappings (add_exact_entries provider_models ms catalog)
  unfolding add_exact_entries
  IsListed-add_exact_entries [] catalog inside h = h
  IsListed-add_exact_entries ((c, v) ∷ ms) catalog inside h =
      let later = λ (d w : String) (e : HasEntry d w ms). inside d w (inr e) in
      elim (Bool-cases (has_glob c)) [
        | inl glob ↦ rw glob (IsListed-add_exact_entries ms catalog later h)
        | inr plain ↦ rw plain (
            IsListed-add_exact_entries ms _ later (
              IsListed-set mappings catalog c (exact_entry provider_models c v)
                (exact_entry-IsConfigured c v (inside c v (inl (refl, refl)))) h))
      ]

pub IsListed-catalog :
    (config : AppConfig) (provider_models : Dict ProviderModels)
    → IsListed config.model_mappings (get_proxy_model_catalog config provider_models)
unfolding get_proxy_model_catalog
IsListed-catalog config provider_models =
    let mappings = config.model_mappings in
    IsListed-add_exact_entries mappings provider_models mappings _ (λ c v e. e)
      (IsListed-expand_wildcard mappings provider_models mappings [] (λ c v e. e)
        (IsListed-empty mappings))

-- Each model of the catalog goes to a provider that a mapping names, whatever the providers list: its
-- entry has that provider, and the model that the mapping spells out or the name it is listed under.
pub get_proxy_model_catalog-IsConfigured :
    (config : AppConfig) (provider_models : Dict ProviderModels) (k : String) (e : CatalogModel)
    → Dict.get (get_proxy_model_catalog config provider_models) k ≡ some e
    → IsConfigured config.model_mappings k e.provider_name e.mapped_model
get_proxy_model_catalog-IsConfigured config provider_models =
    (IsListed-catalog config provider_models).at
