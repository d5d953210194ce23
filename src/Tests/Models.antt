-- ===== src/Tests/Models.antt =====
-- The theorem on the list of models, for a client of the tests.
use ai_proxy.Common.{String, ◌≡◌, refl, ◌↔◌, false, [], ◌∷◌}
use ai_proxy.Dict
use ai_proxy.Dict.{Dict}
use ai_proxy.Text
use ai_proxy.Text.Glob.{fnmatch}
use ai_proxy.Json.{JsonObject}
use ai_proxy.Mappings.{has_glob, parse_mapping, pin_slugs}
use ai_proxy.Auth.{validate_proxy_api_key, get_configured_api_keys}
use ai_proxy.Auth.Laws.{IsAdmitted}
use ai_proxy.Access.{check_rule, check_model_access}
use ai_proxy.Catalog.{
  exact_entry, serialize_catalog_model, get_proxy_model_catalog, expand_wildcard_catalog_entries,
  expand_mapping, add_exact_entries,
}
use ai_proxy.Flow.{continue, extract_api_key, configured_keys}
use ai_proxy.Models.{list_models, visible_models}
use ai_proxy.Models.Visible.{IsIn, IsVisible, list_models-IsVisible}
use ai_proxy.Tests.{config, env}

abbrev headers : Dict String
headers = ("authorization", "Bearer client") ∷ []

-- The client may use `fast` alone.
abbrev shown : JsonObject
shown = serialize_catalog_model (exact_entry [] "fast" "router:acme/fast")

is_shown : list_models env headers ≡ continue (shown ∷ [])
unfolding list_models visible_models validate_proxy_api_key get_configured_api_keys extract_api_key
    check_model_access check_rule get_proxy_model_catalog expand_wildcard_catalog_entries
    expand_mapping add_exact_entries has_glob parse_mapping pin_slugs fnmatch Dict.get Dict.set
    Text.drop_prefix Text.has_char Text.split_once Text.rsplit_once
is_shown = refl

list_models-IsVisible_example :
    IsAdmitted env.hash_api_key (configured_keys env) (extract_api_key headers) false
    × (IsIn shown (shown ∷ [])
        ↔ IsVisible config
            (validate_proxy_api_key env.hash_api_key
              (configured_keys env)
              (extract_api_key headers)
              false).1
            (get_proxy_model_catalog config [])
            shown)
list_models-IsVisible_example = list_models-IsVisible env headers (shown ∷ []) shown is_shown
