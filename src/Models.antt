-- ===== src/Models.antt =====
-- The handler `list_models` of api/proxy/router.py: the models that a key may see.
pub mod Visible
use ai_proxy.Common.{String, Bool, true, false, List, [], ◌∷◌, if◌then◌else◌}
use ai_proxy.Dict.{Dict}
use ai_proxy.Json.{JsonObject}
use ai_proxy.Config.{AppConfig}
use ai_proxy.Auth.{Validation, validate_proxy_api_key}
use ai_proxy.Access.{check_model_access}
use ai_proxy.Catalog.{CatalogModel, serialize_catalog_model, get_proxy_model_catalog}
use ai_proxy.Flow.{Env, Reply, continue, respond, extract_api_key, configured_keys}

-- The loop over the catalog.
unfoldable pub visible_models : AppConfig → String → Dict CatalogModel → List JsonObject
unfolding serialize_catalog_model
visible_models config key_hash [] = []
visible_models config key_hash ((model_name, entry) ∷ catalog) =
    let models = visible_models config key_hash catalog in
    if (check_model_access config key_hash model_name).0
    then serialize_catalog_model entry ∷ models
    else models

abbrev pub answer_models : Env → Validation → Reply (List JsonObject)
answer_models env (is_valid, key_hash, is_known) =
    if is_valid
    then continue (
        visible_models env.config key_hash (get_proxy_model_catalog env.config env.provider_models))
    else respond 401 "Invalid API key"

-- The `data` of the response.
unfoldable pub list_models : Env → Dict String → Reply (List JsonObject)
unfolding visible_models
list_models env headers = answer_models env (
    validate_proxy_api_key env.hash_api_key (configured_keys env) (extract_api_key headers)
      env.config.bypass.enabled)
