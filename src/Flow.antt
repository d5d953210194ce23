-- ===== src/Flow.antt =====
-- api/proxy/request_flow.py: who may send the request, where it goes, and whether it has to be
-- turned away. A response of the proxy's own is a status with a message.
use ai_proxy.Common.{ℕ, String, append, Bool, Option, none, some, List, ◌==◌, if◌then◌else◌}
use ai_proxy.Dict
use ai_proxy.Dict.{Dict}
use ai_proxy.Text.{drop_prefix}
use ai_proxy.Json.{Json, str, JsonObject, truthy}
use ai_proxy.Config.{AppConfig}
use ai_proxy.Adapter.{BaseAdapter}
use ai_proxy.Auth.{Settings, Validation, get_configured_api_keys, validate_proxy_api_key}
use ai_proxy.Access.{check_model_access}
use ai_proxy.Catalog.{ProviderModels}
use ai_proxy.Routing.{RouteResult, Resolved, found, value_error, resolve_model}
use ai_proxy.RateLimiter.{Limiter, is_queue_full, begin_acquire}

-- What a step of the handler gives: a value, a response at once, or an exception that no one
-- catches, which the server answers with 500.
pub data Reply (A : Type 0) : Type 0 where
  continue : A → Reply A
  respond : (status : ℕ) → (message : String) → Reply A
  crash : Reply A

infixl 5 ◌>>=◌
abbrev pub ◌>>=◌ : {A B : Type 0} → Reply A → (A → Reply B) → Reply B
continue a >>= f = f a
respond status message >>= f = respond status message
crash >>= f = crash

abbrev pub or_empty : Option String → String
or_empty none = ""
or_empty (some s) = s

-- The framework keeps the names of headers in lower case.
unfoldable pub extract_api_key : Dict String → Option String
unfolding drop_prefix
extract_api_key headers = drop_prefix "Bearer " (or_empty (Dict.get headers "authorization"))

-- What the handler reads beside the request: the configuration, the settings of the environment,
-- the adapters, the models that the providers list, and the hash of keys.
pub record Env : Type 0 where
  pub config : AppConfig
  pub settings : Settings
  pub registry : Dict BaseAdapter
  pub provider_models : Dict ProviderModels
  pub hash_api_key : String → String

abbrev pub configured_keys : Env → List String
configured_keys env = get_configured_api_keys (some env.config) env.settings

abbrev pub authenticated : Option String → Validation → Reply (String × String × Bool)
authenticated api_key (is_valid, key_hash, is_known_key) =
    if is_valid
    then continue (or_empty api_key, key_hash, is_known_key)
    else respond 401 "Invalid API key"

unfoldable pub authenticate_proxy_request : Env → Dict String → Reply (String × String × Bool)
unfolding extract_api_key
authenticate_proxy_request env headers =
    let api_key = extract_api_key headers in
    authenticated api_key (
      validate_proxy_api_key env.hash_api_key (configured_keys env) api_key
        env.config.bypass.enabled)

abbrev pub routed : String → Resolved → Reply (String × RouteResult)
routed model (found route) = continue (model, route)
routed model (value_error message) = respond 404 message

abbrev pub route_model : Env → JsonObject → String → String → Reply (String × RouteResult)
route_model env body key_hash model =
    let (allowed, reason) = check_model_access env.config key_hash model in
    if allowed
    then routed model (resolve_model env.config env.registry env.provider_models model body)
    else respond 403 reason

-- A model that is a text is looked up. Any other value that counts as true is taken to make the code
-- raise: a number, at the test `"+" not in model`; a list or an object, at the lookup of the model in a
-- `dict` or the match with a pattern. (Python's text of a list or an object with a `+` and a provider
-- behind it could be the name of a mapping; such mappings are left out.)
abbrev pub route_value : Env → JsonObject → String → Option Json → Reply (String × RouteResult)
route_value env body key_hash none = respond 400 "model field is required"
route_value env body key_hash (some (str model)) =
    if model == ""
    then respond 400 "model field is required"
    else route_model env body key_hash model
route_value env body key_hash (some v) =
    if truthy v then crash else respond 400 "model field is required"

unfoldable pub validate_and_route_request : Env → JsonObject → String → Reply (String × RouteResult)
unfolding truthy
validate_and_route_request env body key_hash = route_value env body key_hash (Dict.get body "model")

-- The request joins the queue of its provider's limiter, in which it waits for its slot, or is
-- turned away; without a limiter nothing happens.
abbrev pub joined : Dict Limiter → String → Option Limiter → Reply (Dict Limiter)
joined limiters provider_name none = continue limiters
joined limiters provider_name (some limiter) =
    if is_queue_full limiter
    then respond 429 (append "Rate limiter queue full for provider " provider_name)
    else continue (Dict.set limiters provider_name (begin_acquire limiter))

unfoldable pub apply_rate_limit : Dict Limiter → String → Reply (Dict Limiter)
unfolding is_queue_full begin_acquire
apply_rate_limit limiters provider_name =
    joined limiters provider_name (Dict.get limiters provider_name)
