-- ===== src/Proxy.antt =====
-- The handler `chat_completions` of api/proxy/router.py, up to the call of the adapter. A request is
-- its headers and what decoding its body gave: `none` where the bytes are no UTF-8 or no JSON.
pub mod Guards
use ai_proxy.Common.{String, Bool, true, false, Option, none, some, ◌==◌, if◌then◌else◌}
use ai_proxy.Dict
use ai_proxy.Dict.{Dict}
use ai_proxy.Json.{Json, obj, to_dict, JsonObject, get_truthy}
use ai_proxy.KeyResolution.{resolve_provider_key}
use ai_proxy.Routing.{RouteResult}
use ai_proxy.RateLimiter.{Limiter}
use ai_proxy.Forward.{Prepared, prepare_forward_request}
use ai_proxy.Flow.{
  Env, Reply, continue, respond, ◌>>=◌, authenticate_proxy_request, validate_and_route_request,
  apply_rate_limit,
}

pub record Request : Type 0 where
  pub headers : Dict String
  pub decoded : Option Json

-- What the handler hands to the adapter, and the limiters that it leaves.
pub record Forwarded : Type 0 where
  pub model_requested : String
  pub route : RouteResult
  pub key_hash : String
  pub override_api_key : Option String
  pub prepared : Prepared
  pub is_streaming : Bool
  pub limiters : Dict Limiter

unfoldable pub parse_request_body : Request → Reply JsonObject
parse_request_body request = elim request.decoded [
  | none ↦ respond 400 "Invalid JSON body"
  | some (obj fields) ↦ continue (to_dict fields)
  | some other ↦ respond 400 "JSON body must be an object"
]

-- `if client_api_key: override_api_key = resolve_provider_key(...)`
unfoldable pub override_key : Env → String → String → Bool → Option String
unfolding resolve_provider_key
override_key env client_api_key provider_name is_known_key =
    if client_api_key == ""
    then none
    else resolve_provider_key env.hash_api_key env.config client_api_key provider_name is_known_key

unfoldable pub chat_completions : Env → Dict Limiter → Request → Reply Forwarded
unfolding parse_request_body
chat_completions env limiters request = do
  body ← parse_request_body request
  auth ← authenticate_proxy_request env request.headers
  let (client_api_key, key_hash, is_known_key) = auth
  choice ← validate_and_route_request env body key_hash
  let (model_requested, route) = choice
  limiters' ← apply_rate_limit limiters route.provider_name
  continue (record {
    model_requested = model_requested;
    route = route;
    key_hash = key_hash;
    override_api_key = override_key env client_api_key route.provider_name is_known_key;
    prepared = prepare_forward_request env.config request.headers body route;
    is_streaming = get_truthy body "stream";
    limiters = limiters';
  })
