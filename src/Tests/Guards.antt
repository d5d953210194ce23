-- ===== src/Tests/Guards.antt =====
-- The theorem on what reaches a provider, at a request of the tests that does.
use ai_proxy.Common.{String, ◌≡◌, refl, false, none, some, [], ◌∷◌}
use ai_proxy.Dict
use ai_proxy.Dict.{Dict}
use ai_proxy.Text
use ai_proxy.Text.Glob.{fnmatch}
use ai_proxy.Json.{object, get_truthy}
use ai_proxy.Mappings.{
  has_glob, format_route_label, parse_mapping, strip_client_provider_suffix,
  extract_body_provider_slugs, pin_slugs, merge_pinned,
}
use ai_proxy.Auth.{validate_proxy_api_key, get_configured_api_keys}
use ai_proxy.Access.{check_rule, check_model_access}
use ai_proxy.KeyResolution.{resolve_provider_key}
use ai_proxy.Routing.{
  RouteResult, route_result, resolve_model, resolve_lookup, resolve_provider_aware, resolve_slugs,
  resolve_exact_mapping, build_route_result, resolve_mapped_model_name, provider_sources,
}
use ai_proxy.RateLimiter.{Limiter, new_limiter, is_queue_full, begin_acquire}
use ai_proxy.Forward.{prepare_forward_request}
use ai_proxy.Flow.{
  continue, extract_api_key, authenticate_proxy_request, validate_and_route_request,
  apply_rate_limit,
}
use ai_proxy.Proxy.{Request, Forwarded, parse_request_body, override_key, chat_completions}
use ai_proxy.Proxy.Guards.{IsGuarded, chat_completions-IsGuarded}
use ai_proxy.Tests.{config, env, limits, router_adapter, ask_fast}

abbrev fast : RouteResult
fast =
    route_result "router" "acme/fast" router_adapter none
      (some (format_route_label "router" "acme/fast" none))

abbrev headers : Dict String
headers = ("authorization", "Bearer client") ∷ []

abbrev request : Request
request = record { headers = headers; decoded = some (object ask_fast) }

abbrev limiters : Dict Limiter
limiters = ("router", new_limiter limits) ∷ []

abbrev forwarded : Forwarded
forwarded = record {
  model_requested = "fast";
  route = fast;
  key_hash = "#client";
  override_api_key = none;
  prepared = prepare_forward_request config headers ask_fast fast;
  is_streaming = false;
  limiters = Dict.set limiters "router" (begin_acquire (new_limiter limits));
}

is_forwarded : chat_completions env limiters request ≡ continue forwarded
unfolding chat_completions parse_request_body authenticate_proxy_request extract_api_key
    validate_and_route_request apply_rate_limit override_key validate_proxy_api_key
    get_configured_api_keys check_model_access check_rule resolve_provider_key resolve_model
    resolve_lookup resolve_provider_aware resolve_slugs resolve_exact_mapping build_route_result
    resolve_mapped_model_name provider_sources has_glob parse_mapping strip_client_provider_suffix
    extract_body_provider_slugs pin_slugs merge_pinned fnmatch get_truthy is_queue_full new_limiter
    format_route_label Dict.get Text.drop_prefix Text.has_char Text.split_once Text.rsplit_once
    route_result
is_forwarded = refl

chat_completions-IsGuarded_example : IsGuarded env limiters request forwarded
chat_completions-IsGuarded_example =
    chat_completions-IsGuarded env limiters request forwarded is_forwarded
