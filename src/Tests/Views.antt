-- ===== src/Tests/Views.antt =====
-- The theorems on what the UI shows, and on the cache of the models, at a request and a provider.
use ai_proxy.Common.{◌≡◌, refl, append, none, some, [], ◌∷◌, arith}
use ai_proxy.Dict
use ai_proxy.Json.{null, str, object, array}
use ai_proxy.Masking.{mask_sensitive_fields}
use ai_proxy.Masking.Laws.{IsMasked, mask_sensitive_fields-IsMasked}
use ai_proxy.Catalog.Cache.{get_cached_provider_models, from_cache, with_lock, fetched_entry}
use ai_proxy.Catalog.Fresh.{get_cached_provider_models-kept}
use ai_proxy.Conversations.{ProxyRequest, group_identity}
use ai_proxy.Conversations.Groups.{group_label_expression, group_key_expression}
use ai_proxy.Conversations.Labels.{
  with_texts, separator, group_label_expression-group_identity, group_key_expression-ambiguous,
}
use ai_proxy.RequestViews.{TextOps, Row, ordered_request_body}
use ai_proxy.RequestViews.Excerpts.{IsShown, ordered_request_body-IsMasked}
use ai_proxy.Tests.Conversations.{format, ask, hello}

abbrev row : Row
row = record {
  request_body = object (("messages", array (object hello ∷ [])) ∷ []);
  client_request_body = null;
  response_body = null;
  client_response_body = null;
  output_tokens = none;
  latency_ms = none;
  ttft_ms = none;
  cost = none;
}

abbrev ops : TextOps
ops = record {
  to_text = λ v. "";
  repr = λ s. s;
  loads = λ s. some (object (("api_key", str "sk-12345") ∷ []));
}

ordered_request_body-IsMasked_example :
    IsShown ops (some "{}") null (ordered_request_body ops (some "{}") null)
    × IsMasked (ordered_request_body ops (some "{}") null)
unfolding mask_sensitive_fields
ordered_request_body-IsMasked_example =
    ordered_request_body-IsMasked ops (some "{}") null (mask_sensitive_fields-IsMasked null)

get_cached_provider_models-kept_example :
    get_cached_provider_models
      (get_cached_provider_models [] [] "router" none 0 0 10).cache
      []
      "router"
      none
      300009
      300009
      300009
    ≡ from_cache
        (get_cached_provider_models [] [] "router" none 0 0 10).cache
        (get_cached_provider_models [] [] "router" none 0 0 10).entry
unfolding get_cached_provider_models with_lock fetched_entry Dict.get
get_cached_provider_models-kept_example =
    get_cached_provider_models-kept [] [] "router" none 0 0 10
      (get_cached_provider_models [] [] "router" none 0 0 10).cache [] none 300009 300009 300009
      refl refl (omega arith)

abbrev answered_ask : ProxyRequest
answered_ask = record ask { first_assistant_response_text = some "hi" }

group_label_expression-group_identity_example :
    group_label_expression "by all" answered_ask ≡ (group_identity format answered_ask "by all").1
group_label_expression-group_identity_example =
    group_label_expression-group_identity format answered_ask "by all" tt refl refl refl refl

group_key_expression-ambiguous_example :
    group_key_expression "by all" (with_texts ask (append "a" (append separator "b")) "c")
    ≡ group_key_expression "by all" (with_texts ask "a" (append "b" (append separator "c")))
group_key_expression-ambiguous_example = group_key_expression-ambiguous ask "by all" "a" "b" "c"
