-- ===== src/Tests/Responses.antt =====
-- The theorems on responses, streams and the log at responses of the tests.
use ai_proxy.Common.{◌≡◌, refl, true, Option, none, some, [], ◌∷◌, if◌then◌else◌, nat_eq}
use ai_proxy.Dict
use ai_proxy.Dict.{Dict}
use ai_proxy.Json.{ℤ, pos, Json, null, int, str, object, JsonObject}
use ai_proxy.Routing.{route_result}
use ai_proxy.Upstream.{
  Bytes, ProviderResponse, ProviderStreamResponse, timeout, failed, responded, parse_body,
  parsed_error_body, Loaded, loaded, no_json, not_loaded,
}
use ai_proxy.LogEntry.{LogEntry}
use ai_proxy.ResponseUtils.{extract_cost, extract_error_message, extract_usage}
use ai_proxy.Handlers.{Tools, Call, Response, handle_non_streaming, stream_error_response}
use ai_proxy.Handlers.Logged.{
  IsEntryOf, handle_non_streaming-IsEntryOf, stream_error_response-answers,
  handle_non_streaming-failed, handle_non_streaming-responded, handle_non_streaming-bare,
}
use ai_proxy.Masking.{mask_sensitive_fields}
use ai_proxy.Masking.Laws.{IsMasked, mask_sensitive_fields-IsMasked}
use ai_proxy.Tests.{router_adapter, ask_fast}

abbrev answer_body : JsonObject
answer_body = ("usage", object (("prompt_tokens", int (pos 7)) ∷ [])) ∷ []

-- Bytes that start with 34 are a bare text, those that start with 99 raise, all others are the body
-- above.
abbrev loads : Bytes → Loaded
loads [] = no_json
loads (byte ∷ bytes) =
    if nat_eq byte 99
    then not_loaded
    else loaded (if nat_eq byte 34 then str "late" else object answer_body)

abbrev validate_int : Option Json → Option (Option ℤ)
validate_int none = some none
validate_int (some null) = some none
validate_int (some (int n)) = some (some n)
validate_int (some v) = none

abbrev pub tools : Tools
tools = record {
  codec = record {
    loads = loads;
    loads_text = λ s. no_json;
    decode = λ bytes. "";
    encode = λ s. [];
    dumps_text = λ v. "";
    serialize = λ v. "";
  };
  floats = record { from_int = λ n. some 0; parse = λ s. none; add = λ a b. a };
  validate_int = validate_int;
  include_ai_proxy_route = true;
}

abbrev pub call : Call
call = record {
  request = record { host = none; method = "POST"; path = "/v1/chat/completions"; headers = [] };
  request_id = "r1";
  forward_body = ask_fast;
  forward_headers = [];
  route = route_result "router" "acme/fast" router_adapter none none;
  model_requested = "fast";
  key_hash = "#client";
  latency = 12;
  override_api_key = none;
  client_request_body = ask_fast;
  client_request_body_raw = "{}";
}

abbrev answer : Bytes → ProviderResponse
answer body = record {
  status_code = 200;
  headers = ("content-length", "2") ∷ [];
  body = body;
  content_type = some "application/json";
  sent_request_headers = none;
  sent_request_body = none;
  sent_request_body_raw = none;
}

abbrev refused : ProviderStreamResponse
refused = record {
  status_code = 429;
  headers = [];
  content_type = none;
  error_body = some (123 ∷ []);
  sent_request_headers = none;
  sent_request_body = none;
  sent_request_body_raw = none;
}

failed_call :
    (answer : Response × LogEntry) × (handle_non_streaming tools call (failed (timeout "slow"))
      ≡ some answer)
    × (answer.0.status_code ≡ 504)
    × (answer.1.error_message ≡ some "slow")
unfolding ai_proxy.Handlers.transport_error_status ai_proxy.Handlers.error_text
failed_call = handle_non_streaming-failed tools call (timeout "slow") refl

handle_non_streaming-responded_example :
    (given : Response × LogEntry) × (handle_non_streaming tools call (responded (answer (123 ∷ [])))
      ≡ some given)
    × (given.0.status_code ≡ 200)
    × (given.1.response_body ≡ object answer_body)
    × (given.1.cost ≡ none)
    × (given.1.input_tokens ≡ some (pos 7))
    × (given.1.output_tokens ≡ none)
    × (given.1.total_tokens ≡ none)
unfolding parse_body extract_usage extract_cost Dict.get
handle_non_streaming-responded_example =
    handle_non_streaming-responded tools call (answer (123 ∷ [])) (object answer_body) none
      (some (pos 7)) none none refl refl refl (refl, refl, refl)

handle_non_streaming-bare_example :
    handle_non_streaming tools call (responded (answer (34 ∷ []))) ≡ none
unfolding parse_body
handle_non_streaming-bare_example =
    handle_non_streaming-bare tools call (answer (34 ∷ [])) (str "late") refl refl

handle_non_streaming-IsEntryOf_example : IsEntryOf call failed_call.0.0.status_code failed_call.0.1
handle_non_streaming-IsEntryOf_example =
    handle_non_streaming-IsEntryOf tools call failed_call.0.0 failed_call.0.1
      (failed (timeout "slow")) failed_call.1

stream_error_response-answers_example :
    (given : Response × LogEntry) × (stream_error_response tools call refused (123 ∷ [])
      ≡ some given)
    × (given.0.status_code ≡ 429)
    × (given.1.error_message ≡ none)
    × IsEntryOf call 429 given.1
unfolding parse_body parsed_error_body extract_error_message Dict.get
stream_error_response-answers_example =
    stream_error_response-answers tools call refused (123 ∷ []) (object answer_body) refl refl refl

abbrev failure : Json
failure = object (("message", str "no credit") ∷ [])

abbrev secret : Json
secret = object (("api_key", str "sk-12345") ∷ [])

mask_sensitive_fields-IsMasked_example : IsMasked (mask_sensitive_fields secret)
mask_sensitive_fields-IsMasked_example = mask_sensitive_fields-IsMasked secret
