-- ===== src/Handlers.antt =====
-- The second half of api/proxy/router.py: what becomes of the outcome of an adapter's call. A handler
-- gives the response and the entry that it puts into the log, or `none` for an exception, for which
-- the server answers 500 and nothing is logged.
pub mod Logged
use ai_proxy.Common.{
  ℕ, String, append, Bool, true, false, not, Option, none, some, List, [], ◌∷◌, ◌==◌, if◌then◌else◌,
  ltb, is_empty, ◌>>=◌,
}
use ai_proxy.Dict
use ai_proxy.Dict.{Dict}
use ai_proxy.Json.{ℤ, Json, null, str, object, as_object, JsonObject}
use ai_proxy.Routing.{RouteResult}
use ai_proxy.OpenaiCompat.{build_headers, prepare_request_body}
use ai_proxy.Upstream.{
  Bytes, Codec, dumps, ProviderResponse, ProviderStreamResponse, TransportError, timeout,
  request_error, Outcome, responded, failed, raised, parse_body, parsed_error_body,
}
use ai_proxy.LogEntry.{LogEntry, RequestInfo, ProxyContext, from_proxy_context}
use ai_proxy.ResponseUtils.{
  FloatOps, proxy_response_headers, extract_usage, extract_cost, extract_error_message,
  normalize_error_response_body, inject_ai_proxy_route,
}

-- What a handler reads beside its arguments.
pub record Tools : Type 0 where
  pub codec : Codec
  pub floats : FloatOps
  pub validate_int : Option Json → Option (Option ℤ)
  pub include_ai_proxy_route : Bool

-- The arguments that the handlers share. `latency` is the time since the request came in.
pub record Call : Type 0 where
  pub request : RequestInfo
  pub request_id : String
  pub forward_body : JsonObject
  pub forward_headers : Dict String
  pub route : RouteResult
  pub model_requested : String
  pub key_hash : String
  pub latency : ℕ
  pub override_api_key : Option String
  pub client_request_body : JsonObject
  pub client_request_body_raw : String

-- A response with the headers that the handler gives it.
pub record Response : Type 0 where
  pub content : Bytes
  pub status_code : ℕ
  pub headers : Dict String

unfoldable pub transport_error_status : TransportError → ℕ
transport_error_status (timeout message) = 504
transport_error_status (request_error message) = 502

unfoldable pub error_text : TransportError → String
error_text (timeout message) = message
error_text (request_error message) = message

-- `given or otherwise`
abbrev pub object_or : Option JsonObject → JsonObject → JsonObject
object_or none otherwise = otherwise
object_or (some d) otherwise = if is_empty d then otherwise else d

abbrev pub text_or : Option String → String → String
text_or none otherwise = otherwise
text_or (some s) otherwise = if s == "" then otherwise else s

-- `isinstance(v, dict) and "raw_text" not in v`
unfoldable pub is_json : Json → Bool
is_json v = elim (as_object v) [ none ↦ false | some d ↦ not (Dict.contains d "raw_text") ]

-- What every entry has from the call, with the defaults of `from_proxy_context`.
unfoldable pub context : Call → ProxyContext
context call = record {
  entry_id = call.request_id;
  request = call.request;
  client_api_key_hash = call.key_hash;
  request_headers = none;
  request_body = call.forward_body;
  request_body_raw = none;
  client_request_body = some call.client_request_body;
  client_request_body_raw = some call.client_request_body_raw;
  model_requested = call.model_requested;
  model_resolved = call.route.mapped_model;
  provider_name = call.route.provider_name;
  latency_ms = call.latency;
  ttft_ms = none;
  response_status_code = 200;
  response_headers = none;
  client_response_headers = none;
  response_body = null;
  client_response_body = null;
  stream_chunks = none;
  input_tokens = none;
  output_tokens = none;
  total_tokens = none;
  error_message = none;
}

module _ (tools : Tools) (call : Call) where
  -- `_inject_ai_proxy_route` of the router
  unfoldable pub inject_route : Json → Json
  inject_route body = inject_ai_proxy_route tools.include_ai_proxy_route call.route body

  unfoldable pub transport_error_body : TransportError → Json
  unfolding inject_route error_text
  transport_error_body error = inject_route (
      object (
        (
          "error",
          object (("message", str (append "Provider transport error: " (error_text error))) ∷ []),
        )
        ∷ []))

  -- What is logged of a failed call. Every adapter of the registry is one of
  -- adapters/openai_compat.py.
  unfoldable pub transport_error_context : TransportError → ProxyContext
  unfolding context transport_error_status error_text transport_error_body
  transport_error_context error =
      let sent_body = prepare_request_body call.route.adapter call.forward_body in
      record (context call) {
        request_headers =
            some (build_headers call.route.adapter call.forward_headers call.override_api_key);
        request_body = sent_body;
        request_body_raw = some (tools.codec.serialize (object sent_body));
        response_status_code = transport_error_status error;
        client_response_body = transport_error_body error;
        client_response_headers = some (("content-type", "application/json") ∷ []);
        error_message = some (error_text error);
      }

  unfoldable pub transport_error_response : TransportError → Option (Response × LogEntry)
  unfolding transport_error_context
  transport_error_response error = do
    entry ← from_proxy_context tools.validate_int (transport_error_context error)
    some (
      record {
        content = dumps tools.codec (transport_error_body error);
        status_code = transport_error_status error;
        headers = [];
      },
      entry,
    )

  -- The body that the client gets, where it is no raw text.
  unfoldable pub client_body_of : ℕ → Json → Json
  unfolding inject_route
  client_body_of status response_body =
      inject_route
        (if ltb status 400 then response_body else normalize_error_response_body response_body)

  -- What `_enqueue_non_streaming_log` logs of a response.
  unfoldable pub non_streaming_context : ProviderResponse → Json → ProxyContext
  unfolding context client_body_of is_json
  non_streaming_context upstream_response response_body =
      let client_response_body = client_body_of upstream_response.status_code response_body in
      let sent_request_body = object_or upstream_response.sent_request_body call.forward_body in
      let (input_tokens, output_tokens, total_tokens) = extract_usage response_body in
      record (context call) {
        request_headers = upstream_response.sent_request_headers;
        request_body = sent_request_body;
        request_body_raw = some (
            text_or upstream_response.sent_request_body_raw
              (tools.codec.serialize (object sent_request_body)));
        response_status_code = upstream_response.status_code;
        response_headers = some upstream_response.headers;
        client_response_headers =
            some (proxy_response_headers upstream_response.headers (is_json client_response_body));
        response_body = response_body;
        client_response_body = client_response_body;
        input_tokens = input_tokens;
        output_tokens = output_tokens;
        total_tokens = total_tokens;
        error_message = extract_error_message response_body none;
      }

  abbrev pub non_streaming_response : ProviderResponse → Json → Response
  non_streaming_response upstream_response response_body =
      let client_response_body = client_body_of upstream_response.status_code response_body in
      let json_body = is_json client_response_body in
      record {
        content =
            if json_body then dumps tools.codec client_response_body else upstream_response.body;
        status_code = upstream_response.status_code;
        headers = proxy_response_headers upstream_response.headers json_body;
      }

  unfoldable pub finalize_non_streaming_response : ProviderResponse → Option (Response × LogEntry)
  unfolding non_streaming_context
  finalize_non_streaming_response upstream_response = do
    response_body ← parse_body tools.codec upstream_response.body
    cost ← extract_cost tools.floats response_body
    entry ←
        from_proxy_context tools.validate_int
          (non_streaming_context upstream_response response_body)
    some (non_streaming_response upstream_response response_body, record entry { cost = cost })

  unfoldable pub handle_non_streaming : Outcome ProviderResponse → Option (Response × LogEntry)
  unfolding transport_error_response finalize_non_streaming_response
  handle_non_streaming (responded upstream_response) =
      finalize_non_streaming_response upstream_response
  handle_non_streaming (failed error) = transport_error_response error
  handle_non_streaming raised = none

  -- What `stream_error_response` of api/proxy/streaming.py logs.
  unfoldable pub stream_error_context : ProviderStreamResponse → Json → ProxyContext
  unfolding context inject_route
  stream_error_context upstream_stream response_body =
      let sent_request_body = object_or upstream_stream.sent_request_body call.forward_body in
      record (context call) {
        request_headers = upstream_stream.sent_request_headers;
        request_body = sent_request_body;
        request_body_raw = some (
            text_or upstream_stream.sent_request_body_raw
              (tools.codec.serialize (object sent_request_body)));
        response_status_code = upstream_stream.status_code;
        response_headers = some upstream_stream.headers;
        client_response_headers = some (proxy_response_headers upstream_stream.headers false);
        response_body = response_body;
        client_response_body = inject_route (normalize_error_response_body response_body);
        error_message = extract_error_message response_body none;
      }

  abbrev pub error_response : ProviderStreamResponse → Bytes → Json → Response
  error_response upstream_stream error_body response_body =
      let client_response_body = inject_route (normalize_error_response_body response_body) in
      record {
        content =
            if is_json client_response_body
            then dumps tools.codec client_response_body
            else error_body;
        status_code = upstream_stream.status_code;
        headers = proxy_response_headers upstream_stream.headers false;
      }

  unfoldable pub stream_error_response :
      ProviderStreamResponse → Bytes → Option (Response × LogEntry)
  unfolding stream_error_context is_json
  stream_error_response upstream_stream error_body = do
    response_body ← parsed_error_body tools.codec upstream_stream
    entry ←
        from_proxy_context tools.validate_int (stream_error_context upstream_stream response_body)
    some (error_response upstream_stream error_body response_body, entry)
