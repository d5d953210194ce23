-- ===== src/Relay.antt =====
-- The relay of a stream in api/proxy/streaming.py, and the end of `_handle_streaming` of
-- api/proxy/router.py: what the client is sent, chunk by chunk, and what is logged when the stream
-- ends.
pub mod Chunks
pub mod Routed
pub mod Sent
pub mod Content
pub mod Logged
use ai_proxy.Common.{
  ℕ, String, append, Bool, true, false, Option, none, some, List, [], ◌∷◌, ◌==◌, ◌||◌,
  if◌then◌else◌, is_empty, ◌>>=◌, or_else,
}
use ai_proxy.Dict
use ai_proxy.Dict.{Dict}
use ai_proxy.Text.{strip, drop_prefix}
use ai_proxy.Json.{
  ℤ, Json, null, bool, int, float, str, arr, obj, object, Fields, end, field, to_dict, JsonObject,
  as_int, truthy,
}
use ai_proxy.Upstream.{
  Bytes, Codec, ProviderStreamResponse, TransportError, Outcome, responded, failed, raised,
}
use ai_proxy.LogEntry.{LogEntry, ProxyContext, from_proxy_context}
use ai_proxy.ResponseUtils.{FloatOps, proxy_response_headers, client_route_identifier}
use ai_proxy.Handlers.{
  Tools, Call, Response, context, object_or, text_or, transport_error_status, error_text,
  transport_error_response, stream_error_response,
}
use ai_proxy.Streaming.{
  StreamState, capture_stream_chunk, assembled_stream_response, extract_reasoning_tokens,
  object_or_null,
}
use ai_proxy.Events.{parse_sse_chunk, event, inject_ai_proxy_route_chunk, stream_error_event}

unfoldable pub record_stream_exception : StreamState → String → ℕ → StreamState
record_stream_exception state error_message status_code = record state {
  response_status_code = status_code;
  stream_error_message = some error_message;
}

-- How the provider's stream ends: it is over; the client goes away while a chunk is waited for; the
-- transport fails; another exception comes, with its text; or the generator is closed when it has
-- given a last chunk to the client.
pub data Ending : Type 0 where
  done : Ending
  cancelled : Ending
  broken : TransportError → Ending
  raised_with : String → Ending
  closed : Bytes → Ending

-- What is left of the state, and what the client was sent.
pub record Relayed : Type 0 where
  pub state : StreamState
  pub sent : List Bytes

abbrev pub send : Bytes → Relayed → Relayed
send chunk_bytes relayed = record relayed { sent = chunk_bytes ∷ relayed.sent }

module _ (codec : Codec) (ai_proxy_route : Option String) where
  -- An exception is recorded, and the client is sent an event that says so.
  unfoldable pub fail_with : StreamState → String → ℕ → Relayed
  unfolding record_stream_exception
  fail_with state message status_code = record {
    state = record_stream_exception state message status_code;
    sent =
        stream_error_event codec ai_proxy_route (text_or (some message) "Provider stream error")
        ∷ [];
  }

  -- `describe` has the text of the exception that a chunk raises in a state.
  module _ (describe : StreamState → Bytes → String) where
    -- The last chunk is sent, but it is not captured.
    abbrev pub close_at : StreamState → Bytes → Option Bytes → Relayed
    close_at state chunk_bytes none = fail_with state (describe state chunk_bytes) 502
    close_at state chunk_bytes (some client_chunk) = record {
      state = state;
      sent = client_chunk ∷ [];
    }

    unfoldable pub relay_end : StreamState → Ending → Relayed
    unfolding fail_with
    relay_end state done = record { state = state; sent = [] }
    relay_end state cancelled = record {
      state = record_stream_exception state "Client disconnected" 499;
      sent = [];
    }
    relay_end state (broken error) =
        fail_with state (error_text error) (transport_error_status error)
    relay_end state (raised_with message) = fail_with state message 502
    relay_end state (closed chunk_bytes) =
        close_at state chunk_bytes (inject_ai_proxy_route_chunk codec ai_proxy_route chunk_bytes)

    -- What is captured of a chunk that the client was sent.
    abbrev pub capture_client_chunk : StreamState → Bytes → StreamState × Bool
    capture_client_chunk state client_chunk =
        capture_stream_chunk state (parse_sse_chunk codec client_chunk)

    unfoldable pub relay_chunks : StreamState → List Bytes → Ending → Relayed
    unfolding relay_end
    relay_chunks state [] ending = relay_end state ending
    relay_chunks state (chunk_bytes ∷ chunks) ending =
        elim (inject_ai_proxy_route_chunk codec ai_proxy_route chunk_bytes) [
          | none ↦ fail_with state (describe state chunk_bytes) 502
          | some client_chunk ↦
              let (state', ok) = capture_client_chunk state client_chunk in
              let rest = relay_chunks state' chunks ending in
              send client_chunk
                (if ok then rest else fail_with state' (describe state chunk_bytes) 502)
        ]

    -- The time of the first chunk, where there is one.
    abbrev pub first_time : Option ℕ → Option ℕ → List Bytes → Ending → Option ℕ
    first_time ttft old [] (closed chunk_bytes) = or_else ttft old
    first_time ttft old [] ending = old
    first_time ttft old (chunk_bytes ∷ chunks) ending = or_else ttft old

    abbrev pub timed : StreamState → Option ℕ → List Bytes → Ending → StreamState
    timed state ttft chunks ending = record state {
      ttft_ms = first_time ttft state.ttft_ms chunks ending;
    }

    -- `ttft` is the time from `start_time` to the first chunk.
    unfoldable pub relay_stream_chunks :
        StreamState → Option ℕ → Option (List Bytes × Ending) → Relayed
    unfolding relay_chunks
    relay_stream_chunks state ttft none = record {
      state = record state {
        response_status_code = 502;
        stream_error_message = some "Provider stream was not established";
      };
      sent = stream_error_event codec ai_proxy_route "Provider stream was not established" ∷ [];
    }
    relay_stream_chunks state ttft (some (chunks, ending)) =
        relay_chunks (timed state ttft chunks ending) chunks ending

unfoldable pub new_state : ProviderStreamResponse → StreamState
new_state upstream_stream = record {
  chunks_collected = [];
  merged_choices = [];
  usage_data = [];
  extra_fields = [];
  response_headers = upstream_stream.headers;
  response_status_code = upstream_stream.status_code;
  stream_error_message = none;
  ttft_ms = none;
}

unfoldable pub streaming_headers : ProviderStreamResponse → Dict String
streaming_headers upstream_stream =
    Dict.set_default
      (Dict.set_default (proxy_response_headers upstream_stream.headers false) "Cache-Control"
        "no-cache")
      "X-Accel-Buffering" "no"

-- A response to a request that streams: what all of its body is in the end, and the entry, or `none`
-- where it cannot be made.
pub record Streamed : Type 0 where
  pub sent : List Bytes
  pub status_code : ℕ
  pub media_type : String
  pub headers : Dict String
  pub entry : Option LogEntry

-- `float(cost_raw)` of a number, and no cost of another value; or `none` where the code raises.
abbrev pub cost_value : FloatOps → Option Json → Option (Option ℕ)
cost_value ops none = some none
cost_value ops (some (float bits)) = some (some bits)
cost_value ops (some v) = elim (as_int v) [
  | none ↦ some none
  | some n ↦ ops.from_int n >>= λ bits. some (some bits)
]

abbrev pub non_empty_chunks : List Json → Option (List Json)
non_empty_chunks [] = none
non_empty_chunks (c ∷ cs) = some (c ∷ cs)

module _ (tools : Tools) (call : Call) where
  -- What `enqueue_stream_log` logs.
  unfoldable pub stream_context : ProviderStreamResponse → StreamState → ProxyContext
  unfolding context streaming_headers assembled_stream_response
  stream_context upstream_stream state =
      let sent_request_body = object_or upstream_stream.sent_request_body call.forward_body in
      record (context call) {
        request_headers = upstream_stream.sent_request_headers;
        request_body = sent_request_body;
        request_body_raw = some (
            text_or upstream_stream.sent_request_body_raw
              (tools.codec.serialize (object sent_request_body)));
        ttft_ms = state.ttft_ms;
        response_status_code = state.response_status_code;
        response_headers = some state.response_headers;
        client_response_headers = some (streaming_headers upstream_stream);
        response_body = object_or_null (assembled_stream_response state);
        stream_chunks = non_empty_chunks state.chunks_collected;
        input_tokens = Dict.get state.usage_data "prompt_tokens";
        output_tokens = Dict.get state.usage_data "completion_tokens";
        total_tokens = Dict.get state.usage_data "total_tokens";
        error_message = state.stream_error_message;
      }

  unfoldable pub enqueue_stream_log : ProviderStreamResponse → StreamState → Option LogEntry
  unfolding stream_context extract_reasoning_tokens
  enqueue_stream_log upstream_stream state = do
    cost ← cost_value tools.floats (Dict.get state.usage_data "cost")
    entry ← from_proxy_context tools.validate_int (stream_context upstream_stream state)
    some
        (record entry { cost = cost; reasoning_tokens = extract_reasoning_tokens state.usage_data })

  module _ (describe : StreamState → Bytes → String) (ttft : Option ℕ) where
    unfoldable pub build_streaming_response :
        ProviderStreamResponse → Option (List Bytes × Ending) → Streamed
    unfolding enqueue_stream_log relay_stream_chunks new_state
    build_streaming_response upstream_stream body =
        let relayed =
          relay_stream_chunks tools.codec (some (client_route_identifier call.route)) describe
            (new_state upstream_stream) ttft body in
        record {
          sent = relayed.sent;
          status_code = upstream_stream.status_code;
          media_type = text_or upstream_stream.content_type "text/event-stream";
          headers = streaming_headers upstream_stream;
          entry = enqueue_stream_log upstream_stream relayed.state;
        }

    -- The answer to a request that streams: an exception, a whole response with its entry, or a stream.
    pub data StreamAnswer : Type 0 where
      exception : StreamAnswer
      whole : Response → LogEntry → StreamAnswer
      streamed : Streamed → StreamAnswer

    abbrev pub answered : Option (Response × LogEntry) → StreamAnswer
    answered none = exception
    answered (some (response, entry)) = whole response entry

    unfoldable pub finalize_stream :
        ProviderStreamResponse → Option (List Bytes × Ending) → StreamAnswer
    unfolding build_streaming_response
    finalize_stream upstream_stream body = elim upstream_stream.error_body [
      | some error_body ↦ answered (stream_error_response tools call upstream_stream error_body)
      | none ↦ streamed (build_streaming_response upstream_stream body)
    ]

    unfoldable pub handle_streaming :
        Outcome ProviderStreamResponse → Option (List Bytes × Ending) → StreamAnswer
    unfolding finalize_stream
    handle_streaming (responded upstream_stream) body = finalize_stream upstream_stream body
    handle_streaming (failed error) body = answered (transport_error_response tools call error)
    handle_streaming raised body = exception
