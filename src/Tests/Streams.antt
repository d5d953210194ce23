-- ===== src/Tests/Streams.antt =====
-- The theorems on streams at a stream of one chunk with a text, with a codec that knows just this chunk
-- and the message at the end.
use ai_proxy.Common.{
  List, ◌≡◌, refl, Bool, String, false, none, some, [], ◌∷◌, if◌then◌else◌, nat_eq, ◌==◌,
}
use ai_proxy.Dict
use ai_proxy.Json.{pos, Json, int, str, object, array, JsonObject}
use ai_proxy.Upstream.{loaded, no_json, Bytes, Codec, ProviderStreamResponse, timeout}
use ai_proxy.LogEntry.{LogEntry}
use ai_proxy.Handlers.{Tools}
use ai_proxy.Streaming.{StreamState, Choices}
use ai_proxy.Events.{parse_sse_chunk, event}
use ai_proxy.Relay.{broken, relay_stream_chunks, timed, new_state}
use ai_proxy.Relay.Chunks.{IsWritten, parse_sse_chunk-event}
use ai_proxy.Relay.Sent.{IsRelayed, relay_stream_chunks-IsRelayed}
use ai_proxy.Relay.Content.{routed_object}
use ai_proxy.Tests.Responses.{tools}

abbrev chunk_value : Json
chunk_value = object (
    (
      "choices",
      array (
          object (("index", int (pos 0)) ∷ ("delta", object (("content", str "Hi") ∷ [])) ∷ [])
          ∷ []),
    )
    ∷ [])

abbrev sent_value : JsonObject
sent_value = routed_object "router:acme/fast" chunk_value

abbrev is_in : Bytes → Bool
is_in [] = false
is_in (b ∷ bytes) = nat_eq b 1

abbrev is_done : Bytes → Bool
is_done [] = false
is_done (b ∷ bytes) = nat_eq b 3

-- The provider's chunks are the byte 1 and at the end 3, every text that is written is the byte 2.
abbrev codec : Codec
codec = record {
  loads = λ bytes. no_json;
  loads_text = λ s. loaded (if s == "{in}" then chunk_value else object sent_value);
  decode = λ bytes.
      if is_in bytes
      then "data: {in}\n\n"
      else if is_done bytes
      then "data: [DONE]\n\n"
      else "data: {out}\n\n";
  encode = λ s. 2 ∷ [];
  dumps_text = λ v. "{out}";
  serialize = λ v. "";
}

abbrev upstream : ProviderStreamResponse
upstream = record {
  status_code = 200;
  headers = [];
  content_type = some "text/event-stream";
  error_body = none;
  sent_request_headers = none;
  sent_request_body = none;
  sent_request_body_raw = none;
}

abbrev stream_tools : Tools
stream_tools = record tools { codec = codec }

written : IsWritten codec sent_value
unfolding Dict.set
written = record { middle = "out"; in_braces = refl; read_back = refl; decoded = refl }

parse_sse_chunk-event_example :
    parse_sse_chunk codec (event codec sent_value) ≡ loaded (object sent_value)
parse_sse_chunk-event_example = parse_sse_chunk-event codec sent_value written

abbrev describe : StreamState → Bytes → String
describe state bytes = "?"

relay_stream_chunks-IsRelayed_example :
    IsRelayed codec
      (some "router:acme/fast")
      (timed codec
        (some "router:acme/fast")
        describe
        (new_state upstream)
        (some 3)
        ((1 ∷ []) ∷ [])
        (broken (timeout "slow")))
      (broken (timeout "slow"))
      ((1 ∷ []) ∷ [])
      (relay_stream_chunks codec
        (some "router:acme/fast")
        describe
        (new_state upstream)
        (some 3)
        (some ((1 ∷ []) ∷ [], broken (timeout "slow"))))
relay_stream_chunks-IsRelayed_example =
    relay_stream_chunks-IsRelayed codec (some "router:acme/fast") describe (new_state upstream)
      (some 3) ((1 ∷ []) ∷ []) (broken (timeout "slow"))

abbrev chunks : List Bytes
chunks = (1 ∷ []) ∷ (3 ∷ []) ∷ []

abbrev two_choices : Choices
two_choices = (pos 1, []) ∷ (pos 0, []) ∷ []
