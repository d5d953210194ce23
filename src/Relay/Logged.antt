-- ===== src/Relay/Logged.antt =====
-- What is logged of a stream.
use ai_proxy.Common.{ℕ, String, ◌≡◌, true, Option, none, some, List, contains}
use ai_proxy.Dict
use ai_proxy.Json.{ℤ, Json}
use ai_proxy.Upstream.{Bytes, ProviderStreamResponse}
use ai_proxy.LogEntry.{LogEntry}
use ai_proxy.ResponseUtils.{client_route_identifier}
use ai_proxy.Handlers.{Tools, Call, transport_error_status, error_text}
use ai_proxy.Handlers.Logged.{IsEntryOf}
use ai_proxy.Merging.{string_merge_keys}
use ai_proxy.Streaming.{StreamState}
use ai_proxy.Streaming.Pieces.{stream_pieces}
use ai_proxy.Streaming.Choice.{objects_of}
use ai_proxy.Streaming.Assembled.{response_text}
use ai_proxy.Events.{inject_ai_proxy_route_chunk}
use ai_proxy.Relay.{
  Ending, done, cancelled, broken, raised_with, closed, relay_stream_chunks, new_state, cost_value,
}

-- The status and the error that are logged for an ending.
abbrev pub ending_status : ℕ → Ending → ℕ
ending_status status done = status
ending_status status cancelled = 499
ending_status status (broken error) = transport_error_status error
ending_status status (raised_with message) = 502
ending_status status (closed chunk_bytes) = status

abbrev pub ending_error : Ending → Option String
ending_error done = none
ending_error cancelled = some "Client disconnected"
ending_error (broken error) = some (error_text error)
ending_error (raised_with message) = some message
ending_error (closed chunk_bytes) = none

module _ (tools : Tools) (call : Call) (describe : StreamState → Bytes → String)
    (ttft : Option ℕ) where
  -- Where the generator is closed, the last chunk is one that can be given the route.
  abbrev pub IsProperEnding : Ending → Type 0
  IsProperEnding (closed chunk_bytes) =
      (d : Bytes) × (inject_ai_proxy_route_chunk tools.codec
          (some (client_route_identifier call.route)) chunk_bytes
        ≡ some d)
  IsProperEnding ending = Unit

  record IsEnded (state : StreamState) (ending : Ending) (result : StreamState) : Type 0 where
    same_choices : result.merged_choices ≡ state.merged_choices
    status : result.response_status_code ≡ ending_status state.response_status_code ending
    error : state.stream_error_message ≡ none → result.stream_error_message ≡ ending_error ending

  module _ (upstream : ProviderStreamResponse) (chunks : List Bytes) (values : List Json)
      (ending : Ending) (input output total : Option ℤ) (cost : Option ℕ) where
    -- The state when the stream has ended.
    abbrev pub end_state : StreamState
    end_state =
        (relay_stream_chunks tools.codec (some (client_route_identifier call.route)) describe
          (new_state upstream) ttft (some (chunks, ending))).state

    -- The counts of tokens that it has are valid.
    abbrev pub HasCounts : Type 0
    HasCounts =
        (tools.validate_int (Dict.get end_state.usage_data "prompt_tokens") ≡ some input)
        × (tools.validate_int (Dict.get end_state.usage_data "completion_tokens") ≡ some output)
        × (tools.validate_int (Dict.get end_state.usage_data "total_tokens") ≡ some total)

    -- Its cost is in the range of floats, where it is an integer.
    abbrev pub HasCost : Type 0
    HasCost = cost_value tools.floats (Dict.get end_state.usage_data "cost") ≡ some cost

    pub record IsLogged (entry : LogEntry) : Type 0 where
      pub for_call : IsEntryOf call (ending_status upstream.status_code ending) entry
      pub error : entry.error_message ≡ ending_error ending
      pub texts :
          (k : String) (i : ℤ)
          → contains k string_merge_keys ≡ true
          → response_text k i entry.response_body ≡ stream_pieces k i (objects_of values)
      pub counts :
          (entry.input_tokens ≡ input)
          × (entry.output_tokens ≡ output)
          × (entry.total_tokens ≡ total)
          × (entry.cost ≡ cost)
