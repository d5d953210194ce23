-- ===== src/LogEntry.antt =====
-- logging/models.py: one entry of the log. The time of the entry is set by its constructor and is
-- left out.
use ai_proxy.Common.{ℕ, String, Option, none, some, List, ◌>>=◌}
use ai_proxy.Dict.{Dict}
use ai_proxy.Json.{ℤ, Json, null, arr, obj, JsonObject}

pub record LogEntry : Type 0 where
  pub id : String
  pub client_ip : Option String
  pub client_api_key_hash : Option String
  pub method : String
  pub path : String
  pub request_headers : Option (Dict String)
  pub client_request_headers : Option (Dict String)
  pub request_body : Option JsonObject
  pub request_body_raw : Option String
  pub client_request_body : Option JsonObject
  pub client_request_body_raw : Option String
  pub response_status_code : Option ℕ
  pub response_headers : Option (Dict String)
  pub client_response_headers : Option (Dict String)
  pub response_body : Json
  pub client_response_body : Json
  pub stream_chunks : Option (List Json)
  pub model_requested : Option String
  pub model_resolved : Option String
  pub provider_name : Option String
  pub latency_ms : Option ℕ
  pub ttft_ms : Option ℕ
  pub input_tokens : Option ℤ
  pub output_tokens : Option ℤ
  pub total_tokens : Option ℤ
  pub cost : Option ℕ
  pub cache_status : Option String
  pub reasoning_tokens : Option ℤ
  pub error_message : Option String
  pub metadata : Option JsonObject

-- What an entry takes from the request: the client's address, the method, the path, the headers.
pub record RequestInfo : Type 0 where
  pub host : Option String
  pub method : String
  pub path : String
  pub headers : Dict String

-- The other arguments of `from_proxy_context`.
pub record ProxyContext : Type 0 where
  pub entry_id : String
  pub request : RequestInfo
  pub client_api_key_hash : String
  pub request_headers : Option (Dict String)
  pub request_body : JsonObject
  pub request_body_raw : Option String
  pub client_request_body : Option JsonObject
  pub client_request_body_raw : Option String
  pub model_requested : String
  pub model_resolved : String
  pub provider_name : String
  pub latency_ms : ℕ
  pub ttft_ms : Option ℕ
  pub response_status_code : ℕ
  pub response_headers : Option (Dict String)
  pub client_response_headers : Option (Dict String)
  pub response_body : Json
  pub client_response_body : Json
  pub stream_chunks : Option (List Json)
  pub input_tokens : Option Json
  pub output_tokens : Option Json
  pub total_tokens : Option Json
  pub error_message : Option String

-- A value for a field of the type `dict | list | None`
abbrev pub container : Json → Option Json
container null = some null
container (arr vs) = some (arr vs)
container (obj fs) = some (obj fs)
container _ = none

-- The entry of a context, with the values that were checked.
abbrev pub log_entry : ProxyContext → Json → Json → Option ℤ → Option ℤ → Option ℤ → LogEntry
log_entry c response_body client_response_body input_tokens output_tokens total_tokens = record {
  id = c.entry_id;
  client_ip = c.request.host;
  client_api_key_hash = some c.client_api_key_hash;
  method = c.request.method;
  path = c.request.path;
  request_headers = c.request_headers;
  client_request_headers = some c.request.headers;
  request_body = some c.request_body;
  request_body_raw = c.request_body_raw;
  client_request_body = c.client_request_body;
  client_request_body_raw = c.client_request_body_raw;
  response_status_code = some c.response_status_code;
  response_headers = c.response_headers;
  client_response_headers = c.client_response_headers;
  response_body = response_body;
  client_response_body = client_response_body;
  stream_chunks = c.stream_chunks;
  model_requested = some c.model_requested;
  model_resolved = some c.model_resolved;
  provider_name = some c.provider_name;
  latency_ms = some c.latency_ms;
  ttft_ms = c.ttft_ms;
  input_tokens = input_tokens;
  output_tokens = output_tokens;
  total_tokens = total_tokens;
  cost = none;
  cache_status = none;
  reasoning_tokens = none;
  error_message = c.error_message;
  metadata = none;
}

-- The entry, or `none` where its constructor raises: a body that is a bare number, text or truth
-- value, or a count that is no integer. `validate_int` is what pydantic makes of an `int | None`.
unfoldable pub from_proxy_context :
    (Option Json → Option (Option ℤ)) → ProxyContext → Option LogEntry
from_proxy_context validate_int c = do
  response_body ← container c.response_body
  client_response_body ← container c.client_response_body
  input_tokens ← validate_int c.input_tokens
  output_tokens ← validate_int c.output_tokens
  total_tokens ← validate_int c.total_tokens
  some (log_entry c response_body client_response_body input_tokens output_tokens total_tokens)
