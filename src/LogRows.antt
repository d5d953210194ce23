-- ===== src/LogRows.antt =====
-- The rows that logging/service.py writes: `_write_batch` with the cache of the ids of providers. The
-- columns are those of db/models.py, but for the time, whose entry has none here, and those that the
-- database computes. A table of providers gives the id of a name. The id that the database gives to a
-- new provider is an argument, and so is what a session raises and when.
pub mod Coherent
pub mod Stored
pub mod Stale
use ai_proxy.Common.{
  ℕ, zero, suc, String, Bool, true, false, not, ◌&&◌, Option, none, some, List, [], ◌∷◌, ◌++◌, ◌==◌,
  if◌then◌else◌, contains, is_empty,
}
use ai_proxy.Dict
use ai_proxy.Dict.{Dict}
use ai_proxy.Json.{ℤ, Json, null, JsonObject, object}
use ai_proxy.Config.{ProviderConfig}
use ai_proxy.LogEntry.{LogEntry}
use ai_proxy.Masking.{mask_headers, mask_sensitive_fields}

pub record StoredRequest : Type 0 where
  pub id : String
  pub client_ip : Option String
  pub client_api_key_hash : Option String
  pub method : String
  pub path : String
  pub request_headers : Option (Dict String)
  pub client_request_headers : Option (Dict String)
  pub request_body : Json
  pub request_body_raw : Option String
  pub client_request_body : Json
  pub client_request_body_raw : Option String
  pub response_status_code : Option ℕ
  pub response_headers : Option (Dict String)
  pub client_response_headers : Option (Dict String)
  pub response_body : Json
  pub client_response_body : Json
  pub stream_chunks : Option (List Json)
  pub model_requested : Option String
  pub model_resolved : Option String
  pub provider_id : Option ℕ
  pub latency_ms : Option ℕ
  pub ttft_ms : Option ℕ
  pub input_tokens : Option ℤ
  pub output_tokens : Option ℤ
  pub total_tokens : Option ℤ
  pub cost : Option ℕ
  pub cache_status : Option String
  pub reasoning_tokens : Option ℤ
  pub error_message : Option String
  pub metadata : Option JsonObject

-- `mask_headers(headers) if headers else None`
unfoldable pub headers_or_none : Option (Dict String) → Option (Dict String)
unfolding mask_headers
headers_or_none none = none
headers_or_none (some []) = none
headers_or_none (some (h ∷ headers)) = some (mask_headers (h ∷ headers))

unfoldable pub masked_body : Option JsonObject → Json
masked_body none = null
masked_body (some body) = mask_sensitive_fields (object body)

unfoldable pub db_request : LogEntry → Option ℕ → StoredRequest
unfolding headers_or_none masked_body
db_request entry provider_id = record {
  id = entry.id;
  client_ip = entry.client_ip;
  client_api_key_hash = entry.client_api_key_hash;
  method = entry.method;
  path = entry.path;
  request_headers = headers_or_none entry.request_headers;
  client_request_headers = headers_or_none entry.client_request_headers;
  request_body = masked_body entry.request_body;
  request_body_raw = entry.request_body_raw;
  client_request_body = masked_body entry.client_request_body;
  client_request_body_raw = entry.client_request_body_raw;
  response_status_code = entry.response_status_code;
  response_headers = headers_or_none entry.response_headers;
  client_response_headers = headers_or_none entry.client_response_headers;
  response_body = entry.response_body;
  client_response_body = entry.client_response_body;
  stream_chunks = entry.stream_chunks;
  model_requested = entry.model_requested;
  model_resolved = entry.model_resolved;
  provider_id = provider_id;
  latency_ms = entry.latency_ms;
  ttft_ms = entry.ttft_ms;
  input_tokens = entry.input_tokens;
  output_tokens = entry.output_tokens;
  total_tokens = entry.total_tokens;
  cost = entry.cost;
  cache_status = entry.cache_status;
  reasoning_tokens = entry.reasoning_tokens;
  error_message = entry.error_message;
  metadata = entry.metadata;
}

-- `_provider_id_cache`, and the tables as a session sees them.
pub record Log : Type 0 where
  pub provider_id_cache : Dict (Option ℕ)
  pub providers : Dict ℕ
  pub requests : List StoredRequest

abbrev pub keep_id : Dict (Option ℕ) → String → Option ℕ → Dict (Option ℕ)
keep_id cache name none = cache
keep_id cache name (some id) = Dict.set cache name (some id)

-- `_warm_provider_cache`: the ids of the rows that the table has for the names. The table has one row
-- for a name, so the order of the rows does not matter.
unfoldable pub warm_provider_cache : Dict ℕ → List String → Dict (Option ℕ) → Dict (Option ℕ)
warm_provider_cache providers [] cache = cache
warm_provider_cache providers (name ∷ names) cache =
    warm_provider_cache providers names (keep_id cache name (Dict.get providers name))

-- `needed_names - _provider_id_cache.keys()`
unfoldable pub uncached_names : Dict (Option ℕ) → List LogEntry → List String
uncached_names cache [] = []
uncached_names cache (entry ∷ entries) =
    let rest = uncached_names cache entries in
    elim entry.provider_name [
      | none ↦ rest
      | some name ↦ if Dict.contains cache name then rest else name ∷ rest
    ]

abbrev cached_id : Option (Option ℕ) → Option ℕ
cached_id none = none
cached_id (some id) = id

abbrev pub remember : Log → String → Option ℕ → Log × Option ℕ
remember log name id =
    (record log { provider_id_cache = Dict.set log.provider_id_cache name id }, id)

unfoldable pub warmed : Log → List LogEntry → Log
unfolding warm_provider_cache uncached_names
warmed log entries = record log {
  provider_id_cache =
      warm_provider_cache log.providers (uncached_names log.provider_id_cache entries)
        log.provider_id_cache;
}

abbrev rolled_back : Log → Log → Log
rolled_back before log = record before { provider_id_cache = log.provider_id_cache }

abbrev pub first : ℕ → List LogEntry → List LogEntry
first zero entries = []
first (suc n) [] = []
first (suc n) (entry ∷ entries) = entry ∷ first n entries

-- `configured` has the providers of the configuration, `new_id` the id of a row that is added.
module _ (configured : Dict ProviderConfig) (new_id : Dict ℕ → ℕ) where
  abbrev pub add_provider : Log → String → Option ProviderConfig → Log × Option ℕ
  add_provider log name none = remember log name none
  add_provider log name (some provider_config) =
      let id = new_id log.providers in
      remember (record log { providers = Dict.set log.providers name id }) name (some id)

  abbrev find_provider : Log → String → Option ℕ → Log × Option ℕ
  find_provider log name (some id) = remember log name (some id)
  find_provider log name none = add_provider log name (Dict.get configured name)

  unfoldable pub resolve_provider_id : Log → String → Log × Option ℕ
  resolve_provider_id log name = elim (cached_id (Dict.get log.provider_id_cache name)) [
    | some id ↦ (log, some id)
    | none ↦ find_provider log name (Dict.get log.providers name)
  ]

  -- The id of the provider of an entry.
  unfoldable pub provider_id_of : Log → Option String → Log × Option ℕ
  unfolding resolve_provider_id
  provider_id_of log none = (log, none)
  provider_id_of log (some name) =
      if name == "" then (log, none) else (elim (Dict.get log.provider_id_cache name) [
        | some id ↦ (log, id)
        | none ↦ resolve_provider_id log name
      ])

  unfoldable pub add_request : Log → LogEntry → Log
  unfolding provider_id_of db_request
  add_request log entry =
      let (log', provider_id) = provider_id_of log entry.provider_name in
      record log' { requests = log'.requests ++ db_request entry provider_id ∷ [] }

  unfoldable pub add_requests : Log → List LogEntry → Log
  unfolding add_request
  add_requests log [] = log
  add_requests log (entry ∷ entries) = add_requests (add_request log entry) entries

  -- `_write_batch`, whose session commits, or raises when so many entries were added: the database
  -- takes back what was written, and the cache stays.
  unfoldable pub write_batch : Option ℕ → Log → List LogEntry → Log
  unfolding add_requests warmed
  write_batch none log entries = add_requests (warmed log entries) entries
  write_batch (some added) log entries =
      rolled_back log (add_requests (warmed log entries) (first added entries))
